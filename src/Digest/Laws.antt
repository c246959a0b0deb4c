-- ===== src/Digest/Laws.antt =====
-- A digest is that of the whole content, read in blocks or not, and both programs print it alike.
use file_sync_tool.Base.{
  ℕ, zero, suc, ◌+◌, ◌-◌, ◌*◌, ◌/◌, ◌≡◌, ◌≤◌, ◌<◌, refl, sym, ap, ◌∙◌, false, some, List, [], ◌∷◌,
  ◌++◌, arith, length, length-drop, take, drop, take-append-drop, min, ltb, ◌==◌, if◌then◌else◌,
  All, Bool-cases, inl, inr,
}
use file_sync_tool.Base.Int.{pos}
use file_sync_tool.Base.Text.{Bytes}
use file_sync_tool.Digest.{
  Hash, IsHash, buffer_size, hex_byte, hex_text, stream_digits, fill_two, stream_text, update_last,
  hash_blocks, calculate_md5, calculate_file_md5, hash_range, calculate_partial_md5,
}

stream-hex_byte : (b : ℕ) → b < 256 → fill_two (stream_digits b) ≡ hex_byte b
unfolding hex_byte
stream-hex_byte b h = ground arith

stream-hex_text : (bs : Bytes) → All (λ b. b < 256) bs → stream_text bs ≡ hex_text bs
unfolding stream_text hex_text
stream-hex_text [] h = refl
stream-hex_text (b ∷ bs) h =
    ap (λ x. x ++ stream_text bs) (stream-hex_byte b h.0)
    ∙ ap (λ x. hex_byte b ++ x) (stream-hex_text bs h.1)

length-hex_text : (bs : Bytes) → length (hex_text bs) ≡ 2 * length bs
unfolding hex_text hex_byte
length-hex_text [] = refl
length-hex_text (b ∷ bs) = omega (arith, length-hex_text bs)

-- How many of `size` bytes calculatePartialMD5 takes in, where `there` are left: all of them, or
-- whole blocks only.
abbrev pub taken : ℕ → ℕ → ℕ
taken size there = if ltb there size then there / buffer_size * buffer_size else size

taken_step :
    (remaining there : ℕ)
    → (remaining == 0) ≡ false
    → ltb there (min buffer_size remaining) ≡ false
    → taken remaining there
      ≡ min buffer_size remaining
        + taken (remaining - min buffer_size remaining) (there - min buffer_size remaining)
taken_step remaining there h k = ground arith

take-add :
    {A : Type 0} (m n k : ℕ) (xs : List A) → k ≡ m + n → take m xs ++ take n (drop m xs) ≡ take k xs
take-add zero n k xs h = let e : n ≡ k = omega arith in ap (λ i. take i xs) e
take-add (suc m) n zero xs h = absurd (omega arith)
take-add (suc m) zero (suc k) [] h = refl
take-add (suc m) (suc n) (suc k) [] h = refl
take-add (suc m) n (suc k) (x ∷ xs) h = ap (λ ys. x ∷ ys) (take-add m n k xs (omega arith))

module _ (H : Hash) (I : IsHash H) where
  -- The digest of a content in one update.
  abbrev pub digest : Bytes → Bytes
  digest bs = hex_text (H.final (H.update H.init bs))

  update_last-eq : (c : H.Context) (bs : Bytes) → update_last H c bs ≡ H.update c bs
  update_last-eq c [] = sym (I.update_nil c)
  update_last-eq c (b ∷ bs) = refl

  hash_blocks-eq : (fuel : ℕ) (c : H.Context) (bs : Bytes) → hash_blocks H fuel c bs ≡ H.update c bs
  unfolding hash_blocks
  hash_blocks-eq zero c bs = update_last-eq c bs
  hash_blocks-eq (suc fuel) c bs = elim (Bool-cases (ltb (length bs) buffer_size)) [
    | inl last ↦ rw last (update_last-eq c bs)
    | inr more ↦ rw more (
        hash_blocks-eq fuel (H.update c (take buffer_size bs)) (drop buffer_size bs)
        ∙ I.update-append c (take buffer_size bs) (drop buffer_size bs)
        ∙ ap (H.update c) (take-append-drop buffer_size bs))
  ]

  -- calculateMD5 of a file that opens is the hexadecimal digest of its whole content in 32
  -- characters, whatever the number of blocks, and so is RpcServer::calculateFileMD5.
  pub calculate_md5-digest :
      (bs : Bytes)
      → (calculate_md5 H (some bs) ≡ digest bs)
        × (calculate_file_md5 H (some bs) ≡ digest bs)
        × (length (calculate_md5 H (some bs)) ≡ 32)
  unfolding calculate_md5 calculate_file_md5
  calculate_md5-digest bs =
      let same = ap H.final (hash_blocks-eq (length bs) H.init bs) in
      let whole = H.final (hash_blocks H (length bs) H.init bs) in
      (
        ap hex_text same,
        stream-hex_text whole (I.final_bytes _) ∙ ap hex_text same,
        omega (arith, length-hex_text whole, I.final_length (hash_blocks H (length bs) H.init bs)),
      )

  hash_range-eq :
      (fuel : ℕ) (c : H.Context) (remaining : ℕ) (bs : Bytes)
      → remaining ≤ fuel
      → hash_range H fuel c remaining bs ≡ H.update c (take (taken remaining (length bs)) bs)
  unfolding hash_range
  hash_range-eq zero c remaining bs h =
      let none_ : taken remaining (length bs) ≡ 0 = ground arith in rw none_ (sym (I.update_nil c))
  hash_range-eq (suc fuel) c remaining bs h =
      let size : ℕ = min buffer_size remaining in
      let more : H.Context =
        hash_range H fuel (H.update c (take size bs)) (remaining - size) (drop size bs) in
      elim (Bool-cases (remaining == 0)) [
        | inl done ↦
            let none_ : taken remaining (length bs) ≡ 0 = ground arith in
            ap (λ b. if b then c else if ltb (length bs) size then c else more) done
            ∙ rw none_ (sym (I.update_nil c))
        | inr some_ ↦
            ap (λ b. if b then c else if ltb (length bs) size then c else more) some_
            ∙ elim (Bool-cases (ltb (length bs) size)) [
              | inl short ↦
                  let none_ : taken remaining (length bs) ≡ 0 = ground arith in
                  ap (λ b. if b then c else more) short ∙ rw none_ (sym (I.update_nil c))
              | inr enough ↦
                  let split : taken remaining (length bs)
                      ≡ size + taken (remaining - size) (length bs - size) =
                    taken_step remaining (length bs) some_ enough in
                  let cut = length-drop size bs in
                  ap (λ b. if b then c else more) enough
                  ∙ hash_range-eq fuel (H.update c (take size bs)) (remaining - size) (drop size bs)
                      (ground arith)
                  ∙ I.update-append c (take size bs) _
                  ∙ ap
                      (λ n.
                        H.update c
                          (take size bs ++ take (taken (remaining - size) n) (drop size bs)))
                      cut
                  ∙ ap (H.update c) (
                      take-add size (taken (remaining - size) (length bs - size))
                        (taken remaining (length bs)) bs split)
            ]
      ]

  -- calculatePartialMD5 from an offset digests exactly the asked range where the file has it; where
  -- the file ends before, it digests only the whole blocks of 4096 bytes that it has, and drops the
  -- bytes after them.
  pub calculate_partial_md5-digest :
      (bs : Bytes) (offset size : ℕ)
      → calculate_partial_md5 H (some bs) (pos offset) size
        ≡ digest (take (taken size (length bs - offset)) (drop offset bs))
  unfolding calculate_partial_md5
  calculate_partial_md5-digest bs offset size =
      ap (λ c. hex_text (H.final c))
        (hash_range-eq size H.init size (drop offset bs) (omega arith)
          ∙ ap (λ n. H.update H.init (take (taken size n) (drop offset bs)))
              (length-drop offset bs))
