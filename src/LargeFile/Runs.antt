-- ===== src/LargeFile/Runs.antt =====
-- The chunks together: what a run that reports success leaves, and that the chunks cover the file.
use file_sync_tool.Base.{
  In, In-All, All-In, ℕ, zero, suc, ◌+◌, ◌-◌, ◌*◌, ◌≤◌, ◌<◌, ◌≡◌, ◌⊎◌, inl, inr, refl, sym, ap, ◌∙◌,
  subst, min, Bool, true, false, ◌&&◌, Option, none, some, List, [], ◌∷◌, arith, length,
  length-drop, length-take, length-replicate, take, drop, replicate, take-append, ◌==◌, ==_iff,
  if◌then◌else◌, Bool-cases, All, ltb, ltb→lt, lt→ltb, ◌/◌, ◌%◌,
}
use native.Mathlib.Nat.{mod-eq_of_lt}
use file_sync_tool.Base.Int.{pos, negsuc, pos_part}
use file_sync_tool.Base.Text.{Bytes}
use file_sync_tool.Wire.{of_word, two32}
use file_sync_tool.Sending.{WriteEvent}
use file_sync_tool.LargeFile.{
  chunk_size, write_at, robust_pread, Copying, Chunk, store, read_whole, transfer_chunk,
  after_chunk, run_chunk, run_chunks, chunks, chunk_count, all_chunks, copy_chunks,
}
use file_sync_tool.LargeFile.Laws.{
  robust_pread-PartOf, length-write_at, robust_pwrite-all, at, at-ext, patched,
}

at-none : (xs : Bytes) (i : ℕ) → length xs ≤ i → at xs i ≡ none
at-none [] i h = refl
at-none (x ∷ xs) zero h = absurd (omega arith)
at-none (x ∷ xs) (suc i) h = at-none xs i (omega arith)

-- 2^31 - 1 chunks
abbrev pub most_bytes : ℕ
most_bytes = 2147483647 * chunk_size

module _ (src : Bytes) where
  abbrev Inside : Chunk → Type 0
  Inside c = c.0 + c.1 ≤ length src

  abbrev Written : Chunk → Copying → Bool × Copying → Type 0
  Written (o, size) s r = r.1.dest ≡ write_at o (take size (drop o src)) s.dest

  whole_range :
      (o size : ℕ) (got : Bytes) (es : List WriteEvent)
      → (robust_pread es size (drop o src)).0 ≡ some got
      → length got ≡ size
      → got ≡ take size (drop o src)
  whole_range o size got es e k =
      let (rest, split) = robust_pread-PartOf es size (drop o src) e in
      sym (ap (take size) split ∙ take-append size got rest (sym k))

  store-Written :
      (o : ℕ) (bs : Bytes) (s : Copying)
      → o + length bs ≤ length s.dest
      → (store o bs s).0 ≡ true
      → (store o bs s).1.dest ≡ write_at o bs s.dest
  store-Written o bs s h e = robust_pwrite-all s.writes o bs s.dest h e

  if-Written :
      (c : Chunk) (s : Copying) (b : Bool) (x y : Bool × Copying)
      → (b ≡ true → x.0 ≡ true → Written c s x)
      → (b ≡ false → y.0 ≡ true → Written c s y)
      → (if b then x else y).0 ≡ true
      → Written c s (if b then x else y)
  if-Written c s true x y h k e = h refl e
  if-Written c s false x y h k e = k refl e

  read_whole-Written :
      (o size : ℕ) (r : Option Bytes × List WriteEvent) (s : Copying)
      → o + size ≤ length s.dest
      → ((got : Bytes) → r.0 ≡ some got → length got ≡ size → got ≡ take size (drop o src))
      → (read_whole (o, size) r s).0 ≡ true
      → Written (o, size) s (read_whole (o, size) r s)
  read_whole-Written o size (none, es) s h k e = cc
  read_whole-Written o size (some bs, es) s h k e =
      let s0 : Copying = record s { reads = es } in
      if-Written (o, size) s (length bs == size) (store o bs s0) (false, s0)
        (λ full good.
          let n : length bs ≡ size = (==_iff (length bs) size).0 full in
          store-Written o bs s0 (omega arith) good ∙ ap (λ x. write_at o x s.dest) (k bs refl n))
        (λ _ bad. cc) e

  after_chunk-Written :
      (c : Chunk) (s : Copying) (r : Bool × Copying)
      → (r.0 ≡ true → Written c s r)
      → (after_chunk src c.1 r).0 ≡ true
      → Written c s (after_chunk src c.1 r)
  after_chunk-Written c s (false, t) k e = cc
  after_chunk-Written c s (true, t) k e = k refl

  run_chunk-Written :
      (c : Chunk) (s : Copying)
      → c.0 + c.1 ≤ length s.dest
      → (run_chunk src c s).0 ≡ true
      → Written c s (run_chunk src c s)
  unfolding run_chunk transfer_chunk
  run_chunk-Written (o, size) s h e =
      let r = robust_pread s.reads size (drop o src) in
      if-Written (o, size) s s.has_error (false, s)
        (after_chunk src size (read_whole (o, size) r s)) (λ _ bad. cc)
        (λ _ good.
          after_chunk-Written (o, size) s (read_whole (o, size) r s)
            (read_whole-Written o size r s h (λ got q. whole_range o size got s.reads q)) good)
        e

  abbrev Reached : ℕ → List Chunk → Type 0
  Reached i cs = (c : Chunk) × In c cs × (c.0 ≤ i) × (i < c.0 + c.1)

  and-true : (a b : Bool) → (a && b) ≡ true → (a ≡ true) × (b ≡ true)
  and-true true b h = (refl, h)
  and-true false b h = cc

  abbrev Agrees : ℕ → Copying → Type 0
  Agrees i s = at s.dest i ≡ at src i

  narrowed :
      {A B : Type 0} (o size : ℕ) (cs : List Chunk) (i : ℕ)
      → Reached i ((o, size) ∷ cs) ⊎ A
      → (((o ≤ i) × (i < o + size)) ⊎ A → B)
      → Reached i cs ⊎ B
  narrowed o size cs i (inl (c, inl same, lo, hi)) f =
      inr (f (inl (subst (λ (d : Chunk). (d.0 ≤ i) × (i < d.0 + d.1)) (sym same) (lo, hi))))
  narrowed o size cs i (inl (c, inr there, lo, hi)) f = inl (c, there, lo, hi)
  narrowed o size cs i (inr a) f = inr (f (inr a))

  -- A run that succeeds has brought every byte that a chunk reaches into agreement.
  run_chunks-Agrees :
      (cs : List Chunk) (s : Copying) (i : ℕ)
      → All Inside cs
      → length s.dest ≡ length src
      → (run_chunks src cs s).0 ≡ true
      → Reached i cs ⊎ Agrees i s
      → (length (run_chunks src cs s).1.dest ≡ length src) × Agrees i (run_chunks src cs s).1
  unfolding run_chunks
  run_chunks-Agrees [] s i h n e (inl (c, none_, lo, hi)) = absurd none_
  run_chunks-Agrees [] s i h n e (inr same) = (n, same)
  run_chunks-Agrees ((o, size) ∷ cs) s i h n e c =
      let t : Copying = (run_chunk src (o, size) s).1 in
      let (good, more) = and-true (run_chunk src (o, size) s).0 (run_chunks src cs t).0 e in
      let w = run_chunk-Written (o, size) s (omega (arith, h.0)) good in
      let cut : length (take size (drop o src)) ≡ size =
        omega (arith, length-take size (drop o src), length-drop o src, h.0) in
      let n' : length t.dest ≡ length src =
        ap length w ∙ length-write_at o (take size (drop o src)) s.dest (omega (arith, h.0)) ∙ n in
      let step : (((o ≤ i) × (i < o + size)) ⊎ Agrees i s) → Agrees i t =
        λ d. ap (λ x. at x i) w ∙ patched o size src s.dest i n h.0 d in
      run_chunks-Agrees cs t i h.1 n' more (narrowed o size cs i c step)

  -- The chunks of the loop reach every byte from the offset on.
  chunks-Reached :
      (count offset size i : ℕ)
      → size ≤ offset + count * chunk_size
      → offset ≤ i
      → i < size
      → Reached i (chunks count offset size)
  unfolding chunks
  chunks-Reached zero offset size i h lo hi = absurd (omega arith)
  chunks-Reached (suc count) offset size i h lo hi =
      elim (Bool-cases (ltb i (offset + chunk_size))) [
        | inl near ↦
            let p : i < offset + chunk_size = ltb→lt i (offset + chunk_size) near in
            ((offset, min chunk_size (size - offset)), inl refl, lo, omega arith)
        | inr far ↦
            let p : offset + chunk_size ≤ i = ground arith in
            let (c, there, a, b) =
              chunks-Reached count (offset + chunk_size) size i (omega arith) p hi in
            (c, inr there, a, b)
      ]

  chunks-Inside :
      (count offset : ℕ)
      → offset + count * chunk_size < length src + chunk_size
      → All Inside (chunks count offset (length src))
  unfolding chunks
  chunks-Inside zero offset h = tt
  chunks-Inside (suc count) offset h =
      (omega arith, chunks-Inside count (offset + chunk_size) (omega arith))

  -- The length in chunks, which numChunks holds.
  chunk_count-small :
      length src ≤ most_bytes
      → pos_part (chunk_count 0 (length src)) ≡ (length src + (chunk_size - 1)) / chunk_size
  unfolding chunk_count of_word
  chunk_count-small h =
      let n : ℕ = (length src + (chunk_size - 1)) / chunk_size in
      let below : n + n < two32 = omega arith in
      let from : length src - 0 ≡ length src = omega arith in
      let e : n % two32 ≡ n = mod-eq_of_lt (omega arith) in
      let twice : ltb (n + n) two32 ≡ true = lt→ltb (n + n) two32 below in
      ap (λ k. pos_part (of_word two32 ((k + (chunk_size - 1)) / chunk_size % two32))) from
      ∙ ap (λ k. pos_part (of_word two32 k)) e
      ∙ ap (λ b. pos_part (if b then pos n else negsuc (two32 - 1 - n))) twice

  abbrev pub the_chunks : List Chunk
  the_chunks = all_chunks (length src)

  -- An order in which all the chunks run, and no others.
  pub record Reorders (order : List Chunk → List Chunk) : Type 0 where
    pub keeps : (c : Chunk) → In c the_chunks → In c (order the_chunks)
    pub adds : (c : Chunk) → In c (order the_chunks) → In c the_chunks

  pub ordered-Inside :
      (order : List Chunk → List Chunk)
      → length src ≤ most_bytes
      → Reorders order
      → All (λ (c : Chunk). c.0 + c.1 ≤ length src) (order the_chunks)
  ordered-Inside order small r =
      let inside =
        chunks-Inside (pos_part (chunk_count 0 (length src))) 0
          (omega (arith, chunk_count-small small)) in
      All-In Inside (order the_chunks) (λ c there. In-All Inside the_chunks inside (r.adds c there))

  -- A run of all the chunks that reports success leaves exactly the bytes of the source, in
  -- whatever order they ran, however many bytes each call moved, and wherever calls were
  -- interrupted.
  pub copy_chunks-whole :
      (order : List Chunk → List Chunk) (reads writes : List WriteEvent)
      → length src ≤ most_bytes
      → Reorders order
      → (copy_chunks src (length src) order reads writes).0 ≡ true
      → (copy_chunks src (length src) order reads writes).1.dest ≡ src
  unfolding copy_chunks
  copy_chunks-whole order reads writes small r e =
      let n : ℕ = length src in
      let s : Copying = record {
        dest = replicate n 0;
        reads = reads;
        writes = writes;
        has_error = false;
        transferred = 0;
      } in
      let filled : length s.dest ≡ n = length-replicate n 0 in
      let inside' = ordered-Inside order small r in
      let all : (i : ℕ) → (i < n) → Reached i (order the_chunks) = λ i p.
        let (c, there, lo, hi) =
          chunks-Reached (pos_part (chunk_count 0 n)) 0 n i (omega (arith, chunk_count-small small))
            (omega arith) p in
        (c, r.keeps c there, lo, hi) in
      let done : (i : ℕ) → (i < n) → at (run_chunks src (order the_chunks) s).1.dest i ≡ at src i =
        λ i p.
          (run_chunks-Agrees (order the_chunks) s i inside' (length-replicate n 0) e
            (inl (all i p))).1 in
      at-ext (run_chunks src (order the_chunks) s).1.dest src
        (run_chunks-Agrees (order the_chunks) s n inside' (length-replicate n 0) e
          (inr (at-none s.dest n (omega (arith, filled)) ∙ sym (at-none src n (omega arith))))).0
        done
