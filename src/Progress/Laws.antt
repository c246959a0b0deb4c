-- ===== src/Progress/Laws.antt =====
-- What loadProgress finds of what saveProgress wrote.
use file_sync_tool.Base.{
  ℕ, ◌^◌, ◌<◌, ◌≡◌, refl, sym, ap, ◌∙◌, subst, true, false, none, some, [], ◌∷◌, ◌++◌, arith,
  lt→ltb, inl, inr, Bool-cases, Option-cases,
}
use file_sync_tool.Base.Int.{pos}
use file_sync_tool.Base.Text.{Bytes, bytes_eq, bytes_eq_iff, bytes_eq_refl}
use file_sync_tool.Base.Decimal.{print, scan, scan-print, print-digit, is_digit}
use file_sync_tool.Disk.{Disk, IsLawful}
use file_sync_tool.Progress.{
  SyncProgress, resumable, progress_path, progress_text, is_space, skip_space, read_token,
  read_word, signed, read_digits, read_sign, read_off, parse_progress, save_progress, load_progress,
}

abbrev pub HasNoSpace : Bytes → Type 0
HasNoSpace [] = Unit {0}
HasNoSpace (c ∷ cs) = (is_space c ≡ false) × HasNoSpace cs

read_token-word :
    (word rest : Bytes) → HasNoSpace word → read_token (word ++ 10 ∷ rest) ≡ (word, 10 ∷ rest)
unfolding read_token
read_token-word [] rest h = refl
read_token-word (c ∷ cs) rest h = ground (arith, read_token-word cs rest h.1, h.0)

read_word-line :
    (c : ℕ) (cs rest : Bytes)
    → HasNoSpace (c ∷ cs)
    → read_word (c ∷ cs ++ 10 ∷ rest) ≡ (c ∷ cs, 10 ∷ rest)
unfolding read_word
read_word-line c cs rest h = rw (h.0) (read_token-word (c ∷ cs) rest h)

read_sign-digit :
    (d : ℕ) (ds : Bytes) → is_digit d ≡ true → read_sign (d ∷ ds) ≡ signed false (scan 0 (d ∷ ds))
unfolding read_sign read_digits
read_sign-digit d ds h = ground (arith, h)

skip_space-digit : (d : ℕ) (ds : Bytes) → is_digit d ≡ true → skip_space (10 ∷ (d ∷ ds)) ≡ d ∷ ds
unfolding skip_space
skip_space-digit d ds h = ground (arith, h)

read_off-line :
    (n : ℕ) (rest : Bytes)
    → n < 2 ^ 63
    → read_off (some (10 ∷ (print n ++ 10 ∷ rest))) ≡ (pos n, some (10 ∷ rest))
unfolding read_off
read_off-line n rest h =
    let (d, ds, e, digit) = print-digit n in
    ap (λ bs. read_sign (skip_space (10 ∷ (bs ++ 10 ∷ rest)))) e
    ∙ ap read_sign (skip_space-digit d (ds ++ 10 ∷ rest) digit)
    ∙ read_sign-digit d (ds ++ 10 ∷ rest) digit
    ∙ ap (λ bs. signed false (scan 0 (bs ++ 10 ∷ rest))) (sym e)
    ∙ ap (signed false) (scan-print n 10 rest refl)
    ∙ rw (lt→ltb n (2 ^ 63) h)

abbrev pub recorded : Bytes → ℕ → ℕ → SyncProgress
recorded path offset total = record {
  file_path = path;
  offset = pos offset;
  total_size = pos total;
}

-- The three lines of a progress file parse back to the path and the two numbers, for a path
-- without white space and numbers below 2^63.
pub parse_progress-text :
    (c : ℕ) (cs : Bytes) (offset total : ℕ)
    → HasNoSpace (c ∷ cs)
    → offset < 2 ^ 63
    → total < 2 ^ 63
    → parse_progress (c ∷ cs) (progress_text (c ∷ cs) offset total) ≡ recorded (c ∷ cs) offset total
unfolding parse_progress progress_text
parse_progress-text c cs offset total h ho ht = rw (
  read_word-line c cs (print offset ++ 10 ∷ (print total ++ 10 ∷ [])) h,
  read_off-line offset (print total ++ 10 ∷ []) ho,
  read_off-line total [] ht,
  bytes_eq_refl (c ∷ cs),
)

read_token-HasNoSpace : (bs : Bytes) → HasNoSpace (read_token bs).0
unfolding read_token
read_token-HasNoSpace [] = tt
read_token-HasNoSpace (c ∷ cs) = elim (Bool-cases (is_space c)) [
  | inl space ↦ rw space tt
  | inr plain ↦ rw plain (plain, read_token-HasNoSpace cs)
]

-- Whatever its progress file holds, a path that loadProgress lets resume has no white space in it.
pub resumable-HasNoSpace :
    (path text : Bytes) → resumable (parse_progress path text) ≡ true → HasNoSpace path
unfolding parse_progress resumable
resumable-HasNoSpace path text h =
    let same : bytes_eq (read_word text).0 path ≡ true = ground (arith, h) in
    subst HasNoSpace ((bytes_eq_iff (read_word text).0 path).0 same)
      (unfold read_word in read_token-HasNoSpace (skip_space text))

module _ (D : Disk) (s : D.State) (path : Bytes) where
  save_progress-some :
      (offset total : ℕ) {t : D.State}
      → D.open_trunc s (progress_path path) ≡ some t
      → save_progress D s path offset total
        ≡ D.append t (progress_path path) (progress_text path offset total)
  unfolding save_progress
  save_progress-some offset total h = ground (arith, h)

  save_progress-none :
      (offset total : ℕ)
      → D.open_trunc s (progress_path path) ≡ none
      → save_progress D s path offset total ≡ s
  unfolding save_progress
  save_progress-none offset total h = ground (arith, h)

  load_progress-some :
      {text : Bytes}
      → D.open_read s (progress_path path) ≡ some text
      → load_progress D s path ≡ parse_progress path text
  unfolding load_progress
  load_progress-some h = ground (arith, h)

module _ (D : Disk) (L : IsLawful D) where
  -- Saving progress leaves every other file as it reads.
  pub save_progress_frame :
      (s : D.State) (path : Bytes) (offset total : ℕ) (q : Bytes)
      → bytes_eq (progress_path path) q ≡ false
      → (D.open_read (save_progress D s path offset total) q ≡ D.open_read s q)
        × (D.stat (save_progress D s path offset total) q ≡ D.stat s q)
  save_progress_frame s path offset total q off =
      elim (Option-cases (D.open_trunc s (progress_path path))) [
        | inl shut ↦
            let same : save_progress D s path offset total ≡ s =
              save_progress-none D s path offset total shut in
            (ap (λ u. D.open_read u q) same, ap (λ u. D.stat u q) same)
        | inr (t, opened) ↦
            let file : Bytes = progress_path path in
            let text : Bytes = progress_text path offset total in
            let same : save_progress D s path offset total ≡ D.append t file text =
              save_progress-some D s path offset total opened in
            (
              ap (λ u. D.open_read u q) same
                  ∙ L.open_read-append_ne t file q text off
                  ∙ L.open_read-open_trunc_ne s file q opened off,
              ap (λ u. D.stat u q) same
                  ∙ L.stat-append_ne t file q text off
                  ∙ L.stat-open_trunc_ne s file q opened off,
            )
      ]

  -- What saveProgress wrote, loadProgress reads back, for a path without white space, numbers
  -- below 2^63, and a progress file that could be opened for both.
  pub load-save :
      (s : D.State) (c : ℕ) (cs : Bytes) (offset total : ℕ) {t : D.State} {text : Bytes}
      → HasNoSpace (c ∷ cs)
      → offset < 2 ^ 63
      → total < 2 ^ 63
      → D.open_trunc s (progress_path (c ∷ cs)) ≡ some t
      → D.open_read (save_progress D s (c ∷ cs) offset total) (progress_path (c ∷ cs)) ≡ some text
      → load_progress D (save_progress D s (c ∷ cs) offset total) (c ∷ cs)
        ≡ recorded (c ∷ cs) offset total
  load-save s c cs offset total {t} {text} h ho ht opened readable =
      let path : Bytes = c ∷ cs in
      let file : Bytes = progress_path path in
      let empty : D.content t file ≡ some [] =
        L.content-open_trunc s file file opened ∙ rw (bytes_eq_refl file) in
      let saved : save_progress D s path offset total
          ≡ D.append t file (progress_text path offset total) =
        save_progress-some D s path offset total opened in
      let stored : D.content (save_progress D s path offset total) file
          ≡ some (progress_text path offset total) =
        rw saved (
          L.content-append t file file (progress_text path offset total) empty
          ∙ rw (bytes_eq_refl file)) in
      let same : some text ≡ some (progress_text path offset total) =
        sym (L.open_read-content _ file readable) ∙ stored in
      load_progress-some D _ path readable
      ∙ ap (parse_progress path) (cc same)
      ∙ parse_progress-text c cs offset total h ho ht
