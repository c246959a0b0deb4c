-- ===== src/Local/Transfer.antt =====
-- What transferFile leaves in the destination, and what resuming after a rename does.
use file_sync_tool.Base.{
  ℕ, zero, suc, ◌+◌, ◌≤◌, ◌≡◌, refl, sym, ap, ◌∙◌, subst, Bool, if◌then◌else◌, true, false, some,
  [], ◌∷◌, ◌++◌, arith, length, take, drop, List, append_assoc, append-nil, take-append-drop,
  length-drop, length-append, ltb, Bool-cases, inl, inr, Option-cases,
}
use file_sync_tool.Base.Text.{Bytes, codes, bytes_eq, bytes_eq_iff, bytes_eq_refl}
use file_sync_tool.Sending.{write_loop}
use file_sync_tool.Sending.Laws.{NeverFails, write_loop-all, write_loop-NeverFails}
use file_sync_tool.Disk.{Disk, IsLawful, or_empty}
use file_sync_tool.Progress.{progress_path, progress_text, save_progress, clear_progress}
use file_sync_tool.Local.{
  Local, on_disk, block_size, write_block, write_last, after_block, rest_of, copy_blocks, end_copy,
  copy_opened, open_output, transfer_file,
}

drop_nil : {A : Type 0} (n : ℕ) → drop {A = A} n [] ≡ []
drop_nil zero = refl
drop_nil (suc n) = refl

drop-add : {A : Type 0} (a b : ℕ) (xs : List A) → drop (a + b) xs ≡ drop b (drop a xs)
drop-add zero b xs = let e : 0 + b ≡ b = omega arith in ap (λ n. drop n xs) e
drop-add (suc a) b [] = drop_nil (suc a + b) ∙ sym (drop_nil b)
drop-add (suc a) b (x ∷ xs) =
    let e : suc a + b ≡ suc (a + b) = omega arith in ap (λ n. drop n (x ∷ xs)) e ∙ drop-add a b xs

pub progress_path-ne : (path : Bytes) → bytes_eq (progress_path path) path ≡ false
unfolding progress_path
progress_path-ne path = elim (Bool-cases (bytes_eq (progress_path path) path)) [
  | inr other ↦ other
  | inl equal ↦
      let same : progress_path path ≡ path = (bytes_eq_iff (progress_path path) path).0 equal in
      absurd (omega (arith, ap length same, length-append path (codes ".sync_progress")))
]

module _ (D : Disk) (L : IsLawful D) where
  save_progress-content :
      (s : D.State) (path : Bytes) (offset total : ℕ) (q : Bytes)
      → bytes_eq (progress_path path) q ≡ false
      → D.content (save_progress D s path offset total) q ≡ D.content s q
  unfolding save_progress
  save_progress-content s path offset total q off =
      let file : Bytes = progress_path path in
      elim (Option-cases (D.open_trunc s file)) [
        | inl shut ↦ rw (shut, save_progress) refl
        | inr (t, opened) ↦
            let empty : D.content t file ≡ some [] =
              L.content-open_trunc s file file opened ∙ rw (bytes_eq_refl file) in
            rw (opened, save_progress)
              (L.content-append t file q (progress_text path offset total) empty
                ∙ (rw off (L.content-open_trunc s file q opened ∙ rw off)))
      ]

  pub clear_progress-content :
      (s : D.State) (path q : Bytes)
      → bytes_eq (progress_path path) q ≡ false
      → D.content (clear_progress D s path) q ≡ D.content s q
  unfolding clear_progress
  clear_progress-content s path q off = L.content-remove s (progress_path path) q ∙ rw off

  -- The destination holds `new`, and nothing but it and its progress file has changed.
  pub record Copied (path new : Bytes) (s s' : Local D) : Type 0 where
    pub file : D.content s'.disk path ≡ some new
    pub others :
        (q : Bytes)
        → bytes_eq path q ≡ false
        → bytes_eq (progress_path path) q ≡ false
        → D.content s'.disk q ≡ D.content s.disk q
    pub writable : NeverFails s'.writes

  Copied-trans :
      {mid new : Bytes} {s s' : Local D} (path : Bytes) (t : Local D)
      → Copied path mid s t
      → Copied path new t s'
      → Copied path new s s'
  Copied-trans path t h k = record {
    file = k.file;
    others = λ q a b. k.others q a b ∙ h.others q a b;
    writable = k.writable;
  }

  -- Progress kept or removed touches no destination.
  on_disk-Copied :
      (path old : Bytes) (f : D.State → D.State) (s : Local D)
      → ((q : Bytes)
          → bytes_eq (progress_path path) q ≡ false
          → D.content (f s.disk) q ≡ D.content s.disk q)
      → D.content s.disk path ≡ some old
      → NeverFails s.writes
      → Copied path old s (on_disk D f s)
  on_disk-Copied path old f s same holds k = record {
    file = same path (progress_path-ne path) ∙ holds;
    others = λ q _ b. same q b;
    writable = k;
  }

  abbrev Writes : Bytes → Bytes → Bytes → Local D → Type 0
  Writes path old bs s =
      (s' : Local D) × (write_block D path bs s ≡ (true, s')) × Copied path (old ++ bs) s s'

  write_block-Copied :
      (path old bs : Bytes) (s : Local D)
      → D.content s.disk path ≡ some old
      → NeverFails s.writes
      → Writes path old bs s
  unfolding write_block
  write_block-Copied path old bs s holds k =
      let (all, more) = write_loop-NeverFails s.writes bs k in
      let done : (write_loop s.writes bs).0 ≡ bs = write_loop-all s.writes bs all in
      (
        record { disk = D.append s.disk path bs; writes = (write_loop s.writes bs).2 },
        rw (all, done),
        record {
          file = L.content-append s.disk path path bs holds ∙ rw (bytes_eq_refl path);
          others = λ q a _. L.content-append s.disk path q bs holds ∙ rw a;
          writable = more;
        },
      )

  -- A source that the transfer does not touch, and its bytes.
  record Source (src path bytes : Bytes) (t : D.State) : Type 0 where
    holds : D.content t src ≡ some bytes
    apart : bytes_eq path src ≡ false
    no_progress : bytes_eq (progress_path path) src ≡ false

  Source-Copied :
      {src path bytes new : Bytes} {s s' : Local D}
      → Source src path bytes s.disk
      → Copied path new s s'
      → Source src path bytes s'.disk
  Source-Copied {src} f c = record {
    holds = c.others src f.apart f.no_progress ∙ f.holds;
    apart = f.apart;
    no_progress = f.no_progress;
  }

  abbrev Copies : ℕ → Bytes → Bytes → ℕ → ℕ → Bytes → Bytes → Local D → Type 0
  Copies fuel src path transferred total old bs s =
      (s' : Local D) × (copy_blocks D fuel src path transferred total s ≡ (true, s'))
      × Copied path (old ++ bs) s s'

  write_last-Copied :
      (path old bs : Bytes) (s : Local D)
      → D.content s.disk path ≡ some old
      → NeverFails s.writes
      → Copied path (old ++ bs) s (write_last D path bs s)
  unfolding write_last
  write_last-Copied path old [] s holds k = record {
    file = holds ∙ ap some (sym (append-nil old));
    others = λ q _ _. refl;
    writable = k;
  }
  write_last-Copied path old (b ∷ bs) s holds k =
      let (s', run, c) = write_block-Copied path old (b ∷ bs) s holds k in
      subst (Copied path (old ++ (b ∷ bs)) s) (ap (λ r. r.1) (sym run)) c

  copy_blocks-Copied :
      (fuel : ℕ) (src path : Bytes) (transferred total : ℕ) (bytes old bs : Bytes) (s : Local D)
      → drop transferred bytes ≡ bs
      → length bs ≤ fuel
      → Source src path bytes s.disk
      → D.content s.disk path ≡ some old
      → NeverFails s.writes
      → Copies fuel src path transferred total old bs s
  unfolding copy_blocks
  copy_blocks-Copied zero src path transferred total bytes old bs s e h f holds k =
      let found : rest_of D src transferred s.disk ≡ bs =
        ap (λ o. drop transferred (or_empty o)) f.holds ∙ e in
      (
        write_last D path bs s,
        ap (λ x. (true, write_last D path x s)) found,
        write_last-Copied path old bs s holds k,
      )
  copy_blocks-Copied (suc fuel) src path transferred total bytes old bs s e h f holds k =
      let found : rest_of D src transferred s.disk ≡ bs =
        ap (λ o. drop transferred (or_empty o)) f.holds ∙ e in
      let next : ℕ = transferred + block_size in
      let round : Bytes → Bool × Local D = λ x.
        if ltb (length x) block_size
        then (true, write_last D path x s)
        else after_block D path transferred block_size total
            (write_block D path (take block_size x) s) (copy_blocks D fuel src path next total) in
      elim (Bool-cases (ltb (length bs) block_size)) [
        | inl last ↦ (
          write_last D path bs s,
          ap round found ∙ (rw last refl),
          write_last-Copied path old bs s holds k,
        )
        | inr more ↦
            let (s1, run1, c1) = write_block-Copied path old (take block_size bs) s holds k in
            let s2 : Local D = on_disk D (λ t. save_progress D t path next total) s1 in
            let c2 =
              on_disk-Copied path (old ++ take block_size bs)
                (λ t. save_progress D t path next total) s1
                (λ q. save_progress-content s1.disk path next total q) c1.file c1.writable in
            let shorter : length (drop block_size bs) ≤ fuel =
              let cut = length-drop block_size bs in ground arith in
            let (s3, run3, c3) =
              copy_blocks-Copied fuel src path next total bytes (old ++ take block_size bs)
                (drop block_size bs) s2
                (drop-add transferred block_size bytes ∙ ap (drop block_size) e) shorter
                (Source-Copied (Source-Copied f c1) c2) c2.file c2.writable in
            (
              s3,
              ap round found
                  ∙ (rw more (
                      ap
                        (λ r.
                          after_block D path transferred block_size total r
                            (copy_blocks D fuel src path next total))
                        run1
                      ∙ run3)),
              subst (λ new. Copied path new s s3)
                  (append_assoc old (take block_size bs) (drop block_size bs)
                    ∙ ap (λ x. old ++ x) (take-append-drop block_size bs))
                  (Copied-trans path s1 c1 (Copied-trans path s2 c2 c3)),
            )
      ]

  abbrev pub Transfers : Bytes → Bytes → ℕ → Bytes → Local D → D.State → Type 0
  Transfers src dest offset new s t =
      (s' : Local D) × (transfer_file D src dest offset s ≡ (true, s'))
      × Copied dest new (record s { disk = t }) s'

  -- Opening the destination leaves the other files as they were.
  open_output-content :
      (s t : D.State) (dest q : Bytes) (offset : ℕ)
      → open_output D s dest offset ≡ some t
      → bytes_eq dest q ≡ false
      → D.content t q ≡ D.content s q
  open_output-content s t dest q zero e h = L.content-open_trunc s dest q e ∙ rw h refl
  open_output-content s t dest q (suc n) e h = L.content-open_append s dest q e ∙ rw h refl

  -- Where the source opens and is neither the destination nor its progress file, the destination
  -- opens and holds `old` then, and no write fails, transferFile returns true and has added to
  -- `old` what the source holds from the offset on: it changes only the destination and its
  -- progress file. It does not compare `old` with the offset.
  pub transfer_file-Copied :
      (src dest : Bytes) (offset : ℕ) (bytes old : Bytes) (s : Local D) {t : D.State}
      → D.open_read s.disk src ≡ some bytes
      → bytes_eq dest src ≡ false
      → bytes_eq (progress_path dest) src ≡ false
      → open_output D s.disk dest offset ≡ some t
      → D.content t dest ≡ some old
      → NeverFails s.writes
      → Transfers src dest offset (old ++ drop offset bytes) s t
  unfolding transfer_file
  transfer_file-Copied src dest offset bytes old s {t} readable apart aside opens holds k =
      let s0 : Local D = record s { disk = t } in
      let f : Source src dest bytes t = record {
        holds =
            open_output-content s.disk t dest src offset opens apart
            ∙ L.open_read-content s.disk src readable;
        apart = apart;
        no_progress = aside;
      } in
      let total : ℕ = length (rest_of D src 0 t) in
      let full : length (drop offset bytes) ≤ total =
        omega (arith, length-drop offset bytes, ap (λ o. length (drop 0 (or_empty o))) f.holds) in
      let (s1, run, c) =
        copy_blocks-Copied total src dest offset total bytes old (drop offset bytes) s0 refl full f
          holds k in
      (
        on_disk D (λ u. clear_progress D u dest) s1,
        ap (λ o. copy_opened D src dest offset o (open_output D s.disk dest offset) s) readable
            ∙ ap (λ o. copy_opened D src dest offset (some bytes) o s) opens
            ∙ ap (end_copy D dest) run,
        Copied-trans dest s1 c (
            on_disk-Copied dest (old ++ drop offset bytes) (λ u. clear_progress D u dest) s1
              (clear_progress-content s1.disk dest) c.file c.writable),
      )
