-- ===== src/LargeFile/Transfer.antt =====
-- What transferLargeFileAsync leaves in the destination.
use file_sync_tool.Base.{
  ℕ, ◌≡◌, ◌≤◌, refl, sym, ap, ◌∙◌, subst, Bool, true, false, Option, none, some, List, [], length,
  true≢false, if◌then◌else◌, replicate,
}
use file_sync_tool.Base.Int.{pos}
use file_sync_tool.Base.Text.{Bytes, bytes_eq, bytes_eq_refl}
use file_sync_tool.Sending.{WriteEvent}
use file_sync_tool.Disk.{Disk, Stat, IsLawful, or_empty}
use file_sync_tool.Progress.{progress_path}
use file_sync_tool.Space.{Volume, check_dest_space}
use file_sync_tool.Local.{Local, cleanup_corrupted_file}
use file_sync_tool.Local.Transfer.{clear_progress-content, progress_path-ne}
use file_sync_tool.LargeFile.{
  Copying, Chunk, copy_chunks, end_large, source_bytes, with_output, with_source, with_stat,
  transfer_large,
}
use file_sync_tool.LargeFile.Runs.{most_bytes, Reorders, copy_chunks-whole}
use file_sync_tool.LargeFile.Success.{Progresses, copy_chunks-true}

-- The source opens and holds `bytes`, as many as stat says and as 2^31 - 1 chunks have room for,
-- and it is neither the destination nor its progress file.
pub record Setting (D : Disk) (src dest bytes : Bytes) (s : Local D) : Type 0 where
  pub st : Stat
  pub stated : D.stat s.disk src ≡ some st
  pub readable : D.open_read s.disk src ≡ some bytes
  pub whole : st.size ≡ length bytes
  pub small : length bytes ≤ most_bytes
  pub apart : bytes_eq dest src ≡ false
  pub no_progress : bytes_eq (progress_path dest) src ≡ false

module _ (D : Disk) (L : IsLawful D) (statvfs : Bytes → Option Volume) (truncates : Bool)
    (order : List Chunk → List Chunk) (reads writes : List WriteEvent) (src dest bytes : Bytes)
    (s : Local D) where
  abbrev Done : Bool × Local D → Type 0
  Done r = r.0 ≡ true → D.content r.1.disk dest ≡ some bytes

  if-Done : (b : Bool) (x y : Bool × Local D) → Done x → Done y → Done (if b then x else y)
  if-Done true x y h k = h
  if-Done false x y h k = k

  failed-Done : (t : Local D) → Done (false, t)
  failed-Done t e = absurd (true≢false (sym e))

  end_large-Done :
      (r : Bool × Copying) (t : Local D)
      → D.content t.disk dest ≡ some []
      → (r.0 ≡ true → r.1.dest ≡ bytes)
      → Done (end_large D statvfs truncates order reads writes dest r t)
  end_large-Done (false, c) t empty h = λ e. absurd (true≢false (sym e))
  end_large-Done (true, c) t empty h = λ _.
      clear_progress-content D L (D.append t.disk dest c.dest) dest dest (progress_path-ne dest)
      ∙ L.content-append t.disk dest dest c.dest empty
      ∙ rw (bytes_eq_refl dest) (ap some (h refl))

  -- The source as pread finds it is the one that was opened.
  source_bytes-eq :
      (t : D.State) (size : ℕ)
      → Setting D src dest bytes s
      → D.open_trunc s.disk dest ≡ some t
      → source_bytes D statvfs truncates order reads writes src dest size t ≡ bytes
  source_bytes-eq t size g opened =
      let empty : D.content t dest ≡ some [] =
        L.content-open_trunc s.disk dest dest opened ∙ rw (bytes_eq_refl dest) refl in
      let filled : D.content (D.append t dest (replicate size 0)) src ≡ some bytes =
        L.content-append t dest src (replicate size 0) empty
        ∙ rw g.apart (
            L.content-open_trunc s.disk dest src opened
            ∙ rw g.apart (L.open_read-content s.disk src g.readable)) in
      ap or_empty filled

  chunks-Done :
      (t : D.State) (size : ℕ)
      → Setting D src dest bytes s
      → Reorders bytes order
      → size ≡ length bytes
      → D.open_trunc s.disk dest ≡ some t
      → (copy_chunks
          (source_bytes D statvfs truncates order reads writes src dest size t)
          size
          order
          reads
          writes).0
        ≡ true
      → (copy_chunks
          (source_bytes D statvfs truncates order reads writes src dest size t)
          size
          order
          reads
          writes).1.dest
        ≡ bytes
  chunks-Done t size g r e opened good =
      let same : copy_chunks (source_bytes D statvfs truncates order reads writes src dest size t)
            size order reads writes
          ≡ copy_chunks bytes (length bytes) order reads writes =
        ap (λ x. copy_chunks x size order reads writes) (source_bytes-eq t size g opened)
        ∙ ap (λ n. copy_chunks bytes n order reads writes) e in
      ap (λ v. v.1.dest) same
      ∙ copy_chunks-whole bytes order reads writes g.small r (sym (ap (λ v. v.0) same) ∙ good)

  with_output-Done :
      (size : ℕ) (o : Option D.State)
      → Setting D src dest bytes s
      → Reorders bytes order
      → size ≡ length bytes
      → D.open_trunc s.disk dest ≡ o
      → Done (with_output D statvfs truncates order reads writes src dest size o s)
  with_output-Done size none g r e opened = failed-Done s
  with_output-Done size (some t) g r e opened =
      let s' : Local D = record s { disk = t } in
      let copied : Bool × Copying =
        copy_chunks (source_bytes D statvfs truncates order reads writes src dest size t) size order
          reads writes in
      let empty : D.content t dest ≡ some [] =
        L.content-open_trunc s.disk dest dest opened ∙ rw (bytes_eq_refl dest) refl in
      if-Done truncates (end_large D statvfs truncates order reads writes dest copied s')
        (false, cleanup_corrupted_file D dest s')
        (end_large-Done copied s' empty (chunks-Done t size g r e opened))
        (failed-Done (cleanup_corrupted_file D dest s'))

  -- Where the source is a file of as many bytes as stat says, at most 2^31 - 1 chunks of 4 MiB, and
  -- is neither the destination nor its progress file: if transferLargeFileAsync from the start
  -- returns true, the destination holds exactly the bytes of the source, in whatever order all the
  -- chunks ran, one after another, however many bytes each call of pread and pwrite moved, and
  -- wherever calls were interrupted.
  pub transfer_large-whole :
      Setting D src dest bytes s
      → Reorders bytes order
      → (transfer_large D statvfs truncates order reads writes src dest s).0 ≡ true
      → D.content (transfer_large D statvfs truncates order reads writes src dest s).1.disk dest
        ≡ some bytes
  unfolding transfer_large
  transfer_large-whole g r =
      let out =
        with_output D statvfs truncates order reads writes src dest g.st.size
          (D.open_trunc s.disk dest) s in
      let room = check_dest_space statvfs dest (pos g.st.size) in
      let run : transfer_large D statvfs truncates order reads writes src dest s
          ≡ (if room then out else (false, s)) =
        ap (λ o. with_stat D statvfs truncates order reads writes src dest o s) g.stated
        ∙ ap
            (λ o.
              if room
              then with_source D statvfs truncates order reads writes src dest g.st.size o s
              else (false, s))
            g.readable in
      subst Done (sym run) (
        if-Done room out (false, s)
          (with_output-Done g.st.size (D.open_trunc s.disk dest) g r g.whole refl) (failed-Done s))

module _ (D : Disk) (L : IsLawful D) (statvfs : Bytes → Option Volume)
    (order : List Chunk → List Chunk) (reads writes : List WriteEvent) (src dest bytes : Bytes)
    (s : Local D) where
  -- Where the source is a file of as many bytes as stat says, at most 2^31 - 1 chunks of 4 MiB, and
  -- is neither the destination nor its progress file, the test for free space says yes, the
  -- destination opens, ftruncate succeeds, and every call of pread and pwrite moves a byte or is
  -- interrupted: transferLargeFileAsync from the start returns true, and the destination holds
  -- exactly the bytes of the source, in whatever order all the chunks ran, one after another.
  pub transfer_large-succeeds :
      (t : D.State)
      → Setting D src dest bytes s
      → Reorders bytes order
      → check_dest_space statvfs dest (pos (length bytes)) ≡ true
      → D.open_trunc s.disk dest ≡ some t
      → Progresses reads
      → Progresses writes
      → ((transfer_large D statvfs true order reads writes src dest s).0 ≡ true)
        × (D.content (transfer_large D statvfs true order reads writes src dest s).1.disk dest
            ≡ some bytes)
  unfolding transfer_large
  transfer_large-succeeds t g r room opened p q =
      let fine : (transfer_large D statvfs true order reads writes src dest s).0 ≡ true =
        ap (λ o. (with_stat D statvfs true order reads writes src dest o s).0) g.stated
        ∙ ap
            (λ n.
              (if check_dest_space statvfs dest (pos n)
                then with_source D statvfs true order reads writes src dest n
                    (D.open_read s.disk src) s
                else (false, s)).0)
            g.whole
        ∙ ap
            (λ b.
              (if b
                then with_source D statvfs true order reads writes src dest (length bytes)
                    (D.open_read s.disk src) s
                else (false, s)).0)
            room
        ∙ ap (λ o. (with_source D statvfs true order reads writes src dest (length bytes) o s).0)
            g.readable
        ∙ ap (λ o. (with_output D statvfs true order reads writes src dest (length bytes) o s).0)
            opened
        ∙ ap
            (λ x.
              (end_large D statvfs true order reads writes dest
                (copy_chunks x (length bytes) order reads writes) (record s { disk = t })).0)
            ((source_bytes-eq D L statvfs true order reads writes src dest bytes s) t (length bytes)
              g opened)
        ∙ ended (copy_chunks bytes (length bytes) order reads writes)
            (copy_chunks-true bytes order reads writes g.small r p q) in
      (fine, (transfer_large-whole D L statvfs true order reads writes src dest bytes s) g r fine)
    where
      ended :
          (c : Bool × Copying)
          → c.0 ≡ true
          → (end_large D statvfs true order reads writes dest c (record s { disk = t })).0 ≡ true
      ended (true, c) e = refl
      ended (false, c) e = cc
