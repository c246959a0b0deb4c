-- ===== src/LargeFile/Success.antt =====
-- A chunked copy whose calls of pread and pwrite make progress succeeds.
use file_sync_tool.Base.{
  ℕ, zero, suc, ◌+◌, ◌-◌, ◌≤◌, ◌≡◌, refl, sym, ap, ◌∙◌, subst, min, Bool, true, false, ◌&&◌, some,
  List, [], ◌∷◌, ◌++◌, arith, length, length-append, length-drop, length-take, take, drop, ◌==◌,
  ==_iff, if◌then◌else◌, All,
}
use file_sync_tool.Base.Text.{Bytes}
use file_sync_tool.Sending.{WriteEvent, accepts, interrupted, fails}
use file_sync_tool.LargeFile.Runs.{Reorders, the_chunks, ordered-Inside, most_bytes}
use file_sync_tool.LargeFile.{
  prepend, robust_pread, robust_pwrite, Copying, Chunk, store, read_whole, transfer_chunk,
  after_chunk, run_chunk, run_chunks, copy_chunks,
}

-- No call fails, and each moves a byte or is interrupted.
abbrev pub Progresses : List WriteEvent → Type 0
Progresses [] = Unit {0}
Progresses (accepts zero ∷ es) = ⊥
Progresses (accepts (suc k) ∷ es) = Progresses es
Progresses (interrupted ∷ es) = Progresses es
Progresses (fails ∷ es) = ⊥

abbrev ReadsWhole : List WriteEvent → ℕ → Bytes → Type 0
ReadsWhole es n bs =
    (got : Bytes) × (rest : List WriteEvent) × (robust_pread es n bs ≡ (some got, rest))
    × (length got ≡ n)
    × Progresses rest

robust_pread-ReadsWhole :
    (es : List WriteEvent) (n : ℕ) (bs : Bytes) → Progresses es → n ≤ length bs → ReadsWhole es n bs
unfolding robust_pread
robust_pread-ReadsWhole es zero bs p h = ([], es, refl, refl, p)
robust_pread-ReadsWhole [] (suc n) bs p h =
    (take (suc n) bs, [], refl, omega (arith, length-take (suc n) bs), tt)
robust_pread-ReadsWhole (interrupted ∷ es) (suc n) bs p h =
    robust_pread-ReadsWhole es (suc n) bs p h
robust_pread-ReadsWhole (fails ∷ es) (suc n) bs p h = absurd p
robust_pread-ReadsWhole (accepts zero ∷ es) (suc n) bs p h = absurd p
robust_pread-ReadsWhole (accepts (suc k) ∷ es) (suc n) [] p h = absurd (omega arith)
robust_pread-ReadsWhole (accepts (suc k) ∷ es) (suc n) (b ∷ bs) p h =
    let m : ℕ = min k n in
    let (got, rest, run, len, q) =
      robust_pread-ReadsWhole es (n - m) (drop m bs) p (omega (arith, length-drop m bs)) in
    (
      b ∷ (take m bs ++ got),
      rest,
      ap (prepend (b ∷ take m bs)) run,
      omega (arith, length-append (take m bs) got, length-take m bs, len),
      q,
    )

robust_pwrite-Progresses :
    (es : List WriteEvent) (o : ℕ) (bs xs : Bytes)
    → Progresses es
    → ((robust_pwrite es o bs xs).1 ≡ true) × Progresses (robust_pwrite es o bs xs).2
unfolding robust_pwrite
robust_pwrite-Progresses es o [] xs p = (refl, p)
robust_pwrite-Progresses [] o (b ∷ bs) xs p = (refl, tt)
robust_pwrite-Progresses (interrupted ∷ es) o (b ∷ bs) xs p =
    robust_pwrite-Progresses es o (b ∷ bs) xs p
robust_pwrite-Progresses (fails ∷ es) o (b ∷ bs) xs p = absurd p
robust_pwrite-Progresses (accepts zero ∷ es) o (b ∷ bs) xs p = absurd p
robust_pwrite-Progresses (accepts (suc k) ∷ es) o (b ∷ bs) xs p =
    robust_pwrite-Progresses es (o + length (b ∷ take k bs)) (drop k bs) _ p

-- What is needed to go on.
record Fine (s : Copying) : Type 0 where
  reads : Progresses s.reads
  writes : Progresses s.writes
  no_error : s.has_error ≡ false

module _ (src : Bytes) where
  abbrev Succeeds : Bool × Copying → Type 0
  Succeeds r = (r.0 ≡ true) × Fine r.1

  after_chunk-Succeeds :
      (size : ℕ) (r : Bool × Copying) → Succeeds r → Succeeds (after_chunk src size r)
  after_chunk-Succeeds size (false, s) (e, f) = cc
  after_chunk-Succeeds size (true, s) (e, f) =
      (refl, record { reads = f.reads; writes = f.writes; no_error = f.no_error })

  run_chunk-Succeeds :
      (c : Chunk) (s : Copying) → c.0 + c.1 ≤ length src → Fine s → Succeeds (run_chunk src c s)
  unfolding run_chunk transfer_chunk
  run_chunk-Succeeds (o, size) s h f =
      let (got, rest, run, len, q) =
        robust_pread-ReadsWhole s.reads size (drop o src) f.reads
          (omega (arith, length-drop o src)) in
      let s0 : Copying = record s { reads = rest } in
      let (all, more) = robust_pwrite-Progresses s.writes o got s.dest f.writes in
      let stored : Succeeds (store o got s0) =
        (all, record { reads = q; writes = more; no_error = f.no_error }) in
      let whole : (length got == size) ≡ true = (==_iff (length got) size).1 len in
      let r = robust_pread s.reads size (drop o src) in
      let same : run_chunk src (o, size) s ≡ after_chunk src size (store o got s0) =
        ap (λ b. if b then (false, s) else after_chunk src size (read_whole (o, size) r s))
          f.no_error
        ∙ ap (λ x. after_chunk src size (read_whole (o, size) x s)) run
        ∙ ap (λ b. after_chunk src size (if b then store o got s0 else (false, s0))) whole in
      subst Succeeds (sym same) (after_chunk-Succeeds size (store o got s0) stored)

  run_chunks-true :
      (cs : List Chunk) (s : Copying)
      → All (λ (c : Chunk). c.0 + c.1 ≤ length src) cs
      → Fine s
      → (run_chunks src cs s).0 ≡ true
  unfolding run_chunks
  run_chunks-true [] s h f = refl
  run_chunks-true (c ∷ cs) s h f =
      let (good, fine) = run_chunk-Succeeds c s h.0 f in
      let rest = run_chunks-true cs (run_chunk src c s).1 h.1 fine in
      ap (λ b. b && (run_chunks src cs (run_chunk src c s).1).0) good ∙ rest

  pub copy_chunks-true :
      (order : List Chunk → List Chunk) (reads writes : List WriteEvent)
      → length src ≤ most_bytes
      → Reorders src order
      → Progresses reads
      → Progresses writes
      → (copy_chunks src (length src) order reads writes).0 ≡ true
  unfolding copy_chunks
  copy_chunks-true order reads writes small r p q =
      run_chunks-true (order (the_chunks src)) _ (ordered-Inside src order small r)
        (record { reads = p; writes = q; no_error = refl })
