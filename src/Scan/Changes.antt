-- ===== src/Scan/Changes.antt =====
-- detectChanges makes a task for exactly what differs between the two directories on the disk.
use file_sync_tool.Base.{
  ℕ, ◌≡◌, ◌≤◌, ◌↔◌, refl, sym, ap, ◌∙◌, subst, ◌⊎◌, inl, inr, Bool, true, false, Option, none, some,
  List, [], ◌∷◌, ◌++◌, arith, append_assoc, length, length-append, if◌then◌else◌, Bool-cases,
  Option-cases, unwrap, true≢false, In, In-All, All-In,
}
use file_sync_tool.Base.Text.{Bytes}
use file_sync_tool.Disk.{Disk}
use file_sync_tool.Digest.{Hash}
use file_sync_tool.Metadata.{FileMetadata, SyncTask, MetadataMap, need_sync, find, wanted, task_of}
use file_sync_tool.Metadata.Laws.{
  Same, need_sync_iff, counterpart, tasks_for, Inside, compare_metadata-tasks_for,
}
use file_sync_tool.Scan.{
  is_dots, paths_in, listed, list_directory, collect_metadata, compare_maps, detect_changes,
}
use file_sync_tool.Scan.Map.{Entry, In-IsPresent, find-In}
use file_sync_tool.Scan.Laws.{Under, metadata_at, IsTrueOf, IsScan}
use file_sync_tool.Scan.Total.{Levels, collect_metadata-whole}

abbrev Starts : Bytes → Bytes → Type 0
Starts dir p = (rest : Bytes) × (p ≡ dir ++ rest)

-- A path that is listed first or later.
split_listed :
    (dir path p : Bytes) (paths : List Bytes) (b : Bool)
    → In p (if b then paths else (dir ++ path) ∷ paths)
    → (In p paths → Starts dir p)
    → Starts dir p
split_listed dir path p paths true there later = later there
split_listed dir path p paths false (inl same) later = (path, sym same)
split_listed dir path p paths false (inr there) later = later there

paths_in-Starts :
    (dir : Bytes) (names : List Bytes) (p : Bytes) → In p (paths_in dir names) → Starts dir p
paths_in-Starts dir [] p nowhere = absurd nowhere
paths_in-Starts dir (name ∷ names) p there =
    split_listed dir (47 ∷ name) p (paths_in dir names) (is_dots name) there
      (paths_in-Starts dir names p)

listed-Starts :
    (dir : Bytes) (o : Option (List Bytes)) (p : Bytes) → In p (listed dir o) → Starts dir p
listed-Starts dir none p nowhere = absurd nowhere
listed-Starts dir (some names) p there = paths_in-Starts dir names p there

module _ (D : Disk) (H : Hash) (entries : D.State → Bytes → Option (List Bytes)) (s : D.State) where
  Under-Starts : (dir p : Bytes) → Under D H entries s dir p → Starts dir p
  unfolding list_directory
  Under-Starts dir p (Under.entry _ _ st there e) = listed-Starts dir (entries s dir) p there
  Under-Starts dir p (Under.below _ q _ st there e d low) =
      let (one, e1) = listed-Starts dir (entries s dir) q there in
      let (two, e2) = Under-Starts q p low in
      (one ++ two, e2 ∙ ap (λ x. x ++ two) e1 ∙ append_assoc dir one two)

  IsScan-Inside : (dir : Bytes) (map : MetadataMap) → IsScan D H entries s dir map → Inside dir map
  IsScan-Inside dir map scan =
      All-In (λ (e : Entry). length dir ≤ length e.0) map
        (λ e there.
          let (rest, same) =
            Under-Starts dir e.0 (scan.real e.0 (In-IsPresent map e.0 e.1 there)) in
          omega (arith, ap length same, length-append dir rest))

  module _ (src_dir dest_dir : Bytes) where
    -- Whatever stands at the counterpart of a path under the destination differs from it in what
    -- needSync looks at.
    abbrev pub Differs : Bytes → FileMetadata → Type 0
    Differs p meta =
        (other : FileMetadata)
        → Under D H entries s dest_dir (counterpart src_dir dest_dir p)
        → metadata_at D H entries s (counterpart src_dir dest_dir p) ≡ some other
        → Same meta other
        → ⊥

    -- A task for a path under the source, to its counterpart under the destination.
    pub record IsChange (task : SyncTask) : Type 0 where
      pub path : Bytes
      pub meta : FileMetadata
      pub under : Under D H entries s src_dir path
      pub exact : metadata_at D H entries s path ≡ some meta
      pub differs : Differs path meta
      pub same : task_of path (counterpart src_dir dest_dir path) meta ≡ task

    abbrev Wanted : MetadataMap → MetadataMap → SyncTask → Type 0
    Wanted dest src task =
        (e : Entry) × In e src
        × (wanted e.1 (find (counterpart src_dir dest_dir e.0) dest) ≡ true)
        × (task_of e.0 (counterpart src_dir dest_dir e.0) e.1 ≡ task)

    keep_or_skip :
        (b : Bool) (t : SyncTask) (ts : List SyncTask) (task : SyncTask)
        → In task (if b then t ∷ ts else ts) ↔ (((b ≡ true) × (t ≡ task)) ⊎ In task ts)
    keep_or_skip true t ts task = (
      (λ there. elim there [ inl same ↦ inl (refl, same) | inr later ↦ inr later ]),
      (λ which. elim which [ inl (_, same) ↦ inl same | inr later ↦ inr later ]),
    )
    keep_or_skip false t ts task = (
      (λ there. inr there),
      (λ which. elim which [ inl (e, _) ↦ absurd (true≢false (sym e)) | inr later ↦ later ]),
    )

    In-tasks_for :
        (dest src : MetadataMap) (task : SyncTask)
        → In task (tasks_for dest src_dir dest_dir src) ↔ Wanted dest src task
    In-tasks_for dest [] task = ((λ nowhere. absurd nowhere), (λ w. absurd w.1))
    In-tasks_for dest ((path, meta) ∷ rest) task =
        let to : Bytes = counterpart src_dir dest_dir path in
        let one =
          keep_or_skip (wanted meta (find to dest)) (task_of path to meta)
            (tasks_for dest src_dir dest_dir rest) task in
        let more = In-tasks_for dest rest task in
        (
          (λ there. elim (one.0 there) [
            | inl (w, same) ↦ ((path, meta), inl refl, w, same)
            | inr later ↦ let (e, there', w, same) = more.0 later in (e, inr there', w, same)
          ]),
          (λ w.
              let (e, there, w_ok, w_same) = w in
              elim there [
                | inl here ↦ one.1 (
                    inl (
                      subst
                        (λ (x : Entry).
                          (wanted x.1 (find (counterpart src_dir dest_dir x.0) dest) ≡ true)
                          × (task_of x.0 (counterpart src_dir dest_dir x.0) x.1 ≡ task))
                        (sym here) (w_ok, w_same)))
                | inr later ↦ one.1 (inr (more.1 (e, later, w_ok, w_same)))
              ]),
        )

    -- A path under the source has its entry in the scan.
    present_entry :
        (src : MetadataMap) (p : Bytes) (meta : FileMetadata)
        → IsScan D H entries s src_dir src
        → Under D H entries s src_dir p
        → metadata_at D H entries s p ≡ some meta
        → In (p, meta) src
    present_entry src p meta scan under exact = elim (Option-cases (find p src)) [
      | inl none_ ↦ absurd (scan.found p under none_)
      | inr (m, e) ↦
          let there : In (p, m) src = find-In src p m e in
          let agree : m ≡ meta =
            unwrap (sym (In-All (IsTrueOf D H entries s) src scan.exact there) ∙ exact) in
          subst (λ x. In (p, x) src) agree there
    ]

    wanted-Differs :
        (dest : MetadataMap) (p : Bytes) (meta : FileMetadata) (o : Option FileMetadata)
        → IsScan D H entries s dest_dir dest
        → find (counterpart src_dir dest_dir p) dest ≡ o
        → (wanted meta o ≡ true) ↔ Differs p meta
    unfolding wanted
    wanted-Differs dest p meta none scan e =
        ((λ _ other under m same. scan.found (counterpart src_dir dest_dir p) under e), (λ _. refl))
    wanted-Differs dest p meta (some d) scan e =
        let q : Bytes = counterpart src_dir dest_dir p in
        let there : In (q, d) dest = find-In dest q d e in
        let exact : metadata_at D H entries s q ≡ some d =
          In-All (IsTrueOf D H entries s) dest scan.exact there in
        (
          (λ w other under m same.
              let agree : other ≡ d = unwrap (sym m ∙ exact) in
              true≢false (sym w ∙ (need_sync_iff meta d).1 (subst (Same meta) agree same))),
          (λ differs. elim (Bool-cases (need_sync meta d)) [
            | inl yes_ ↦ yes_
            | inr no_ ↦ absurd (
                differs d (scan.real q (In-IsPresent dest q d there)) exact
                  ((need_sync_iff meta d).0 no_))
          ]),
        )

    -- On two trees of at most `fuel` levels detectChanges makes a task for exactly the paths at any
    -- depth of the source whose counterpart under the destination is missing or differs in kind,
    -- size, time or, for regular files, digest.
    pub detect_changes-IsChange :
        (fuel : ℕ)
        → Levels D H entries s fuel src_dir
        → Levels D H entries s fuel dest_dir
        → (tasks : List SyncTask) × (detect_changes D H entries s fuel src_dir dest_dir
            ≡ some tasks)
          × ((task : SyncTask) → In task tasks ↔ IsChange task)
    unfolding detect_changes
    detect_changes-IsChange fuel low high =
        let (src, e, scan) = collect_metadata-whole D H entries s fuel src_dir low in
        let (dest, f, scan') = collect_metadata-whole D H entries s fuel dest_dir high in
        (
          tasks_for dest src_dir dest_dir src,
          ap
                (λ o.
                  compare_maps D H entries s src_dir dest_dir o
                    (collect_metadata D H entries s fuel dest_dir))
                e
              ∙ ap (compare_maps D H entries s src_dir dest_dir (some src)) f
              ∙ compare_metadata-tasks_for dest src_dir dest_dir src
                  (IsScan-Inside src_dir src scan),
          λ task.
              let (to, from) = In-tasks_for dest src task in
              (
                (λ there.
                    let (entry, listed_, w, same) = to there in
                    record {
                      path = entry.0;
                      meta = entry.1;
                      under = scan.real entry.0 (In-IsPresent src entry.0 entry.1 listed_);
                      exact = In-All (IsTrueOf D H entries s) src scan.exact listed_;
                      differs = (wanted-Differs dest entry.0 entry.1 _ scan' refl).0 w;
                      same = same;
                    }),
                (λ c. from (
                  (c.path, c.meta),
                  present_entry src c.path c.meta scan c.under c.exact,
                  (wanted-Differs dest c.path c.meta _ scan' refl).1 c.differs,
                  c.same,
                )),
              ),
        )
