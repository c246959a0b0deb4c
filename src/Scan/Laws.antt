-- ===== src/Scan/Laws.antt =====
-- collectMetadata finds exactly what stands under a directory.
use file_sync_tool.Base.{
  ℕ, zero, suc, ◌≡◌, ◌≢◌, ◌↔◌, refl, sym, ap, ◌∙◌, subst, ◌⊎◌, inl, inr, true, false, Option, none,
  some, List, [], ◌∷◌, if◌then◌else◌, Bool-cases, unwrap, none≢some, true≢false, In, All,
}
use file_sync_tool.Base.Text.{Bytes, bytes_eq, bytes_eq_iff}
use file_sync_tool.Disk.{Disk, Stat}
use file_sync_tool.Digest.{Hash}
use file_sync_tool.Metadata.{FileMetadata, MetadataMap, is_dir, find}
use file_sync_tool.Scan.{
  set_entry, insert_entries, list_directory, metadata_of, join, add_path, then_paths, add_paths,
  collect_metadata,
}
use file_sync_tool.Scan.Map.{
  Entry, IsPresent, or_else, find-set_entry, find-insert_entries, set_entry-All, insert_entries-All,
}

module _ (D : Disk) (H : Hash) (entries : D.State → Bytes → Option (List Bytes)) (s : D.State) where
  -- What stands under a directory, at any depth: an entry that stat finds, or what stands under an
  -- entry that is a directory.
  pub data Under : Bytes → Bytes → Type 0 where
    entry :
        (dir p : Bytes) (st : Stat)
        → In p (list_directory D H entries s dir)
        → D.stat s p ≡ some st
        → Under dir p
    below :
        (dir q p : Bytes) (st : Stat)
        → In q (list_directory D H entries s dir)
        → D.stat s q ≡ some st
        → is_dir st.mode ≡ true
        → Under q p
        → Under dir p

  abbrev pub metadata_if : Bytes → Option Stat → Option FileMetadata
  metadata_if p none = none
  metadata_if p (some st) = some (metadata_of D H entries s p st)

  -- The metadata of a path, straight from the disk.
  abbrev pub metadata_at : Bytes → Option FileMetadata
  metadata_at p = metadata_if p (D.stat s p)

  abbrev pub IsTrueOf : Entry → Type 0
  IsTrueOf e = metadata_at e.0 ≡ some e.1

  -- A map of exactly what stands under a directory, with its metadata.
  pub record IsScan (dir : Bytes) (map : MetadataMap) : Type 0 where
    pub found : (p : Bytes) → Under dir p → IsPresent p map
    pub real : (p : Bytes) → IsPresent p map → Under dir p
    pub exact : All IsTrueOf map

  -- What one path of a listing adds.
  abbrev Adds : Bytes → Bytes → Type 0
  Adds q p =
      (st : Stat) × (D.stat s q ≡ some st) × ((q ≡ p) ⊎ ((is_dir st.mode ≡ true) × Under q p))

  abbrev Extends : (Bytes → Type 0) → MetadataMap → MetadataMap → Type 0
  Extends More map map' = (p : Bytes) → IsPresent p map' ↔ (IsPresent p map ⊎ More p)

  or_else-present : (a b : Option FileMetadata) → (or_else a b ≢ none) ↔ ((a ≢ none) ⊎ (b ≢ none))
  or_else-present none b = ((λ h. inr h), (λ h. elim h [ inl k ↦ absurd (k refl) | inr k ↦ k ]))
  or_else-present (some m) b = ((λ h. inl h), (λ h n. cc))

  set_entry-present :
      (q : Bytes) (meta : FileMetadata) (map : MetadataMap)
      → Extends (λ p. q ≡ p) map (set_entry q meta map)
  set_entry-present q meta map p = elim (Bool-cases (bytes_eq q p)) [
    | inl here ↦
        let e : find p (set_entry q meta map) ≡ some meta = find-set_entry q meta map p ∙ rw here in
        ((λ h. inr ((bytes_eq_iff q p).0 here)), (λ h n. cc))
    | inr off ↦
        let e : find p (set_entry q meta map) ≡ find p map = find-set_entry q meta map p ∙ rw off in
        (
          (λ h. inl (λ n. h (e ∙ n))),
          (λ h. elim h [
            | inl k ↦ λ n. k (sym e ∙ n)
            | inr k ↦ absurd (true≢false (sym ((bytes_eq_iff q p).1 k) ∙ off))
          ]),
        )
  ]

  -- The entries below a directory are as collectMetadata on it finds them.
  abbrev Collects : (Bytes → Option MetadataMap) → Type 0
  Collects sub = (q : Bytes) (map : MetadataMap) → sub q ≡ some map → IsScan q map

  abbrev Grows : (Bytes → Type 0) → MetadataMap → Option MetadataMap → Type 0
  Grows More map o =
      (map' : MetadataMap)
      → o ≡ some map'
      → All IsTrueOf map
      → Extends More map map' × All IsTrueOf map'

  join-Grows :
      (sub : Bytes → Option MetadataMap) (q : Bytes) (map : MetadataMap) (o : Option MetadataMap)
      → Collects sub
      → sub q ≡ o
      → Grows (Under q) map (join D H entries s map o)
  join-Grows sub q map none c e map' h k = absurd (none≢some h)
  join-Grows sub q map (some low) c e map' h k =
      let scan : IsScan q low = c q low e in
      let same : insert_entries map low ≡ map' = unwrap h in
      (
        (λ p.
            let split : find p map' ≡ or_else (find p map) (find p low) =
              ap (find p) (sym same) ∙ find-insert_entries map low p in
            let (to, from) = or_else-present (find p map) (find p low) in
            (
              (λ there. elim (to (λ n. there (split ∙ n))) [
                | inl old ↦ inl old
                | inr new ↦ inr (scan.real p new)
              ]),
              (λ which n.
                  from (elim which [ inl old ↦ inl old | inr new ↦ inr (scan.found p new) ])
                    (sym split ∙ n)),
            )),
        subst (All IsTrueOf) same (insert_entries-All IsTrueOf map low k scan.exact),
      )

  -- A path that is no directory adds itself alone.
  which_one :
      (q : Bytes) (st : Stat) (map : MetadataMap) (p : Bytes)
      → D.stat s q ≡ some st
      → is_dir st.mode ≡ false
      → IsPresent p map ⊎ Adds q p
      → IsPresent p map ⊎ (q ≡ p)
  which_one q st map p e plain (inl old) = inl old
  which_one q st map p e plain (inr (st', e', inl here)) = inr here
  which_one q st map p e plain (inr (st', e', inr (dir, low))) =
      let same : st' ≡ st = unwrap (sym e' ∙ e) in
      absurd (true≢false (sym dir ∙ ap (λ (t : Stat). is_dir t.mode) same ∙ plain))

  add_stat-Grows :
      (sub : Bytes → Option MetadataMap) (q : Bytes) (st : Stat) (map : MetadataMap)
      → Collects sub
      → D.stat s q ≡ some st
      → Grows (Adds q) map (add_path D H entries s sub q (some st) map)
  add_stat-Grows sub q st map c e map' h k =
      let meta : FileMetadata = metadata_of D H entries s q st in
      let map1 : MetadataMap = set_entry q meta map in
      let true1 : All IsTrueOf map1 = set_entry-All IsTrueOf q meta map (ap (metadata_if q) e) k in
      elim (Bool-cases (is_dir st.mode)) [
        | inl dir ↦
            let h' : join D H entries s map1 (sub q) ≡ some map' =
              sym (ap (λ b. if b then join D H entries s map1 (sub q) else some map1) dir) ∙ h in
            let (grown, all) = join-Grows sub q map1 (sub q) c refl map' h' true1 in
            (
              (λ p.
                  let one = set_entry-present q meta map p in
                  let two = grown p in
                  (
                    (λ there. elim (two.0 there) [
                      | inr low ↦ inr (st, e, inr (dir, low))
                      | inl mid ↦ elim (one.0 mid) [
                        | inl old ↦ inl old
                        | inr here ↦ inr (st, e, inl here)
                      ]
                    ]),
                    (λ which. elim which [
                      | inl old ↦ two.1 (inl (one.1 (inl old)))
                      | inr (st', e', inl here) ↦ two.1 (inl (one.1 (inr here)))
                      | inr (st', e', inr (dir', low)) ↦ two.1 (inr low)
                    ]),
                  )),
              all,
            )
        | inr plain ↦
            let same : map1 ≡ map' = unwrap (
              sym (ap (λ b. if b then join D H entries s map1 (sub q) else some map1) plain) ∙ h) in
            (
              (λ p.
                  let one = set_entry-present q meta map p in
                  (
                    (λ there. elim (one.0 (λ n. there (sym (ap (find p) same) ∙ n))) [
                      | inl old ↦ inl old
                      | inr here ↦ inr (st, e, inl here)
                    ]),
                    (λ which n. one.1 (which_one q st map p e plain which) (ap (find p) same ∙ n)),
                  )),
              subst (All IsTrueOf) same true1,
            )
      ]

  add_path-Grows :
      (sub : Bytes → Option MetadataMap) (q : Bytes) (o : Option Stat) (map : MetadataMap)
      → Collects sub
      → D.stat s q ≡ o
      → Grows (Adds q) map (add_path D H entries s sub q o map)
  add_path-Grows sub q (some st) map c e map' h k = add_stat-Grows sub q st map c e map' h k
  add_path-Grows sub q none map c e map' h k =
      let same : map ≡ map' = unwrap h in
      (
        (λ p. (
          (λ there. inl (λ n. there (sym (ap (find p) same) ∙ n))),
          (λ which. elim which [
            | inl old ↦ λ n. old (ap (find p) same ∙ n)
            | inr (st, e', _) ↦ absurd (none≢some (sym e ∙ e'))
          ]),
        )),
        subst (All IsTrueOf) same k,
      )

  -- What the paths of a listing add.
  abbrev Reached : List Bytes → Bytes → Type 0
  Reached paths p = (q : Bytes) × In q paths × Adds q p

  then_paths-some :
      (o : Option MetadataMap) (next : MetadataMap → Option MetadataMap) {map : MetadataMap}
      → then_paths D H entries s o next ≡ some map
      → (mid : MetadataMap) × (o ≡ some mid) × (next mid ≡ some map)
  then_paths-some none next h = absurd (none≢some h)
  then_paths-some (some mid) next h = (mid, refl, h)

  add_paths-Grows :
      (sub : Bytes → Option MetadataMap) (paths : List Bytes) (map : MetadataMap)
      → Collects sub
      → Grows (Reached paths) map (add_paths D H entries s sub paths map)
  unfolding add_paths
  add_paths-Grows sub [] map c map' h k =
      let same : map ≡ map' = unwrap h in
      (
        (λ p. (
          (λ there. inl (λ n. there (sym (ap (find p) same) ∙ n))),
          (λ which. elim which [
            | inl old ↦ λ n. old (ap (find p) same ∙ n)
            | inr (q, nowhere, _) ↦ absurd nowhere
          ]),
        )),
        subst (All IsTrueOf) same k,
      )
  add_paths-Grows sub (q ∷ paths) map c map' h k =
      let (mid, first, rest) =
        then_paths-some (add_path D H entries s sub q (D.stat s q) map) _ h in
      let (one, all1) = add_path-Grows sub q (D.stat s q) map c refl mid first k in
      let (two, all2) = add_paths-Grows sub paths mid c map' rest all1 in
      (
        (λ p. (
          (λ there. elim ((two p).0 there) [
            | inr (r, listed, adds) ↦ inr (r, inr listed, adds)
            | inl mid_there ↦ elim ((one p).0 mid_there) [
              | inl old ↦ inl old
              | inr adds ↦ inr (q, inl refl, adds)
            ]
          ]),
          (λ which. elim which [
            | inl old ↦ (two p).1 (inl ((one p).1 (inl old)))
            | inr (r, inl here, adds) ↦
                (two p).1 (inl ((one p).1 (inr (subst (λ t. Adds t p) (sym here) adds))))
            | inr (r, inr listed, adds) ↦ (two p).1 (inr (r, listed, adds))
          ]),
        )),
        all2,
      )

  Under-Reached : (dir p : Bytes) → Under dir p → Reached (list_directory D H entries s dir) p
  Under-Reached dir p (entry _ _ st listed e) = (p, listed, (st, e, inl refl))
  Under-Reached dir p (below _ q _ st listed e d low) = (q, listed, (st, e, inr (d, low)))

  Reached-Under : (dir p : Bytes) → Reached (list_directory D H entries s dir) p → Under dir p
  Reached-Under dir p (q, listed, (st, e, inl here)) =
      subst (Under dir) here (entry dir q st listed e)
  Reached-Under dir p (q, listed, (st, e, inr (d, low))) = below dir q p st listed e d low

  -- Where collectMetadata reaches the bottom of the tree, its map has an entry for each path that
  -- stands under the directory at any depth and that stat finds, and no other, and the size, time,
  -- mode and digest of every entry are those on the disk.
  pub collect_metadata-IsScan :
      (fuel : ℕ) (dir : Bytes) (map : MetadataMap)
      → collect_metadata D H entries s fuel dir ≡ some map
      → IsScan dir map
  unfolding collect_metadata find
  collect_metadata-IsScan zero dir map h = absurd (none≢some h)
  collect_metadata-IsScan (suc fuel) dir map h =
      let (grown, all) =
        add_paths-Grows (collect_metadata D H entries s fuel) (list_directory D H entries s dir) []
          (collect_metadata-IsScan fuel) map h tt in
      record {
        found = λ p under. (grown p).1 (inr (Under-Reached dir p under));
        real = λ p there. elim ((grown p).0 there) [
          | inl none_ ↦ absurd (none_ refl)
          | inr reached ↦ Reached-Under dir p reached
        ];
        exact = all;
      }
