-- ===== src/Scan/Total.antt =====
-- With fuel for the levels of the tree, a scan reaches the bottom.
use file_sync_tool.Base.{
  ℕ, zero, suc, ◌≡◌, refl, ap, ◌∙◌, inl, inr, true, Option, none, some, List, [], ◌∷◌,
  if◌then◌else◌, Bool-cases, In,
}
use file_sync_tool.Base.Text.{Bytes}
use file_sync_tool.Disk.{Disk, Stat}
use file_sync_tool.Digest.{Hash}
use file_sync_tool.Metadata.{MetadataMap, is_dir}
use file_sync_tool.Scan.{
  set_entry, insert_entries, list_directory, metadata_of, join, add_path, then_paths, add_paths,
  collect_metadata,
}
use file_sync_tool.Scan.Laws.{IsScan, collect_metadata-IsScan}

module _ (D : Disk) (H : Hash) (entries : D.State → Bytes → Option (List Bytes)) (s : D.State) where
  -- A tree of at most so many levels.
  abbrev pub Levels : ℕ → Bytes → Type 0
  Levels zero dir = ⊥
  Levels (suc n) dir =
      (q : Bytes) (st : Stat)
      → In q (list_directory D H entries s dir)
      → D.stat s q ≡ some st
      → is_dir st.mode ≡ true
      → Levels n q

  abbrev Total : Option MetadataMap → Type 0
  Total o = (map : MetadataMap) × (o ≡ some map)

  join-Total :
      (map : MetadataMap) (o : Option MetadataMap) → Total o → Total (join D H entries s map o)
  join-Total map o (low, e) = (insert_entries map low, ap (join D H entries s map) e)

  add_path-Total :
      (sub : Bytes → Option MetadataMap) (q : Bytes) (o : Option Stat) (map : MetadataMap)
      → ((st : Stat) → o ≡ some st → is_dir st.mode ≡ true → Total (sub q))
      → Total (add_path D H entries s sub q o map)
  add_path-Total sub q none map h = (map, refl)
  add_path-Total sub q (some st) map h =
      let map1 : MetadataMap = set_entry q (metadata_of D H entries s q st) map in
      let low : Option MetadataMap = join D H entries s map1 (sub q) in
      elim (Bool-cases (is_dir st.mode)) [
        | inl dir ↦
            let (map2, e) = join-Total map1 (sub q) (h st refl dir) in
            (map2, ap (λ b. if b then low else some map1) dir ∙ e)
        | inr plain ↦ (map1, ap (λ b. if b then low else some map1) plain)
      ]

  add_paths-Total :
      (sub : Bytes → Option MetadataMap) (paths : List Bytes) (map : MetadataMap)
      → ((q : Bytes) (st : Stat)
          → In q paths
          → D.stat s q ≡ some st
          → is_dir st.mode ≡ true
          → Total (sub q))
      → Total (add_paths D H entries s sub paths map)
  unfolding add_paths
  add_paths-Total sub [] map h = (map, refl)
  add_paths-Total sub (q ∷ paths) map h =
      let (mid, e) = add_path-Total sub q (D.stat s q) map (λ st k d. h q st (inl refl) k d) in
      let (all, f) = add_paths-Total sub paths mid (λ r st there k d. h r st (inr there) k d) in
      (all, ap (λ o. then_paths D H entries s o (add_paths D H entries s sub paths)) e ∙ f)

  collect_metadata-Total :
      (fuel : ℕ) (dir : Bytes) → Levels fuel dir → Total (collect_metadata D H entries s fuel dir)
  unfolding collect_metadata
  collect_metadata-Total zero dir h = absurd h
  collect_metadata-Total (suc fuel) dir h =
      add_paths-Total (collect_metadata D H entries s fuel) (list_directory D H entries s dir) []
        (λ q st there k d. collect_metadata-Total fuel q (h q st there k d))

  -- On a tree of at most `fuel` levels collectMetadata reaches the bottom, and its map has an entry
  -- for exactly the paths that stand under the directory at any depth and that stat finds, with the
  -- size, time, mode and digest that they have on the disk.
  pub collect_metadata-whole :
      (fuel : ℕ) (dir : Bytes)
      → Levels fuel dir
      → (map : MetadataMap) × (collect_metadata D H entries s fuel dir ≡ some map)
        × IsScan D H entries s dir map
  collect_metadata-whole fuel dir h =
      let (map, e) = collect_metadata-Total fuel dir h in
      (map, e, collect_metadata-IsScan D H entries s fuel dir map e)
