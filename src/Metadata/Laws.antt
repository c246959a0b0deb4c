-- ===== src/Metadata/Laws.antt =====
-- When needSync calls for a copy, and which tasks compareMetadata makes.
use file_sync_tool.Base.{
  ◌≤◌, ◌≡◌, ◌↔◌, refl, ap, ◌∙◌, Bool, true, false, not, ◌||◌, some, List, [], ◌∷◌, ◌++◌, arith,
  length, drop, ◌==◌, ==_iff, if◌then◌else◌, All,
}
use file_sync_tool.Base.Int.{eq_ℤ, eq_ℤ_iff}
use file_sync_tool.Base.Text.{Bytes, bytes_eq, bytes_eq_iff}
use file_sync_tool.Metadata.{
  FileMetadata, SyncTask, MetadataMap, is_reg, bool_eq, need_sync, find, wanted, moved_path,
  task_of, add_task, compare_metadata,
}

-- Two entries that agree in what needSync looks at: the digest counts for regular files only.
pub record Same (src dest : FileMetadata) : Type 0 where
  pub kind : is_reg src.mode ≡ is_reg dest.mode
  pub size : src.size ≡ dest.size
  pub mtime : src.mtime ≡ dest.mtime
  pub md5 : is_reg src.mode ≡ true → src.md5 ≡ dest.md5

bool_eq_iff : (a b : Bool) → (bool_eq a b ≡ true) ↔ (a ≡ b)
bool_eq_iff true true = ((λ _. refl), (λ _. refl))
bool_eq_iff true false = ((λ h. cc), (λ h. cc))
bool_eq_iff false true = ((λ h. cc), (λ h. cc))
bool_eq_iff false false = ((λ _. refl), (λ _. refl))

some-if :
    {A : Type 0} (b : Bool) (x y : A) → (if b then some x else some y) ≡ some (if b then x else y)
some-if true x y = refl
some-if false x y = refl

-- The tests of needSync, as Booleans.
abbrev tests : Bool → Bool → Bool → Bool → Bool → Bool
tests kind size mtime regular md5 =
    if not kind
    then true
    else if not size || not mtime
    then true
    else if regular
    then not md5
    else false

record AllPass (kind size mtime regular md5 : Bool) : Type 0 where
  on_kind : kind ≡ true
  on_size : size ≡ true
  on_mtime : mtime ≡ true
  on_md5 : regular ≡ true → md5 ≡ true

tests-AllPass : (k s t r d : Bool) → tests k s t r d ≡ false → AllPass k s t r d
tests-AllPass true true true true true h = record {
  on_kind = refl;
  on_size = refl;
  on_mtime = refl;
  on_md5 = λ _. refl;
}
tests-AllPass true true true true false h = cc
tests-AllPass true true true false d h = record {
  on_kind = refl;
  on_size = refl;
  on_mtime = refl;
  on_md5 = λ e. cc;
}
tests-AllPass true true false r d h = cc
tests-AllPass true false t r d h = cc
tests-AllPass false s t r d h = cc

AllPass-tests : (k s t r d : Bool) → AllPass k s t r d → tests k s t r d ≡ false
AllPass-tests k s t true d p = rw (p.on_kind, p.on_size, p.on_mtime, p.on_md5 refl) refl
AllPass-tests k s t false d p = rw (p.on_kind, p.on_size, p.on_mtime) refl

module _ (src dest : FileMetadata) where
  abbrev Passing : Type 0
  Passing =
      AllPass (bool_eq (is_reg src.mode) (is_reg dest.mode)) (src.size == dest.size)
        (eq_ℤ src.mtime dest.mtime) (is_reg src.mode) (bytes_eq src.md5 dest.md5)

  Passing-Same : Passing → Same src dest
  Passing-Same p = record {
    kind = (bool_eq_iff (is_reg src.mode) (is_reg dest.mode)).0 p.on_kind;
    size = (==_iff src.size dest.size).0 p.on_size;
    mtime = (eq_ℤ_iff src.mtime dest.mtime).0 p.on_mtime;
    md5 = λ r. (bytes_eq_iff src.md5 dest.md5).0 (p.on_md5 r);
  }

  Same-Passing : Same src dest → Passing
  Same-Passing s = record {
    on_kind = (bool_eq_iff (is_reg src.mode) (is_reg dest.mode)).1 s.kind;
    on_size = (==_iff src.size dest.size).1 s.size;
    on_mtime = (eq_ℤ_iff src.mtime dest.mtime).1 s.mtime;
    on_md5 = λ r. (bytes_eq_iff src.md5 dest.md5).1 (s.md5 r);
  }

  -- needSync leaves a file alone exactly where the two entries agree on being a regular file, on
  -- size and modification time, and, for regular files, on the digest.
  pub need_sync_iff : (need_sync src dest ≡ false) ↔ Same src dest
  unfolding need_sync
  need_sync_iff = (
    (λ h. Passing-Same (tests-AllPass _ _ _ _ _ h)),
    (λ s. AllPass-tests _ _ _ _ _ (Same-Passing s)),
  )

-- Where a path of the source goes.
abbrev pub counterpart : Bytes → Bytes → Bytes → Bytes
counterpart src_dir dest_dir path = dest_dir ++ drop (length src_dir) path

-- No path of the source is shorter than the source directory's.
abbrev pub Inside : Bytes → MetadataMap → Type 0
Inside src_dir = All (λ (e : Bytes × FileMetadata). length src_dir ≤ length e.0)

-- The tasks that the entries of the source ask for, one by one.
module _ (dest : MetadataMap) (src_dir dest_dir : Bytes) where
  abbrev pub tasks_for : MetadataMap → List SyncTask
  tasks_for [] = []
  tasks_for ((path, meta) ∷ rest) =
      if wanted meta (find (counterpart src_dir dest_dir path) dest)
      then task_of path (counterpart src_dir dest_dir path) meta ∷ tasks_for rest
      else tasks_for rest

  moved_path-counterpart :
      (path : Bytes)
      → length src_dir ≤ length path
      → moved_path src_dir dest_dir path ≡ some (counterpart src_dir dest_dir path)
  unfolding moved_path
  moved_path-counterpart path h = ground arith

  -- For source paths that begin with the source directory, compareMetadata does not throw, and
  -- makes a task exactly for each entry that has no counterpart under the destination directory or
  -- one that needSync finds different, in the order of the source map.
  pub compare_metadata-tasks_for :
      (src : MetadataMap)
      → Inside src_dir src
      → compare_metadata dest src_dir dest_dir src ≡ some (tasks_for src)
  unfolding compare_metadata
  compare_metadata-tasks_for [] h = refl
  compare_metadata-tasks_for ((path, meta) ∷ rest) h =
      ap
        (λ o.
          add_task dest src_dir dest_dir path meta o (compare_metadata dest src_dir dest_dir rest))
        (moved_path-counterpart path h.0)
      ∙ ap (add_task dest src_dir dest_dir path meta (some (counterpart src_dir dest_dir path)))
          (compare_metadata-tasks_for rest h.1)
      ∙ some-if (wanted meta (find (counterpart src_dir dest_dir path) dest)) _ _
