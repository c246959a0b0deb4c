-- ===== src/Scan.antt =====
-- What a synchronisation finds on disk: LinuxFileUtil::listDirectory (src/utils/LinuxFileUtil.cpp),
-- FileSync::collectMetadata and detectChanges (src/core/FileSync.cpp). The names that opendir and
-- readdir give of a directory are an argument, `none` where it does not open, and so are the MD5
-- functions. The recursion of collectMetadata runs on fuel, one for each level of directories.
pub mod Map
pub mod Laws
pub mod Total
pub mod Changes
use file_sync_tool.Base.{
  ℕ, zero, suc, Bool, true, false, not, ◌||◌, Option, none, some, List, [], ◌∷◌, ◌++◌,
  if◌then◌else◌,
}
use file_sync_tool.Base.Text.{Bytes, codes, bytes_eq}
use file_sync_tool.Disk.{Disk, Stat}
use file_sync_tool.Digest.{Hash, calculate_md5}
use file_sync_tool.Metadata.{
  FileMetadata, SyncTask, MetadataMap, is_reg, is_dir, find, compare_metadata,
}

-- The entries that listDirectory skips.
abbrev pub is_dots : Bytes → Bool
is_dots name = bytes_eq name (codes ".") || bytes_eq name (codes "..")

abbrev pub paths_in : Bytes → List Bytes → List Bytes
paths_in dir [] = []
paths_in dir (name ∷ names) =
    if is_dots name then paths_in dir names else (dir ++ (47 ∷ name)) ∷ paths_in dir names

abbrev pub listed : Bytes → Option (List Bytes) → List Bytes
listed dir none = []
listed dir (some names) = paths_in dir names

-- metadataMap[path] = meta
unfoldable pub set_entry : Bytes → FileMetadata → MetadataMap → MetadataMap
set_entry path meta [] = (path, meta) ∷ []
set_entry path meta ((p, m) ∷ rest) =
    if bytes_eq p path then (p, meta) ∷ rest else (p, m) ∷ set_entry path meta rest

abbrev pub insert_new : Bytes → FileMetadata → MetadataMap → Option FileMetadata → MetadataMap
insert_new path meta map none = map ++ (path, meta) ∷ []
insert_new path meta map (some old) = map

-- metadataMap.insert(first, last), which keeps the entries that are there.
unfoldable pub insert_entries : MetadataMap → MetadataMap → MetadataMap
insert_entries map [] = map
insert_entries map ((path, meta) ∷ rest) =
    insert_entries (insert_new path meta map (find path map)) rest

module _ (D : Disk) (H : Hash) (entries : D.State → Bytes → Option (List Bytes)) (s : D.State) where
  -- LinuxFileUtil::listDirectory
  unfoldable pub list_directory : Bytes → List Bytes
  list_directory dir = listed dir (entries s dir)

  abbrev pub metadata_of : Bytes → Stat → FileMetadata
  metadata_of path st = record {
    path = path;
    size = st.size;
    mtime = st.mtime;
    mode = st.mode;
    md5 = if is_reg st.mode then calculate_md5 H (D.open_read s path) else [];
  }

  abbrev pub join : MetadataMap → Option MetadataMap → Option MetadataMap
  join map none = none
  join map (some sub) = some (insert_entries map sub)

  -- The body of the loop for a path, with the entries so far.
  abbrev pub add_path :
      (Bytes → Option MetadataMap) → Bytes → Option Stat → MetadataMap → Option MetadataMap
  add_path sub path none map = some map
  add_path sub path (some st) map =
      let map' = set_entry path (metadata_of path st) map in
      let below = join map' (sub path) in if is_dir st.mode then below else some map'

  abbrev pub then_paths :
      Option MetadataMap → (MetadataMap → Option MetadataMap) → Option MetadataMap
  then_paths none next = none
  then_paths (some map) next = next map

  unfoldable pub add_paths :
      (Bytes → Option MetadataMap) → List Bytes → MetadataMap → Option MetadataMap
  unfolding set_entry insert_entries
  add_paths sub [] map = some map
  add_paths sub (path ∷ rest) map =
      then_paths (add_path sub path (D.stat s path) map) (add_paths sub rest)

  -- FileSync::collectMetadata, `none` where the fuel does not reach the bottom.
  unfoldable pub collect_metadata : ℕ → Bytes → Option MetadataMap
  unfolding add_paths list_directory
  collect_metadata zero dir = none
  collect_metadata (suc fuel) dir = add_paths (collect_metadata fuel) (list_directory dir) []

  abbrev pub compare_maps :
      Bytes → Bytes → Option MetadataMap → Option MetadataMap → Option (List SyncTask)
  compare_maps src_dir dest_dir none dest = none
  compare_maps src_dir dest_dir (some src) none = none
  compare_maps src_dir dest_dir (some src) (some dest) = compare_metadata dest src_dir dest_dir src

  -- FileSync::detectChanges
  unfoldable pub detect_changes : ℕ → Bytes → Bytes → Option (List SyncTask)
  unfolding collect_metadata
  detect_changes fuel src_dir dest_dir =
      compare_maps src_dir dest_dir (collect_metadata fuel src_dir) (collect_metadata fuel dest_dir)
