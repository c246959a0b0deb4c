-- ===== src/Metadata.antt =====
-- FileMetadata, SyncTask, FileSync::needSync and compareMetadata (src/core/FileSync.cpp,
-- include/FileSync.h). An unordered map is a list of its entries in the order of the iteration.
pub mod Laws
use file_sync_tool.Base.{
  ℕ, ◌/◌, ◌%◌, Bool, true, false, not, ◌||◌, Option, none, some, List, [], ◌∷◌, ◌++◌, length, drop,
  ltb, ◌==◌, if◌then◌else◌,
}
use file_sync_tool.Base.Int.{ℤ, eq_ℤ}
use file_sync_tool.Base.Text.{Bytes, bytes_eq}

pub record FileMetadata : Type 0 where
  pub path : Bytes
  pub size : ℕ
  pub mtime : ℤ
  pub mode : ℕ
  pub md5 : Bytes

pub record SyncTask : Type 0 where
  pub src_path : Bytes
  pub dest_path : Bytes
  pub is_directory : Bool
  pub mode : ℕ

abbrev pub MetadataMap : Type 0
MetadataMap = List (Bytes × FileMetadata)

-- S_ISREG and S_ISDIR: the type bits of a mode, 0170000.
abbrev pub is_reg : ℕ → Bool
is_reg mode = mode / 4096 % 16 == 8

abbrev pub is_dir : ℕ → Bool
is_dir mode = mode / 4096 % 16 == 4

abbrev pub bool_eq : Bool → Bool → Bool
bool_eq true b = b
bool_eq false b = not b

-- FileSync::needSync
unfoldable pub need_sync : FileMetadata → FileMetadata → Bool
need_sync src dest =
    if not (bool_eq (is_reg src.mode) (is_reg dest.mode))
    then true
    else if not (src.size == dest.size) || not (eq_ℤ src.mtime dest.mtime)
    then true
    else if is_reg src.mode
    then not (bytes_eq src.md5 dest.md5)
    else false

-- destMetadata.find(destPath)
unfoldable pub find : Bytes → MetadataMap → Option FileMetadata
find path [] = none
find path ((p, meta) ∷ rest) = if bytes_eq p path then some meta else find path rest

-- Whether an entry of the source gives a task.
unfoldable pub wanted : FileMetadata → Option FileMetadata → Bool
wanted src none = true
wanted src (some dest) = need_sync src dest

-- destDir + srcPath.substr(srcDir.length()); substr throws where the path is too short.
unfoldable pub moved_path : Bytes → Bytes → Bytes → Option Bytes
moved_path src_dir dest_dir path =
    if ltb (length path) (length src_dir)
    then none
    else some (dest_dir ++ drop (length src_dir) path)

abbrev pub task_of : Bytes → Bytes → FileMetadata → SyncTask
task_of src dest meta = record {
  src_path = src;
  dest_path = dest;
  is_directory = is_dir meta.mode;
  mode = meta.mode;
}

module _ (dest : MetadataMap) (src_dir dest_dir : Bytes) where
  abbrev pub add_task :
      Bytes → FileMetadata → Option Bytes → Option (List SyncTask) → Option (List SyncTask)
  add_task path meta none tasks = none
  add_task path meta (some to) none = none
  add_task path meta (some to) (some tasks) =
      if wanted meta (find to dest) then some (task_of path to meta ∷ tasks) else some tasks

  -- FileSync::compareMetadata; `none` where substr throws.
  unfoldable pub compare_metadata : MetadataMap → Option (List SyncTask)
  compare_metadata [] = some []
  compare_metadata ((path, meta) ∷ rest) =
      add_task path meta (moved_path src_dir dest_dir path) (compare_metadata rest)
