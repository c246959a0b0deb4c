-- ===== src/Space.antt =====
-- Sizes and free space: LinuxFileUtil::getFileSize, getFileMtime, getFileMode, checkDiskSpace and
-- getFreeDiskSpace (src/utils/LinuxFileUtil.cpp), and FileSync::checkDiskSpace
-- (src/core/FileSync.cpp). What statvfs answers is an argument. The products are of type unsigned
-- long, and off_t is signed.
pub mod Laws
use file_sync_tool.Base.{ℕ, ◌*◌, ◌%◌, Bool, true, false, not, Option, none, some, List, [], ◌∷◌}
use file_sync_tool.Base.Int.{ℤ, pos, negsuc, ltb_ℤ}
use file_sync_tool.Base.Text.{Bytes, codes}
use file_sync_tool.Wire.{of_word, two64}
use file_sync_tool.Disk.{Disk, Stat}
use file_sync_tool.FileUtil.{parent}

-- The fields of struct statvfs that the program reads.
pub record Volume : Type 0 where
  pub available : ℕ
  pub fragment_size : ℕ
  pub block_size : ℕ

-- A product of unsigned long, stored into an off_t.
abbrev pub to_off : ℕ → ℤ
to_off n = of_word two64 (n % two64)

abbrev pub minus_one : ℤ
minus_one = negsuc 0

-- LinuxFileUtil::getFreeDiskSpace
unfoldable pub get_free_disk_space : Option Volume → ℤ
get_free_disk_space none = minus_one
get_free_disk_space (some v) = to_off (v.available * v.fragment_size)

-- LinuxFileUtil::checkDiskSpace
unfoldable pub check_disk_space : Option Volume → ℤ → Bool
check_disk_space none required = false
check_disk_space (some v) required = not (ltb_ℤ (to_off (v.available * v.fragment_size)) required)

-- FileSync::checkDiskSpace, which asks for the directory of the destination and counts in f_bsize.
abbrev pub directory_of : Option Bytes → Bytes
directory_of none = codes "."
directory_of (some dir) = dir

abbrev pub has_room : Option Volume → ℤ → Bool
has_room none required = false
has_room (some v) required = not (ltb_ℤ (to_off (v.available * v.block_size)) required)

unfoldable pub check_dest_space : (Bytes → Option Volume) → Bytes → ℤ → Bool
check_dest_space statvfs dest required = has_room (statvfs (directory_of (parent dest))) required

abbrev pub size_in : Option Stat → ℤ
size_in none = minus_one
size_in (some st) = pos st.size

abbrev pub mtime_in : Option Stat → ℤ
mtime_in none = minus_one
mtime_in (some st) = st.mtime

abbrev pub mode_in : Option Stat → ℕ
mode_in none = 0
mode_in (some st) = st.mode

module _ (D : Disk) (s : D.State) where
  -- LinuxFileUtil::getFileSize, getFileMtime, getFileMode
  unfoldable pub get_file_size : Bytes → ℤ
  get_file_size path = size_in (D.stat s path)

  unfoldable pub get_file_mtime : Bytes → ℤ
  get_file_mtime path = mtime_in (D.stat s path)

  unfoldable pub get_file_mode : Bytes → ℕ
  get_file_mode path = mode_in (D.stat s path)
