-- ===== src/Progress.antt =====
-- FileSync::saveProgress, loadProgress, getProgressFilePath (src/core/FileSync.cpp) and
-- SyncProgress (include/FileSync.h). A stream opened for writing takes all that is written to it.
pub mod Laws
use file_sync_tool.Base.{
  ℕ, ◌+◌, ◌^◌, ◌-◌, Bool, true, false, ◌&&◌, ◌||◌, Option, none, some, List, [], ◌∷◌, ◌++◌, ltb,
  leb, ◌==◌, if◌then◌else◌,
}
use file_sync_tool.Base.Int.{ℤ, pos, negsuc, sub_ℕ}
use file_sync_tool.Base.Text.{Bytes, bytes_eq, codes}
use file_sync_tool.Base.Decimal.{print, scan, is_digit}
use file_sync_tool.Disk.{Disk}

pub record SyncProgress : Type 0 where
  pub file_path : Bytes
  pub offset : ℤ
  pub total_size : ℤ

-- FileSync::getProgressFilePath
unfoldable pub progress_path : Bytes → Bytes
progress_path path = path ++ codes ".sync_progress"

-- The three lines that saveProgress writes.
unfoldable pub progress_text : Bytes → ℕ → ℕ → Bytes
progress_text path offset total = path ++ 10 ∷ (print offset ++ 10 ∷ (print total ++ 10 ∷ []))

-- isspace in the "C" locale
abbrev pub is_space : ℕ → Bool
is_space c = c == 32 || (leb 9 c && leb c 13)

unfoldable pub skip_space : Bytes → Bytes
skip_space [] = []
skip_space (c ∷ cs) = let rest = skip_space cs in if is_space c then rest else c ∷ cs

unfoldable pub read_token : Bytes → Bytes × Bytes
read_token [] = ([], [])
read_token (c ∷ cs) =
    let (word, rest) = read_token cs in if is_space c then ([], c ∷ cs) else (c ∷ word, rest)

-- `stream >> text`
unfoldable pub read_word : Bytes → Bytes × Bytes
unfolding skip_space read_token
read_word bs = read_token (skip_space bs)

-- The number after a sign: a stream that finds none, or one out of range, has failed.
abbrev pub signed : Bool → ℕ × Bytes → ℤ × Option Bytes
signed true (n, rest) =
    if ltb n (2 ^ 63 + 1) then (sub_ℕ 0 n, some rest) else (sub_ℕ 0 (2 ^ 63), none)
signed false (n, rest) = if ltb n (2 ^ 63) then (pos n, some rest) else (pos (2 ^ 63 - 1), none)

unfoldable pub read_digits : Bool → Bytes → ℤ × Option Bytes
read_digits negative [] = (pos 0, none)
read_digits negative (c ∷ cs) =
    if is_digit c then signed negative (scan 0 (c ∷ cs)) else (pos 0, none)

unfoldable pub read_sign : Bytes → ℤ × Option Bytes
read_sign [] = (pos 0, none)
read_sign (c ∷ cs) =
    if c == b'-'
    then read_digits true cs
    else if c == b'+'
    then read_digits false cs
    else read_digits false (c ∷ cs)

-- `stream >> number` into a number that holds 0. A failed stream reads nothing more.
unfoldable pub read_off : Option Bytes → ℤ × Option Bytes
unfolding read_sign read_digits skip_space
read_off none = (pos 0, none)
read_off (some bs) = read_sign (skip_space bs)

-- What loadProgress makes of the text of a progress file.
unfoldable pub parse_progress : Bytes → Bytes → SyncProgress
unfolding read_word read_off
parse_progress path text =
    let (saved, rest) = read_word text in
    let (offset, more) = read_off (some rest) in
    let (total, _) = read_off more in
    if bytes_eq saved path
    then record { file_path = path; offset = offset; total_size = total }
    else record { file_path = path; offset = pos 0; total_size = pos 0 }

abbrev pub is_pos : ℤ → Bool
is_pos (pos n) = ltb 0 n
is_pos (negsuc n) = false

-- The guard that resumeSync and syncFile put before a resumed transfer.
unfoldable pub resumable : SyncProgress → Bool
resumable p = is_pos p.offset && is_pos p.total_size

module _ (D : Disk) where
  -- FileSync::saveProgress
  unfoldable pub save_progress : D.State → Bytes → ℕ → ℕ → D.State
  unfolding progress_path progress_text
  save_progress s path offset total = elim (D.open_trunc s (progress_path path)) [
    | none ↦ s
    | some t ↦ D.append t (progress_path path) (progress_text path offset total)
  ]

  -- std::remove of the progress file
  unfoldable pub clear_progress : D.State → Bytes → D.State
  unfolding progress_path
  clear_progress s path = D.remove s (progress_path path)

  -- FileSync::loadProgress
  unfoldable pub load_progress : D.State → Bytes → SyncProgress
  unfolding progress_path parse_progress
  load_progress s path = elim (D.open_read s (progress_path path)) [
    | none ↦ record { file_path = path; offset = pos 0; total_size = pos 0 }
    | some text ↦ parse_progress path text
  ]
