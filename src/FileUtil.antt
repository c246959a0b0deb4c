-- ===== src/FileUtil.antt =====
-- LinuxFileUtil (src/utils/LinuxFileUtil.cpp): the calls with logic of their own.
pub mod Laws
use file_sync_tool.Base.{
  ℕ, Bool, true, false, Option, none, some, List, [], ◌∷◌, ◌++◌, ◌==◌, if◌then◌else◌,
}
use file_sync_tool.Base.Text.{Bytes}
use file_sync_tool.Disk.{Disk, Stat}

-- substr(0, find_last_of('/')), `none` where there is no slash.
unfoldable pub parent : Bytes → Option Bytes
parent [] = none
parent (c ∷ cs) = elim (parent cs) [
  | some p ↦ some (c ∷ p)
  | none ↦ if c == b'/' then some [] else none
]

-- The values that currentPath takes in LinuxFileUtil::createDirectory, and the path itself.
unfoldable pub prefixes : Bytes → Bytes → List Bytes
prefixes before [] = before ∷ []
prefixes before (c ∷ cs) =
    let rest = prefixes (before ++ c ∷ []) cs in if c == b'/' then before ∷ rest else rest

module _ (D : Disk) where
  -- LinuxFileUtil::fileExists
  unfoldable pub file_exists : D.State → Bytes → Bool
  file_exists s path = elim (D.stat s path) [ none ↦ false | some st ↦ true ]

  -- LinuxFileUtil::setFileMode. Its callers go on with the state that a failed call left.
  unfoldable pub set_file_mode : D.State → Bytes → ℕ → Bool × D.State
  set_file_mode s path mode = elim (D.chmod s path mode) [ none ↦ (false, s) | some t ↦ (true, t) ]

  -- One round of the loop: nothing to do for an empty path or one that exists.
  unfoldable pub ensure_directory : D.State → Bytes → ℕ → Bool × D.State
  ensure_directory s [] mode = (true, s)
  ensure_directory s (c ∷ cs) mode = elim (D.stat s (c ∷ cs)) [
    | some st ↦ (true, s)
    | none ↦ elim (D.mkdir s (c ∷ cs) mode) [ none ↦ (false, s) | some t ↦ (true, t) ]
  ]

  unfoldable pub ensure_directories : D.State → List Bytes → ℕ → Bool × D.State
  ensure_directories s [] mode = (true, s)
  ensure_directories s (p ∷ ps) mode =
      let (made, t) = ensure_directory s p mode in
      let rest = ensure_directories t ps mode in if made then rest else (false, t)

  -- LinuxFileUtil::createDirectory. Directories made before a failure stay.
  unfoldable pub create_directory : D.State → Bytes → ℕ → Bool × D.State
  unfolding ensure_directories ensure_directory prefixes
  create_directory s path mode = ensure_directories s (prefixes [] path) mode
