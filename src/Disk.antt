-- ===== src/Disk.antt =====
-- The file system, as the calls that the program makes of it see it: an unknown state with the
-- system calls and stream operations as its functions, and what the program relies on.
-- A file is known by the text of its path: links and other spellings of a path are left out.
pub mod Memory
use file_sync_tool.Base.{ℕ, ◌≡◌, ◌≢◌, false, Option, none, some, List, [], ◌++◌, if◌then◌else◌}
use file_sync_tool.Base.Int.{ℤ}
use file_sync_tool.Base.Text.{Bytes, bytes_eq}

-- The fields of struct stat that the program reads.
pub record Stat : Type 0 where
  pub size : ℕ
  pub mtime : ℤ
  pub mode : ℕ

pub record Disk : Type 1 where
  pub State : Type 0
  -- stat(2), `none` where it fails
  pub stat : State → Bytes → Option Stat
  -- the bytes of the regular file at a path, `none` where there is no such file
  pub content : State → Bytes → Option Bytes
  -- the same through a stream opened for reading, `none` where the opening fails
  pub open_read : State → Bytes → Option Bytes
  -- mkdir(2), chmod(2), rename(2): `none` where they fail
  pub mkdir : State → Bytes → ℕ → Option State
  pub chmod : State → Bytes → ℕ → Option State
  pub rename : State → Bytes → Bytes → Option State
  -- remove(3), whose result the program never reads
  pub remove : State → Bytes → State
  -- opening for writing: emptied (O_CREAT | O_TRUNC), or at the end (O_CREAT | O_APPEND)
  pub open_trunc : State → Bytes → Option State
  pub open_append : State → Bytes → Option State
  -- what a write at the end of the open file has accepted
  pub append : State → Bytes → Bytes → State

abbrev pub or_empty : Option Bytes → Bytes
or_empty none = []
or_empty (some bs) = bs

-- What the program relies on, as the manual pages state it.
pub record IsLawful (D : Disk) : Type 0 where
  pub content-open_trunc :
      (s : D.State) (p q : Bytes) {t : D.State}
      → D.open_trunc s p ≡ some t
      → D.content t q ≡ (if bytes_eq p q then some [] else D.content s q)
  pub content-open_append :
      (s : D.State) (p q : Bytes) {t : D.State}
      → D.open_append s p ≡ some t
      → D.content t q ≡ (if bytes_eq p q then some (or_empty (D.content s p)) else D.content s q)
  pub content-append :
      (s : D.State) (p q bs : Bytes) {old : Bytes}
      → D.content s p ≡ some old
      → D.content (D.append s p bs) q ≡ (if bytes_eq p q then some (old ++ bs) else D.content s q)
  pub content-mkdir :
      (s : D.State) (p q : Bytes) (mode : ℕ) {t : D.State}
      → D.mkdir s p mode ≡ some t
      → D.content t q ≡ D.content s q
  pub content-chmod :
      (s : D.State) (p q : Bytes) (mode : ℕ) {t : D.State}
      → D.chmod s p mode ≡ some t
      → D.content t q ≡ D.content s q
  pub content-remove :
      (s : D.State) (p q : Bytes)
      → D.content (D.remove s p) q ≡ (if bytes_eq p q then none else D.content s q)
  pub content-rename :
      (s : D.State) (p q r : Bytes) {t : D.State}
      → D.rename s p q ≡ some t
      → bytes_eq p q ≡ false
      → D.content t r
        ≡ (if bytes_eq q r then D.content s p else if bytes_eq p r then none else D.content s r)
  pub open_read-content :
      (s : D.State) (p : Bytes) {bs : Bytes} → D.open_read s p ≡ some bs → D.content s p ≡ some bs
  pub stat-mkdir :
      (s : D.State) (p q : Bytes) (mode : ℕ) {t : D.State}
      → D.mkdir s p mode ≡ some t
      → D.stat s q ≢ none
      → D.stat t q ≢ none
  pub stat-mkdir_self :
      (s : D.State) (p : Bytes) (mode : ℕ) {t : D.State}
      → D.mkdir s p mode ≡ some t
      → D.stat t p ≢ none
  -- Writing to one path changes no other.
  pub open_read-open_trunc_ne :
      (s : D.State) (p q : Bytes) {t : D.State}
      → D.open_trunc s p ≡ some t
      → bytes_eq p q ≡ false
      → D.open_read t q ≡ D.open_read s q
  pub open_read-append_ne :
      (s : D.State) (p q bs : Bytes)
      → bytes_eq p q ≡ false
      → D.open_read (D.append s p bs) q ≡ D.open_read s q
  pub open_read-remove_ne :
      (s : D.State) (p q : Bytes)
      → bytes_eq p q ≡ false
      → D.open_read (D.remove s p) q ≡ D.open_read s q
  pub stat-open_trunc_ne :
      (s : D.State) (p q : Bytes) {t : D.State}
      → D.open_trunc s p ≡ some t
      → bytes_eq p q ≡ false
      → D.stat t q ≡ D.stat s q
  pub stat-append_ne :
      (s : D.State) (p q bs : Bytes)
      → bytes_eq p q ≡ false
      → D.stat (D.append s p bs) q ≡ D.stat s q
  pub stat-remove_ne :
      (s : D.State) (p q : Bytes) → bytes_eq p q ≡ false → D.stat (D.remove s p) q ≡ D.stat s q
