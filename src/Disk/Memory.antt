-- ===== src/Disk/Memory.antt =====
-- A file system in memory, on which the assumptions on a disk hold.
use file_sync_tool.Base.{
  ℕ, ◌+◌, ◌≡◌, ◌≢◌, refl, sym, ap, ◌∙◌, false, Option, none, some, [], ◌++◌, arith, length, subst,
  unwrap, none≢some, if◌then◌else◌,
}
use file_sync_tool.Base.Int.{pos}
use file_sync_tool.Base.Text.{Bytes, bytes_eq, bytes_eq_refl, bytes_eq_iff}
use file_sync_tool.Disk.{Disk, Stat, IsLawful, or_empty}

pub data Node : Type 0 where
  file : Bytes → ℕ → Node
  dir : ℕ → Node

abbrev pub Files : Type 0
Files = Bytes → Option Node

abbrev pub put : Files → Bytes → Option Node → Files
put s p n q = if bytes_eq p q then n else s q

abbrev pub bytes_of : Option Node → Option Bytes
bytes_of none = none
bytes_of (some (file bs mode)) = some bs
bytes_of (some (dir mode)) = none

abbrev pub stat_of : Option Node → Option Stat
stat_of none = none
stat_of (some (file bs mode)) =
    some (record { size = length bs; mtime = pos 0; mode = 32768 + mode })
stat_of (some (dir mode)) = some (record { size = 4096; mtime = pos 0; mode = 16384 + mode })

abbrev pub mkdir_at : Files → Bytes → ℕ → Option Node → Option Files
mkdir_at s p mode none = some (put s p (some (dir mode)))
mkdir_at s p mode (some n) = none

abbrev pub chmod_at : Files → Bytes → ℕ → Option Node → Option Files
chmod_at s p mode none = none
chmod_at s p mode (some (file bs _)) = some (put s p (some (file bs mode)))
chmod_at s p mode (some (dir _)) = some (put s p (some (dir mode)))

abbrev pub rename_at : Files → Bytes → Bytes → Option Node → Option Files
rename_at s p q none = none
rename_at s p q (some n) = some (put (put s p none) q (some n))

abbrev pub trunc_at : Files → Bytes → Option Node → Option Files
trunc_at s p none = some (put s p (some (file [] 420)))
trunc_at s p (some (file bs mode)) = some (put s p (some (file [] mode)))
trunc_at s p (some (dir mode)) = none

abbrev pub open_append_at : Files → Bytes → Option Node → Option Files
open_append_at s p none = some (put s p (some (file [] 420)))
open_append_at s p (some (file bs mode)) = some (put s p (some (file bs mode)))
open_append_at s p (some (dir mode)) = none

abbrev pub append_at : Files → Bytes → Bytes → Option Node → Files
append_at s p bs none = s
append_at s p bs (some (file old mode)) = put s p (some (file (old ++ bs) mode))
append_at s p bs (some (dir mode)) = s

abbrev pub memory : Disk
memory = record {
  State = Files;
  stat = λ s p. stat_of (s p);
  content = λ s p. bytes_of (s p);
  open_read = λ s p. bytes_of (s p);
  mkdir = λ s p mode. mkdir_at s p mode (s p);
  chmod = λ s p mode. chmod_at s p mode (s p);
  rename = λ s p q. rename_at s p q (s p);
  remove = λ s p. put s p none;
  open_trunc = λ s p. trunc_at s p (s p);
  open_append = λ s p. open_append_at s p (s p);
  append = λ s p bs. append_at s p bs (s p);
}

-- What one changed node shows.
module _ (s : Files) (p : Bytes) where
  bytes-put :
      (q : Bytes) (n : Option Node)
      → bytes_of (put s p n q) ≡ (if bytes_eq p q then bytes_of n else bytes_of (s q))
  bytes-put q n = ground arith

  put_same :
      (q : Bytes) (n m : Option Node)
      → s p ≡ m
      → bytes_of n ≡ bytes_of m
      → bytes_of (put s p n q) ≡ bytes_of (s q)
  put_same q n m e k = ground (arith, bytes-put q n, bytes_eq_iff p q)

  stat-put : (q : Bytes) (n : Node) → stat_of (s q) ≢ none → stat_of (put s p (some n) q) ≢ none
  stat-put q (file bs mode) h = ground arith
  stat-put q (dir mode) h = ground arith

  module _ {t : Files} where
    bytes-some :
        (q : Bytes) (n : Option Node)
        → some (put s p n) ≡ some t
        → bytes_of (t q) ≡ (if bytes_eq p q then bytes_of n else bytes_of (s q))
    bytes-some q n h = ap (λ f. bytes_of (f q)) (sym (unwrap h)) ∙ bytes-put q n

    same-some :
        (q : Bytes) (n m : Option Node)
        → s p ≡ m
        → bytes_of n ≡ bytes_of m
        → some (put s p n) ≡ some t
        → bytes_of (t q) ≡ bytes_of (s q)
    same-some q n m e k h = ap (λ f. bytes_of (f q)) (sym (unwrap h)) ∙ put_same q n m e k

    trunc_lem :
        (q : Bytes) (n : Option Node)
        → trunc_at s p n ≡ some t
        → bytes_of (t q) ≡ (if bytes_eq p q then some [] else bytes_of (s q))
    trunc_lem q none h = bytes-some q _ h
    trunc_lem q (some (file bs mode)) h = bytes-some q _ h
    trunc_lem q (some (dir mode)) h = absurd (none≢some h)

    open_append_lem :
        (q : Bytes) (n : Option Node)
        → open_append_at s p n ≡ some t
        → bytes_of (t q) ≡ (if bytes_eq p q then some (or_empty (bytes_of n)) else bytes_of (s q))
    open_append_lem q none h = bytes-some q _ h
    open_append_lem q (some (file bs mode)) h = bytes-some q _ h
    open_append_lem q (some (dir mode)) h = absurd (none≢some h)

    mkdir_lem :
        (q : Bytes) (mode : ℕ) (n : Option Node)
        → s p ≡ n
        → mkdir_at s p mode n ≡ some t
        → bytes_of (t q) ≡ bytes_of (s q)
    mkdir_lem q mode none e h = same-some q _ _ e refl h
    mkdir_lem q mode (some n) e h = absurd (none≢some h)

    chmod_lem :
        (q : Bytes) (mode : ℕ) (n : Option Node)
        → s p ≡ n
        → chmod_at s p mode n ≡ some t
        → bytes_of (t q) ≡ bytes_of (s q)
    chmod_lem q mode none e h = absurd (none≢some h)
    chmod_lem q mode (some (file bs _)) e h = same-some q _ _ e refl h
    chmod_lem q mode (some (dir _)) e h = same-some q _ _ e refl h

    mkdir_stat_lem :
        (q : Bytes) (mode : ℕ) (n : Option Node)
        → mkdir_at s p mode n ≡ some t
        → stat_of (s q) ≢ none
        → stat_of (t q) ≢ none
    mkdir_stat_lem q mode none h k =
        subst (λ (f : Files). stat_of (f q) ≢ none) (unwrap h) (stat-put q (dir mode) k)
    mkdir_stat_lem q mode (some n) h k = absurd (none≢some h)

    mkdir_self_lem :
        (mode : ℕ) (n : Option Node) → mkdir_at s p mode n ≡ some t → stat_of (t p) ≢ none
    mkdir_self_lem mode none h =
        subst (λ (f : Files). stat_of (f p) ≢ none) (unwrap h) (ground (arith, bytes_eq_refl p))
    mkdir_self_lem mode (some n) h = absurd (none≢some h)

    trunc_ne :
        (q : Bytes) (n : Option Node) → trunc_at s p n ≡ some t → bytes_eq p q ≡ false → t q ≡ s q
    trunc_ne q none h k = ap (λ f. f q) (sym (unwrap h)) ∙ rw k refl
    trunc_ne q (some (file bs mode)) h k = ap (λ f. f q) (sym (unwrap h)) ∙ rw k refl
    trunc_ne q (some (dir mode)) h k = absurd (none≢some h)

    rename_lem :
        (q r : Bytes) (n : Option Node)
        → s p ≡ n
        → rename_at s p q n ≡ some t
        → bytes_of (t r)
          ≡ (if bytes_eq q r then bytes_of n else if bytes_eq p r then none else bytes_of (s r))
    rename_lem q r none e h = absurd (none≢some h)
    rename_lem q r (some n) e h = ap (λ f. bytes_of (f r)) (sym (unwrap h)) ∙ ground arith

  append_lem :
      (q bs : Bytes) (n : Option Node) {old : Bytes}
      → bytes_of n ≡ some old
      → bytes_of (append_at s p bs n q)
        ≡ (if bytes_eq p q then some (old ++ bs) else bytes_of (s q))
  append_lem q bs none h = absurd (none≢some h)
  append_lem q bs (some (file old mode)) h =
      bytes-put q _ ∙ ap (λ o. if bytes_eq p q then some (o ++ bs) else bytes_of (s q)) (unwrap h)
  append_lem q bs (some (dir mode)) h = absurd (none≢some h)

  append_ne : (q bs : Bytes) (n : Option Node) → bytes_eq p q ≡ false → append_at s p bs n q ≡ s q
  append_ne q bs none k = refl
  append_ne q bs (some (file old mode)) k = rw k refl
  append_ne q bs (some (dir mode)) k = refl

pub memory-IsLawful : IsLawful memory
memory-IsLawful = record {
  content-open_trunc = λ s p q h. trunc_lem s p q (s p) h;
  content-open_append = λ s p q h. open_append_lem s p q (s p) h;
  content-append = λ s p q bs h. append_lem s p q bs (s p) h;
  content-mkdir = λ s p q mode h. mkdir_lem s p q mode (s p) refl h;
  content-chmod = λ s p q mode h. chmod_lem s p q mode (s p) refl h;
  content-remove = λ s p q. bytes-put s p q none;
  content-rename = λ s p q r h _. rename_lem s p q r (s p) refl h;
  open_read-content = λ s p h. h;
  stat-mkdir = λ s p q mode h k. mkdir_stat_lem s p q mode (s p) h k;
  stat-mkdir_self = λ s p mode h. mkdir_self_lem s p mode (s p) h;
  open_read-open_trunc_ne = λ s p q h k. ap bytes_of (trunc_ne s p q (s p) h k);
  open_read-append_ne = λ s p q bs k. ap bytes_of (append_ne s p q bs (s p) k);
  open_read-remove_ne = λ s p q k. rw k refl;
  stat-open_trunc_ne = λ s p q h k. ap stat_of (trunc_ne s p q (s p) h k);
  stat-append_ne = λ s p q bs k. ap stat_of (append_ne s p q bs (s p) k);
  stat-remove_ne = λ s p q k. rw k refl;
}
