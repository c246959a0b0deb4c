-- ===== src/Examples/Serving.antt =====
-- A file system in memory that serves one file and any directory beside it.
use file_sync_tool.Base.{
  ℕ, ◌≡◌, refl, sym, ap, ◌∙◌, subst, Bool, true, false, Option, none, some, [], arith, unwrap,
  none≢some, Bool-cases, inl, inr,
}
use file_sync_tool.Base.Text.{Bytes, codes, bytes_eq, bytes_eq_iff}
use file_sync_tool.Disk.Memory.{
  Node, file, dir, Files, put, mkdir_at, chmod_at, stat_of, trunc_at, append_at, memory,
}
use file_sync_tool.FileUtil.Laws.{Makes}
use file_sync_tool.Server.Session.Jobs.{Serves}

abbrev pub target : Bytes
target = codes "b/f"

abbrev not_dir : Option Node → Bool
not_dir none = true
not_dir (some (file bs mode)) = true
not_dir (some (dir mode)) = false

abbrev pub IsFile : Bytes → Type 0
IsFile p = bytes_eq p target ≡ true

abbrev pub IsOther : Bytes → Type 0
IsOther p = bytes_eq p target ≡ false

-- No directory stands where the file goes.
abbrev pub IsClear : Files → Type 0
IsClear s = not_dir (s target) ≡ true

same_place : {a b : Bool} → a ≡ false → a ≡ b → b ≡ true → ⊥
same_place h k l = cc

module _ (s : Files) (p : Bytes) where
  put-clear : (n : Option Node) → not_dir n ≡ true → IsClear s → IsClear (put s p n)
  put-clear n h g = ground arith

  put_other-clear : (n : Option Node) → IsOther p → IsClear s → IsClear (put s p n)
  put_other-clear n h g = rw h g

  mkdir_at-clear :
      (mode : ℕ) (n : Option Node)
      → stat_of n ≡ none
      → IsOther p
      → IsClear s
      → (t : Files) × (mkdir_at s p mode n ≡ some t) × IsClear t
  mkdir_at-clear mode none e h g = (put s p (some (dir mode)), refl, put_other-clear _ h g)
  mkdir_at-clear mode (some (file bs _)) e h g = absurd (none≢some (sym e))
  mkdir_at-clear mode (some (dir _)) e h g = absurd (none≢some (sym e))

  trunc_at-clear :
      (n : Option Node)
      → not_dir n ≡ true
      → IsClear s
      → (t : Files) × (trunc_at s p n ≡ some t) × IsClear t
  trunc_at-clear none h g = (put s p (some (file [] 420)), refl, put-clear _ refl g)
  trunc_at-clear (some (file bs mode)) h g =
      (put s p (some (file [] mode)), refl, put-clear _ refl g)
  trunc_at-clear (some (dir mode)) h g = cc

  append_at-clear : (bs : Bytes) (n : Option Node) → IsClear s → IsClear (append_at s p bs n)
  append_at-clear bs none g = g
  append_at-clear bs (some (file old mode)) g = put-clear _ refl g
  append_at-clear bs (some (dir mode)) g = g

  chmod_at-clear :
      (mode : ℕ) (n : Option Node) {t : Files}
      → s p ≡ n
      → chmod_at s p mode n ≡ some t
      → IsClear s
      → IsClear t
  chmod_at-clear mode none e h g = absurd (none≢some h)
  chmod_at-clear mode (some (file bs _)) e h g = subst IsClear (unwrap h) (put-clear _ refl g)
  chmod_at-clear mode (some (dir _)) e h g =
      let other : IsOther p = elim (Bool-cases (bytes_eq p target)) [
        | inr n ↦ n
        | inl y ↦
            absurd
              (same_place (ap not_dir e) (ap (λ q. not_dir (s q)) ((bytes_eq_iff p target).0 y)) g)
      ] in
      subst IsClear (unwrap h) (put_other-clear (some (dir mode)) other g)

pub memory-Makes : Makes memory IsOther IsClear
memory-Makes = record {
  mkdir_works = λ s p mode g other free _. mkdir_at-clear s p mode (s p) free other g;
}

pub memory-Serves : Serves memory IsOther IsFile IsClear
memory-Serves = record {
  makes = memory-Makes;
  opens = λ s p g here.
      trunc_at-clear s p (s p) (ap (λ q. not_dir (s q)) ((bytes_eq_iff p target).0 here) ∙ g) g;
  appends = λ s p bs g _. append_at-clear s p bs (s p) g;
  modes = λ s p mode g h. chmod_at-clear s p mode (s p) refl h g;
}
