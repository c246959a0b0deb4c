-- ===== src/Space/Laws.antt =====
-- When the tests for free space answer what they are asked.
use file_sync_tool.Base.{
  ℕ, ◌+◌, ◌-◌, ◌*◌, ltb→lt, ◌%◌, ◌≡◌, ◌≤◌, ◌<◌, ◌↔◌, ap, subst, ◌∙◌, true, not, Option, some, arith,
  ltb, Bool-cases, inl, inr,
}
use native.Mathlib.Nat.{mod-eq_of_lt, mod-lt}
use file_sync_tool.Base.Int.{pos, negsuc, ltb_ℤ}
use file_sync_tool.Base.Text.{Bytes}
use file_sync_tool.Wire.{of_word, two64}
use file_sync_tool.FileUtil.{parent}
use file_sync_tool.Space.{Volume, to_off, directory_of, check_disk_space, check_dest_space}

to_off-pos : (n : ℕ) → n + n < two64 → to_off n ≡ pos n
unfolding of_word
to_off-pos n h =
    let e : n % two64 ≡ n = mod-eq_of_lt (omega arith) in ap (of_word two64) e ∙ ground arith

to_off-negsuc : (n : ℕ) → two64 ≤ n + n → n < two64 → to_off n ≡ negsuc (two64 - 1 - n)
unfolding of_word
to_off-negsuc n h k = let e : n % two64 ≡ n = mod-eq_of_lt k in ap (of_word two64) e ∙ ground arith

abbrev pub Enough : ℕ → ℕ → Type 0
Enough n required = (n + n < two64) × (required ≤ n)

Enough-iff :
    (n required : ℕ)
    → n < two64
    → (not (ltb_ℤ (to_off n) (pos required)) ≡ true) ↔ Enough n required
Enough-iff n required h = elim (Bool-cases (ltb (n + n) two64)) [
  | inl small ↦
      let p : n + n < two64 = ltb→lt (n + n) two64 small in
      let e : to_off n ≡ pos n = to_off-pos n p in rw e (ground arith)
  | inr large ↦
      let e : to_off n ≡ negsuc (two64 - 1 - n) = to_off-negsuc n (ground arith) h in
      rw e (ground arith)
]

Cut-iff :
    (n required : ℕ) → (not (ltb_ℤ (to_off n) (pos required)) ≡ true) ↔ Enough (n % two64) required
Cut-iff n required =
    let below : n % two64 < two64 = mod-lt n (omega arith) in
    let e : n % two64 % two64 ≡ n % two64 = mod-eq_of_lt below in
    subst (λ z. (not (ltb_ℤ z (pos required)) ≡ true) ↔ Enough (n % two64) required)
      (ap (of_word two64) e) (Enough-iff (n % two64) required below)

-- Where statvfs answers, LinuxFileUtil::checkDiskSpace says yes exactly where f_bavail times
-- f_frsize, cut to 64 bits, is below 2^63 and at least what is required.
pub check_disk_space_iff :
    (v : Volume) (required : ℕ)
    → (check_disk_space (some v) (pos required) ≡ true)
      ↔ Enough (v.available * v.fragment_size % two64) required
unfolding check_disk_space
check_disk_space_iff v required = Cut-iff (v.available * v.fragment_size) required

-- Where statvfs answers for the directory of the destination, FileSync::checkDiskSpace says yes
-- exactly where f_bavail times f_bsize, cut to 64 bits, is below 2^63 and at least what is
-- required.
pub check_dest_space_iff :
    (statvfs : Bytes → Option Volume) (dest : Bytes) (v : Volume) (required : ℕ)
    → statvfs (directory_of (parent dest)) ≡ some v
    → (check_dest_space statvfs dest (pos required) ≡ true)
      ↔ Enough (v.available * v.block_size % two64) required
unfolding check_dest_space
check_dest_space_iff statvfs dest v required e =
    rw e (Cut-iff (v.available * v.block_size) required)
