-- ===== src/Base/Decimal.antt =====
-- Decimal numbers as `<<` writes and `>>` reads them.
use file_sync_tool.Base.{
  ℕ, zero, suc, ◌+◌, ◌-◌, ◌*◌, ◌/◌, ◌%◌, ◌<◌, ◌≡◌, refl, ap, ◌∙◌, Bool, true, false, ◌&&◌, [], ◌∷◌,
  ◌++◌, arith, leb, ltb, if◌then◌else◌, Bool-cases, ltb→lt, inl, inr,
}
use file_sync_tool.Base.Text.{Bytes}

-- The digits of a number, before those in `after`.
pub print_onto : ℕ → ℕ → Bytes → Bytes
print_onto zero n after = after
print_onto (suc fuel) n after =
    let more = print_onto fuel (n / 10) ((48 + n % 10) ∷ after) in
    if ltb n 10 then (48 + n) ∷ after else more

print_onto-append :
    (fuel n : ℕ) (after rest : Bytes)
    → print_onto fuel n after ++ rest ≡ print_onto fuel n (after ++ rest)
unfolding print_onto
print_onto-append zero n after rest = refl
print_onto-append (suc fuel) n after rest =
    ground (arith, print_onto-append fuel (n / 10) ((48 + n % 10) ∷ after) rest)

-- `stream << n`. A number n has at most n + 1 digits.
unfoldable pub print : ℕ → Bytes
unfolding print_onto
print n = print_onto (suc n) n []

abbrev pub is_digit : ℕ → Bool
is_digit c = leb 48 c && leb c 57

-- The digits at the front, onto the number read so far, and what follows them.
unfoldable pub scan : ℕ → Bytes → ℕ × Bytes
scan n [] = (n, [])
scan n (c ∷ cs) = let more = scan (n * 10 + (c - 48)) cs in if is_digit c then more else (n, c ∷ cs)

scan-cons : (m d : ℕ) (rest : Bytes) → d < 10 → scan m ((48 + d) ∷ rest) ≡ scan (m * 10 + d) rest
unfolding scan
scan-cons m d rest h = let e : 48 + d - 48 ≡ d = omega arith in ground (arith, e)

scan-print_onto :
    (fuel n : ℕ) (after : Bytes) → n < fuel → scan 0 (print_onto fuel n after) ≡ scan n after
unfolding print_onto
scan-print_onto zero n after h = absurd (omega arith)
scan-print_onto (suc fuel) n after h = elim (Bool-cases (ltb n 10)) [
  | inl small ↦
      rw small (scan-cons 0 n after (ltb→lt n 10 small) ∙ ap (λ k. scan k after) (omega arith))
  | inr large ↦ rw large (
      scan-print_onto fuel (n / 10) ((48 + n % 10) ∷ after) (ground arith)
      ∙ scan-cons (n / 10) (n % 10) after (omega arith)
      ∙ ap (λ k. scan k after) (omega arith))
]

-- Reading the digits of a printed number gives it back.
pub scan-print :
    (n : ℕ) (c : ℕ) (rest : Bytes)
    → is_digit c ≡ false
    → scan 0 (print n ++ c ∷ rest) ≡ (n, c ∷ rest)
unfolding print
scan-print n c rest h =
    ap (scan 0) (print_onto-append (suc n) n [] (c ∷ rest))
    ∙ scan-print_onto (suc n) n (c ∷ rest) (omega arith)
    ∙ stops
  where
    stops : scan n (c ∷ rest) ≡ (n, c ∷ rest)
    stops = unfold scan in ground (arith, h)

print_onto-digit :
    (fuel n : ℕ) (after : Bytes)
    → n < fuel
    → (d : ℕ) × (ds : Bytes) × (print_onto fuel n after ≡ d ∷ ds) × (is_digit d ≡ true)
unfolding print_onto
print_onto-digit zero n after h = absurd (omega arith)
print_onto-digit (suc fuel) n after h = elim (Bool-cases (ltb n 10)) [
  | inl small ↦ (48 + n, after, rw small, ground arith)
  | inr large ↦ rw large (print_onto-digit fuel (n / 10) ((48 + n % 10) ∷ after) (ground arith))
]

-- A printed number begins with a digit.
pub print-digit : (n : ℕ) → (d : ℕ) × (ds : Bytes) × (print n ≡ d ∷ ds) × (is_digit d ≡ true)
unfolding print
print-digit n = print_onto-digit (suc n) n [] (omega arith)
