-- ===== src/Wire/Laws.antt =====
-- Encoding and decoding of the words of the protocol.
use native.Mathlib.Nat.{pow-suc, mod-eq_of_lt}
use file_sync_tool.Base.{
  ℕ, zero, suc, ◌+◌, ◌*◌, ◌/◌, ◌%◌, ◌^◌, ◌≤◌, ◌<◌, ◌≡◌, refl, ap, ◌∙◌, arith, length,
}
use file_sync_tool.Base.Int.{ℤ, pos, negsuc}
use file_sync_tool.Wire.{encode, decode, to_word, of_word, two32, two64, encode_int, encode_off}

pub length-encode : (w n : ℕ) → length (encode w n) ≡ w
unfolding encode
length-encode zero n = refl
length-encode (suc w) n = ap suc (length-encode w (n / 256))

-- A number below 256^w comes back from its `w` bytes.
pub decode-encode : (w n : ℕ) → n < 256 ^ w → decode (encode w n) ≡ n
unfolding encode decode
decode-encode zero n h = omega arith
decode-encode (suc w) n h =
    let e : 256 ^ suc w ≡ 256 ^ w * 256 = pow-suc 256 w in
    let q : n / 256 < 256 ^ w = omega arith in omega (arith, decode-encode w (n / 256) q)

-- The range of a signed type of modulus `m`.
abbrev pub InRange : ℕ → ℤ → Type 0
InRange m (pos n) = n + n < m
InRange m (negsuc n) = n + n + 2 ≤ m

module _ (m : ℕ) where
  pub to_word-lt : (z : ℤ) → 0 < m → to_word m z < m
  unfolding to_word
  to_word-lt (pos n) h = omega arith
  to_word-lt (negsuc n) h = omega arith

  pub of_word-to_word : (z : ℤ) → InRange m z → of_word m (to_word m z) ≡ z
  unfolding of_word to_word
  of_word-to_word (pos n) h = let e : n % m ≡ n = mod-eq_of_lt (omega arith) in ground (arith, e)
  of_word-to_word (negsuc n) h = let e : n % m ≡ n = mod-eq_of_lt (omega arith) in ground (arith, e)

-- An int in range comes back from its four bytes on the wire, negative ones included.
pub decode-encode_int : (z : ℤ) → InRange two32 z → of_word two32 (decode (encode_int z)) ≡ z
unfolding encode_int
decode-encode_int z h =
    ap (of_word two32) (decode-encode 4 (to_word two32 z) (to_word-lt two32 z (omega arith)))
    ∙ of_word-to_word two32 z h

-- An off_t in range comes back from its eight bytes on the wire, negative ones included.
pub decode-encode_off : (z : ℤ) → InRange two64 z → of_word two64 (decode (encode_off z)) ≡ z
unfolding encode_off
decode-encode_off z h =
    ap (of_word two64) (decode-encode 8 (to_word two64 z) (to_word-lt two64 z (omega arith)))
    ∙ of_word-to_word two64 z h
