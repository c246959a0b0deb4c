-- ===== src/Wire.antt =====
-- The values of the wire protocol as the two ends hold them in memory and pass them to send and
-- recv: little-endian words, and signed integers in two's complement (x86-64 Linux: int has 4
-- bytes, size_t and off_t have 8, mode_t has 4).
pub mod Laws
use file_sync_tool.Base.{
  ℕ, zero, suc, ◌+◌, ◌-◌, ◌*◌, ◌/◌, ◌%◌, ◌^◌, List, [], ◌∷◌, ltb, if◌then◌else◌,
}
use file_sync_tool.Base.Int.{ℤ, pos, negsuc}
use file_sync_tool.Base.Text.{Bytes}

-- The low `w` bytes of a number, lowest first, and back.
unfoldable pub encode : ℕ → ℕ → Bytes
encode zero n = []
encode (suc w) n = (n % 256) ∷ encode w (n / 256)

unfoldable pub decode : Bytes → ℕ
decode [] = 0
decode (b ∷ bs) = b + 256 * decode bs

-- Two's complement modulo `m`, which is 2^32 for int and 2^64 for off_t.
unfoldable pub to_word : ℕ → ℤ → ℕ
to_word m (pos n) = n % m
to_word m (negsuc n) = m - 1 - n % m

unfoldable pub of_word : ℕ → ℕ → ℤ
of_word m n = if ltb (n + n) m then pos n else negsuc (m - 1 - n)

abbrev pub two32 : ℕ
two32 = 2 ^ 32

abbrev pub two64 : ℕ
two64 = 2 ^ 64

unfoldable pub encode_int : ℤ → Bytes
encode_int z = encode 4 (to_word two32 z)

unfoldable pub encode_off : ℤ → Bytes
encode_off z = encode 8 (to_word two64 z)
