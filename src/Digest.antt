-- ===== src/Digest.antt =====
-- The digests of files: LinuxFileUtil::calculateMD5 and calculatePartialMD5
-- (src/utils/LinuxFileUtil.cpp) and RpcServer::calculateFileMD5 (src/rpc/RpcServer.cpp). The MD5
-- functions of OpenSSL are an argument, and the bytes of a file are those of its stream, `none`
-- where it does not open.
pub mod Laws
use file_sync_tool.Base.{
  ℕ, zero, suc, ◌+◌, ◌-◌, ◌*◌, ◌/◌, ◌%◌, ◌≡◌, ◌<◌, Bool, true, false, Option, none, some, List, [],
  ◌∷◌, ◌++◌, length, take, drop, min, ltb, ◌==◌, if◌then◌else◌, All,
}
use file_sync_tool.Base.Int.{ℤ, pos, negsuc}
use file_sync_tool.Base.Text.{Bytes}

-- MD5_Init, MD5_Update and MD5_Final.
pub record Hash : Type 1 where
  pub Context : Type 0
  pub init : Context
  pub update : Context → Bytes → Context
  pub final : Context → Bytes

-- As documented: updates add up, and the digest has 16 bytes.
pub record IsHash (H : Hash) : Type 0 where
  pub update-append :
      (c : H.Context) (xs ys : Bytes) → H.update (H.update c xs) ys ≡ H.update c (xs ++ ys)
  pub update_nil : (c : H.Context) → H.update c [] ≡ c
  pub final_length : (c : H.Context) → length (H.final c) ≡ 16
  pub final_bytes : (c : H.Context) → All (λ b. b < 256) (H.final c)

abbrev pub buffer_size : ℕ
buffer_size = 4096

-- A digit of "%x".
abbrev pub hex_digit : ℕ → ℕ
hex_digit d = if ltb d 10 then 48 + d else 87 + d

-- sprintf(hex, "%02x", b) of a byte
unfoldable pub hex_byte : ℕ → Bytes
hex_byte b = hex_digit (b / 16) ∷ (hex_digit (b % 16) ∷ [])

unfoldable pub hex_text : Bytes → Bytes
unfolding hex_byte
hex_text [] = []
hex_text (b ∷ bs) = hex_byte b ++ hex_text bs

-- The digits that std::hex prints of a byte, and std::setw(2) with std::setfill('0').
abbrev pub stream_digits : ℕ → Bytes
stream_digits b =
    if ltb b 16 then hex_digit b ∷ [] else hex_digit (b / 16) ∷ (hex_digit (b % 16) ∷ [])

abbrev pub fill_two : Bytes → Bytes
fill_two [] = 48 ∷ (48 ∷ [])
fill_two (d ∷ []) = 48 ∷ (d ∷ [])
fill_two (d ∷ (e ∷ ds)) = d ∷ (e ∷ ds)

unfoldable pub stream_text : Bytes → Bytes
stream_text [] = []
stream_text (b ∷ bs) = fill_two (stream_digits b) ++ stream_text bs

module _ (H : Hash) where
  -- The last read, of fewer bytes than the buffer has: `if (file.gcount() > 0)`.
  abbrev pub update_last : H.Context → Bytes → H.Context
  update_last c [] = c
  update_last c (b ∷ bs) = H.update c (b ∷ bs)

  -- The loop `while (file.read(buffer, sizeof(buffer)))`. A round takes 4096 bytes.
  unfoldable pub hash_blocks : ℕ → H.Context → Bytes → H.Context
  hash_blocks zero c bs = update_last c bs
  hash_blocks (suc fuel) c bs =
      let more = hash_blocks fuel (H.update c (take buffer_size bs)) (drop buffer_size bs) in
      if ltb (length bs) buffer_size then update_last c bs else more

  -- LinuxFileUtil::calculateMD5
  unfoldable pub calculate_md5 : Option Bytes → Bytes
  unfolding hash_blocks hex_text
  calculate_md5 none = []
  calculate_md5 (some bs) = hex_text (H.final (hash_blocks (length bs) H.init bs))

  -- RpcServer::calculateFileMD5
  unfoldable pub calculate_file_md5 : Option Bytes → Bytes
  unfolding hash_blocks stream_text
  calculate_file_md5 none = []
  calculate_file_md5 (some bs) = stream_text (H.final (hash_blocks (length bs) H.init bs))

  -- The loop of calculatePartialMD5: a read that comes back short ends it, and its bytes are
  -- dropped.
  unfoldable pub hash_range : ℕ → H.Context → ℕ → Bytes → H.Context
  hash_range zero c remaining bs = c
  hash_range (suc fuel) c remaining bs =
      let size = min buffer_size remaining in
      let more = hash_range fuel (H.update c (take size bs)) (remaining - size) (drop size bs) in
      if remaining == 0 then c else if ltb (length bs) size then c else more

  -- LinuxFileUtil::calculatePartialMD5; a negative offset fails the stream.
  unfoldable pub calculate_partial_md5 : Option Bytes → ℤ → ℕ → Bytes
  unfolding hash_range hex_text
  calculate_partial_md5 none offset size = []
  calculate_partial_md5 (some bs) (negsuc n) size = []
  calculate_partial_md5 (some bs) (pos n) size =
      hex_text (H.final (hash_range size H.init size (drop n bs)))
