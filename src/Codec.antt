-- ===== src/Codec.antt =====
-- Integers and strings in a buffer: the write and read functions of sylar/bytearray.cc that stand on
-- `write` and `read`, with `byteswap` of sylar/endian.h. The host is little-endian.
--
-- An integer of `w` bytes, signed or not, is its bit pattern, a number below 2 ^ (8 * w); a float or
-- a double is the pattern that `memcpy` takes from it. Signed arithmetic wraps, as compilers do it.
pub mod Chain
pub mod Fixed
pub mod Varint
pub mod Zigzag
pub mod Text
mod Tests
use ynwad.Base.{
  ℕ, zero, suc, ◌+◌, ◌-◌, ◌*◌, ◌/◌, ◌%◌, ◌^◌, Bool, true, false, Option, none, some, List, [], ◌∷◌,
  ◌++◌, reverse, length, ltb, leb, if◌then◌else◌, bit_and, bit_or, bit_xor,
}
use ynwad.ByteArray.{
  ByteArray, Endian, little, big, M, done, fault, buffer_overflow, ◌>>=◌, ◌>>◌, pure, write, read,
}
use mathlib.Core.Option

-- The bytes of a value in memory, lowest first, and the value of such bytes.
unfoldable pub to_bytes : ℕ → ℕ → List ℕ
to_bytes zero v = []
to_bytes (suc w) v = v % 256 ∷ to_bytes w (v / 256)

unfoldable pub of_bytes : List ℕ → ℕ
of_bytes [] = 0
of_bytes (x ∷ xs) = x + 256 * of_bytes xs

unfoldable pub byteswap : ℕ → ℕ → ℕ
unfolding to_bytes of_bytes
byteswap w v = of_bytes (reverse (to_bytes w v))

-- `m_endian != SYLAR_BYTE_ORDER ? byteswap(value) : value`.
unfoldable pub in_order : ℕ → ℕ → Endian → ℕ
unfolding byteswap
in_order w v little = v
in_order w v big = byteswap w v

unfoldable pub write_fuint8 : ℕ → M (Unit {0})
unfolding to_bytes
write_fuint8 v = write (to_bytes 1 v)

-- `writeFint16` to `writeFuint64`, at 2, 4 or 8 bytes.
unfoldable pub write_fixed : ℕ → ℕ → M (Unit {0})
unfolding in_order to_bytes
write_fixed w v b = write (to_bytes w (in_order w v b.endian)) b

unfoldable pub read_fuint8 : M ℕ
unfolding of_bytes
read_fuint8 = do bytes ← read 1; pure (of_bytes bytes)

-- `readFint16` to `readFuint64`.
unfoldable pub read_fixed : ℕ → M ℕ
unfolding in_order of_bytes
read_fixed w = do bytes ← read w; (λ b. done (in_order w (of_bytes bytes) b.endian) b)

-- The loop of `writeUint32` and `writeUint64` with the bytes left in `tmp`.
unfoldable pub groups : ℕ → ℕ → Option (List ℕ)
groups zero v = none
groups (suc room) v =
    let rest = Option.map (λ bs. bit_or (bit_and v 0x7f) 0x80 ∷ bs) (groups room (v / 2 ^ 7)) in
    if leb 0x80 v then rest else some (v % 256 ∷ [])

unfoldable pub write_groups : ℕ → ℕ → M (Unit {0})
unfolding groups
write_groups room v = elim (groups room v) [
  | none ↦ λ b. fault buffer_overflow
  | some bs ↦ write bs
]

unfoldable pub write_uint32 : ℕ → M (Unit {0})
unfolding write_groups
write_uint32 v = write_groups 5 v

unfoldable pub write_uint64 : ℕ → M (Unit {0})
unfolding write_groups
write_uint64 v = write_groups 10 v

-- `(uint32_t)b << i` and `(uint64_t)b << i`.
abbrev pub shl : ℕ → ℕ → ℕ → ℕ
shl w b i = b * 2 ^ i % 2 ^ w

-- `for(int i = 0; i < w; i += 7)`, by the rounds that are left.
unfoldable pub read_groups : ℕ → ℕ → ℕ → ℕ → M ℕ
unfolding read_fuint8
read_groups w zero i result = pure result
read_groups w (suc rounds) i result = do
  b ← read_fuint8
  let more = read_groups w rounds (i + 7) (bit_or result (shl w (bit_and b 0x7f) i))
  if ltb b 0x80 then pure (bit_or result (shl w b i)) else more

unfoldable pub read_uint32 : M ℕ
unfolding read_groups
read_uint32 = read_groups 32 5 0 0

unfoldable pub read_uint64 : M ℕ
unfolding read_groups
read_uint64 = read_groups 64 10 0 0

-- Zigzag of a signed integer with the sign bit `k`: `EncodeZigzag32` is at 31 and the other at 63.
unfoldable pub encode_zigzag : ℕ → ℕ → ℕ
encode_zigzag k v =
    let m = 2 ^ suc k in if leb (2 ^ k) v then ((m - v) % m * 2 + m - 1) % m else v * 2 % m

unfoldable pub decode_zigzag : ℕ → ℕ → ℕ
decode_zigzag k v = let m = 2 ^ suc k in bit_xor (v / 2) ((m - bit_and v 1) % m)

unfoldable pub write_int32 : ℕ → M (Unit {0})
unfolding encode_zigzag write_uint32
write_int32 v = write_uint32 (encode_zigzag 31 v)

unfoldable pub write_int64 : ℕ → M (Unit {0})
unfolding encode_zigzag write_uint64
write_int64 v = write_uint64 (encode_zigzag 63 v)

unfoldable pub read_int32 : M ℕ
unfolding decode_zigzag read_uint32
read_int32 = do v ← read_uint32; pure (decode_zigzag 31 v)

unfoldable pub read_int64 : M ℕ
unfolding decode_zigzag read_uint64
read_int64 = do v ← read_uint64; pure (decode_zigzag 63 v)

unfoldable pub write_float : ℕ → M (Unit {0})
unfolding write_fixed
write_float v = write_fixed 4 v

unfoldable pub write_double : ℕ → M (Unit {0})
unfolding write_fixed
write_double v = write_fixed 8 v

unfoldable pub read_float : M ℕ
unfolding read_fixed
read_float = read_fixed 4

unfoldable pub read_double : M ℕ
unfolding read_fixed
read_double = read_fixed 8

-- `writeStringF16`, `F32` and `F64`, at 2, 4 and 8 bytes: the length is cut to the width.
unfoldable pub write_string_fixed : ℕ → List ℕ → M (Unit {0})
unfolding write_fixed
write_string_fixed w s = do write_fixed w (length s % 256 ^ w); write s

unfoldable pub write_string_vint : List ℕ → M (Unit {0})
unfolding write_uint64
write_string_vint s = do write_uint64 (length s); write s

unfoldable pub write_string_without_length : List ℕ → M (Unit {0})
write_string_without_length s = write s

unfoldable pub read_string_fixed : ℕ → M (List ℕ)
unfolding read_fixed
read_string_fixed w = do len ← read_fixed w; read len

unfoldable pub read_string_vint : M (List ℕ)
unfolding read_uint64
read_string_vint = do len ← read_uint64; read len
