-- ===== src/Codec/Zigzag.antt =====
-- Zigzag, and the signed integers that are written through it.
use ynwad.Base.{
  ℕ, suc, ◌+◌, ◌-◌, ◌*◌, ◌/◌, ◌%◌, ◌^◌, ◌≤◌, ◌<◌, ◌≡◌, ap, ◌∙◌, inl, inr, length, splice, arith,
  leb, Bool-cases, bit_and, leb-false, le→leb, leb→le, leb→gt,
}
use ynwad.Base.Bits.{bit_and_mask, bit_xor_zero, bit_xor_ones}
use ynwad.ByteArray.{ByteArray, done, ◌>>◌, set_position}
use ynwad.ByteArray.Valid.{IsValid, contents}
use ynwad.Codec.{
  write_uint32, write_uint64, read_uint32, read_uint64, encode_zigzag, decode_zigzag, write_int32,
  write_int64, read_int32, read_int64,
}
use ynwad.Codec.Varint.{
  vint, write_uint32-Encodes, write_uint64-Encodes, read_uint32-Decodes, read_uint64-Decodes,
}
use ynwad.Codec.Chain.{Decodes, Decodes-pure, round_trip}
use native.Mathlib.Nat.{pow-suc, one-le-pow, mod-eq_of_lt, add-mod_left, mod_self, sub-zero}
use mathlib.Core.Path.{subst}

module _ (k v : ℕ) (h : v < 2 ^ suc k) where
  half_range : 2 ^ suc k ≡ 2 ^ k * 2
  half_range = pow-suc 2 k

  range_pos : 0 < 2 ^ k
  range_pos = one-le-pow k 2 (omega arith)

  encode_negative : 2 ^ k ≤ v → encode_zigzag k v ≡ (2 ^ suc k - v) * 2 - 1
  unfolding encode_zigzag
  encode_negative neg =
      rw
        (
          le→leb (2 ^ k) v neg,
          mod-eq_of_lt {n = 2 ^ suc k - v} {m = 2 ^ suc k} (omega (arith, range_pos)),
        )
        (ap (λ t. t % 2 ^ suc k) (regroup (omega (arith, half_range)))
          ∙ add-mod_left (2 ^ suc k) ((2 ^ suc k - v) * 2 - 1)
          ∙ mod-eq_of_lt (omega (arith, half_range, range_pos)))
    where
      regroup :
          0 < 2 ^ suc k - v
          → (2 ^ suc k - v) * 2 + 2 ^ suc k - 1 ≡ 2 ^ suc k + ((2 ^ suc k - v) * 2 - 1)
      regroup p = omega arith

  encode_positive : v < 2 ^ k → encode_zigzag k v ≡ v * 2
  unfolding encode_zigzag
  encode_positive pos = rw (leb-false (2 ^ k) v pos) (mod-eq_of_lt (omega (arith, half_range)))

  decode_odd : (x : ℕ) → x < 2 ^ k → decode_zigzag k (x * 2 + 1) ≡ 2 ^ suc k - 1 - x
  unfolding decode_zigzag
  decode_odd x hx =
      rw
        (
          shifted,
          low,
          mod-eq_of_lt {n = 2 ^ suc k - 1} {m = 2 ^ suc k} (omega (arith, half_range, range_pos)),
        )
        (bit_xor_ones (suc k) x (omega (arith, half_range)))
    where
      shifted : (x * 2 + 1) / 2 ≡ x
      shifted = omega arith

      low : bit_and (x * 2 + 1) 1 ≡ 1
      low = bit_and_mask 1 (x * 2 + 1) ∙ omega arith

  decode_even : (x : ℕ) → x < 2 ^ k → decode_zigzag k (x * 2) ≡ x
  unfolding decode_zigzag
  decode_even x hx =
      rw (shifted, low, sub-zero, mod_self) (bit_xor_zero (suc k) x (omega (arith, half_range)))
    where
      shifted : x * 2 / 2 ≡ x
      shifted = omega arith

      low : bit_and (x * 2) 1 ≡ 0
      low = bit_and_mask 1 (x * 2) ∙ omega arith

-- Zigzag loses nothing: the code of a signed integer fits the same number of bits and is decoded to
-- it, for every integer of `k + 1` bits, the smallest one included.
pub decode_zigzag-encode_zigzag :
    (k v : ℕ)
    → v < 2 ^ suc k
    → (encode_zigzag k v < 2 ^ suc k) × (decode_zigzag k (encode_zigzag k v) ≡ v)
decode_zigzag-encode_zigzag k v h = elim (Bool-cases (leb (2 ^ k) v)) [
  | inl neg ↦
      let le : 2 ^ k ≤ v = leb→le _ _ neg in
      let x = 2 ^ suc k - v - 1 in
      let odd : encode_zigzag k v ≡ x * 2 + 1 =
        encode_negative k v h le ∙ omega (arith, half_range k v h) in
      (
        rw odd (omega (arith, half_range k v h)),
        rw odd (decode_odd k v h x (omega (arith, half_range k v h)) ∙ omega arith),
      )
  | inr pos ↦
      let lt : v < 2 ^ k = leb→gt _ _ pos in
      rw (encode_positive k v h lt) (omega (arith, half_range k v h), decode_even k v h v lt)
]

-- The `int32_t` of a bit pattern is read back as it was written.
pub int32-round_trip :
    (v : ℕ) (b : ByteArray)
    → IsValid b
    → v < 2 ^ 32
    → (b' : ByteArray) × ((write_int32 v >> (set_position b.position >> read_int32)) b ≡ done v b')
      × IsValid b'
      × (b'.position ≡ b.position + length (vint 4 (encode_zigzag 31 v)))
      × (contents b' ≡ splice (contents b) b.position (vint 4 (encode_zigzag 31 v)))
unfolding write_int32 read_int32
int32-round_trip v b ok h =
    let (fits, back) = decode_zigzag-encode_zigzag 31 v h in
    let code = encode_zigzag 31 v in
    round_trip (write_uint32 code) _ (vint 4 code) v b (write_uint32-Encodes code b.endian fits)
      (subst (Decodes _ b.endian (vint 4 code)) back (
        Decodes-pure read_uint32 (decode_zigzag 31) b.endian (vint 4 code) code
          (read_uint32-Decodes code b.endian fits)))
      ok

-- An int64_t that is written and read again comes back.
pub int64-round_trip :
    (v : ℕ) (b : ByteArray)
    → IsValid b
    → v < 2 ^ 64
    → (b' : ByteArray) × ((write_int64 v >> (set_position b.position >> read_int64)) b ≡ done v b')
      × IsValid b'
      × (b'.position ≡ b.position + length (vint 9 (encode_zigzag 63 v)))
      × (contents b' ≡ splice (contents b) b.position (vint 9 (encode_zigzag 63 v)))
unfolding write_int64 read_int64
int64-round_trip v b ok h =
    let (fits, back) = decode_zigzag-encode_zigzag 63 v h in
    let code = encode_zigzag 63 v in
    round_trip (write_uint64 code) _ (vint 9 code) v b (write_uint64-Encodes code b.endian fits)
      (subst (Decodes _ b.endian (vint 9 code)) back (
        Decodes-pure read_uint64 (decode_zigzag 63) b.endian (vint 9 code) code
          (read_uint64-Decodes code b.endian fits)))
      ok
