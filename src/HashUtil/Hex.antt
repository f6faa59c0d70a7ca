-- ===== src/HashUtil/Hex.antt =====
-- Hexadecimal digits there and back.
use ynwad.Base.{
  ℕ, ◌*◌, ◌/◌, ◌%◌, ◌^◌, ◌<◌, ◌≡◌, refl, ap, ◌∙◌, none, some, ◌==◌, List, [], ◌∷◌, length, All,
  if◌then◌else◌, bit_or, arith,
}
use ynwad.Base.Bits.{bit_or_high}
use ynwad.HashUtil.{hex_digit, hex_value, hexstring_from_data, hex_bytes, data_from_hexstring}
use ynwad.HashUtil.Base64.{IsByte}

hex_value-hex_digit : (n : ℕ) → n < 16 → hex_value (hex_digit n) ≡ some n
unfolding hex_value hex_digit
hex_value-hex_digit n h = ground arith

hex_bytes_two :
    (c d high low : ℕ) (text bytes : List ℕ)
    → hex_value c ≡ some high
    → hex_value d ≡ some low
    → hex_bytes text ≡ some bytes
    → hex_bytes (c ∷ d ∷ text) ≡ some (bit_or low (high * 16 % 256) ∷ bytes)
unfolding hex_bytes
hex_bytes_two c d high low text bytes e f g =
    rw (e, hex_bytes) (rw (f, hex_bytes) (rw (g, hex_bytes) refl))

one_byte : (x : ℕ) → x < 256 → bit_or (x % 16) (x / 16 % 16 * 16 % 256) ≡ x
one_byte x h =
    ap (bit_or (x % 16)) {y = x / 16 * 2 ^ 4} (omega arith)
    ∙ bit_or_high 4 (x % 16) (x / 16) (omega arith)
    ∙ omega arith

hex_bytes-hexstring : (xs : List ℕ) → All IsByte xs → hex_bytes (hexstring_from_data xs) ≡ some xs
unfolding hex_bytes hexstring_from_data
hex_bytes-hexstring [] h = refl
hex_bytes-hexstring (x ∷ xs) h =
    hex_bytes_two (hex_digit (x / 16 % 16)) (hex_digit (x % 16)) (x / 16 % 16) (x % 16)
      (hexstring_from_data xs) xs (hex_value-hex_digit (x / 16 % 16) (omega arith))
      (hex_value-hex_digit (x % 16) (omega arith)) (hex_bytes-hexstring xs h.1)
    ∙ ap (λ t. some (t ∷ xs)) (one_byte x h.0)

length-hexstring : (xs : List ℕ) → length (hexstring_from_data xs) ≡ 2 * length xs
unfolding hexstring_from_data
length-hexstring [] = refl
length-hexstring (x ∷ xs) = omega (arith, length-hexstring xs)

-- The digits of any bytes are read as these bytes.
pub data_from_hexstring-hexstring_from_data :
    (xs : List ℕ) → All IsByte xs → data_from_hexstring (hexstring_from_data xs) ≡ some xs
unfolding data_from_hexstring
data_from_hexstring-hexstring_from_data xs h =
    ap (λ n. if n == 0 then hex_bytes (hexstring_from_data xs) else none)
      {x = length (hexstring_from_data xs) % 2} {y = 0} (omega (arith, length-hexstring xs))
    ∙ hex_bytes-hexstring xs h
