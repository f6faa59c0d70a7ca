-- ===== src/Base/Bits.antt =====
-- The bit operations of the program as arithmetic, at every width: a low mask, a field put above
-- lower bits, and the complement.
use Prim.Native.Nat.{
  ℕ, zero, suc, ◌+◌, ◌-◌, ◌*◌, ◌/◌, ◌%◌, ◌^◌, ◌≤◌, ◌<◌, min, max, bit_and, bit_or, bit_xor, digits,
  differ, bit_and-bitwise, bit_or-bitwise, bit_xor-bitwise,
}
use mathlib.Core.Path.{◌≡◌, refl, sym, ap, ◌∙◌}
use native.Mathlib.Nat.{
  pow-suc, one-le-pow, div-add-mod', mul-add-mod_self_right, mod-eq_of_lt, mod-lt,
}
use native.Mathlib.Omega.{arith}

module _ (atom : ℕ → ℕ) (op : ℕ → ℕ → ℕ) where
  -- Without digits the fuel plays no role.
  no_digit : (fuel right : ℕ) → digits atom op fuel 0 right ≡ atom right
  no_digit zero right = refl
  no_digit (suc fuel) right = refl

  -- As much fuel as the left number is enough, since a step at least halves this number.
  spare_fuel :
      (fuel spare left right : ℕ)
      → left ≤ fuel
      → digits atom op (fuel + spare) left right ≡ digits atom op fuel left right
  spare_fuel fuel spare zero right enough =
      no_digit (fuel + spare) right ∙ sym (no_digit fuel right)
  spare_fuel zero spare (suc left) right enough = absurd (omega arith)
  spare_fuel (suc fuel) spare (suc left) right enough =
      ap (λ n. digits atom op n (suc left) right) one_more
      ∙ ap (λ upper. upper * 2 + op (suc left % 2) (right % 2))
          (spare_fuel fuel spare (suc left / 2) (right / 2) (omega arith))
    where
      one_more : suc fuel + spare ≡ suc (fuel + spare)
      one_more = omega arith

  -- The operation on the numbers without their lowest digits, and on these.
  lowest_digit :
      (left right : ℕ)
      → digits atom op (suc left) (suc left) right
        ≡ digits atom op (suc left / 2) (suc left / 2) (right / 2) * 2
          + op (suc left % 2) (right % 2)
  lowest_digit left right =
      ap (λ upper. upper * 2 + op (suc left % 2) (right % 2))
        (sym (ap (λ n. digits atom op n half (right / 2)) exact)
          ∙ spare_fuel half (left - half) half (right / 2) (omega arith))
    where
      half : ℕ
      half = suc left / 2

      exact : half + (left - half) ≡ left
      exact = omega arith

pub or_halves :
    (left right : ℕ)
    → bit_or left right ≡ bit_or (left / 2) (right / 2) * 2 + max (left % 2) (right % 2)
or_halves zero right = omega (arith, bit_or-bitwise 0 (right / 2), bit_or-bitwise 0 right)
or_halves (suc left) right =
    bit_or-bitwise (suc left) right
    ∙ lowest_digit (λ b. b) max left right
    ∙ ap (λ upper. upper * 2 + max (suc left % 2) (right % 2))
        (sym (bit_or-bitwise (suc left / 2) (right / 2)))

pub and_halves :
    (left right : ℕ)
    → bit_and left right ≡ bit_and (left / 2) (right / 2) * 2 + min (left % 2) (right % 2)
and_halves zero right = omega (arith, bit_and-bitwise 0 (right / 2), bit_and-bitwise 0 right)
and_halves (suc left) right =
    bit_and-bitwise (suc left) right
    ∙ lowest_digit (λ b. zero) min left right
    ∙ ap (λ upper. upper * 2 + min (suc left % 2) (right % 2))
        (sym (bit_and-bitwise (suc left / 2) (right / 2)))

pub xor_halves :
    (left right : ℕ)
    → bit_xor left right ≡ bit_xor (left / 2) (right / 2) * 2 + differ (left % 2) (right % 2)
xor_halves zero right = omega (arith, bit_xor-bitwise 0 (right / 2), bit_xor-bitwise 0 right)
xor_halves (suc left) right =
    bit_xor-bitwise (suc left) right
    ∙ lowest_digit (λ b. b) differ left right
    ∙ ap (λ upper. upper * 2 + differ (suc left % 2) (right % 2))
        (sym (bit_xor-bitwise (suc left / 2) (right / 2)))

pub two_pow_suc : (high width : ℕ) → high * 2 ^ suc width ≡ 2 * (high * 2 ^ width)
two_pow_suc high width = rw pow-suc (omega (arith, ap (λ (t : ℕ). high * t) (pow-suc 2 width)))

-- `r | (q << k)` is a sum when `r` fits into `k` bits.
pub bit_or_high : (k r q : ℕ) → r < 2 ^ k → bit_or r (q * 2 ^ k) ≡ r + q * 2 ^ k
bit_or_high zero zero q h = omega (arith, bit_or-bitwise 0 (q * 1))
bit_or_high zero (suc r) q h = absurd (omega arith)
bit_or_high (suc k) r q h = ground (
  arith,
  or_halves r (q * 2 ^ suc k),
  two_pow_suc q k,
  pow-suc 2 k,
  bit_or_high k (r / 2) q (omega (arith, pow-suc 2 k)),
)

differ_zero : (d : ℕ) → differ d 0 ≡ d
differ_zero zero = refl
differ_zero (suc d) = refl

differ_one : (d : ℕ) → d < 2 → differ d 1 ≡ 1 - d
differ_one zero h = refl
differ_one (suc zero) h = refl
differ_one (suc (suc d)) h = absurd (omega arith)

-- `x ^ 0` and `x ^ (2 ^ k - 1)`, on `k` bits.
pub bit_xor_zero : (k x : ℕ) → x < 2 ^ k → bit_xor x 0 ≡ x
bit_xor_zero zero zero h = refl
bit_xor_zero zero (suc x) h = absurd (omega arith)
bit_xor_zero (suc k) x h = omega (
  arith,
  xor_halves x 0,
  bit_xor_zero k (x / 2) (omega (arith, pow-suc 2 k)),
  differ_zero (x % 2),
)

ones_half : (k : ℕ) → (2 ^ suc k - 1) / 2 ≡ 2 ^ k - 1
ones_half k = omega (arith, pow-suc 2 k, one-le-pow k 2 (omega arith))

ones_odd : (k : ℕ) → (2 ^ suc k - 1) % 2 ≡ 1
ones_odd k = omega (arith, pow-suc 2 k, one-le-pow k 2 (omega arith))

pub bit_xor_ones : (k x : ℕ) → x < 2 ^ k → bit_xor x (2 ^ k - 1) ≡ 2 ^ k - 1 - x
bit_xor_ones zero zero h = refl
bit_xor_ones zero (suc x) h = absurd (omega arith)
bit_xor_ones (suc k) x h =
    xor_halves x (2 ^ suc k - 1)
    ∙ rw (ones_half k, ones_odd k, bit_xor_ones k (x / 2) (omega (arith, pow-suc 2 k)))
        (omega (arith, pow-suc 2 k, one-le-pow k 2 (omega arith), differ_one (x % 2) (omega arith)))

mod_two_pow_suc : (k x : ℕ) → x % 2 ^ suc k ≡ x / 2 % 2 ^ k * 2 + x % 2
mod_two_pow_suc k x = rw pow-suc (
    ap (λ t. t % (2 ^ k * 2)) parts
    ∙ mul-add-mod_self_right (x / 2 / 2 ^ k) (2 ^ k * 2) _
    ∙ mod-eq_of_lt (omega (arith, low)))
  where
    low : x / 2 % 2 ^ k < 2 ^ k
    low = mod-lt (x / 2) (one-le-pow k 2 (omega arith))

    parts : x ≡ x / 2 / 2 ^ k * (2 ^ k * 2) + (x / 2 % 2 ^ k * 2 + x % 2)
    parts = omega (arith, div-add-mod' (x / 2) (2 ^ k))

bit_and-zero : (k x : ℕ) → x < 2 ^ k → bit_and x 0 ≡ 0
bit_and-zero zero zero h = refl
bit_and-zero zero (suc x) h = absurd (omega arith)
bit_and-zero (suc k) x h =
    omega (arith, and_halves x 0, bit_and-zero k (x / 2) (omega (arith, pow-suc 2 k)))

lt-two_pow : (x : ℕ) → x < 2 ^ x
lt-two_pow zero = omega arith
lt-two_pow (suc x) = omega (arith, lt-two_pow x, pow-suc 2 x)

-- A mask of `k` low bits is the remainder by `2 ^ k`.
pub bit_and_mask : (k x : ℕ) → bit_and x (2 ^ k - 1) ≡ x % 2 ^ k
bit_and_mask zero x = omega (arith, bit_and-zero x x (lt-two_pow x))
bit_and_mask (suc k) x =
    and_halves x (2 ^ suc k - 1)
    ∙ rw (ones_half k, ones_odd k, bit_and_mask k (x / 2), mod_two_pow_suc k x) (omega arith)
