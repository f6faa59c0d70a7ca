-- ===== src/Base/Digits.antt =====
-- Single binary digits of the bit operations, and the operations on two fields at once.
use Prim.Native.Nat.{ℕ, zero, suc, ◌+◌, ◌-◌, ◌*◌, ◌/◌, ◌%◌, ◌^◌, ◌<◌, min, max, bit_and, bit_or}
use mathlib.Core.Path.{◌≡◌, refl, sym, ap, ◌∙◌}
use native.Mathlib.Nat.{pow-suc, div-div-eq-div-mul}
use native.Mathlib.Omega.{arith}
use ynwad.Base.Bits.{and_halves, or_halves, two_pow_suc, bit_and_mask}

-- The digit of `w` at `n`.
abbrev pub digit : ℕ → ℕ → ℕ
digit w n = w / 2 ^ n % 2

pub digit-suc : (w n : ℕ) → digit w (suc n) ≡ digit (w / 2) n
digit-suc w n =
    ap (λ t. w / t % 2) (pow-suc 2 n ∙ omega arith)
    ∙ ap (λ t. t % 2) (sym (div-div-eq-div-mul w 2 (2 ^ n)))

pub digit-zero : (n : ℕ) → digit 0 n ≡ 0
digit-zero zero = refl
digit-zero (suc n) = digit-suc 0 n ∙ digit-zero n

pub digit-bit_and : (n a b : ℕ) → digit (bit_and a b) n ≡ min (digit a n) (digit b n)
digit-bit_and zero a b = omega (arith, and_halves a b)
digit-bit_and (suc n) a b =
    digit-suc (bit_and a b) n
    ∙ ap (λ t. digit t n) (omega (arith, and_halves a b))
    ∙ digit-bit_and n (a / 2) (b / 2)
    ∙ omega (arith, digit-suc a n, digit-suc b n)

pub digit-bit_or : (n a b : ℕ) → digit (bit_or a b) n ≡ max (digit a n) (digit b n)
digit-bit_or zero a b = omega (arith, or_halves a b)
digit-bit_or (suc n) a b =
    digit-suc (bit_or a b) n
    ∙ ap (λ t. digit t n) (omega (arith, or_halves a b))
    ∙ digit-bit_or n (a / 2) (b / 2)
    ∙ omega (arith, digit-suc a n, digit-suc b n)

-- The digits of `~w`.
pub digit-flip : (k n w : ℕ) → w < 2 ^ k → n < k → digit (2 ^ k - 1 - w) n ≡ 1 - digit w n
digit-flip zero n w h hn = absurd (omega arith)
digit-flip (suc k) zero w h hn = omega (arith, pow-suc 2 k)
digit-flip (suc k) (suc n) w h hn =
    digit-suc (2 ^ suc k - 1 - w) n
    ∙ ap (λ t. digit t n) half
    ∙ digit-flip k n (w / 2) (omega (arith, pow-suc 2 k)) (omega arith)
    ∙ ap (λ t. 1 - t) (sym (digit-suc w n))
  where
    half : (2 ^ suc k - 1 - w) / 2 ≡ 2 ^ k - 1 - w / 2
    half = omega (arith, pow-suc 2 k)

-- `w & (1 << n)` singles out a digit.
pub bit_and-pow : (n w : ℕ) → bit_and w (2 ^ n) ≡ digit w n * 2 ^ n
bit_and-pow zero w = bit_and_mask 1 w ∙ omega arith
bit_and-pow (suc n) w =
    and_halves w (2 ^ suc n)
    ∙ ap (λ t. bit_and (w / 2) t * 2 + min (w % 2) (2 ^ suc n % 2)) half
    ∙ omega (
      arith,
      bit_and-pow n (w / 2),
      pow-suc 2 n,
      two_pow_suc (digit (w / 2) n) n,
      ap (λ t. t * 2 ^ suc n) (digit-suc w n),
    )
  where
    half : 2 ^ suc n / 2 ≡ 2 ^ n
    half = omega (arith, pow-suc 2 n)

one_field :
    (op : ℕ → ℕ → ℕ) (x y : ℕ) → op 0 0 ≡ 0 → op (0 + x * 1) (0 + y * 1) ≡ op 0 0 + op x y * 1
one_field op x y e = ap (λ t. op t (0 + y * 1)) left ∙ ap (op x) right ∙ omega (arith, e)
  where
    left : 0 + x * 1 ≡ x
    left = omega arith

    right : 0 + y * 1 ≡ y
    right = omega arith

-- Two numbers with `k` low digits each are worked on field by field.
pub bit_and-fields :
    (k a b x y : ℕ)
    → a < 2 ^ k
    → b < 2 ^ k
    → bit_and (a + x * 2 ^ k) (b + y * 2 ^ k) ≡ bit_and a b + bit_and x y * 2 ^ k
bit_and-fields zero zero zero x y ha hb = one_field bit_and x y refl
bit_and-fields zero (suc a) b x y ha hb = absurd (omega arith)
bit_and-fields zero zero (suc b) x y ha hb = absurd (omega arith)
bit_and-fields (suc k) a b x y ha hb = ground (
  arith,
  and_halves (a + x * 2 ^ suc k) (b + y * 2 ^ suc k),
  and_halves a b,
  two_pow_suc x k,
  two_pow_suc y k,
  two_pow_suc (bit_and x y) k,
  pow-suc 2 k,
  bit_and-fields k (a / 2) (b / 2) x y (omega (arith, pow-suc 2 k)) (omega (arith, pow-suc 2 k)),
)

pub bit_or-fields :
    (k a b x y : ℕ)
    → a < 2 ^ k
    → b < 2 ^ k
    → bit_or (a + x * 2 ^ k) (b + y * 2 ^ k) ≡ bit_or a b + bit_or x y * 2 ^ k
bit_or-fields zero zero zero x y ha hb = one_field bit_or x y refl
bit_or-fields zero (suc a) b x y ha hb = absurd (omega arith)
bit_or-fields zero zero (suc b) x y ha hb = absurd (omega arith)
bit_or-fields (suc k) a b x y ha hb = ground (
  arith,
  or_halves (a + x * 2 ^ suc k) (b + y * 2 ^ suc k),
  or_halves a b,
  two_pow_suc x k,
  two_pow_suc y k,
  two_pow_suc (bit_or x y) k,
  pow-suc 2 k,
  bit_or-fields k (a / 2) (b / 2) x y (omega (arith, pow-suc 2 k)) (omega (arith, pow-suc 2 k)),
)
