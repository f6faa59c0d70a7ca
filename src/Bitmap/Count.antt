-- ===== src/Bitmap/Count.antt =====
-- The words that sylar/ds/bitmap.cc tells apart by counting their ones.
use ynwad.Base.{
  ℕ, zero, suc, ◌+◌, ◌-◌, ◌/◌, ◌%◌, ◌^◌, ◌≤◌, ◌<◌, ◌≡◌, ◌≢◌, refl, sym, ap, ◌∙◌, Bool, true, false,
  not, bit_and, arith,
}
use ynwad.Base.Bits.{bit_and_mask}
use ynwad.Bitmap.{count_mask}
use ynwad.Bitmap.Packed.{popcount, count_bits, full_word}
use native.Mathlib.Decide.{ℕ_discrete}
use native.Mathlib.Nat.{pow-suc}

-- A word of 14 bits, without marks.
abbrev pub IsData : ℕ → Type 0
IsData w = w < 2 ^ 14

-- The words that `count_bits` tells from others.
popcount_bound : (k w : ℕ) → popcount k w ≤ k
popcount_bound zero w = omega arith
popcount_bound (suc k) w = omega (arith, popcount_bound k (w / 2))

popcount_none : (k w : ℕ) → w < 2 ^ k → popcount k w ≡ 0 → w ≡ 0
popcount_none zero w h e = omega (arith, h)
popcount_none (suc k) w h e = omega (
  arith,
  pow-suc 2 k,
  popcount_none k (w / 2) (omega (arith, h, pow-suc 2 k)) (omega (arith, e)),
  e,
)

popcount_all : (k w : ℕ) → w < 2 ^ k → popcount k w ≡ k → w ≡ 2 ^ k - 1
popcount_all zero w h e = omega (arith, h)
popcount_all (suc k) w h e = omega (
  arith,
  pow-suc 2 k,
  popcount_bound k (w / 2),
  popcount_all k (w / 2) (omega (arith, h, pow-suc 2 k))
      (omega (arith, e, popcount_bound k (w / 2))),
  e,
)

popcount_zero : (k : ℕ) → popcount k 0 ≡ 0
popcount_zero zero = refl
popcount_zero (suc k) = omega (arith, popcount_zero k)

-- A small word has no ones further up.
popcount_wide : (k n w : ℕ) → w < 2 ^ k → k ≤ n → popcount n w ≡ popcount k w
popcount_wide zero n zero h le = popcount_zero n
popcount_wide zero n (suc w) h le = absurd (omega (arith, h))
popcount_wide (suc k) zero w h le = absurd (omega (arith, le))
popcount_wide (suc k) (suc n) w h le =
    ap (λ t. w % 2 + t)
      (popcount_wide k n (w / 2) (omega (arith, h, pow-suc 2 k)) (omega (arith, le)))

pub data_mask : (w : ℕ) → IsData w → bit_and w count_mask ≡ w
data_mask w h = bit_and_mask 14 w ∙ omega (arith, h)

-- What `compress` tells of a word in a run of `v`: it goes on, another one begins, or there is none.
pub data WordKind (v : Bool) (w : ℕ) : Type 0 where
  same : w ≡ full_word v → WordKind v w
  other : w ≡ full_word (not v) → WordKind v w
  mixed :
      count_bits (bit_and w count_mask) ≢ 0 → count_bits (bit_and w count_mask) ≢ 14 → WordKind v w

kind_none : (v : Bool) (w : ℕ) → w ≡ 0 → WordKind v w
kind_none true w e = other e
kind_none false w e = same e

kind_all : (v : Bool) (w : ℕ) → w ≡ 2 ^ 14 - 1 → WordKind v w
kind_all true w e = same e
kind_all false w e = other e

pub word_kind : (v : Bool) (w : ℕ) → IsData w → WordKind v w
word_kind v w h =
    let c = popcount_wide 14 32 w h (omega arith) in
    let masked = ap count_bits (data_mask w h) in
    elim (ℕ_discrete (popcount 14 w) 0) [
      | yes e ↦ kind_none v w (popcount_none 14 w h e)
      | no some_one ↦ elim (ℕ_discrete (popcount 14 w) 14) [
        | yes e ↦ kind_all v w (popcount_all 14 w h e)
        | no not_all ↦
            mixed (λ t. some_one (sym c ∙ sym masked ∙ t)) (λ t. not_all (sym c ∙ sym masked ∙ t))
      ]
    ]
