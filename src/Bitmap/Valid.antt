-- ===== src/Bitmap/Valid.antt =====
-- Single bits of the words of sylar/ds/bitmap.cc, and what holds of a bitmap that is not compressed.
use ynwad.Base.{
  ℕ, zero, suc, ◌*◌, ◌/◌, ◌^◌, ◌≤◌, ◌<◌, min, max, ◌≡◌, refl, ap, ◌∙◌, Bool, true, false, not, ◌&&◌,
  ◌||◌, some, ltb, ◌==◌, if◌then◌else◌, bit_and, bit_or, length, All, get_elem?, get_elem-some,
  arith,
}
use ynwad.Base.Bits.{or_halves, and_halves, bit_and_mask}
use ynwad.Base.Digits.{digit, digit-bit_and, digit-bit_or, bit_and-pow}
use ynwad.Bitmap.{Bitmap, has_bit, set_bit, pos_of, npos_of, words_for}
use native.Mathlib.Nat.{one-le-pow, pow-suc, mod-lt}

bit_of : (d p : ℕ) → d < 2 → 1 ≤ p → not (d * p == 0) ≡ (d == 1)
bit_of zero p h pos = ap (λ t. not (t == 0)) nothing
  where
    nothing : 0 * p ≡ 0
    nothing = omega arith
bit_of (suc zero) p h pos = ground (arith, one)
  where
    one : 1 * p ≡ p
    one = omega arith
bit_of (suc (suc d)) p h pos = absurd (omega arith)

pub has_digit : (n w : ℕ) → has_bit w n ≡ (digit w n == 1)
has_digit n w =
    ap (λ t. not (t == 0)) (bit_and-pow n w)
    ∙ bit_of (digit w n) (2 ^ n) (mod-lt (w / 2 ^ n) (omega arith)) (one-le-pow n 2 (omega arith))

test_and : (a b : ℕ) → a < 2 → b < 2 → (min a b == 1) ≡ (a == 1) && (b == 1)
test_and a b ha hb = ground arith

test_or : (a b : ℕ) → a < 2 → b < 2 → (max a b == 1) ≡ (a == 1) || (b == 1)
test_or a b ha hb = ground arith

pub bit_and-has : (n a b : ℕ) → has_bit (bit_and a b) n ≡ has_bit a n && has_bit b n
bit_and-has n a b =
    rw (has_digit n (bit_and a b), has_digit n a, has_digit n b, digit-bit_and n a b)
      (test_and (digit a n) (digit b n) (omega arith) (omega arith))

pub bit_or-has : (n a b : ℕ) → has_bit (bit_or a b) n ≡ has_bit a n || has_bit b n
bit_or-has n a b =
    rw (has_digit n (bit_or a b), has_digit n a, has_digit n b, digit-bit_or n a b)
      (test_or (digit a n) (digit b n) (omega arith) (omega arith))

-- A test of every number below a bound.
abbrev each_below : ℕ → (ℕ → Bool) → Bool
each_below zero test = true
each_below (suc k) test = if test k then each_below k test else false

below-each : (k n : ℕ) (test : ℕ → Bool) → each_below k test ≡ true → n < k → test n ≡ true
below-each zero n test e h = absurd (omega arith)
below-each (suc k) n test e h = ground (arith, e, below-each k n test)

same : Bool → Bool → Bool
same a b = if a then b else not b

same-≡ : (a b : Bool) → same a b ≡ true → a ≡ b
unfolding same
same-≡ a b e = ground (arith, e)

-- The tables POS and NPOS, bit by bit.
abbrev table : (ℕ → ℕ → Bool) → Bool
table test = each_below 16 (λ m. each_below 16 (test m))

pos_table : table (λ m n. same (has_bit (pos_of m) n) (n == m)) ≡ true
unfolding same
pos_table = refl

npos_table : table (λ m n. same (has_bit (npos_of m) n) (not (n == m))) ≡ true
unfolding same
npos_table = refl

from_table :
    (test : ℕ → ℕ → Bool) → table test ≡ true → (m n : ℕ) → m < 16 → n < 16 → test m n ≡ true
from_table test e m n hm hn =
    below-each 16 n (test m) (below-each 16 m (λ m. each_below 16 (test m)) e hm) hn

pub pos-has : (m n : ℕ) → m < 16 → n < 16 → has_bit (pos_of m) n ≡ (n == m)
pos-has m n hm hn =
    same-≡ _ _ (from_table (λ m n. same (has_bit (pos_of m) n) (n == m)) pos_table m n hm hn)

pub npos-has : (m n : ℕ) → m < 16 → n < 16 → has_bit (npos_of m) n ≡ not (n == m)
npos-has m n hm hn =
    same-≡ _ _
      (from_table (λ m n. same (has_bit (npos_of m) n) (not (n == m))) npos_table m n hm hn)

pub set_bit-has :
    (w m n : ℕ) (v : Bool)
    → m < 16
    → n < 16
    → has_bit (set_bit w m v) n ≡ (if n == m then v else has_bit w n)
set_bit-has w m n true hm hn =
    rw (bit_or-has n w (pos_of m), pos-has m n hm hn) (choose_or (has_bit w n) (n == m))
  where
    choose_or : (a b : Bool) → (a || b) ≡ (if b then true else a)
    choose_or a b = ground arith
set_bit-has w m n false hm hn =
    rw (bit_and-has n w (npos_of m), npos-has m n hm hn) (choose_and (has_bit w n) (n == m))
  where
    choose_and : (a b : Bool) → (a && not b) ≡ (if b then false else a)
    choose_and a b = ground arith

-- The bounds of words.
pub bit_or_bound : (k a b : ℕ) → a < 2 ^ k → b < 2 ^ k → bit_or a b < 2 ^ k
bit_or_bound zero zero zero ha hb = omega arith
bit_or_bound zero (suc a) b ha hb = absurd (omega arith)
bit_or_bound zero zero (suc b) ha hb = absurd (omega arith)
bit_or_bound (suc k) a b ha hb = omega (
  arith,
  or_halves a b,
  pow-suc 2 k,
  bit_or_bound k (a / 2) (b / 2) (omega (arith, pow-suc 2 k)) (omega (arith, pow-suc 2 k)),
)

pub bit_and_bound : (k a b : ℕ) → b < 2 ^ k → bit_and a b < 2 ^ k
bit_and_bound zero a zero hb = omega (arith, bit_and_mask 0 a)
bit_and_bound zero a (suc b) hb = absurd (omega arith)
bit_and_bound (suc k) a b hb = omega (
  arith,
  and_halves a b,
  pow-suc 2 k,
  bit_and_bound k (a / 2) (b / 2) (omega (arith, pow-suc 2 k)),
)

pow_table : each_below 16 (λ m. ltb (2 ^ m) 65536) ≡ true
pow_table = refl

pub set_bit_bound : (w m : ℕ) (v : Bool) → w < 2 ^ 16 → m < 16 → set_bit w m v < 2 ^ 16
set_bit_bound w m true h hm =
    bit_or_bound 16 w (2 ^ m) h
      (ground (arith, below-each 16 m (λ m. ltb (2 ^ m) 65536) pow_table hm))
set_bit_bound w m false h hm = bit_and_bound 16 w (npos_of m) (omega arith)

abbrev pub IsWord : ℕ → Type 0
IsWord w = w < 2 ^ 16

-- A bitmap that is not compressed has the words for its bits.
pub record IsPlain (b : Bitmap) : Type 0 where
  pub plain : b.compressed ≡ false
  pub narrow : b.size < 2 ^ 31
  pub full : length b.words ≡ words_for b.size
  pub each : All IsWord b.words

pub word_of :
    (i : ℕ) (b : Bitmap) → IsPlain b → i < b.size → (w : ℕ) × (get_elem? b.words (i / 14) ≡ some w)
word_of i b ok h = get_elem-some (i / 14) b.words (omega (arith, h, ok.full))
