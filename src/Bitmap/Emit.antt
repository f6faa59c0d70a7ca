-- ===== src/Bitmap/Emit.antt =====
-- The words of one run in the compressed form of sylar/ds/bitmap.cc: what `write_count` writes,
-- `run_count` reads.
use ynwad.Base.{
  ℕ, zero, suc, ◌+◌, ◌*◌, ◌/◌, ◌%◌, ◌^◌, ◌<◌, ◌≡◌, refl, sym, ap, ◌∙◌, Bool, true, false, not, List,
  [], ◌∷◌, ◌++◌, ◌==◌, if◌then◌else◌, bit_and, bit_or, ==-false, lt→ltb, arith,
}
use ynwad.Base.Bits.{bit_or_high, bit_and_mask}
use ynwad.Base.Digits.{bit_or-fields}
use ynwad.Bitmap.{done, compress_mask, value_mask, count_mask}
use ynwad.Bitmap.Ops.{run_count}
use ynwad.Bitmap.Packed.{mark, write_count}
use ynwad.Bitmap.Valid.{has_digit}

bit_or_zero : (x : ℕ) → bit_or 0 x ≡ x
bit_or_zero x = ap (bit_or 0) (sym one) ∙ bit_or_high 0 0 x (omega arith) ∙ omega arith
  where
    one : x * 2 ^ 0 ≡ x
    one = omega arith

pub zero-bit_or : (k x : ℕ) → x < 2 ^ k → bit_or x 0 ≡ x
zero-bit_or k x h = ap (bit_or x) (sym nothing) ∙ bit_or_high k x 0 h ∙ omega arith
  where
    nothing : 0 * 2 ^ k ≡ 0
    nothing = omega arith

-- The high part first.
pub high-bit_or : (k j q r : ℕ) → q < 2 ^ j → r < 2 ^ k → bit_or (q * 2 ^ k) r ≡ q * 2 ^ k + r
high-bit_or k j q r hq hr =
    ap (bit_or (q * 2 ^ k)) (sym right)
    ∙ ap (λ t. bit_or t (r + 0 * 2 ^ k)) (sym left)
    ∙ bit_or-fields k 0 r q 0 (omega (arith, hr)) hr
    ∙ rw (bit_or_zero r, zero-bit_or j q hq) (omega arith)
  where
    left : 0 + q * 2 ^ k ≡ q * 2 ^ k
    left = omega arith

    right : r + 0 * 2 ^ k ≡ r
    right = omega arith

-- The two marks as a number.
abbrev tag : Bool → ℕ
tag v = if v then 3 else 2

mark-tag : (v : Bool) (d : ℕ) → mark v d ≡ tag v * 2 ^ 14 + d % 2 ^ 14
mark-tag true d =
    ap (bit_or 49152) (bit_and_mask 14 d)
    ∙ high-bit_or 14 2 3 (d % 2 ^ 14) (omega arith) (omega arith)
mark-tag false d =
    ap (bit_or 32768) (bit_and_mask 14 d)
    ∙ high-bit_or 14 2 2 (d % 2 ^ 14) (omega arith) (omega arith)

pub mark_compress : (v : Bool) (d : ℕ) → not (bit_and (mark v d) compress_mask == 0) ≡ true
mark_compress true d = has_digit 15 (mark true d) ∙ ground (arith, mark-tag true d)
mark_compress false d = has_digit 15 (mark false d) ∙ ground (arith, mark-tag false d)

pub mark_value : (v : Bool) (d : ℕ) → not (bit_and (mark v d) value_mask == 0) ≡ v
mark_value true d = has_digit 14 (mark true d) ∙ ground (arith, mark-tag true d)
mark_value false d = has_digit 14 (mark false d) ∙ ground (arith, mark-tag false d)

pub mark_count : (v : Bool) (d : ℕ) → bit_and (mark v d) count_mask ≡ d % 2 ^ 14
mark_count v d = bit_and_mask 14 (mark v d) ∙ ap (λ t. t % 2 ^ 14) (mark-tag v d) ∙ omega arith

-- A run with the value `v` does not go on in these words.
abbrev pub Stops : Bool → List ℕ → Type 0
Stops v ws = (i count : ℕ) → run_count i v count ws ≡ done (count, ws)

goes_on : (v : Bool) → ((if v then v else not v) ≡ true)
goes_on true = refl
goes_on false = refl

write_count-zero : (fuel : ℕ) (v : Bool) → write_count fuel v 0 ≡ []
unfolding write_count
write_count-zero zero v = refl
write_count-zero (suc fuel) v = refl

-- One more word of the count.
run_count-mark :
    (i : ℕ) (v : Bool) (acc d : ℕ) (ws : List ℕ)
    → 14 * i < 32
    → run_count i v acc (mark v d ∷ ws)
      ≡ run_count (i + 1) v (bit_or (d % 2 ^ 14 * 2 ^ (14 * i) % 2 ^ 32) acc) ws
unfolding run_count
run_count-mark i v acc d ws h =
    rw (mark_compress v d, mark_value v d, mark_count v d, goes_on v, lt→ltb (14 * i) 32 h) refl

pub write_count-suc :
    (fuel : ℕ) (v : Bool) (q : ℕ)
    → 0 < q
    → write_count (suc fuel) v q ≡ mark v q ∷ write_count fuel v (q / 2 ^ 14)
unfolding write_count
write_count-suc fuel v q h = rw (==-false q 0 (λ e. absurd (omega (arith, e, h))), write_count) refl

-- The third word is the last: the count has 32 bits.
read_third :
    (v : Bool) (acc : ℕ) (rest : List ℕ) (q fuel : ℕ)
    → q ≡ 0
    → Stops v rest
    → run_count 3 v acc (write_count fuel v q ++ rest) ≡ done (acc, rest)
read_third v acc rest q fuel e stops = rw (e, write_count-zero fuel v) (stops 3 acc)

read_second :
    (v : Bool) (acc : ℕ) (rest : List ℕ) (q : ℕ)
    → q < 16
    → acc < 2 ^ 28
    → Stops v rest
    → run_count 2 v acc (write_count 3 v q ++ rest) ≡ done (q * 2 ^ 28 + acc, rest)
read_second v acc rest zero hq hacc stops =
    ap (λ t. run_count 2 v acc (t ++ rest)) (write_count-zero 3 v)
    ∙ stops 2 acc
    ∙ ap (λ t. done (t, rest)) (nothing acc)
  where
    nothing : (a : ℕ) → a ≡ 0 * 2 ^ 28 + a
    nothing a = omega arith
read_second v acc rest (suc p) hq hacc stops =
    let q : ℕ = suc p in
    ap (λ t. run_count 2 v acc (t ++ rest)) (write_count-suc 2 v q (omega arith))
    ∙ run_count-mark 2 v acc q (write_count 2 v (q / 2 ^ 14) ++ rest) (omega arith)
    ∙ read_third v _ rest (q / 2 ^ 14) 2 (omega (arith, hq)) stops
    ∙ ap (λ t. done (t, rest))
        (ap (λ t. bit_or t acc) (small q hq) ∙ high-bit_or 28 4 q acc hq hacc)
  where
    small : (q : ℕ) → q < 16 → q % 2 ^ 14 * 2 ^ 28 % 2 ^ 32 ≡ q * 2 ^ 28
    small q hq = omega (arith, hq)

pub read_first :
    (v : Bool) (acc : ℕ) (rest : List ℕ) (q : ℕ)
    → q < 2 ^ 18
    → acc < 2 ^ 14
    → Stops v rest
    → run_count 1 v acc (write_count 4 v q ++ rest) ≡ done (q * 2 ^ 14 + acc, rest)
read_first v acc rest zero hq hacc stops =
    ap (λ t. run_count 1 v acc (t ++ rest)) (write_count-zero 4 v)
    ∙ stops 1 acc
    ∙ ap (λ t. done (t, rest)) (nothing acc)
  where
    nothing : (a : ℕ) → a ≡ 0 * 2 ^ 14 + a
    nothing a = omega arith
read_first v acc rest (suc p) hq hacc stops =
    let q : ℕ = suc p in
    ap (λ t. run_count 1 v acc (t ++ rest)) (write_count-suc 3 v q (omega arith))
    ∙ run_count-mark 1 v acc q (write_count 3 v (q / 2 ^ 14) ++ rest) (omega arith)
    ∙ ap (λ t. run_count 2 v t (write_count 3 v (q / 2 ^ 14) ++ rest))
        (ap (λ t. bit_or t acc) (small q) ∙ high-bit_or 14 14 (q % 2 ^ 14) acc (omega arith) hacc)
    ∙ read_second v _ rest (q / 2 ^ 14) (omega (arith, hq)) (omega (arith, hacc)) stops
    ∙ ap (λ t. done (t, rest)) (total q)
  where
    small : (q : ℕ) → q % 2 ^ 14 * 2 ^ 14 % 2 ^ 32 ≡ q % 2 ^ 14 * 2 ^ 14
    small q = omega arith

    total : (q : ℕ) → q / 2 ^ 14 * 2 ^ 28 + (q % 2 ^ 14 * 2 ^ 14 + acc) ≡ q * 2 ^ 14 + acc
    total q = omega arith

-- The words of a run give its count back.
pub run_count-write :
    (v : Bool) (count : ℕ) (rest : List ℕ)
    → count < 2 ^ 32
    → Stops v rest
    → run_count 1 v (count % 2 ^ 14) (write_count 4 v (count / 2 ^ 14) ++ rest) ≡ done (count, rest)
run_count-write v count rest h stops =
    read_first v (count % 2 ^ 14) rest (count / 2 ^ 14) (omega (arith, h)) (omega arith) stops
    ∙ ap (λ t. done (t, rest)) (omega arith)
