-- ===== src/Bitmap/Branch.antt =====
-- The branches of the loop of `compress` in sylar/ds/bitmap.cc, and where a run that it writes ends.
use ynwad.Base.{
  ℕ, zero, suc, ◌+◌, ◌*◌, ◌/◌, ◌^◌, ◌≤◌, ◌≡◌, ◌≢◌, refl, sym, ap, ◌∙◌, Bool, true, false, not, List,
  [], ◌∷◌, ◌++◌, ◌==◌, bit_and, length, All, ==-false, lt→ltb, arith, length-append, append-nil,
}
use mathlib.Core.Path.{subst}
use ynwad.Bitmap.{compress_mask, count_mask}
use ynwad.Bitmap.Ops.{run_count}
use ynwad.Bitmap.Packed.{count_bits, full_word, mark, write_count, end_run, compress_words}
use ynwad.Bitmap.Valid.{has_digit}
use ynwad.Bitmap.Count.{IsData, same, other, mixed, word_kind}
use ynwad.Bitmap.Emit.{mark_compress, mark_value, Stops, write_count-suc}

-- Words without a mark.
pub data_compress : (w : ℕ) → IsData w → (bit_and w compress_mask == 0) ≡ true
data_compress w h = negate _ (has_digit 15 w ∙ ground (arith, h))
  where
    negate : (b : Bool) → not b ≡ false → b ≡ true
    negate b e = ground (arith, e)

pub data-Stops : (v : Bool) (w : ℕ) (ws : List ℕ) → IsData w → Stops v (w ∷ ws)
unfolding run_count
data-Stops v w ws h i count = rw (data_compress w h) refl

mark-Stops : (v : Bool) (d : ℕ) (ws : List ℕ) → Stops (not v) (mark v d ∷ ws)
unfolding run_count
mark-Stops true d ws i count = rw (mark_compress true d, mark_value true d) refl
mark-Stops false d ws i count = rw (mark_compress false d, mark_value false d) refl

pub full-IsData : (v : Bool) → IsData (full_word v)
full-IsData true = omega arith
full-IsData false = omega arith

-- The words of a run, by its length.
pub end_run_none : (v : Bool) → end_run v 0 ≡ []
unfolding end_run
end_run_none v = refl

pub end_run_one : (v : Bool) → end_run v 14 ≡ full_word v ∷ []
unfolding end_run
end_run_one v = refl

pub end_run_many :
    (v : Bool) (n : ℕ)
    → 2 ≤ n
    → end_run v (14 * n) ≡ mark v (14 * n) ∷ write_count 4 v (14 * n / 2 ^ 14)
unfolding end_run write_count
end_run_many v n h =
    rw (lt→ltb 1 (14 * n / 14) (omega (arith, h))) (write_count-suc 4 v (14 * n) (omega (arith, h)))

end_run-Stops :
    (v : Bool) (n : ℕ) (rest : List ℕ) → 1 ≤ n → Stops (not v) (end_run v (14 * n) ++ rest)
end_run-Stops v zero rest h = absurd (omega (arith, h))
end_run-Stops v (suc zero) rest h =
    subst (λ t. Stops (not v) (t ++ rest)) (sym (end_run_one v))
      (data-Stops (not v) (full_word v) rest (full-IsData v))
end_run-Stops v (suc (suc n)) rest h =
    subst (λ t. Stops (not v) (t ++ rest)) (sym (end_run_many v (suc (suc n)) (omega arith)))
      (mark-Stops v (14 * suc (suc n)) (write_count 4 v (14 * suc (suc n) / 2 ^ 14) ++ rest))

-- The branches of `compress`.
compress-same :
    (v : Bool) (count : ℕ) (ws : List ℕ)
    → compress_words v count (full_word v ∷ ws) ≡ compress_words v (count + 14) ws
unfolding compress_words
compress-same true count ws = refl
compress-same false count ws = refl

compress-other :
    (v : Bool) (count : ℕ) (ws : List ℕ)
    → compress_words v count (full_word (not v) ∷ ws)
      ≡ end_run v count ++ compress_words (not v) 14 ws
unfolding compress_words
compress-other true count ws = refl
compress-other false count ws = refl

compress-mixed :
    (v : Bool) (count w : ℕ) (ws : List ℕ)
    → count_bits (bit_and w count_mask) ≢ 0
    → count_bits (bit_and w count_mask) ≢ 14
    → compress_words v count (w ∷ ws) ≡ end_run v count ++ (w ∷ compress_words v 0 ws)
unfolding compress_words
compress-mixed true count w ws none all =
    rw (==-false _ 14 all, ==-false _ 0 none, compress_words) (rw (==-false _ 14 all) refl)
compress-mixed false count w ws none all =
    rw (==-false _ 0 none, ==-false _ 14 all, compress_words) (rw (==-false _ 0 none) refl)

-- The branches, by what the word is.
pub data Branch (v : Bool) (n w : ℕ) (ws : List ℕ) : Type 0 where
  grows :
      w ≡ full_word v
      → compress_words v (14 * n) (w ∷ ws) ≡ compress_words v (14 * suc n) ws
      → Branch v n w ws
  turns :
      w ≡ full_word (not v)
      → compress_words v (14 * n) (w ∷ ws)
        ≡ end_run v (14 * n) ++ compress_words (not v) (14 * 1) ws
      → Branch v n w ws
  breaks :
      compress_words v (14 * n) (w ∷ ws) ≡ end_run v (14 * n) ++ (w ∷ compress_words v (14 * 0) ws)
      → Branch v n w ws

pub branch : (v : Bool) (n w : ℕ) (ws : List ℕ) → IsData w → Branch v n w ws
branch v n w ws h = elim (word_kind v w h) [
  | same e ↦ grows e (
      ap (λ t. compress_words v (14 * n) (t ∷ ws)) e
      ∙ compress-same v (14 * n) ws
      ∙ ap (λ t. compress_words v t ws) (more n))
  | other e ↦
      turns e (ap (λ t. compress_words v (14 * n) (t ∷ ws)) e ∙ compress-other v (14 * n) ws)
  | mixed none all ↦ breaks (compress-mixed v (14 * n) w ws none all)
]
  where
    more : (n : ℕ) → 14 * n + 14 ≡ 14 * suc n
    more n = omega arith

pub compress_end : (v : Bool) (count : ℕ) → compress_words v count [] ≡ end_run v count ++ []
unfolding compress_words
compress_end v count = sym (append-nil (end_run v count))

pub compress-Stops :
    (v : Bool) (n : ℕ) (ws : List ℕ)
    → 1 ≤ n
    → All IsData ws
    → Stops (not v) (compress_words v (14 * n) ws)
compress-Stops v n [] h all =
    subst (Stops (not v)) (sym (compress_end v (14 * n))) (end_run-Stops v n [] h)
compress-Stops v n (w ∷ ws) h all =
    let grown = compress-Stops v (suc n) ws (omega arith) all.1 in
    elim (branch v n w ws all.0) [
      | grows e c ↦ subst (Stops (not v)) (sym c) grown
      | turns e c ↦
          subst (Stops (not v)) (sym c) (end_run-Stops v n (compress_words (not v) (14 * 1) ws) h)
      | breaks c ↦
          subst (Stops (not v)) (sym c) (end_run-Stops v n (w ∷ compress_words v (14 * 0) ws) h)
    ]

length-write_count : (fuel : ℕ) (v : Bool) (q : ℕ) → length (write_count fuel v q) ≤ q
unfolding write_count
length-write_count zero v q = omega arith
length-write_count (suc fuel) v zero = omega arith
length-write_count (suc fuel) v (suc p) = omega (
  arith,
  ap length (write_count-suc fuel v (suc p) (omega arith)),
  length-write_count fuel v (suc p / 2 ^ 14),
)

length-end_run : (v : Bool) (n : ℕ) → length (end_run v (14 * n)) ≤ n
length-end_run v zero = omega (arith, ap length (end_run_none v))
length-end_run v (suc zero) = omega (arith, ap length (end_run_one v))
length-end_run v (suc (suc n)) = omega (
  arith,
  ap length (end_run_many v (suc (suc n)) (omega arith)),
  length-write_count 4 v (14 * suc (suc n) / 2 ^ 14),
)

-- From words without marks and a run of `n` words before them, `compress` writes no more words than these
-- are: they fit into the memory it asks for.
pub length-compress_words :
    (v : Bool) (n : ℕ) (ws : List ℕ)
    → All IsData ws
    → length (compress_words v (14 * n) ws) ≤ n + length ws
length-compress_words v n [] all =
    rw (compress_end v (14 * n), append-nil (end_run v (14 * n)))
      (omega (arith, length-end_run v n))
length-compress_words v n (w ∷ ws) all =
    let grown = length-compress_words v (suc n) ws all.1 in
    let turned = length-compress_words (not v) 1 ws all.1 in
    let broken = length-compress_words v 0 ws all.1 in
    let bound = length-end_run v n in
    elim (branch v n w ws all.0) [
      | grows e c ↦ omega (arith, ap length c, grown)
      | turns e c ↦ omega (
        arith,
        ap length c,
        length-append (end_run v (14 * n)) (compress_words (not v) (14 * 1) ws),
        turned,
        bound,
      )
      | breaks c ↦ omega (
        arith,
        ap length c,
        length-append (end_run v (14 * n)) (w ∷ compress_words v (14 * 0) ws),
        broken,
        bound,
      )
    ]
