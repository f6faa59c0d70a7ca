-- ===== src/Bitmap/Cross.antt =====
-- `normalCross` of sylar/ds/bitmap.cc: four words at a time find what the words find one by one.
use ynwad.Base.{
  ℕ, zero, suc, ◌*◌, ◌/◌, ◌^◌, ◌≤◌, ◌<◌, ◌≡◌, refl, sym, ap, ◌∙◌, Bool, true, false, List, [], ◌∷◌,
  ◌==◌, if◌then◌else◌, bit_and, length, All, ==-false, arith,
}
use ynwad.Base.Bits.{and_halves}
use native.Mathlib.Nat.{pow-suc}
use ynwad.Bitmap.{Bitmap, Outcome, done}
use ynwad.Bitmap.Ops.{pack64}
use ynwad.Bitmap.Scan.{cross, cross_words, cross_groups}
use ynwad.Bitmap.Valid.{IsWord, IsPlain}
use ynwad.Bitmap.Words.{bit_and-IsFieldwise, pack64-fields}

-- Four tests, or one of the four numbers together.
together :
    (p q r s : ℕ) (rest : Outcome Bool)
    → (if p == 0
        then (if q == 0
            then (if r == 0 then (if s == 0 then rest else done true) else done true)
            else done true)
        else done true)
      ≡ (if pack64 p q r s == 0 then rest else done true)
together zero zero zero zero rest = refl
together zero zero zero (suc s) rest = ground arith
together zero zero (suc r) s rest = ground arith
together zero (suc q) r s rest = ground arith
together (suc p) q r s rest = ground arith

zero_and : (k x : ℕ) → x < 2 ^ k → bit_and 0 x ≡ 0
zero_and zero zero h = refl
zero_and zero (suc x) h = absurd (omega (arith, h))
zero_and (suc k) x h =
    omega (arith, and_halves 0 x, pow-suc 2 k, zero_and k (x / 2) (omega (arith, h, pow-suc 2 k)))

-- A group of 0 needs no test of its own.
guarded :
    (left both : ℕ) (rest : Outcome Bool)
    → (left ≡ 0 → both ≡ 0)
    → (if left == 0 then rest else if both == 0 then rest else done true)
      ≡ (if both == 0 then rest else done true)
guarded zero both rest h = rw (h refl) refl
guarded (suc left) both rest h =
    ap (λ t. if t then rest else if both == 0 then rest else done true)
      (==-false (suc left) 0 (λ e. absurd (omega (arith, e))))

cross_groups-words :
    (groups : ℕ) (xs bs : List ℕ)
    → groups * 4 ≤ length xs
    → length xs ≡ length bs
    → All IsWord xs
    → All IsWord bs
    → cross_groups groups xs bs ≡ cross_words xs bs
unfolding cross_groups cross_words
cross_groups-words zero xs bs h e hxs hbs = refl
cross_groups-words (suc groups) (a ∷ b ∷ c ∷ d ∷ xs) (a' ∷ b' ∷ c' ∷ d' ∷ bs) h e
      (ha, (hb, (hc, (hd, hr)))) (ha', (hb', (hc', (hd', hr')))) =
    let rest = cross_words xs bs in
    let left : ℕ = pack64 a b c d in
    let right : ℕ = pack64 a' b' c' d' in
    let small : right < 2 ^ 64 = omega (arith, ha', hb', hc', hd') in
    ap (λ r. if left == 0 then r else if bit_and left right == 0 then r else done true)
      (cross_groups-words groups xs bs (omega (arith, h)) (omega (arith, e)) hr hr')
    ∙ guarded left (bit_and left right) rest
        (λ z. ap (λ t. bit_and t right) z ∙ zero_and 64 right small)
    ∙ ap (λ t. if t == 0 then rest else done true)
        (pack64-fields bit_and a b c d a' b' c' d' bit_and-IsFieldwise ha hb hc ha' hb' hc')
    ∙ sym (together (bit_and a a') (bit_and b b') (bit_and c c') (bit_and d d') rest)
cross_groups-words (suc groups) [] bs h e hxs hbs = absurd (omega (arith, h))
cross_groups-words (suc groups) (a ∷ []) bs h e hxs hbs = absurd (omega (arith, h))
cross_groups-words (suc groups) (a ∷ b ∷ []) bs h e hxs hbs = absurd (omega (arith, h))
cross_groups-words (suc groups) (a ∷ b ∷ c ∷ []) bs h e hxs hbs = absurd (omega (arith, h))
cross_groups-words (suc groups) (a ∷ b ∷ c ∷ d ∷ xs) [] h e hxs hbs = absurd (omega (arith, e))
cross_groups-words (suc groups) (a ∷ b ∷ c ∷ d ∷ xs) (a' ∷ []) h e hxs hbs =
    absurd (omega (arith, e))
cross_groups-words (suc groups) (a ∷ b ∷ c ∷ d ∷ xs) (a' ∷ b' ∷ []) h e hxs hbs =
    absurd (omega (arith, e))
cross_groups-words (suc groups) (a ∷ b ∷ c ∷ d ∷ xs) (a' ∷ b' ∷ c' ∷ []) h e hxs hbs =
    absurd (omega (arith, e))

abbrev pub meet : List ℕ → List ℕ → Bool
meet [] bs = false
meet (a ∷ xs) [] = false
meet (a ∷ xs) (b ∷ bs) = if bit_and a b == 0 then meet xs bs else true

cross_words-meet : (xs bs : List ℕ) → length xs ≡ length bs → cross_words xs bs ≡ done (meet xs bs)
unfolding cross_words
cross_words-meet [] bs e = refl
cross_words-meet (a ∷ xs) [] e = absurd (omega (arith, e))
cross_words-meet (a ∷ xs) (b ∷ bs) e =
    choice (bit_and a b == 0) (cross_words xs bs) (meet xs bs)
      (cross_words-meet xs bs (omega (arith, e)))
  where
    choice :
        (t : Bool) (o : Outcome Bool) (m : Bool)
        → o ≡ done m
        → (if t then o else done true) ≡ done (if t then m else true)
    choice true o m same = same
    choice false o m same = refl

-- `cross` of plain bitmaps of one size ends, and says whether two words at one place have a bit in common.
pub cross-meet :
    (a b : Bitmap)
    → IsPlain a
    → IsPlain b
    → a.size ≡ b.size
    → cross a b ≡ done (meet a.words b.words)
unfolding cross
cross-meet a b oka okb e =
    let same : length a.words ≡ length b.words = omega (arith, oka.full, okb.full, e) in
    rw (oka.plain, okb.plain)
      (cross_groups-words (a.size / 56) a.words b.words (omega (arith, oka.full)) same oka.each
          okb.each
        ∙ cross_words-meet a.words b.words same)
