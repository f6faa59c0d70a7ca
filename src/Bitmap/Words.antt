-- ===== src/Bitmap/Words.antt =====
-- The word loops of sylar/ds/bitmap.cc work word by word: four words as one `uint64_t` are no different.
use ynwad.Base.{
  ℕ, zero, suc, ◌+◌, ◌-◌, ◌*◌, ◌/◌, ◌%◌, ◌^◌, ◌≤◌, ◌<◌, ◌≡◌, refl, sym, ap, ◌∙◌, List, [], ◌∷◌,
  Option, none, some, bit_and, bit_or, length, All, get_elem?, arith,
}
use ynwad.Base
use ynwad.Base.Digits.{bit_and-fields, bit_or-fields}
use ynwad.Bitmap.{done}
use ynwad.Bitmap.Ops.{pack64, unpack64, each_word, each_group, not_groups}
use mathlib.Core.Option.{some-injective}
use ynwad.Bitmap.Valid.{IsWord, bit_and_bound, bit_or_bound}

-- An operation that works on the fields of a number.
pub record IsFieldwise (op : ℕ → ℕ → ℕ) : Type 0 where
  pub bound : (a b : ℕ) → IsWord a → IsWord b → IsWord (op a b)
  pub fields :
      (a b x y : ℕ)
      → IsWord a
      → IsWord b
      → op (a + x * 2 ^ 16) (b + y * 2 ^ 16) ≡ op a b + op x y * 2 ^ 16

pub bit_and-IsFieldwise : IsFieldwise bit_and
bit_and-IsFieldwise = record {
  bound = λ a b ha hb. bit_and_bound 16 a b hb;
  fields = bit_and-fields 16;
}

pub bit_or-IsFieldwise : IsFieldwise bit_or
bit_or-IsFieldwise = record { bound = bit_or_bound 16; fields = bit_or-fields 16 }

-- The words of two bitmaps, one by one.
abbrev pub zip : (ℕ → ℕ → ℕ) → List ℕ → List ℕ → List ℕ
zip op [] bs = []
zip op (a ∷ xs) [] = []
zip op (a ∷ xs) (b ∷ bs) = op a b ∷ zip op xs bs

pub unpack64-pack64 :
    (a b c d : ℕ) (rest : List ℕ)
    → IsWord a
    → IsWord b
    → IsWord c
    → IsWord d
    → unpack64 (pack64 a b c d) rest ≡ a ∷ b ∷ c ∷ d ∷ rest
unpack64-pack64 a b c d rest ha hb hc hd = cong4 first second third fourth
  where
    first : pack64 a b c d % 2 ^ 16 ≡ a
    first = omega arith

    second : pack64 a b c d / 2 ^ 16 % 2 ^ 16 ≡ b
    second = omega arith

    third : pack64 a b c d / 2 ^ 32 % 2 ^ 16 ≡ c
    third = omega arith

    fourth : pack64 a b c d / 2 ^ 48 % 2 ^ 16 ≡ d
    fourth = omega arith

    cong4 :
        {a' b' c' d' : ℕ}
        → a' ≡ a
        → b' ≡ b
        → c' ≡ c
        → d' ≡ d
        → a' ∷ b' ∷ c' ∷ d' ∷ rest ≡ a ∷ b ∷ c ∷ d ∷ rest
    cong4 p q r s = rw (p, q, r, s) refl

pub pack64-fields :
    (op : ℕ → ℕ → ℕ) (a b c d a' b' c' d' : ℕ)
    → IsFieldwise op
    → IsWord a
    → IsWord b
    → IsWord c
    → IsWord a'
    → IsWord b'
    → IsWord c'
    → op (pack64 a b c d) (pack64 a' b' c' d') ≡ pack64 (op a a') (op b b') (op c c') (op d d')
pack64-fields op a b c d a' b' c' d' ok ha hb hc ha' hb' hc' =
    ok.fields a a' (b + (c + d * 2 ^ 16) * 2 ^ 16) (b' + (c' + d' * 2 ^ 16) * 2 ^ 16) ha ha'
    ∙ ap (λ t. op a a' + t * 2 ^ 16)
        (ok.fields b b' (c + d * 2 ^ 16) (c' + d' * 2 ^ 16) hb hb'
          ∙ ap (λ t. op b b' + t * 2 ^ 16) (ok.fields c c' d d' hc hc'))

pub each_word-zip :
    (op : ℕ → ℕ → ℕ) (xs bs : List ℕ)
    → length xs ≡ length bs
    → each_word op xs bs ≡ done (zip op xs bs)
unfolding each_word
each_word-zip op [] bs e = refl
each_word-zip op (a ∷ xs) [] e = absurd (omega (arith, e))
each_word-zip op (a ∷ xs) (b ∷ bs) e = rw (each_word-zip op xs bs (omega (arith, e))) refl

pub each_group-zip :
    (op : ℕ → ℕ → ℕ) (groups : ℕ) (xs bs : List ℕ)
    → IsFieldwise op
    → groups * 4 ≤ length xs
    → length xs ≡ length bs
    → All IsWord xs
    → All IsWord bs
    → each_group op groups xs bs ≡ done (zip op xs bs)
unfolding each_group
each_group-zip op zero xs bs ok h e hxs hbs = each_word-zip op xs bs e
each_group-zip op (suc groups) (a ∷ b ∷ c ∷ d ∷ xs) (a' ∷ b' ∷ c' ∷ d' ∷ bs) ok h e hxs hbs =
    let (ha, (hb, (hc, (hd, hr)))) = hxs in
    let (ha', (hb', (hc', (hd', hr')))) = hbs in
    rw (each_group-zip op groups xs bs ok (omega (arith, h)) (omega (arith, e)) hr hr') (
      ap done (
        ap (λ t. unpack64 t (zip op xs bs))
          (pack64-fields op a b c d a' b' c' d' ok ha hb hc ha' hb' hc')
        ∙ unpack64-pack64 (op a a') (op b b') (op c c') (op d d') (zip op xs bs)
            (ok.bound a a' ha ha') (ok.bound b b' hb hb') (ok.bound c c' hc hc')
            (ok.bound d d' hd hd')))
each_group-zip op (suc groups) [] bs ok h e hxs hbs = absurd (omega (arith, h))
each_group-zip op (suc groups) (a ∷ []) bs ok h e hxs hbs = absurd (omega (arith, h))
each_group-zip op (suc groups) (a ∷ b ∷ []) bs ok h e hxs hbs = absurd (omega (arith, h))
each_group-zip op (suc groups) (a ∷ b ∷ c ∷ []) bs ok h e hxs hbs = absurd (omega (arith, h))
each_group-zip op (suc groups) (a ∷ b ∷ c ∷ d ∷ xs) [] ok h e hxs hbs = absurd (omega (arith, e))
each_group-zip op (suc groups) (a ∷ b ∷ c ∷ d ∷ xs) (a' ∷ []) ok h e hxs hbs =
    absurd (omega (arith, e))
each_group-zip op (suc groups) (a ∷ b ∷ c ∷ d ∷ xs) (a' ∷ b' ∷ []) ok h e hxs hbs =
    absurd (omega (arith, e))
each_group-zip op (suc groups) (a ∷ b ∷ c ∷ d ∷ xs) (a' ∷ b' ∷ c' ∷ []) ok h e hxs hbs =
    absurd (omega (arith, e))

pub flip : ℕ → ℕ
flip w = 2 ^ 16 - 1 - w

not_pack64 :
    (a b c d : ℕ)
    → IsWord a
    → IsWord b
    → IsWord c
    → IsWord d
    → 2 ^ 64 - 1 - pack64 a b c d
      ≡ pack64 (2 ^ 16 - 1 - a) (2 ^ 16 - 1 - b) (2 ^ 16 - 1 - c) (2 ^ 16 - 1 - d)
not_pack64 a b c d ha hb hc hd = omega arith

pub not_groups-map :
    (groups : ℕ) (ws : List ℕ)
    → groups * 4 ≤ length ws
    → All IsWord ws
    → not_groups groups ws ≡ done (Base.map (λ w. 2 ^ 16 - 1 - w) ws)
unfolding not_groups
not_groups-map zero ws h hws = refl
not_groups-map (suc groups) (a ∷ b ∷ c ∷ d ∷ ws) h (ha, (hb, (hc, (hd, hr)))) =
    rw (not_groups-map groups ws (omega (arith, h)) hr) (
      ap done (
        ap (λ t. unpack64 t (Base.map (λ w. 2 ^ 16 - 1 - w) ws)) (not_pack64 a b c d ha hb hc hd)
        ∙ unpack64-pack64 (2 ^ 16 - 1 - a) (2 ^ 16 - 1 - b) (2 ^ 16 - 1 - c) (2 ^ 16 - 1 - d) _
            (omega arith) (omega arith) (omega arith) (omega arith)))
not_groups-map (suc groups) [] h hws = absurd (omega (arith, h))
not_groups-map (suc groups) (a ∷ []) h hws = absurd (omega (arith, h))
not_groups-map (suc groups) (a ∷ b ∷ []) h hws = absurd (omega (arith, h))
not_groups-map (suc groups) (a ∷ b ∷ c ∷ []) h hws = absurd (omega (arith, h))

pub get_elem-zip :
    (op : ℕ → ℕ → ℕ) (i a b : ℕ) (xs bs : List ℕ)
    → get_elem? xs i ≡ some a
    → get_elem? bs i ≡ some b
    → get_elem? (zip op xs bs) i ≡ some (op a b)
get_elem-zip op i a b [] bs e e' = absurd (ground (arith, e))
get_elem-zip op i a b (x ∷ xs) [] e e' = absurd (ground (arith, e'))
get_elem-zip op zero a b (x ∷ xs) (y ∷ bs) e e' =
    rw (some-injective x a e, some-injective y b e') refl
get_elem-zip op (suc i) a b (x ∷ xs) (y ∷ bs) e e' = get_elem-zip op i a b xs bs e e'

pub get_elem-map :
    (f : ℕ → ℕ) (i a : ℕ) (xs : List ℕ)
    → get_elem? xs i ≡ some a
    → get_elem? (Base.map f xs) i ≡ some (f a)
get_elem-map f i a [] e = absurd (ground (arith, e))
get_elem-map f zero a (x ∷ xs) e = ap (λ t. some (f t)) (some-injective x a e)
get_elem-map f (suc i) a (x ∷ xs) e = get_elem-map f i a xs e

pub length-zip :
    (op : ℕ → ℕ → ℕ) (xs bs : List ℕ) → length xs ≡ length bs → length (zip op xs bs) ≡ length xs
length-zip op [] bs e = refl
length-zip op (a ∷ xs) [] e = absurd (omega (arith, e))
length-zip op (a ∷ xs) (b ∷ bs) e = ap suc (length-zip op xs bs (omega (arith, e)))

pub All-zip :
    (op : ℕ → ℕ → ℕ) (xs bs : List ℕ)
    → IsFieldwise op
    → All IsWord xs
    → All IsWord bs
    → All IsWord (zip op xs bs)
All-zip op [] bs ok hxs hbs = tt
All-zip op (a ∷ xs) [] ok hxs hbs = tt
All-zip op (a ∷ xs) (b ∷ bs) ok hxs hbs =
    (ok.bound a b hxs.0 hbs.0, All-zip op xs bs ok hxs.1 hbs.1)
