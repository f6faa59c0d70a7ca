-- ===== src/Bitmap/Runs.antt =====
-- The runs of a compressed bitmap of sylar/ds/bitmap.cc in `&=`, `|=` and `uncompress`: a range of words
-- that is set, or left as it is, is no different from its words one by one.
use ynwad.Base.{
  ℕ, zero, suc, ◌+◌, ◌-◌, ◌*◌, ◌/◌, ◌%◌, ◌^◌, ◌≤◌, ◌<◌, ◌≡◌, refl, sym, ap, ◌∙◌, Bool, true, false,
  not, ◌&&◌, List, [], ◌∷◌, ◌++◌, Option, none, some, ltb, ◌==◌, if◌then◌else◌, bit_and, bit_or,
  length, replicate, All, get_elem?, get_elem-some, All-get_elem, All-set, length-set,
  length-append, append_assoc, ==-false, ==_refl, lt→ltb, arith,
}
use ynwad.Base
use ynwad.Bitmap.{Bitmap, done, fault, ◌>>=◌, in_bounds, fill, word_range, set_range}
use ynwad.Bitmap.Ops.{update_word}
use ynwad.Bitmap.Packed.{full_word}
use ynwad.Bitmap.Count.{IsData}
use ynwad.Bitmap.Words.{zip}
use mathlib.Core.Option.{some-injective}
use ynwad.Bitmap.Branch.{full-IsData}
use ynwad.Bitmap.Loop.{each_plain}

-- The words of a bitmap that is written, up to a limit.
pub record IsTarget (limit : ℕ) (b : Bitmap) : Type 0 where
  pub words : All IsData b.words
  pub within : limit ≤ 14 * length b.words

-- One word is replaced.
update_word-some :
    (op : ℕ → ℕ → ℕ) (i x w : ℕ) (b : Bitmap)
    → get_elem? b.words i ≡ some w
    → update_word op (14 * i) x b ≡ done (record b { words = Base.set b.words i (op w x) })
unfolding update_word
update_word-some op i x w b e =
    let place : 14 * i / 14 ≡ i = omega arith in
    ap
      (λ t.
        in_bounds (get_elem? b.words t)
        >>= (λ w. done (record b { words = Base.set b.words t (op w x) })))
      place
    ∙ rw e refl

next_place : (i : ℕ) → 14 * i + 14 < 2 ^ 32 → (14 * i + 14) % 2 ^ 32 ≡ 14 * (i + 1)
next_place i h = omega (arith, h)

-- The loop of `set` over a range, where a word of the run wipes out what was there.
fill-each_plain :
    (op : ℕ → ℕ → ℕ) (n i x : ℕ) (b : Bitmap)
    → ((w : ℕ) → IsData w → op w x ≡ x)
    → IsData x
    → All IsData b.words
    → i + n ≤ length b.words
    → 14 * (i + n) < 2 ^ 32
    → (fill n i x b.words >>= (λ ws. done (record b { words = ws })))
      ≡ each_plain (update_word op) (14 * i) (replicate n x) b
unfolding fill
fill-each_plain op zero i x b wipes is_data all within small = refl
fill-each_plain op (suc n) i x b wipes is_data all within small =
    let (w, e) = get_elem-some i b.words (omega (arith, within)) in
    let b' : Bitmap = record b { words = Base.set b.words i x } in
    let after =
      fill-each_plain op n (i + 1) x b' wipes is_data (All-set IsData i x b.words all is_data)
        (omega (arith, within, length-set b.words i x)) (omega (arith, small)) in
    ap
      (λ t.
        (if t then fill n (i + 1) x (Base.set b.words i x) else fault)
        >>= (λ ws. done (record b { words = ws })))
      (lt→ltb i (length b.words) (omega (arith, within)))
    ∙ after
    ∙ sym (
        ap (λ t. t >>= each_plain (update_word op) ((14 * i + 14) % 2 ^ 32) (replicate n x))
          (update_word-some op i x w b e
            ∙ ap (λ t. done (record b { words = Base.set b.words i t }))
                (wipes w (All-get_elem IsData i w b.words all e)))
        ∙ ap (λ c. each_plain (update_word op) c (replicate n x) b')
            (next_place i (omega (arith, small))))

set-same {ℓ} :
    {A : Type ℓ} (i : ℕ) (a : A) (xs : List A) → get_elem? xs i ≡ some a → Base.set xs i a ≡ xs
set-same i a [] e = refl
set-same zero a (x ∷ xs) e = ap (λ t. t ∷ xs) (sym (some-injective x a e))
set-same (suc i) a (x ∷ xs) e = ap (λ t. x ∷ t) (set-same i a xs e)

-- A run whose words change nothing.
pub skip-each_plain :
    (op : ℕ → ℕ → ℕ) (n i x : ℕ) (b : Bitmap)
    → ((w : ℕ) → IsData w → op w x ≡ w)
    → All IsData b.words
    → i + n ≤ length b.words
    → 14 * (i + n) < 2 ^ 32
    → done b ≡ each_plain (update_word op) (14 * i) (replicate n x) b
skip-each_plain op zero i x b keeps all within small = refl
skip-each_plain op (suc n) i x b keeps all within small =
    let (w, e) = get_elem-some i b.words (omega (arith, within)) in
    let same = keeps w (All-get_elem IsData i w b.words all e) in
    sym (
      ap (λ t. t >>= each_plain (update_word op) ((14 * i + 14) % 2 ^ 32) (replicate n x))
        (update_word-some op i x w b e
          ∙ ap (λ t. done (record b { words = t }))
              (ap (Base.set b.words i) same ∙ set-same i w b.words e))
      ∙ ap (λ c. each_plain (update_word op) c (replicate n x) b)
          (next_place i (omega (arith, small)))
      ∙ sym (
          skip-each_plain op n (i + 1) x b keeps all (omega (arith, within))
            (omega (arith, small))))

word_range-whole : (i n : ℕ) → 14 * (i + n) < 2 ^ 32 → word_range (14 * i) (14 * n) ≡ done (i, n)
unfolding word_range
word_range-whole i n h =
    rw (last, first_whole, last_whole, first_place, last_place)
      (ap (λ t. done (i, t)) (omega arith))
  where
    last : (14 * i + 14 * n) % 2 ^ 32 ≡ 14 * (i + n)
    last = omega (arith, h)

    first_whole : 14 * i % 14 ≡ 0
    first_whole = omega arith

    last_whole : 14 * (i + n) % 14 ≡ 0
    last_whole = omega arith

    first_place : 14 * i / 14 ≡ i
    first_place = omega arith

    last_place : 14 * (i + n) / 14 ≡ i + n
    last_place = omega arith

-- `set` over a range of whole words.
pub set_range-each_plain :
    (op : ℕ → ℕ → ℕ) (n i : ℕ) (v : Bool) (b : Bitmap)
    → ((w : ℕ) → IsData w → op w (full_word v) ≡ full_word v)
    → All IsData b.words
    → 1 ≤ n
    → i + n ≤ length b.words
    → 14 * (i + n) < 2 ^ 32
    → set_range (14 * i) (14 * n) v b
      ≡ each_plain (update_word op) (14 * i) (replicate n (full_word v)) b
unfolding set_range
set_range-each_plain op n i v b wipes all some_words within small =
    rw
      (==-false (14 * n) 0 (λ e. absurd (omega (arith, e, some_words))), word_range-whole i n small)
      (fill-each_plain op n i (full_word v) b wipes (full-IsData v) all within small)

get_elem-middle {ℓ} :
    {A : Type ℓ} (pre : List A) (a : A) (rest : List A)
    → get_elem? (pre ++ (a ∷ rest)) (length pre) ≡ some a
get_elem-middle [] a rest = refl
get_elem-middle (x ∷ pre) a rest = get_elem-middle pre a rest

set-middle {ℓ} :
    {A : Type ℓ} (pre : List A) (a b : A) (rest : List A)
    → Base.set (pre ++ (a ∷ rest)) (length pre) b ≡ (pre ++ (b ∷ [])) ++ rest
set-middle [] a b rest = refl
set-middle (x ∷ pre) a b rest = ap (λ t. x ∷ t) (set-middle pre a b rest)

-- The words of a target after every word of the map.
pub each_plain-zip :
    (op : ℕ → ℕ → ℕ) (ws pre old : List ℕ) (b : Bitmap)
    → b.words ≡ pre ++ old
    → length old ≡ length ws
    → 14 * (length pre + length ws) < 2 ^ 32
    → each_plain (update_word op) (14 * length pre) ws b
      ≡ done (record b { words = pre ++ zip op old ws })
each_plain-zip op [] pre [] b e same small = ap (λ t. done (record b { words = t })) e
each_plain-zip op [] pre (w ∷ old) b e same small = absurd (omega (arith, same))
each_plain-zip op (x ∷ ws) pre [] b e same small = absurd (omega (arith, same))
each_plain-zip op (x ∷ ws) pre (w ∷ old) b e same small =
    let next : List ℕ = pre ++ (op w x ∷ []) in
    let ws' : List ℕ = Base.set b.words (length pre) (op w x) in
    let replaced : ws' ≡ next ++ old =
      ap (λ t. Base.set t (length pre) (op w x)) e ∙ set-middle pre w (op w x) old in
    let longer : length next ≡ length pre + 1 = length-append pre (op w x ∷ []) in
    ap (λ t. t >>= each_plain (update_word op) ((14 * length pre + 14) % 2 ^ 32) ws)
      (update_word-some op (length pre) x w b
        (ap (λ t. get_elem? t (length pre)) e ∙ get_elem-middle pre w old))
    ∙ ap (λ c. each_plain (update_word op) c ws (record b { words = ws' }))
        (next_place (length pre) (omega (arith, small)) ∙ ap (λ k. 14 * k) (sym longer))
    ∙ each_plain-zip op ws next old (record b { words = ws' }) replaced (omega (arith, same))
        (omega (arith, small, longer))
    ∙ ap (λ t. done (record b { words = t })) (append_assoc pre (op w x ∷ []) (zip op old ws))
