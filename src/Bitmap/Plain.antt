-- ===== src/Bitmap/Plain.antt =====
-- The bits of a bitmap of sylar/ds/bitmap.cc that is not compressed, under `set`, `&=`, `|=` and `~`.
use ynwad.Base.{
  ℕ, zero, suc, ◌+◌, ◌-◌, ◌*◌, ◌/◌, ◌%◌, ◌^◌, ◌≤◌, ◌<◌, ◌≡◌, ◌≢◌, refl, sym, ap, ◌∙◌, Bool, true,
  false, not, ◌&&◌, ◌||◌, List, [], ◌∷◌, Option, none, some, bit_and, bit_or, length, All,
  get_elem?, get_elem-some, get_elem-set, get_elem-set_other, length-set, All-get_elem, All-set,
  arith, ◌==◌, if◌then◌else◌, ==_refl, ==-false,
}
use ynwad.Base
use native.Mathlib.Decide.{ℕ_discrete}
use native.Mathlib.Nat.{mod-lt}
use ynwad.Base.Digits.{digit, digit-flip}
use ynwad.Bitmap.{Bitmap, done, ◌>>=◌, get, set, has_bit, set_bit}
use ynwad.Bitmap.Ops.{assign_op, and_assign, or_assign, complement}
use ynwad.Bitmap.Valid.{
  IsWord, IsPlain, word_of, has_digit, set_bit-has, set_bit_bound, bit_and-has, bit_or-has,
}
use ynwad.Bitmap.Words.{
  IsFieldwise, bit_and-IsFieldwise, bit_or-IsFieldwise, zip, each_group-zip, not_groups-map,
  get_elem-zip, get_elem-map,
}

-- The bit at `i` in the words.
get-found :
    (i w : ℕ) (b : Bitmap)
    → get_elem? b.words (i / 14) ≡ some w
    → get i b ≡ done (has_bit w (i % 14))
unfolding get
get-found i w b e = rw e refl

-- A plain bitmap with other words is plain.
with_words :
    (ws : List ℕ) (b : Bitmap)
    → IsPlain b
    → length ws ≡ length b.words
    → All IsWord ws
    → IsPlain (record b { words = ws })
with_words ws b ok e all = record {
  plain = ok.plain;
  narrow = ok.narrow;
  full = e ∙ ok.full;
  each = all;
}

pub set-IsPlain :
    (idx : ℕ) (v : Bool) (b : Bitmap)
    → IsPlain b
    → idx < b.size
    → (b' : Bitmap) × (set idx v b ≡ done b') × IsPlain b' × (b'.size ≡ b.size)
unfolding set
set-IsPlain idx v b ok h =
    let (w, e) = word_of idx b ok h in
    let ws = Base.set b.words (idx / 14) (set_bit w (idx % 14) v) in
    (
      record b { words = ws },
      rw e refl,
      with_words ws b ok (length-set b.words (idx / 14) (set_bit w (idx % 14) v)) (
          All-set IsWord (idx / 14) (set_bit w (idx % 14) v) b.words ok.each (
            set_bit_bound w (idx % 14) v (All-get_elem IsWord (idx / 14) w b.words ok.each e)
              (omega arith))),
      refl,
    )

same_rest : (i idx : ℕ) → i / 14 ≡ idx / 14 → (i % 14 == idx % 14) ≡ (i == idx)
same_rest i idx e = ground (arith, e)

done_choice : (c v x : Bool) → done (if c then v else x) ≡ (if c then done v else done x)
done_choice c v x = ground arith

-- The bit at `i` when the word of `idx`, `w`, is replaced.
get-same_word :
    (i idx w : ℕ) (v : Bool) (b : Bitmap)
    → get_elem? b.words (idx / 14) ≡ some w
    → i / 14 ≡ idx / 14
    → get i (record b { words = Base.set b.words (idx / 14) (set_bit w (idx % 14) v) })
      ≡ (if i == idx then done v else get i b)
get-same_word i idx w v b e same =
    get-found i (set_bit w (idx % 14) v)
      (record b { words = Base.set b.words (idx / 14) (set_bit w (idx % 14) v) })
      (ap (get_elem? (Base.set b.words (idx / 14) (set_bit w (idx % 14) v))) same
        ∙ get_elem-set (idx / 14) w (set_bit w (idx % 14) v) b.words e)
    ∙ ap done (
        set_bit-has w (idx % 14) (i % 14) v (omega arith) (omega arith)
        ∙ ap (λ c. if c then v else has_bit w (i % 14)) (same_rest i idx same))
    ∙ done_choice (i == idx) v (has_bit w (i % 14))
    ∙ ap (λ t. if i == idx then done v else t)
        (sym (get-found i w b (ap (get_elem? b.words) same ∙ e)))

get-other_word :
    (i idx x : ℕ) (b : Bitmap)
    → i / 14 ≢ idx / 14
    → get i (record b { words = Base.set b.words (idx / 14) x }) ≡ get i b
unfolding get
get-other_word i idx x b h = rw (get_elem-set_other (idx / 14) (i / 14) x b.words h) refl

-- On a plain bitmap and below its size, `get` after `set`: the bit set has the value, the others are as they were.
pub set-get :
    (idx i : ℕ) (v : Bool) (b : Bitmap)
    → IsPlain b
    → idx < b.size
    → i < b.size
    → (set idx v b >>= get i) ≡ (if i == idx then done v else get i b)
unfolding set
set-get idx i v b ok h hi =
    let (w, e) = word_of idx b ok h in
    rw e (elim (ℕ_discrete (i / 14) (idx / 14)) [
      | yes same ↦ get-same_word i idx w v b e same
      | no other ↦
          get-other_word i idx (set_bit w (idx % 14) v) b other
          ∙ ap (λ c. if c then done v else get i b)
              (sym (==-false i idx (λ t. other (ap (λ n. n / 14) t))))
    ])

-- Four words at a time, as far as whole groups go.
groups_lem : (b : Bitmap) → IsPlain b → b.size / 56 * 4 ≤ length b.words
groups_lem b ok = omega (arith, ok.full)

pub assign-zip :
    (op : ℕ → ℕ → ℕ) (keep : Bool) (a b : Bitmap)
    → IsFieldwise op
    → IsPlain a
    → IsPlain b
    → a.size ≡ b.size
    → assign_op op keep a b ≡ done (record a { words = zip op a.words b.words })
unfolding assign_op
assign-zip op keep a b f oka okb e =
    let same : (a.size == b.size) ≡ true = rw e (==_refl b.size) in
    let words =
      each_group-zip op (a.size / 56) a.words b.words f (groups_lem a oka)
        (omega (arith, oka.full, okb.full, e)) oka.each okb.each in
    rw (same, oka.plain, okb.plain, words) refl

zip-get :
    (op : ℕ → ℕ → ℕ) (test : Bool → Bool → Bool) (i : ℕ) (a b : Bitmap)
    → ((n x y : ℕ) → has_bit (op x y) n ≡ test (has_bit x n) (has_bit y n))
    → IsPlain a
    → IsPlain b
    → a.size ≡ b.size
    → i < a.size
    → get i (record a { words = zip op a.words b.words })
      ≡ (get i a >>= (λ x. get i b >>= (λ y. done (test x y))))
zip-get op test i a b h oka okb e hi =
    let (x, ex) = word_of i a oka hi in
    let (y, ey) = word_of i b okb (omega (arith, hi, e)) in
    get-found i (op x y) (record a { words = zip op a.words b.words })
      (get_elem-zip op (i / 14) x y a.words b.words ex ey)
    ∙ ap done (h (i % 14) x y)
    ∙ sym (rw (get-found i x a ex) (rw (get-found i y b ey) refl))

-- `&=` and `|=` on plain bitmaps of one size, bit by bit below the size.
pub assigns-get :
    (i : ℕ) (a b : Bitmap)
    → IsPlain a
    → IsPlain b
    → a.size ≡ b.size
    → i < a.size
    → ((and_assign a b >>= get i) ≡ (get i a >>= (λ x. get i b >>= (λ y. done (x && y)))))
      × ((or_assign a b >>= get i) ≡ (get i a >>= (λ x. get i b >>= (λ y. done (x || y)))))
unfolding and_assign or_assign
assigns-get i a b oka okb e hi = (
  ap (λ t. t >>= get i) (assign-zip bit_and true a b bit_and-IsFieldwise oka okb e)
      ∙ zip-get bit_and (λ x y. x && y) i a b bit_and-has oka okb e hi,
  ap (λ t. t >>= get i) (assign-zip bit_or false a b bit_or-IsFieldwise oka okb e)
      ∙ zip-get bit_or (λ x y. x || y) i a b bit_or-has oka okb e hi,
)

flip-has : (w n : ℕ) → IsWord w → n < 14 → has_bit (2 ^ 16 - 1 - w) n ≡ not (has_bit w n)
flip-has w n h hn =
    rw (has_digit n (2 ^ 16 - 1 - w), has_digit n w, digit-flip 16 n w h (omega arith))
      (flip_test (digit w n) (mod-lt (w / 2 ^ n) (omega arith)))
  where
    flip_test : (d : ℕ) → d < 2 → (1 - d == 1) ≡ not (d == 1)
    flip_test d hd = ground arith

-- `~` on a plain bitmap, bit by bit below its size.
pub complement-get :
    (i : ℕ) (b : Bitmap)
    → IsPlain b
    → i < b.size
    → (complement b >>= get i) ≡ (get i b >>= (λ x. done (not x)))
unfolding complement get
complement-get i b ok hi =
    let (w, e) = word_of i b ok hi in
    rw (ok.plain, not_groups-map (b.size / 56) b.words (groups_lem b ok) ok.each)
      (get-found i (2 ^ 16 - 1 - w) (record b { words = Base.map (λ t. 2 ^ 16 - 1 - t) b.words })
          (get_elem-map (λ t. 2 ^ 16 - 1 - t) (i / 14) w b.words e)
        ∙ ap done
            (flip-has w (i % 14) (All-get_elem IsWord (i / 14) w b.words ok.each e) (omega arith))
        ∙ sym (rw (get-found i w b e) refl))
