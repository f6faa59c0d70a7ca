-- ===== src/Bitmap/Visit.antt =====
-- `foreach` of sylar/ds/bitmap.cc calls its callback for the set bits, in their order, until it says to
-- stop.
use ynwad.Base.{
  ℕ, zero, suc, ◌+◌, ◌-◌, ◌≤◌, ◌<◌, ◌≡◌, refl, ap, ◌∙◌, Bool, true, false, List, [], ◌∷◌, ◌++◌,
  ◌==◌, if◌then◌else◌, ltb-false, arith, ◌⊎◌,
}
use ynwad.Bitmap.{Outcome, done, has_bit}
use ynwad.Bitmap.Valid.{has_digit}
use ynwad.Base.Digits.{digit-zero}
use ynwad.Bitmap.Walk.{Walk, walk_bits, walk_words, call}

-- The positions of `n` from `p` on that pass a test.
abbrev pub positions : (ℕ → Bool) → ℕ → ℕ → List ℕ
positions test p zero = []
positions test p (suc n) = if test p then p ∷ positions test (p + 1) n else positions test (p + 1) n

pub zero-has : (j : ℕ) → has_bit 0 j ≡ false
zero-has j = has_digit j 0 ∙ ap (λ t. t == 1) (digit-zero j)

pub le_cases : (a b : ℕ) → (a ≤ b) ⊎ (b < a)
le_cases a b = ground arith

-- The callback for each of the positions, until it says to stop.
abbrev pub visit {ℓ} : {S : Type ℓ} → (ℕ → S → S × Bool) → List ℕ → S → S
visit cb [] s = s
visit cb (p ∷ ps) s = let answer = cb p s in if answer.1 then visit cb ps answer.0 else answer.0

pair_choice {ℓ} :
    {A : Type ℓ} (b : Bool) (p : A) (xs ys : List A)
    → (if b then p ∷ (xs ++ ys) else (xs ++ ys)) ≡ (if b then p ∷ xs else xs) ++ ys
pair_choice true p xs ys = refl
pair_choice false p xs ys = refl

pub positions-add :
    (test : ℕ → Bool) (n m p : ℕ)
    → positions test p (n + m) ≡ positions test p n ++ positions test (p + n) m
positions-add test zero m p = ap (positions test p) none ∙ ap (λ t. positions test t m) behind
  where
    none : 0 + m ≡ m
    none = omega arith

    behind : p ≡ p + 0
    behind = omega arith
positions-add test (suc n) m p =
    ap (positions test p) more
    ∙ ap (λ t. if test p then p ∷ t else t)
        (positions-add test n m (p + 1)
          ∙ ap (λ t. positions test (p + 1) n ++ positions test t m) behind)
    ∙ pair_choice (test p) p (positions test (p + 1) n) (positions test (p + suc n) m)
  where
    more : suc n + m ≡ suc (n + m)
    more = omega arith

    behind : p + 1 + n ≡ p + suc n
    behind = omega arith

pub positions-none :
    (test : ℕ → Bool) (n p : ℕ) → ((j : ℕ) → j < n → test (p + j) ≡ false) → positions test p n ≡ []
positions-none test zero p h = refl
positions-none test (suc n) p h =
    ap (λ t. if t then p ∷ positions test (p + 1) n else positions test (p + 1) n)
      (ap test first ∙ h 0 (omega arith))
    ∙ positions-none test n (p + 1) (λ j hj. ap test (next j) ∙ h (suc j) (omega (arith, hj)))
  where
    first : p ≡ p + 0
    first = omega arith

    next : (j : ℕ) → p + 1 + j ≡ p + suc j
    next j = omega arith

module _ {ℓ} {S : Type ℓ} (cb : ℕ → S → S × Bool) (size : ℕ) where
  -- Where `foreach` stands after some positions, with `e` for the position behind them.
  abbrev pub advance : ℕ → List ℕ → S → Walk S
  advance e [] s = record { state = s; pos = e; go = true }
  advance e (p ∷ ps) s =
      let answer = cb p s in
      if answer.1 then advance e ps answer.0 else record { state = answer.0; pos = p; go = false }

  pub bits_stopped :
      (w left x p : ℕ) (s : S)
      → walk_bits cb size w left x (record { state = s; pos = p; go = false })
        ≡ record { state = s; pos = p; go = false }
  unfolding walk_bits
  bits_stopped w zero x p s = refl
  bits_stopped w (suc left) x p s = refl

  pub bits_behind :
      (w left x p : ℕ) (s : S)
      → size ≤ p
      → walk_bits cb size w left x (record { state = s; pos = p; go = true })
        ≡ record { state = s; pos = p; go = true }
  unfolding walk_bits
  bits_behind w zero x p s h = refl
  bits_behind w (suc left) x p s h = rw (ltb-false p size h) refl

  bit_answer :
      (w left x p e : ℕ) (ps : List ℕ) (answer : S × Bool)
      → ((s : S)
          → walk_bits cb size w left x (record { state = s; pos = p + 1; go = true })
            ≡ advance e ps s)
      → walk_bits cb size w left x
          (record { state = answer.0; pos = if answer.1 then p + 1 else p; go = answer.1 })
        ≡ (if answer.1
            then advance e ps answer.0
            else record { state = answer.0; pos = p; go = false })
  bit_answer w left x p e ps (s, true) h = h s
  bit_answer w left x p e ps (s, false) h = bits_stopped w left x p s

  pub bit_step :
      (bit : Bool) (w left x p e : ℕ) (ps : List ℕ) (s : S)
      → ((s : S)
          → walk_bits cb size w left x (record { state = s; pos = p + 1; go = true })
            ≡ advance e ps s)
      → walk_bits cb size w left x (
          if bit
          then call cb size (record { state = s; pos = p; go = true })
          else record { state = s; pos = p + 1; go = true })
        ≡ advance e (if bit then p ∷ ps else ps) s
  bit_step true w left x p e ps s h = bit_answer w left x p e ps (cb p s) h
  bit_step false w left x p e ps s h = h s

  -- What goes on from a position, and does nothing when the walk has stopped.
  pub record IsRest (f : Walk S → Outcome S) (test : ℕ → Bool) (q : ℕ) : Type ℓ where
    pub stopped : (s : S) (p : ℕ) → f (record { state = s; pos = p; go = false }) ≡ done s
    pub from :
        (s : S) (p : ℕ)
        → (p ≡ q) ⊎ (size ≤ p)
        → f (record { state = s; pos = p; go = true })
          ≡ done (visit cb (positions test p (size - p)) s)

  answer_rest :
      (f : Walk S → Outcome S) (e p : ℕ) (rest ps : List ℕ) (answer : S × Bool)
      → ((s : S) (p : ℕ) → f (record { state = s; pos = p; go = false }) ≡ done s)
      → ((s : S) → f (advance e ps s) ≡ done (visit cb (ps ++ rest) s))
      → f (
          if answer.1
          then advance e ps answer.0
          else record { state = answer.0; pos = p; go = false })
        ≡ done (if answer.1 then visit cb (ps ++ rest) answer.0 else answer.0)
  answer_rest f e p rest ps (t, true) stopped h = h t
  answer_rest f e p rest ps (t, false) stopped h = stopped t p

  pub advance_rest :
      (f : Walk S → Outcome S) (e : ℕ) (rest ps : List ℕ) (s : S)
      → ((s : S) (p : ℕ) → f (record { state = s; pos = p; go = false }) ≡ done s)
      → ((s : S) → f (record { state = s; pos = e; go = true }) ≡ done (visit cb rest s))
      → f (advance e ps s) ≡ done (visit cb (ps ++ rest) s)
  advance_rest f e rest [] s stopped from = from s
  advance_rest f e rest (p ∷ ps) s stopped from =
      answer_rest f e p rest ps (cb p s) stopped (λ t. advance_rest f e rest ps t stopped from)

  pub words_stopped :
      (ws : List ℕ) (p : ℕ) (s : S)
      → walk_words cb size ws (record { state = s; pos = p; go = false })
        ≡ record { state = s; pos = p; go = false }
  unfolding walk_words
  words_stopped [] p s = refl
  words_stopped (w ∷ ws) p s = refl
