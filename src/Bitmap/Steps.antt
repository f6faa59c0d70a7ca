-- ===== src/Bitmap/Steps.antt =====
-- One word in the loops of `foreach` of sylar/ds/bitmap.cc: its bits are visited, or it is passed over.
use ynwad.Base.{
  ℕ, zero, suc, ◌+◌, ◌-◌, ◌≤◌, ◌<◌, ◌≡◌, refl, sym, ap, ◌∙◌, Bool, true, false, List, [], ◌∷◌, ◌++◌,
  if◌then◌else◌, lt→ltb, arith, ◌⊎◌, inl, inr,
}
use mathlib.Core.Path.{subst}
use ynwad.Bitmap.{Outcome, done, has_bit}
use ynwad.Bitmap.Walk.{Walk, walk_bits, walk_word, call}
use ynwad.Bitmap.Visit.{
  positions, visit, positions-add, positions-none, zero-has, le_cases, advance, bits_stopped,
  bits_behind, bit_step, advance_rest, IsRest,
}

module _ {ℓ} {S : Type ℓ} (cb : ℕ → S → S × Bool) (size : ℕ) (test : ℕ → Bool) where
  bits-advance :
      (w left n x p : ℕ) (s : S)
      → n ≤ left
      → p + n ≤ size
      → (n ≡ left) ⊎ (p + n ≡ size)
      → ((j : ℕ) → j < n → has_bit w (x + j) ≡ test (p + j))
      → walk_bits cb size w left x (record { state = s; pos = p; go = true })
        ≡ advance cb size (p + n) (positions test p n) s
  unfolding walk_bits
  bits-advance w zero zero x p s small below all same =
      ap (λ t. record { state = s; pos = t; go = true }) (omega arith)
  bits-advance w zero (suc n) x p s small below all same = absurd (omega (arith, small))
  bits-advance w (suc left) zero x p s small below all same =
      bits_behind cb size w (suc left) x p s (ground (arith, below, all))
      ∙ ap (λ t. record { state = s; pos = t; go = true }) (omega arith)
  bits-advance w (suc left) (suc n) x p s small below all same =
      ap
        (λ t.
          if t
          then walk_bits cb size w left (x + 1) (
              if has_bit w x
              then call cb size (record { state = s; pos = p; go = true })
              else record { state = s; pos = p + 1; go = true })
          else record { state = s; pos = p; go = true })
        (lt→ltb p size (omega (arith, below)))
      ∙ bit_step cb size (has_bit w x) w left (x + 1) p (p + suc n) (positions test (p + 1) n) s
          (λ t.
            bits-advance w left n (x + 1) (p + 1) t (omega (arith, small)) (omega (arith, below))
              (ground (arith, all))
              (λ j hj.
                ap (has_bit w) (next x j)
                ∙ same (suc j) (omega (arith, hj))
                ∙ ap test (sym (next p j)))
            ∙ ap (λ e. advance cb size e (positions test (p + 1) n) t) (next p n))
      ∙ ap
          (λ t.
            advance cb size (p + suc n)
              (if t then p ∷ positions test (p + 1) n else positions test (p + 1) n) s)
          (ap (has_bit w) (here x) ∙ same 0 (omega arith) ∙ ap test (sym (here p)))
    where
      next : (a j : ℕ) → a + 1 + j ≡ a + suc j
      next a j = omega arith

      here : (a : ℕ) → a ≡ a + 0
      here a = omega arith

  -- The words from `q` on have the bits of the test, as far as the size.
  abbrev pub MatchesWord : ℕ → ℕ → Type 0
  MatchesWord w q = (j : ℕ) → j < 14 → q + j < size → has_bit w j ≡ test (q + j)

  abbrev pub Matches : List ℕ → ℕ → Type 0
  Matches [] q = Unit
  Matches (w ∷ ws) q = MatchesWord w q × Matches ws (q + 14)

  word_part :
      (f : Walk S → Outcome S) (w q n : ℕ) (s : S)
      → n ≤ 14
      → q + n ≤ size
      → (n ≡ 14) ⊎ (q + n ≡ size)
      → MatchesWord w q
      → IsRest cb size f test (q + 14)
      → f (walk_word cb size w (record { state = s; pos = q; go = true }))
        ≡ done (visit cb (positions test q (size - q)) s)
  word_part f w q n s small below all same ok =
      ap f (
        bits-advance w 14 n 0 q s small below all (λ j hj.
          ap (has_bit w) (start j) ∙ same j (omega (arith, hj, small)) (omega (arith, hj, below))))
      ∙ advance_rest cb size f (q + n) (positions test (q + n) (size - (q + n)))
          (positions test q n) s ok.stopped
          (λ t. ok.from t (q + n) (ground (arith, all, small, below)))
      ∙ ap (λ ps. done (visit cb ps s))
          (sym (positions-add test n (size - (q + n)) q) ∙ ap (positions test q) whole)
    where
      start : (j : ℕ) → 0 + j ≡ j
      start j = omega arith

      whole : n + (size - (q + n)) ≡ size - q
      whole = omega (arith, below)

  word_at :
      (f : Walk S → Outcome S) (w q : ℕ) (s : S)
      → MatchesWord w q
      → IsRest cb size f test (q + 14)
      → f (walk_word cb size w (record { state = s; pos = q; go = true }))
        ≡ done (visit cb (positions test q (size - q)) s)
  word_at f w q s same ok = elim (le_cases (q + 14) size) [
    | inl h ↦ word_part f w q 14 s (omega arith) h (inl refl) same ok
    | inr h ↦ elim (le_cases size q) [
      | inl behind ↦ ap f (bits_behind cb size w 14 0 q s behind) ∙ ok.from s q (inr behind)
      | inr before ↦
          word_part f w q (size - q) s (omega (arith, h)) (omega (arith, before))
            (inr (omega (arith, before))) same ok
    ]
  ]

  pub word_step :
      (f : Walk S → Outcome S) (w q : ℕ)
      → MatchesWord w q
      → IsRest cb size f test (q + 14)
      → IsRest cb size (λ r. f (walk_word cb size w r)) test q
  word_step f w q same ok = record {
    stopped = λ s p. ap f (bits_stopped cb size w 14 0 p s) ∙ ok.stopped s p;
    from = λ s p place. elim place [
      | inl here ↦
          subst
            (λ p.
              f (walk_word cb size w (record { state = s; pos = p; go = true }))
              ≡ done (visit cb (positions test p (size - p)) s))
            (sym here) (word_at f w q s same ok)
      | inr behind ↦ ap f (bits_behind cb size w 14 0 p s behind) ∙ ok.from s p (inr behind)
    ];
  }

  -- A word of 0 is passed over.
  abbrev pub skip_word : Walk S → Walk S
  skip_word r = if r.go then record r { pos = r.pos + 14 } else r

  skip_none :
      (q : ℕ)
      → MatchesWord 0 q
      → positions test (q + 14) (size - (q + 14)) ≡ positions test q (size - q)
  skip_none q same = elim (le_cases (q + 14) size) [
    | inl h ↦
        ap (λ t. t ++ positions test (q + 14) (size - (q + 14)))
          (sym (positions-none test 14 q (λ j hj. blank j hj (omega (arith, h, hj)))))
        ∙ sym (positions-add test 14 (size - (q + 14)) q)
        ∙ ap (positions test q) (whole h)
    | inr h ↦
        ap (positions test (q + 14)) (past h)
        ∙ sym (
            positions-none test (size - q) q
              (λ j hj. blank j (omega (arith, h, hj)) (omega (arith, hj))))
  ]
    where
      blank : (j : ℕ) → j < 14 → q + j < size → test (q + j) ≡ false
      blank j hj hs = sym (same j hj hs) ∙ zero-has j

      whole : q + 14 ≤ size → 14 + (size - (q + 14)) ≡ size - q
      whole h = omega (arith, h)

      past : size < q + 14 → size - (q + 14) ≡ 0
      past h = omega (arith, h)

  pub skip_step :
      (f : Walk S → Outcome S) (w q : ℕ)
      → w ≡ 0
      → MatchesWord w q
      → IsRest cb size f test (q + 14)
      → IsRest cb size (λ r. f (skip_word r)) test q
  skip_step f w q blank same ok = record {
    stopped = ok.stopped;
    from = λ s p place. elim place [
      | inl here ↦
          ok.from s (p + 14) (inl (ap (λ t. t + 14) here))
          ∙ ap (λ ps. done (visit cb ps s))
              (subst (λ p. positions test (p + 14) (size - (p + 14)) ≡ positions test p (size - p))
                (sym here) (skip_none q (subst (λ w. MatchesWord w q) blank same)))
      | inr behind ↦
          ok.from s (p + 14) (inr (omega (arith, behind)))
          ∙ ap (λ ps. done (visit cb ps s))
              (ap (positions test (p + 14)) (past p behind)
                ∙ sym (ap (positions test p) (past_all p behind)))
    ];
  }
    where
      past : (p : ℕ) → size ≤ p → size - (p + 14) ≡ 0
      past p h = omega (arith, h)

      past_all : (p : ℕ) → size ≤ p → size - p ≡ 0
      past_all p h = omega (arith, h)
