-- ===== src/Timer/Order.antt =====
-- The comparator of sylar/timer.cc is a strict order, and the set's operations keep the order.
use ynwad.Base.{
  ℕ, ◌≡◌, ◌≢◌, ◌⊎◌, inl, inr, refl, sym, ap, ◌∙◌, true, false, List, [], ◌∷◌, Bool-cases, All,
  arith, ==_refl, ==-false,
}
use mathlib.Core.Path.{subst}
use ynwad.Timer.{Timer, less, before, write, find, insert, erase}

less_irrefl : (x a : ℕ) → less x a x a ≡ false
unfolding less
less_irrefl x a = ground arith

less_trans : (x a y b z c : ℕ) → less x a y b ≡ true → less y b z c ≡ true → less x a z c ≡ true
unfolding less
less_trans x a y b z c h k = ground (arith, h, k)

less_asym : (x a y b : ℕ) → less x a y b ≡ true → less y b x a ≡ false
unfolding less
less_asym x a y b h = ground (arith, h)

less_total : (x a y b : ℕ) → less x a y b ≡ false → a ≢ b → less y b x a ≡ true
unfolding less
less_total x a y b h other = ground (arith, h, other)

abbrev pub In : ℕ → List ℕ → Type 0
In a [] = ⊥
In a (b ∷ bs) = (a ≡ b) ⊎ In a bs

module _ {ℓ} {C : Type ℓ} where
  abbrev pub Sorted : (ℕ → Timer C) → List ℕ → Type 0
  Sorted heap [] = Unit
  Sorted heap (a ∷ xs) = All (λ b. before heap a b ≡ true) xs × Sorted heap xs

  pub write_here : (a : ℕ) (t : Timer C) (heap : ℕ → Timer C) → write a t heap a ≡ t
  write_here a t heap = rw (==_refl a) refl

  pub write_other : (a b : ℕ) (t : Timer C) (heap : ℕ → Timer C) → b ≢ a → write a t heap b ≡ heap b
  write_other a b t heap h = rw (==-false b a h) refl

  module _ (heap : ℕ → Timer C) where
    after_first :
        (a b : ℕ) (xs : List ℕ)
        → before heap a b ≡ true
        → All (λ c. before heap b c ≡ true) xs
        → All (λ c. before heap a c ≡ true) xs
    after_first a b [] h k = tt
    after_first a b (c ∷ xs) h k = (
      less_trans (Timer.next (heap a)) a (Timer.next (heap b)) b (Timer.next (heap c)) c h k.0,
      after_first a b xs h k.1,
    )

    All-In {κ} : (P : ℕ → Type κ) (a : ℕ) (xs : List ℕ) → All P xs → In a xs → P a
    All-In P a [] h k = elim k [ ]
    All-In P a (b ∷ xs) h (inl e) = subst P (sym e) h.0
    All-In P a (b ∷ xs) h (inr k) = All-In P a xs h.1 k

    pub find-In : (a : ℕ) (xs : List ℕ) → Sorted heap xs → In a xs → find heap a xs ≡ true
    unfolding find
    find-In a [] s k = elim k [ ]
    find-In a (b ∷ xs) s (inl e) = rw e (rw (less_irrefl (Timer.next (heap b)) b) refl)
    find-In a (b ∷ xs) s (inr k) =
        rw (All-In (λ c. before heap b c ≡ true) a xs s.0 k) (find-In a xs s.1 k)

    pub All-insert {κ} :
        (P : ℕ → Type κ) (a : ℕ) (xs : List ℕ) → P a → All P xs → All P (insert heap a xs)
    unfolding insert
    All-insert P a [] p h = (p, tt)
    All-insert P a (b ∷ xs) p h = elim (Bool-cases (before heap b a)) [
      | inl e ↦ rw (e, insert) (h.0, All-insert P a xs p h.1)
      | inr e ↦
          rw (e, insert)
            (elim (Bool-cases (before heap a b)) [
              | inl f ↦ rw f (p, (h.0, h.1))
              | inr f ↦ rw f (h.0, h.1)
            ])
    ]

    -- `insert` of a new address keeps the order.
    pub insert-Sorted :
        (a : ℕ) (xs : List ℕ)
        → Sorted heap xs
        → All (λ b. b ≢ a) xs
        → Sorted heap (insert heap a xs)
    unfolding insert
    insert-Sorted a [] s new = (tt, tt)
    insert-Sorted a (b ∷ xs) s new = elim (Bool-cases (before heap b a)) [
      | inl e ↦
          rw (e, insert)
            (All-insert (λ c. before heap b c ≡ true) a xs e s.0, insert-Sorted a xs s.1 new.1)
      | inr e ↦
          let first = less_total (Timer.next (heap b)) b (Timer.next (heap a)) a e new.0 in
          rw (e, insert) (rw first ((first, after_first a b xs first s.0), s))
    ]

    pub insert-In :
        (a : ℕ) (xs : List ℕ) → Sorted heap xs → All (λ b. b ≢ a) xs → In a (insert heap a xs)
    unfolding insert
    insert-In a [] s new = inl refl
    insert-In a (b ∷ xs) s new = elim (Bool-cases (before heap b a)) [
      | inl e ↦ rw (e, insert) (inr (insert-In a xs s.1 new.1))
      | inr e ↦
          let first = less_total (Timer.next (heap b)) b (Timer.next (heap a)) a e new.0 in
          rw (e, insert) (rw first (inl refl))
    ]

    pub insert-keeps :
        (a c : ℕ) (xs : List ℕ) → All (λ b. b ≢ a) xs → In c xs → In c (insert heap a xs)
    unfolding insert
    insert-keeps a c [] new k = elim k [ ]
    insert-keeps a c (b ∷ xs) new k = elim (Bool-cases (before heap b a)) [
      | inl e ↦
          rw (e, insert)
            (elim k [ inl here ↦ inl here | inr there ↦ inr (insert-keeps a c xs new.1 there) ])
      | inr e ↦
          let first = less_total (Timer.next (heap b)) b (Timer.next (heap a)) a e new.0 in
          rw (e, insert) (rw first (inr k))
    ]

    pub All-erase {κ} : (P : ℕ → Type κ) (a : ℕ) (xs : List ℕ) → All P xs → All P (erase heap a xs)
    unfolding erase
    All-erase P a [] h = tt
    All-erase P a (b ∷ xs) h = elim (Bool-cases (before heap b a)) [
      | inl e ↦ rw (e, erase) (h.0, All-erase P a xs h.1)
      | inr e ↦
          rw (e, erase)
            (elim (Bool-cases (before heap a b)) [ inl f ↦ rw f (h.0, h.1) | inr f ↦ rw f h.1 ])
    ]

    pub erase-Sorted : (a : ℕ) (xs : List ℕ) → Sorted heap xs → Sorted heap (erase heap a xs)
    unfolding erase
    erase-Sorted a [] s = tt
    erase-Sorted a (b ∷ xs) s = elim (Bool-cases (before heap b a)) [
      | inl e ↦
          rw (e, erase) (All-erase (λ c. before heap b c ≡ true) a xs s.0, erase-Sorted a xs s.1)
      | inr e ↦
          rw (e, erase)
            (elim (Bool-cases (before heap a b)) [ inl f ↦ rw f (s.0, s.1) | inr f ↦ rw f s.1 ])
    ]

    not_self : (a b : ℕ) → before heap a b ≡ true → b ≢ a
    unfolding less
    not_self a b h e = absurd (ground (arith, h, ap (λ t. before heap a t) e))

    pub All-not_self :
        (a : ℕ) (xs : List ℕ) → All (λ b. before heap a b ≡ true) xs → All (λ b. b ≢ a) xs
    All-not_self a [] h = tt
    All-not_self a (b ∷ xs) h = (not_self a b h.0, All-not_self a xs h.1)

    -- What `erase` takes out is gone.
    pub erase-absent :
        (a : ℕ) (xs : List ℕ) → Sorted heap xs → In a xs → All (λ b. b ≢ a) (erase heap a xs)
    unfolding erase
    erase-absent a [] s k = elim k [ ]
    erase-absent a (b ∷ xs) s (inl e) =
        rw e (rw (less_irrefl (Timer.next (heap b)) b) (All-not_self b xs s.0))
    erase-absent a (b ∷ xs) s (inr k) =
        let first = All-In (λ c. before heap b c ≡ true) a xs s.0 k in
        rw first ((λ e. not_self b a first (sym e)), erase-absent a xs s.1 k)

    pub erase-keeps :
        (a c : ℕ) (xs : List ℕ)
        → Sorted heap xs
        → In a xs
        → c ≢ a
        → In c xs
        → In c (erase heap a xs)
    unfolding erase
    erase-keeps a c [] s k other j = elim j [ ]
    erase-keeps a c (b ∷ xs) s (inl e) other j = rw e (
        rw (less_irrefl (Timer.next (heap b)) b)
          (elim j [ inl here ↦ absurd (other (here ∙ sym e)) | inr there ↦ there ]))
    erase-keeps a c (b ∷ xs) s (inr k) other j =
        rw (All-In (λ c. before heap b c ≡ true) a xs s.0 k)
          (elim j [ inl here ↦ inl here | inr there ↦ inr (erase-keeps a c xs s.1 k other there) ])

  module _ (heap heap' : ℕ → Timer C) where
    -- The order stays where no time changes.
    before-times :
        (a b : ℕ)
        → Timer.next (heap' a) ≡ Timer.next (heap a)
        → Timer.next (heap' b) ≡ Timer.next (heap b)
        → before heap' a b ≡ before heap a b
    before-times a b h k = rw h (rw k refl)

    first-times :
        (a : ℕ) (xs : List ℕ)
        → Timer.next (heap' a) ≡ Timer.next (heap a)
        → All (λ b. Timer.next (heap' b) ≡ Timer.next (heap b)) xs
        → All (λ b. before heap a b ≡ true) xs
        → All (λ b. before heap' a b ≡ true) xs
    first-times a [] h k s = tt
    first-times a (b ∷ xs) h k s = (before-times a b h k.0 ∙ s.0, first-times a xs h k.1 s.1)

    pub Sorted-times :
        (xs : List ℕ)
        → All (λ b. Timer.next (heap' b) ≡ Timer.next (heap b)) xs
        → Sorted heap xs
        → Sorted heap' xs
    Sorted-times [] h s = tt
    Sorted-times (a ∷ xs) h s = (first-times a xs h.0 h.1 s.0, Sorted-times xs h.1 s.1)
