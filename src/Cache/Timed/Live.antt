-- ===== src/Cache/Timed/Live.antt =====
-- Items that the map refers to, how many there are, and what taking an item out of the set does.
use ynwad.Base.{
  ℕ, suc, ◌+◌, ◌≡◌, ◌≢◌, ◌⊎◌, inl, inr, refl, sym, ap, ◌∙◌, Bool, true, false, List, [], ◌∷◌,
  Option, none, some, ◌==◌, ==_iff, ==-false, if◌then◌else◌, All, arith,
}
use native.Mathlib.Decide.{ℕ_discrete}
use mathlib.Core.Path.{subst, fun_ext}
use mathlib.Core.Logic.{ite, if_pos, if_neg}
use ynwad.Cache.Timed.{Item, before, insert_item, deref, remove}
use ynwad.Cache.Timed.Order.{
  IsOrder, IsAt, Holds, here, later, keep, LacksNode, Distinct, not_both, Sorted, place, ahead,
  behind, there,
}

abbrev pub without {ℓ} : {K : Type ℓ} → Discrete K → (K → Option ℕ) → K → K → Option ℕ
without dec f k j = ite (dec j k) none (f j)

pub the_item {ℓ} : {A : Type ℓ} {x y : A} → some x ≡ some y → x ≡ y
the_item {x} e = ap (λ o. elim o [ none ↦ x | some z ↦ z ]) e

module _ {ℓ} {K V : Type ℓ} where
  pub is_at_cases :
      (n : ℕ) (x : Item K V)
      → ((x.node ≡ n) × ((x.node == n) ≡ true)) ⊎ ((x.node ≢ n) × ((x.node == n) ≡ false))
  is_at_cases n x = elim (ℕ_discrete x.node n) [
    | yes e ↦ inl (e, (==_iff x.node n).1 e)
    | no e ↦ inr (e, ==-false x.node n e)
  ]

  pub deref-Holds :
      (k : K) (n : ℕ) (xs : List (Item K V))
      → Distinct xs
      → Holds k n xs
      → (x : Item K V) × (deref n xs ≡ some x) × IsAt k n x
  unfolding deref
  deref-Holds k n [] d h = elim h [ ]
  deref-Holds k n (x ∷ xs) d (here at) = (x, rw ((==_iff x.node n).1 at.1) refl, at)
  deref-Holds k n (x ∷ xs) d (later h) = elim (is_at_cases n x) [
    | inl r ↦ absurd (not_both k n xs (subst (λ m. LacksNode m xs) r.0 d.0) h)
    | inr r ↦ let (y, e, at) = deref-Holds k n xs d.1 h in (y, rw r.1 e, at)
  ]

  -- The other elements stay where one is taken out.
  pub Holds-remove :
      (j : K) (n u : ℕ) (xs : List (Item K V)) → u ≢ n → Holds j u xs → Holds j u (remove n xs)
  unfolding remove
  Holds-remove j n u [] other h = elim h [ ]
  Holds-remove j n u (x ∷ xs) other h = elim (is_at_cases n x) [
    | inl r ↦ rw r.1 (elim h [ here e ↦ absurd (other (sym e.1 ∙ r.0)) | later e ↦ e ])
    | inr r ↦ rw r.1 (keep h (Holds-remove j n u xs other))
  ]

  pub All-remove {κ} :
      (P : Item K V → Type κ) (n : ℕ) (xs : List (Item K V)) → All P xs → All P (remove n xs)
  unfolding remove
  All-remove P n [] h = tt
  All-remove P n (x ∷ xs) h = elim (is_at_cases n x) [
    | inl r ↦ rw r.1 h.1
    | inr r ↦ rw r.1 (h.0, All-remove P n xs h.1)
  ]

  pub Distinct-remove : (n : ℕ) (xs : List (Item K V)) → Distinct xs → Distinct (remove n xs)
  unfolding remove
  Distinct-remove n [] d = tt
  Distinct-remove n (x ∷ xs) d = elim (is_at_cases n x) [
    | inl r ↦ rw r.1 d.1
    | inr r ↦ rw r.1 (All-remove (λ y. y.node ≢ x.node) n xs d.0, Distinct-remove n xs d.1)
  ]

module _ {ℓ} {K V : Type ℓ} (dec : Discrete K) where
  -- An element counts when the map refers to it for its key.
  abbrev pub counted : Item K V → Option ℕ → ℕ
  counted x none = 0
  counted x (some t) = if x.node == t then 1 else 0

  abbrev pub live_one : (K → Option ℕ) → Item K V → ℕ
  live_one f x = counted x (f x.key)

  unfoldable pub live : (K → Option ℕ) → List (Item K V) → ℕ
  live f [] = 0
  live f (x ∷ xs) = live_one f x + live f xs

  live_one-without_other :
      (f : K → Option ℕ) (k : K) (x : Item K V)
      → x.key ≢ k
      → live_one (without dec f k) x ≡ live_one f x
  live_one-without_other f k x other = ap (counted x) (if_neg (dec x.key k) other _ _)

  pub live_one-without :
      (f : K → Option ℕ) (k : K) (x : Item K V) → x.key ≡ k → live_one (without dec f k) x ≡ 0
  live_one-without f k x same = ap (counted x) (if_pos (dec x.key k) same _ _)

  -- What an item of the key counts by its number.
  live_one-some :
      (f : K → Option ℕ) (k : K) (t : ℕ) (x : Item K V)
      → f k ≡ some t
      → x.key ≡ k
      → live_one f x ≡ (if x.node == t then 1 else 0)
  live_one-some f k t x e same = ap (counted x) (ap f same ∙ e)

  pub live_one-none : (f : K → Option ℕ) (x : Item K V) → f x.key ≡ none → live_one f x ≡ 0
  live_one-none f x e = ap (counted x) e

  live-Lacks :
      (f : K → Option ℕ) (k : K) (t : ℕ) (xs : List (Item K V))
      → f k ≡ some t
      → LacksNode t xs
      → live (without dec f k) xs ≡ live f xs
  unfolding live
  live-Lacks f k t [] e l = refl
  live-Lacks f k t (x ∷ xs) e l = elim (dec x.key k) [
    | yes same ↦ omega (
      arith,
      live-Lacks f k t xs e l.1,
      live_one-without f k x same,
      live_one-some f k t x e same ∙ ap (λ b. if b then 1 else 0) (==-false x.node t l.0),
    )
    | no other ↦ omega (arith, live-Lacks f k t xs e l.1, live_one-without_other f k x other)
  ]

  module _ (less : K → K → Bool) (order : IsOrder less) where
    pub Sorted-remove :
        (t : ℕ) (xs : List (Item K V)) → Sorted less order xs → Sorted less order (remove t xs)
    unfolding remove
    Sorted-remove t [] s = tt
    Sorted-remove t (x ∷ xs) s = elim (is_at_cases t x) [
      | inl r ↦ rw r.1 s.1
      | inr r ↦ rw r.1 (All-remove (λ y. before less x y ≡ true) t xs s.0, Sorted-remove t xs s.1)
    ]

    -- Of the items of a key the map refers to one.
    pub live-without :
        (f : K → Option ℕ) (k : K) (t : ℕ) (xs : List (Item K V))
        → f k ≡ some t
        → Distinct xs
        → Holds k t xs
        → suc (live (without dec f k) xs) ≡ live f xs
    unfolding live
    live-without f k t [] e s h = elim h [ ]
    live-without f k t (x ∷ xs) e s (here at) = omega (
      arith,
      live-Lacks f k t xs e (subst (λ m. LacksNode m xs) at.1 s.0),
      live_one-without f k x at.0,
      live_one-some f k t x e at.0 ∙ ap (λ b. if b then 1 else 0) ((==_iff x.node t).1 at.1),
    )
    live-without f k t (x ∷ xs) e s (later h) = elim (dec x.key k) [
      | yes same ↦ omega (
        arith,
        live-without f k t xs e s.1 h,
        live_one-without f k x same,
        live_one-some f k t x e same
            ∙ ap (λ b. if b then 1 else 0)
                (==-false x.node t (λ at. not_both k t xs (subst (λ m. LacksNode m xs) at s.0) h)),
      )
      | no other ↦ omega (arith, live-without f k t xs e s.1 h, live_one-without_other f k x other)
    ]

    pub live-insert_item :
        (f : K → Option ℕ) (x : Item K V) (xs : List (Item K V))
        → f x.key ≡ none
        → live f (insert_item less x xs) ≡ live f xs
    unfolding live insert_item
    live-insert_item f x [] e = omega (arith, live_one-none f x e)
    live-insert_item f x (y ∷ ys) e = elim (place less order x y) [
      | ahead a ↦ rw a (omega (arith, live_one-none f x e))
      | behind a b ↦ rw (a, b) (omega (arith, live-insert_item f x ys e))
      | there a b ↦ rw (a, b) refl
    ]

  pub live-same :
      (f g : K → Option ℕ) (xs : List (Item K V)) → ((j : K) → f j ≡ g j) → live f xs ≡ live g xs
  live-same f g xs h = ap (λ (q : K → Option ℕ). live q xs) (fun_ext h)

  pub live-remove :
      (f : K → Option ℕ) (n : ℕ) (y : Item K V) (xs : List (Item K V))
      → deref n xs ≡ some y
      → f y.key ≡ none
      → live f (remove n xs) ≡ live f xs
  unfolding live remove deref
  live-remove f n y [] e h = refl
  live-remove f n y (x ∷ xs) e h = elim (is_at_cases n x) [
    | inl r ↦
        let same = the_item (ap (λ b. if b then some x else deref n xs) (sym r.1) ∙ e) in
        rw r.1 (omega (arith, live_one-none f x (ap (λ z. f (Item.key z)) same ∙ h)))
    | inr r ↦ rw r.1 (
        omega (
          arith,
          live-remove f n y xs (ap (λ b. if b then some x else deref n xs) (sym r.1) ∙ e) h,
        ))
  ]
