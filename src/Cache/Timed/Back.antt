-- ===== src/Cache/Timed/Back.antt =====
-- An item of `TimedCache` that is taken out of the set and put back with the time that it had.
use ynwad.Base.{
  ℕ, ◌≡◌, ◌≢◌, refl, sym, ap, ◌∙◌, Bool, true, List, [], ◌∷◌, Option, some, ◌==◌, if◌then◌else◌,
  Bool-cases, All, inl, inr, arith,
}
use mathlib.Core.Path.{subst}
use ynwad.Cache.Timed.{Item, before, insert_item, remove, deref}
use ynwad.Cache.Timed.Order.{IsOrder, Sorted, Lacks, before_self, before_trans}
use ynwad.Cache.Timed.Live.{is_at_cases, the_item}

module _ {ℓ} {K V : Type ℓ} where
  -- The items without the numbers of their elements.
  abbrev pub plain : List (Item K V) → List (K × V × ℕ)
  plain [] = []
  plain (x ∷ xs) = (x.key, x.val, x.ts) ∷ plain xs

  abbrev next_item : Bool → Item K V → Option (Item K V) → Option (Item K V)
  next_item b y o = if b then some y else o

  pub All-deref {κ} :
      (P : Item K V → Type κ) (n : ℕ) (x : Item K V) (xs : List (Item K V))
      → All P xs
      → deref n xs ≡ some x
      → P x
  unfolding deref
  All-deref P n x [] l e = absurd (ground (arith, e))
  All-deref P n x (y ∷ ys) l e = elim (is_at_cases n y) [
    | inl r ↦ subst P (the_item (ap (λ b. next_item b y (deref n ys)) (sym r.1) ∙ e)) l.0
    | inr r ↦ All-deref P n x ys l.1 (ap (λ b. next_item b y (deref n ys)) (sym r.1) ∙ e)
  ]

  pub deref-remove_other :
      (n u : ℕ) (xs : List (Item K V)) → u ≢ n → deref u (remove n xs) ≡ deref u xs
  unfolding deref remove
  deref-remove_other n u [] h = refl
  deref-remove_other n u (x ∷ xs) h = elim (is_at_cases n x) [
    | inl r ↦ elim (is_at_cases u x) [
      | inl r' ↦ absurd (h (sym r'.0 ∙ r.0))
      | inr r' ↦ rw (r.1, r'.1) refl
    ]
    | inr r ↦ rw r.1 (ap (λ o. next_item (x.node == u) x o) (deref-remove_other n u xs h))
  ]

module _ {ℓ} {K V : Type ℓ} (less : K → K → Bool) (order : IsOrder less) where
  insert_first :
      (x : Item K V) (xs : List (Item K V))
      → All (λ y. before less x y ≡ true) xs
      → insert_item less x xs ≡ x ∷ xs
  unfolding insert_item
  insert_first x [] l = refl
  insert_first x (y ∷ ys) l = rw l.0 refl

  insert_behind :
      (x y : Item K V) (xs : List (Item K V))
      → before less y x ≡ true
      → insert_item less x (y ∷ xs) ≡ y ∷ insert_item less x xs
  unfolding insert_item
  insert_behind x y xs h = elim (Bool-cases (before less x y)) [
    | inl k ↦ absurd (before_self less order x x (before_trans less order x y x k h) refl refl)
    | inr k ↦ rw (k, h) refl
  ]

  Lacks-behind :
      (x y : Item K V) (xs : List (Item K V))
      → x ≡ y
      → All (λ z. before less y z ≡ true) xs
      → Lacks x.key x.ts xs
  Lacks-behind x y [] e l = tt
  Lacks-behind x y (z ∷ zs) e l = (
    λ k t.
        before_self less order y z l.0 (ap Item.key (sym e) ∙ sym k) (ap Item.ts (sym e) ∙ sym t),
    Lacks-behind x y zs e l.1,
  )

  -- A copy of an item that was taken out goes to the place of the item.
  pub back_in :
      (n m : ℕ) (x : Item K V) (xs : List (Item K V))
      → Sorted less order xs
      → deref n xs ≡ some x
      → (plain (insert_item less (record x { node = m }) (remove n xs)) ≡ plain xs)
        × Lacks x.key x.ts (remove n xs)
  unfolding deref remove
  back_in n m x [] s e = absurd (ground (arith, e))
  back_in n m x (y ∷ ys) s e = elim (is_at_cases n y) [
    | inl r ↦
        let same = the_item (ap (λ b. next_item b y (deref n ys)) (sym r.1) ∙ e) in
        rw r.1 (
          subst
              (λ (z : Item K V).
                plain (insert_item less (record z { node = m }) ys) ≡ plain (y ∷ ys))
              same (ap plain (insert_first (record y { node = m }) ys s.0)),
          Lacks-behind x y ys (sym same) s.0,
        )
    | inr r ↦
        let e' = ap (λ b. next_item b y (deref n ys)) (sym r.1) ∙ e in
        let ahead = All-deref (λ z. before less y z ≡ true) n x ys s.0 e' in
        let (same, lacks) = back_in n m x ys s.1 e' in
        rw r.1 (
          ap plain (insert_behind (record x { node = m }) y (remove n ys) ahead)
              ∙ ap (λ zs. (y.key, y.val, y.ts) ∷ zs) same,
          (before_self less order y x ahead, lacks),
        )
  ]
