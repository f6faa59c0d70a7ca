-- ===== src/Cache/Timed/Valid.antt =====
-- The invariant of `TimedCache`: the map refers to items of the set, and how it is kept.
use ynwad.Base.{
  ℕ, suc, ◌-◌, ◌≤◌, ◌≡◌, ◌≢◌, refl, sym, ap, ◌∙◌, Bool, List, ◌∷◌, Option, none, some, Option-cases,
  inl, inr, arith,
}
use mathlib.Core.Path.{subst, fun_ext, ap₂}
use mathlib.Core.Logic.{ite, if_pos, if_neg}
use ynwad.Cache.Dict.{Dict, insert, erase, assign}
use ynwad.Cache.Timed.{Item, TimedCache, insert_item, inserted_at, deref, remove}
use ynwad.Cache.Timed.Order.{
  IsOrder, Holds, here, later, Sorted, Holds-insert_item, Holds-insert_item_other,
  Sorted-insert_item, LacksNode, Distinct, Below, Distinct-insert_item,
}
use ynwad.Cache.Timed.Live.{
  live, without, live_one-none, live-without, live-same, live-insert_item, live-remove,
  Holds-remove, Sorted-remove, Distinct-remove, deref-Holds, the_item,
}

none-some : (o : Option ℕ) {t : ℕ} → o ≡ none → o ≡ some t → ⊥
none-some o h e = ground (arith, h, e)

module _ {ℓ} {K : Type ℓ} (dec : Discrete K) where
  erase_absent : (k : K) (d : Dict K ℕ) → d.find k ≡ none → erase dec k d ≡ d
  unfolding erase
  erase_absent k d e = rw (e, erase) refl

  pub find-erase : (k : K) (d : Dict K ℕ) (j : K) → (erase dec k d).find j ≡ without dec d.find k j
  unfolding erase
  find-erase k d j = elim (Option-cases (d.find k)) [
    | inl e ↦ ap (λ (d' : Dict K ℕ). d'.find j) (erase_absent k d e) ∙ (elim (dec j k) [
      | yes same ↦ ap d.find same ∙ e ∙ sym (if_pos (dec j k) same _ _)
      | no other ↦ sym (if_neg (dec j k) other _ _)
    ])
    | inr (t, e) ↦ rw (e, erase) refl
  ]

  pub find-erase_self : (k : K) (d : Dict K ℕ) → (erase dec k d).find k ≡ none
  find-erase_self k d = find-erase k d k ∙ if_pos (dec k k) refl _ _

  pub find-erase_other :
      (k j : K) (t : ℕ) (d : Dict K ℕ)
      → (erase dec k d).find j ≡ some t
      → (j ≢ k) × (d.find j ≡ some t)
  find-erase_other k j t d e = elim (dec j k) [
    | yes same ↦
        absurd
          (none-some (none) refl (sym (if_pos (dec j k) same _ _) ∙ sym (find-erase k d j) ∙ e))
    | no other ↦ (other, sym (if_neg (dec j k) other _ _) ∙ sym (find-erase k d j) ∙ e)
  ]

  size-erase :
      (k : K) (t : ℕ) (d : Dict K ℕ) → d.find k ≡ some t → (erase dec k d).size ≡ d.size - 1
  unfolding erase
  size-erase k t d e = rw (e, erase) refl

  pub find-insert :
      (k j : K) (t : ℕ) (d : Dict K ℕ)
      → d.find k ≡ none
      → (insert dec k t d).find j ≡ ite (dec j k) (some t) (d.find j)
  unfolding insert
  find-insert k j t d e = rw (e, insert) refl

  size-insert :
      (k : K) (t : ℕ) (d : Dict K ℕ) → d.find k ≡ none → (insert dec k t d).size ≡ suc d.size
  unfolding insert
  size-insert k t d e = rw (e, insert) refl

  -- An entry that is replaced, and one that is taken out and put in again.
  pub assign-insert :
      (k : K) (t u : ℕ) (d : Dict K ℕ)
      → d.find k ≡ some t
      → 1 ≤ d.size
      → assign dec k u d ≡ insert dec k u (erase dec k d)
  unfolding assign
  assign-insert k t u d e some_left =
      let d' = insert dec k u (erase dec k d) in
      ap₂ (λ (f : K → Option ℕ) (n : ℕ). record { find = f; size = n })
        (fun_ext λ j. sym (
          find-insert k j u (erase dec k d) (find-erase_self k d)
          ∙ ap (ite (dec j k) (some u)) (find-erase k d j)
          ∙ (elim (dec j k)
              as (λ a. ite a (some u) (ite a none (d.find j)) ≡ ite a (some u) (d.find j)) [
                | yes _ ↦ refl
                | no _ ↦ refl
              ])))
        (sym (
          size-insert k u (erase dec k d) (find-erase_self k d)
          ∙ ap suc (size-erase k t d e)
          ∙ whole))
    where
      whole : suc (d.size - 1) ≡ d.size
      whole = omega (arith, some_left)

module _ {ℓ} {K V : Type ℓ} (dec : Discrete K) (less : K → K → Bool) (order : IsOrder less) where
  -- The map refers to elements that are in the set, one of its key for each key that it has.
  pub record Agree (d : Dict K ℕ) (xs : List (Item K V)) : Type ℓ where
    pub held : (k : K) (t : ℕ) → d.find k ≡ some t → Holds k t xs
    pub sorted : Sorted less order xs
    pub distinct : Distinct xs
    pub counts : d.size ≡ live dec d.find xs

  abbrev pub IsValid : TimedCache K V → Type ℓ
  IsValid c = Agree c.cache c.timed × Below c.next_node c.timed

  pub Agree-erase :
      (k : K) (d : Dict K ℕ) (xs : List (Item K V)) → Agree d xs → Agree (erase dec k d) xs
  Agree-erase k d xs a = elim (Option-cases (d.find k)) [
    | inl e ↦ subst (λ d'. Agree d' xs) (sym (erase_absent dec k d e)) a
    | inr (t, e) ↦ record {
      held = λ j u h. a.held j u (find-erase_other dec k j u d h).1;
      sorted = a.sorted;
      distinct = a.distinct;
      counts = omega (
        arith,
        size-erase dec k t d e,
        a.counts,
        live-without dec less order d.find k t xs e a.distinct (a.held k t e),
        live-same dec (erase dec k d).find (without dec d.find k) xs (find-erase dec k d),
      );
    }
  ]

  -- The first item goes when the map does not have its key.
  pub Agree-tail :
      (d : Dict K ℕ) (x : Item K V) (xs : List (Item K V))
      → Agree d (x ∷ xs)
      → d.find x.key ≡ none
      → Agree d xs
  unfolding live
  Agree-tail d x xs a e = record {
    held = λ j u h. elim (a.held j u h) [
      | here at ↦ absurd (none-some (d.find j) (ap d.find (sym at.0) ∙ e) h)
      | later r ↦ r
    ];
    sorted = a.sorted.1;
    distinct = a.distinct.1;
    counts = omega (arith, a.counts, live_one-none dec d.find x e);
  }

  pub Agree-remove :
      (n : ℕ) (y : Item K V) (d : Dict K ℕ) (xs : List (Item K V))
      → Agree d xs
      → deref n xs ≡ some y
      → d.find y.key ≡ none
      → Agree d (remove n xs)
  Agree-remove n y d xs a e gone = record {
    held = λ j u h. Holds-remove j n u xs (λ same. other j u h same) (a.held j u h);
    sorted = Sorted-remove dec less order n xs a.sorted;
    distinct = Distinct-remove n xs a.distinct;
    counts = a.counts ∙ sym (live-remove dec d.find n y xs e gone);
  }
    where
      other : (j : K) (u : ℕ) → d.find j ≡ some u → u ≢ n
      other j u h same =
          let (x, e', at) = deref-Holds j u xs a.distinct (a.held j u h) in
          let x_y : x ≡ y = the_item (sym e' ∙ ap (λ m. deref m xs) same ∙ e) in
          absurd (
            none-some (d.find j) (ap d.find (sym at.0) ∙ ap (λ z. d.find (Item.key z)) x_y ∙ gone)
              h)

  abbrev Held : K → List (Item K V) → Option ℕ → Type ℓ
  Held k xs none = Unit {ℓ}
  Held k xs (some t) = Holds k t xs

  pub Agree-insert :
      (x : Item K V) (d : Dict K ℕ) (xs : List (Item K V))
      → Agree d xs
      → d.find x.key ≡ none
      → LacksNode x.node xs
      → Agree (insert dec x.key (inserted_at less x xs) d) (insert_item less x xs)
  Agree-insert x d xs a e new = record {
    held = λ j u h. elim (dec j x.key) [
      | yes same ↦
          subst (λ i. Holds i u ys) (sym same)
            (subst (λ (o : Option ℕ). Held x.key ys o)
              (sym (if_pos (dec j x.key) same _ _) ∙ sym (finds j) ∙ h)
              (Holds-insert_item less order x xs))
      | no other ↦
          Holds-insert_item_other less order j u x xs
            (a.held j u (sym (if_neg (dec j x.key) other _ _) ∙ sym (finds j) ∙ h))
    ];
    sorted = Sorted-insert_item less order x xs a.sorted;
    distinct = distinct;
    counts = omega (
      arith,
      size-insert dec x.key at d e,
      a.counts,
      live-without dec less order (insert dec x.key at d).find x.key at ys
          (finds x.key ∙ if_pos (dec x.key x.key) refl _ _) distinct
          (Holds-insert_item less order x xs),
      live-same dec (without dec (insert dec x.key at d).find x.key) d.find ys back,
      live-insert_item dec less order d.find x xs e,
    );
  }
    where
      ys : List (Item K V)
      ys = insert_item less x xs

      at : ℕ
      at = inserted_at less x xs

      distinct : Distinct ys
      distinct = Distinct-insert_item less order x xs new a.distinct

      finds : (j : K) → (insert dec x.key at d).find j ≡ ite (dec j x.key) (some at) (d.find j)
      finds j = find-insert dec x.key j at d e

      back : (j : K) → without dec (insert dec x.key at d).find x.key j ≡ d.find j
      back j = elim (dec j x.key) [
        | yes same ↦ if_pos (dec j x.key) same _ _ ∙ sym (ap d.find same ∙ e)
        | no other ↦ if_neg (dec j x.key) other _ _ ∙ finds j ∙ if_neg (dec j x.key) other _ _
      ]
