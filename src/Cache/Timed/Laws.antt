-- ===== src/Cache/Timed/Laws.antt =====
-- `get` after `set` of `TimedCache`.
use ynwad.Base.{
  ℕ, ◌+◌, ◌%◌, ◌^◌, ◌≡◌, ◌≢◌, refl, sym, ap, ◌∙◌, Bool, List, [], ◌∷◌, Option, none, some, ◌==◌,
  ==_iff, if◌then◌else◌, Option-cases, inl, inr, arith,
}
use mathlib.Core.Option
use mathlib.Core.Logic.{ite}
use ynwad.Cache.Dict.{insert, erase}
use ynwad.Cache.Timed.{Item, TimedCache, insert_item, inserted_at, deref, prune, get, store, set}
use ynwad.Cache.Timed.Order.{
  IsOrder, Holds, here, later, Lacks, LacksNode, Below, Below-Lacks, place, ahead, behind, there,
  before_total,
}
use ynwad.Cache.Timed.Live.{without, is_at_cases}
use ynwad.Cache.Timed.Valid.{IsValid, find-erase, find-erase_self, find-insert}

module _ {ℓ} {K V : Type ℓ} (dec : Discrete K) where
  -- What `get` of a key finds.
  abbrev pub seen : K → TimedCache K V → Option (Option V)
  seen j c = Option.map (λ r. r.1) (get dec j c)

  unfoldable pub seen_at : List (Item K V) → Option ℕ → Option (Option V)
  seen_at xs none = some none
  seen_at xs (some n) = Option.map (λ x. some (Item.val x)) (deref n xs)

  pub seen_lem : (j : K) (c : TimedCache K V) → seen j c ≡ seen_at c.timed (c.cache.find j)
  unfolding get seen_at
  seen_lem j c = elim (Option-cases (c.cache.find j)) [
    | inl e ↦ rw (e, get) refl
    | inr (n, e) ↦ elim (Option-cases (deref n c.timed)) [
      | inl e' ↦ rw (e, get) (rw (e', get) refl)
      | inr (x, e') ↦ rw (e, get) (rw (e', get) refl)
    ]
  ]

  pub Below-held : (j : K) (u m : ℕ) (xs : List (Item K V)) → Below m xs → Holds j u xs → m ≢ u
  Below-held j u m [] b h = elim h [ ]
  Below-held j u m (x ∷ xs) b (here at) = λ e. absurd (omega (arith, b.0, at.1, e))
  Below-held j u m (x ∷ xs) b (later h) = Below-held j u m xs b.1 h

  module _ (less : K → K → Bool) (order : IsOrder less) where
    skipped :
        (u : ℕ) (x : Item K V) (xs : List (Item K V)) → x.node ≢ u → deref u (x ∷ xs) ≡ deref u xs
    unfolding deref
    skipped u x xs h = elim (is_at_cases u x) [ inl r ↦ absurd (h r.0) | inr r ↦ rw r.1 refl ]

    same_front :
        (u : ℕ) (y : Item K V) (xs ys : List (Item K V))
        → deref u xs ≡ deref u ys
        → deref u (y ∷ xs) ≡ deref u (y ∷ ys)
    unfolding deref
    same_front u y xs ys e = ap (λ o. if y.node == u then some y else o) e

    pub deref-insert_item_other :
        (u : ℕ) (x : Item K V) (xs : List (Item K V))
        → x.node ≢ u
        → deref u (insert_item less x xs) ≡ deref u xs
    unfolding insert_item
    deref-insert_item_other u x [] h = skipped u x [] h
    deref-insert_item_other u x (y ∷ ys) h = elim (place less order x y) [
      | ahead a ↦ rw a (skipped u x (y ∷ ys) h)
      | behind a b ↦
          rw (a, b) (same_front u y (insert_item less x ys) ys (deref-insert_item_other u x ys h))
      | there a b ↦ rw (a, b) refl
    ]

    first_found : (x : Item K V) (xs : List (Item K V)) → deref x.node (x ∷ xs) ≡ some x
    unfolding deref
    first_found x xs = rw ((==_iff x.node x.node).1 refl) refl

    -- A new element is found where its iterator says, when there was none of its key and time.
    pub deref-insert_item :
        (x : Item K V) (xs : List (Item K V))
        → LacksNode x.node xs
        → Lacks x.key x.ts xs
        → (inserted_at less x xs ≡ x.node) × (deref x.node (insert_item less x xs) ≡ some x)
    unfolding insert_item inserted_at
    deref-insert_item x [] n l = (refl, first_found x [])
    deref-insert_item x (y ∷ ys) n l = elim (place less order x y) [
      | ahead a ↦ rw a (refl, first_found x (y ∷ ys))
      | behind a b ↦
          let (at, e) = deref-insert_item x ys n.1 l.1 in
          rw (a, b) (at, skipped x.node y (insert_item less x ys) n.0 ∙ e)
      | there a b ↦ let at = before_total less order x y a b in absurd (l.0 at.0 at.1)
    ]

    prune_unlimited : (c : TimedCache K V) → c.max_size ≡ 0 → prune dec c ≡ some (c, 0)
    unfolding prune
    prune_unlimited c free = rw free refl

    pub seen_other :
        (x : Item K V) (xs : List (Item K V)) (o : Option ℕ)
        → ((u : ℕ) → o ≡ some u → x.node ≢ u)
        → seen_at (insert_item less x xs) o ≡ seen_at xs o
    unfolding seen_at
    seen_other x xs none h = refl
    seen_other x xs (some u) h =
        ap (Option.map (λ y. some (Item.val y))) (deref-insert_item_other u x xs (h u refl))

    -- After set on a valid cache without a limit, whose set has no item of the key and the time, get of the
    -- key finds the value, and of another key what it found before.
    pub seen-set :
        (now : ℕ) (k : K) (v : V) (wait : ℕ) (c : TimedCache K V) (j : K)
        → IsValid dec less order c
        → c.max_size ≡ 0
        → Lacks k ((wait + now) % 2 ^ 64) c.timed
        → (c' : TimedCache K V) × (set dec less now k v wait c ≡ some c')
          × (seen j c' ≡ ite (dec j k) (some (some v)) (seen j c))
    unfolding set store seen_at
    seen-set now k v wait c j valid free new =
        let x : Item K V = record {
          key = k;
          val = v;
          ts = (wait + now) % 2 ^ 64;
          node = c.next_node;
        } in
        let ys = insert_item less x c.timed in
        let at = inserted_at less x c.timed in
        let d = erase dec k c.cache in
        let (placed, found) =
          deref-insert_item x c.timed (Below-Lacks c.next_node c.timed valid.1) new in
        let finds : (insert dec k at d).find j
            ≡ ite (dec j k) (some at) (without dec c.cache.find k j) =
          find-insert dec k j at d (find-erase_self dec k c.cache)
          ∙ ap (ite (dec j k) (some at)) (find-erase dec k c.cache j) in
        (
          store dec less now k v wait c,
          ap (λ o. elim o [ none ↦ none | some r ↦ some r.0 ])
              (prune_unlimited (store dec less now k v wait c) free),
          seen_lem j (store dec less now k v wait c)
              ∙ ap (seen_at ys) finds
              ∙ elim (dec j k)
                  as (λ a.
                    seen_at ys (ite a (some at) (ite a none (c.cache.find j)))
                    ≡ ite a (some (some v)) (seen j c)) [
                      | yes same ↦
                          ap (λ n. Option.map (λ y. some (Item.val y)) (deref n ys)) placed
                          ∙ ap (Option.map (λ y. some (Item.val y))) found
                      | no other ↦
                          seen_other x c.timed (c.cache.find j)
                            (λ u e. Below-held j u c.next_node c.timed valid.1 (valid.0.held j u e))
                          ∙ sym (seen_lem j c)
                    ],
        )
