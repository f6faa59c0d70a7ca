-- ===== src/Cache/Timed/Order.antt =====
-- The set of items in its order: what insertion and removal do to it.
use ynwad.Base.{
  ℕ, suc, ◌<◌, ◌≡◌, ◌≢◌, inl, inr, refl, sym, Bool, true, false, List, [], ◌∷◌, Bool-cases, All,
  arith,
}
use mathlib.Core.Path.{subst}
use ynwad.Cache.Timed.{Item, before, insert_item, inserted_at}

-- `operator<` of the keys is a strict order.
pub record IsOrder {ℓ} {K : Type ℓ} (less : K → K → Bool) : Type ℓ where
  pub irrefl : (a : K) → less a a ≡ false
  pub trans : (a b c : K) → less a b ≡ true → less b c ≡ true → less a c ≡ true
  pub total : (a b : K) → less a b ≡ false → less b a ≡ false → a ≡ b

module _ {ℓ} {K V : Type ℓ} where
  -- The element of an iterator, when it has a key.
  abbrev pub IsAt : K → ℕ → Item K V → Type ℓ
  IsAt k n x = (x.key ≡ k) × (x.node ≡ n)

  pub data Holds (k : K) (n : ℕ) : List (Item K V) → Type ℓ where
    here : {x : Item K V} {xs : List (Item K V)} → IsAt k n x → Holds k n (x ∷ xs)
    later : {x : Item K V} {xs : List (Item K V)} → Holds k n xs → Holds k n (x ∷ xs)

  -- No item of the key and the time.
  abbrev pub Lacks : K → ℕ → List (Item K V) → Type ℓ
  Lacks k t xs = All (λ x. x.key ≡ k → x.ts ≢ t) xs

  abbrev pub LacksNode : ℕ → List (Item K V) → Type 0
  LacksNode n xs = All (λ x. x.node ≢ n) xs

  -- Every element has a number of its own.
  abbrev pub Distinct : List (Item K V) → Type 0
  Distinct [] = Unit
  Distinct (x ∷ xs) = LacksNode x.node xs × Distinct xs

  abbrev pub Below : ℕ → List (Item K V) → Type 0
  Below n xs = All (λ x. x.node < n) xs

  pub Below-Lacks : (n : ℕ) (xs : List (Item K V)) → Below n xs → LacksNode n xs
  Below-Lacks n [] h = tt
  Below-Lacks n (x ∷ xs) h = (λ e. absurd (omega (arith, h.0, e)), Below-Lacks n xs h.1)

  pub Below-suc : (n : ℕ) (xs : List (Item K V)) → Below n xs → Below (suc n) xs
  Below-suc n [] h = tt
  Below-suc n (x ∷ xs) h = (omega (arith, h.0), Below-suc n xs h.1)

  pub not_both : (k : K) (n : ℕ) (xs : List (Item K V)) → LacksNode n xs → Holds k n xs → ⊥
  not_both k n [] l h = elim h [ ]
  not_both k n (x ∷ xs) l (here h) = l.0 h.1
  not_both k n (x ∷ xs) l (later h) = not_both k n xs l.1 h

  pub keep :
      {k : K} {t : ℕ} {y : Item K V} {xs ys : List (Item K V)}
      → Holds k t (y ∷ xs)
      → (Holds k t xs → Holds k t ys)
      → Holds k t (y ∷ ys)
  keep (here e) f = here e
  keep (later e) f = later (f e)

module _ {ℓ} {K V : Type ℓ} (less : K → K → Bool) (order : IsOrder less) where
  abbrev pub Sorted : List (Item K V) → Type ℓ
  Sorted [] = Unit
  Sorted (x ∷ xs) = All (λ y. before less x y ≡ true) xs × Sorted xs

  pub before_trans :
      (x y z : Item K V) → before less x y ≡ true → before less y z ≡ true → before less x z ≡ true
  before_trans x y z h k = ground (arith, h, k, order.trans x.key y.key z.key)

  pub before_self : (x y : Item K V) → before less x y ≡ true → x.key ≡ y.key → x.ts ≢ y.ts
  before_self x y h same e =
      absurd (ground (arith, h, e, subst (λ a. less x.key a ≡ false) same (order.irrefl x.key)))

  pub before_total :
      (x y : Item K V)
      → before less x y ≡ false
      → before less y x ≡ false
      → (y.key ≡ x.key) × (y.ts ≡ x.ts)
  before_total x y h k = ground (arith, h, k, order.total x.key y.key)

  pub after_first :
      (x y : Item K V) (xs : List (Item K V))
      → before less x y ≡ true
      → All (λ z. before less y z ≡ true) xs
      → All (λ z. before less x z ≡ true) xs
  after_first x y [] h l = tt
  after_first x y (z ∷ xs) h l = (before_trans x y z h l.0, after_first x y xs h l.1)

  -- The cases of an insertion.
  pub data Place (x y : Item K V) : Type ℓ where
    ahead : before less x y ≡ true → Place x y
    behind : before less x y ≡ false → before less y x ≡ true → Place x y
    there : before less x y ≡ false → before less y x ≡ false → Place x y

  pub place : (x y : Item K V) → Place x y
  place x y = elim (Bool-cases (before less x y)) [
    | inl h ↦ ahead h
    | inr h ↦ elim (Bool-cases (before less y x)) [ inl k ↦ behind h k | inr k ↦ there h k ]
  ]

  pub Holds-insert_item :
      (x : Item K V) (xs : List (Item K V))
      → Holds x.key (inserted_at less x xs) (insert_item less x xs)
  unfolding insert_item inserted_at
  Holds-insert_item x [] = here (refl, refl)
  Holds-insert_item x (y ∷ ys) = elim (place x y) [
    | ahead h ↦ rw h (here (refl, refl))
    | behind h k ↦ rw (h, k) (later (Holds-insert_item x ys))
    | there h k ↦ rw (h, k) (here ((before_total x y h k).0, refl))
  ]

  pub Holds-insert_item_other :
      (k : K) (t : ℕ) (x : Item K V) (xs : List (Item K V))
      → Holds k t xs
      → Holds k t (insert_item less x xs)
  unfolding insert_item
  Holds-insert_item_other k t x [] h = elim h [ ]
  Holds-insert_item_other k t x (y ∷ ys) h = elim (place x y) [
    | ahead a ↦ rw a (later h)
    | behind a b ↦ rw (a, b) (keep h (Holds-insert_item_other k t x ys))
    | there a b ↦ rw (a, b) h
  ]

  pub All-insert_item {κ} :
      (P : Item K V → Type κ) (x : Item K V) (xs : List (Item K V))
      → P x
      → All P xs
      → All P (insert_item less x xs)
  unfolding insert_item
  All-insert_item P x [] h l = (h, tt)
  All-insert_item P x (z ∷ zs) h l = elim (place x z) [
    | ahead a ↦ rw a (h, l)
    | behind a b ↦ rw (a, b) (l.0, All-insert_item P x zs h l.1)
    | there a b ↦ rw (a, b) l
  ]

  pub Distinct-insert_item :
      (x : Item K V) (xs : List (Item K V))
      → LacksNode x.node xs
      → Distinct xs
      → Distinct (insert_item less x xs)
  unfolding insert_item
  Distinct-insert_item x [] l d = (tt, tt)
  Distinct-insert_item x (y ∷ ys) l d = elim (place x y) [
    | ahead a ↦ rw a (l, d)
    | behind a b ↦
        rw (a, b)
          (
            All-insert_item (λ z. z.node ≢ y.node) x ys (λ e. l.0 (sym e)) d.0,
            Distinct-insert_item x ys l.1 d.1,
          )
    | there a b ↦ rw (a, b) d
  ]

  pub Sorted-insert_item :
      (x : Item K V) (xs : List (Item K V)) → Sorted xs → Sorted (insert_item less x xs)
  unfolding insert_item
  Sorted-insert_item x [] s = (tt, tt)
  Sorted-insert_item x (y ∷ ys) s = elim (place x y) [
    | ahead a ↦ rw a ((a, after_first x y ys a s.0), s)
    | behind a b ↦
        rw (a, b)
          (All-insert_item (λ z. before less y z ≡ true) x ys b s.0, Sorted-insert_item x ys s.1)
    | there a b ↦ rw (a, b) s
  ]
