-- ===== src/Cache/Lru/Nodes.antt =====
-- The list operations of `Cache.Lru`, by iterator, at a node in the middle of the list.
use ynwad.Base.{
  ◌≡◌, ◌≢◌, refl, sym, ap, ◌<◌, List, [], ◌∷◌, ◌++◌, some, ==_refl, ==-false, All, All-append,
  All-split, length, arith,
}
use ynwad.Cache.Lru.{Node, deref, store, unlink, to_front, back, pop_back}

-- `m` is not the node `n`, and not under its key.
abbrev pub Apart {ℓ} : {K V : Type ℓ} → Node K V → Node K V → Type ℓ
Apart n m = (m.key ≢ n.key) × (m.handle ≢ n.handle)

abbrev pub Distinct {ℓ} : {K V : Type ℓ} → List (Node K V) → Type ℓ
Distinct [] = Unit
Distinct (n ∷ ns) = All (Apart n) ns × Distinct ns

module _ {ℓ} {K V : Type ℓ} where
  pub Apart-sym : (n m : Node K V) → Apart n m → Apart m n
  Apart-sym n m h = (λ e. h.0 (sym e), λ e. h.1 (sym e))

  pub deref-middle :
      (n : Node K V) (before after : List (Node K V))
      → All (Apart n) before
      → deref n.handle (before ++ n ∷ after) ≡ some n
  unfolding deref
  deref-middle n [] after h = rw (==_refl n.handle) refl
  deref-middle n (m ∷ before) after h =
      rw (==-false m.handle n.handle h.0.1) (deref-middle n before after h.1)

  pub unlink-middle :
      (n : Node K V) (before after : List (Node K V))
      → All (Apart n) before
      → unlink n.handle (before ++ n ∷ after) ≡ before ++ after
  unfolding unlink
  unlink-middle n [] after h = rw (==_refl n.handle) refl
  unlink-middle n (m ∷ before) after h =
      rw (==-false m.handle n.handle h.0.1) (ap (λ t. m ∷ t) (unlink-middle n before after h.1))

  pub store-middle :
      (n : Node K V) (v : V) (before after : List (Node K V))
      → All (Apart n) before
      → store n.handle v (before ++ n ∷ after) ≡ before ++ record n { value = v } ∷ after
  unfolding store
  store-middle n v [] after h = rw (==_refl n.handle) refl
  store-middle n v (m ∷ before) after h =
      rw (==-false m.handle n.handle h.0.1) (ap (λ t. m ∷ t) (store-middle n v before after h.1))

  pub to_front-middle :
      (n : Node K V) (before after : List (Node K V))
      → All (Apart n) before
      → to_front n.handle (before ++ n ∷ after) ≡ some (n ∷ before ++ after)
  unfolding to_front
  to_front-middle n before after h =
      rw (deref-middle n before after h, to_front) (rw (unlink-middle n before after h) refl)

  -- A list that is not empty is its last node behind the others.
  pub back-pop_back :
      (ns : List (Node K V))
      → 0 < length ns
      → (n : Node K V) × (back ns ≡ some n) × (ns ≡ pop_back ns ++ n ∷ [])
  unfolding back pop_back
  back-pop_back [] h = absurd (omega arith)
  back-pop_back (n ∷ []) h = (n, refl, refl)
  back-pop_back (n ∷ m ∷ ns) h =
      let (last, found, whole) = back-pop_back (m ∷ ns) (omega arith) in
      (last, found, ap (λ t. n ∷ t) whole)

  pub Distinct-middle :
      (n : Node K V) (before after : List (Node K V))
      → Distinct (before ++ n ∷ after)
      → Distinct (before ++ after) × All (Apart n) (before ++ after)
  Distinct-middle n [] after d = (d.1, d.0)
  Distinct-middle n (m ∷ before) after d =
      let (rest, away) = Distinct-middle n before after d.1 in
      let (near, here) = All-split (Apart m) before (n ∷ after) d.0 in
      ((All-append (Apart m) before after near here.1, rest), (Apart-sym m n here.0, away))
