-- ===== src/Cache/Timed/Keeps.antt =====
-- The invariant of `TimedCache` behind each operation.
use ynwad.Base.{
  ℕ, suc, ◌+◌, ◌%◌, ◌^◌, ◌≤◌, ◌<◌, ◌≡◌, ◌⊎◌, refl, Bool, true, false, List, [], ◌∷◌, Option, none,
  some, ltb, leb, ◌==◌, ◌||◌, Bool-cases, Option-cases, ltb→ge, inl, inr, arith,
}
use ynwad.Cache.Dict.{Dict, erase}
use ynwad.Cache.Status.{inc_prune, inc_get, inc_hit, inc_del}
use ynwad.Cache.Timed.{
  Item, TimedCache, max_allowed_size, evict, prune_loop, prune, get, del, timeout_loop, store, set,
  exists,
}
use ynwad.Cache.Timed.Order.{IsOrder, Below, Below-Lacks, Below-suc, All-insert_item}
use ynwad.Cache.Timed.Live.{deref-Holds, live}
use ynwad.Cache.Timed.Valid.{Agree, IsValid, Agree-erase, Agree-tail, Agree-insert, find-erase_self}
use ynwad.Cache.Dict.{empty_dict}

module _ {ℓ} {K V : Type ℓ} (dec : Discrete K) (less : K → K → Bool) (order : IsOrder less) where
  abbrev Valid : TimedCache K V → Type ℓ
  Valid c = IsValid dec less order c

  pub empty_Agree : Agree {V = V} dec less order empty_dict []
  unfolding live
  empty_Agree = record {
    held = λ k t e. absurd (ground (arith, e));
    sorted = tt;
    distinct = tt;
    counts = refl;
  }

  pub Agree-evict :
      (x : Item K V) (xs : List (Item K V)) (d : Dict K ℕ)
      → Agree dec less order d (x ∷ xs)
      → Agree dec less order (erase dec x.key d) xs
  Agree-evict x xs d a =
      Agree-tail dec less order (erase dec x.key d) x xs
        (Agree-erase dec less order x.key d (x ∷ xs) a) (find-erase_self dec x.key d)

  -- The loop of `prune` ends with no more entries than the limit.
  pub prune_loop-IsValid :
      (count : ℕ) (xs : List (Item K V)) (c : TimedCache K V)
      → Agree dec less order c.cache xs
      → Below c.next_node xs
      → (r : TimedCache K V × ℕ) × (prune_loop dec count xs c ≡ some r)
        × Valid r.0
        × (r.0.cache.size ≤ c.max_size)
  unfolding prune_loop live
  prune_loop-IsValid count [] c a b =
      ((record c { timed = [] }, count), ground (arith, a.counts), (a, tt), omega (arith, a.counts))
  prune_loop-IsValid count (x ∷ xs) c a b = elim (Bool-cases (ltb c.max_size c.cache.size)) [
    | inl over ↦
        let (r, e, v, few) =
          prune_loop-IsValid (count + 1) xs (evict dec x c) (Agree-evict x xs c.cache a) b.1 in
        (r, rw (over, prune_loop) e, v, few)
    | inr within ↦ (
      (record c { timed = x ∷ xs }, count),
      rw (within, prune_loop) refl,
      (a, b),
      ltb→ge c.max_size c.cache.size within,
    )
  ]

  pub prune-IsValid :
      (c : TimedCache K V) → Valid c → (r : TimedCache K V × ℕ) × (prune dec c ≡ some r) × Valid r.0
  unfolding prune
  prune-IsValid c a =
      let (r, e, v, _) = prune_loop-IsValid 0 c.timed c a.0 a.1 in
      elim (Bool-cases ((c.max_size == 0) || ltb c.cache.size (max_allowed_size c))) [
        | inl small ↦ ((c, 0), rw small refl, a)
        | inr big ↦
            ((record r.0 { status = inc_prune r.1 r.0.status }, r.1), ground (arith, big, e), v)
      ]

  store-IsValid :
      (now : ℕ) (k : K) (v : V) (wait : ℕ) (c : TimedCache K V)
      → Valid c
      → Valid (store dec less now k v wait c)
  unfolding store
  store-IsValid now k v wait c a =
      let x : Item K V = record {
        key = k;
        val = v;
        ts = (wait + now) % 2 ^ 64;
        node = c.next_node;
      } in
      (
        Agree-insert dec less order x (erase dec k c.cache) c.timed
            (Agree-erase dec less order k c.cache c.timed a.0) (find-erase_self dec k c.cache)
            (Below-Lacks c.next_node c.timed a.1),
        All-insert_item less order (λ y. y.node < suc c.next_node) x c.timed (omega arith)
            (Below-suc c.next_node c.timed a.1),
      )

  pub set-IsValid :
      (now : ℕ) (k : K) (v : V) (wait : ℕ) (c : TimedCache K V)
      → Valid c
      → (c' : TimedCache K V) × (set dec less now k v wait c ≡ some c') × Valid c'
  unfolding set
  set-IsValid now k v wait c a =
      let (r, e, v') =
        prune-IsValid (store dec less now k v wait c) (store-IsValid now k v wait c a) in
      (r.0, rw (e, set) refl, v')

  pub get-IsValid :
      (k : K) (c : TimedCache K V)
      → Valid c
      → (r : TimedCache K V × Option V) × (get dec k c ≡ some r) × Valid r.0
  unfolding get
  get-IsValid k c a = elim (Option-cases (c.cache.find k)) [
    | inl e ↦ ((record c { status = inc_get c.status }, none), rw (e, get) refl, a)
    | inr (t, e) ↦
        let (x, e', _) = deref-Holds k t c.timed a.0.distinct (a.0.held k t e) in
        (
          (record c { status = inc_hit (inc_get c.status) }, some x.val),
          rw (e, get) (rw (e', get) refl),
          a,
        )
  ]

  -- `del` ends only for a key that is not there.
  pub del-IsValid :
      (k : K) (c : TimedCache K V)
      → Valid c
      → ((r : TimedCache K V × Bool) × (del dec k c ≡ some r) × Valid r.0) ⊎ (exists dec k c ≡ true)
  unfolding del exists
  del-IsValid k c a = elim (Option-cases (c.cache.find k)) [
    | inl e ↦ inl ((record c { status = inc_del c.status }, false), rw (e, del) refl, a)
    | inr (n, e) ↦ inr (rw (e, exists) refl)
  ]

  pub timeout_loop-IsValid :
      (ts count : ℕ) (xs : List (Item K V)) (c : TimedCache K V)
      → Agree dec less order c.cache xs
      → Below c.next_node xs
      → Valid (timeout_loop dec ts count xs c).0
  unfolding timeout_loop
  timeout_loop-IsValid ts count [] c a b = (a, tt)
  timeout_loop-IsValid ts count (x ∷ xs) c a b = elim (Bool-cases (leb x.ts ts)) [
    | inl out ↦
        rw (out, timeout_loop)
          (timeout_loop-IsValid ts (count + 1) xs (evict dec x c) (Agree-evict x xs c.cache a) b.1)
    | inr left ↦ rw (left, timeout_loop) (a, b)
  ]
