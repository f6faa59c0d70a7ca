-- ===== src/Cache/Timed/Expired.antt =====
-- `expired` of `TimedCache` on a valid cache.
use ynwad.Base.{
  ℕ, suc, ◌+◌, ◌%◌, ◌^◌, ◌≤◌, ◌<◌, ◌≡◌, ◌≢◌, refl, sym, ap, ◌∙◌, Bool, true, Option, none, some,
  ◌==◌, if◌then◌else◌, Bool-cases, Option-cases, inl, inr, arith,
}
use mathlib.Core.Option
use mathlib.Core.Path.{subst}
use mathlib.Core.Logic.{ite}
use ynwad.Cache.Dict.{Dict, erase, assign}
use ynwad.Cache.Timed.{Item, TimedCache, insert_item, inserted_at, remove, deref, exists, expired}
use ynwad.Cache.Timed.Order.{IsOrder, Lacks, Below-Lacks, Below-suc, All-insert_item}
use ynwad.Cache.Timed.Live.{deref-Holds, the_item, All-remove, live-without}
use ynwad.Cache.Timed.Valid.{
  Agree, IsValid, Agree-erase, Agree-remove, Agree-insert, assign-insert, find-erase_self,
}
use ynwad.Cache.Timed.Laws.{seen, seen_at, seen_lem, seen_other, Below-held, deref-insert_item}
use ynwad.Cache.Timed.Back.{plain, deref-remove_other, back_in}

module _ {ℓ} {K V : Type ℓ} (dec : Discrete K) (less : K → K → Bool) (order : IsOrder less) where
  abbrev again : ℕ → Item K V → TimedCache K V → K → TimedCache K V
  again n x c k =
      let item : Item K V = record x { node = c.next_node } in
      let rest = remove n c.timed in
      record c {
        timed = insert_item less item rest;
        next_node = suc c.next_node;
        cache = assign dec k (inserted_at less item rest) c.cache;
      }

  again-IsValid :
      (n : ℕ) (x : Item K V) (c : TimedCache K V) (k : K)
      → IsValid dec less order c
      → c.cache.find k ≡ some n
      → deref n c.timed ≡ some x
      → x.key ≡ k
      → IsValid dec less order (again n x c k)
  again-IsValid n x c k (a, below) e found key =
      let item : Item K V = record x { node = c.next_node } in
      let rest = remove n c.timed in
      let at = inserted_at less item rest in
      let d = erase dec x.key c.cache in
      let e' : c.cache.find x.key ≡ some n = ap c.cache.find key ∙ e in
      let low = All-remove (λ y. y.node < c.next_node) n c.timed below in
      let one : 1 ≤ c.cache.size = omega (
        arith,
        a.counts,
        live-without dec less order c.cache.find k n c.timed e a.distinct (a.held k n e),
      ) in
      let gone = find-erase_self dec x.key c.cache in
      let agree =
        Agree-insert dec less order item d rest
          (Agree-remove dec less order n x d c.timed
            (Agree-erase dec less order x.key c.cache c.timed a) found gone)
          gone (Below-Lacks c.next_node rest low) in
      (
        subst (λ j. Agree dec less order (assign dec j at c.cache) (insert_item less item rest)) key
            (subst (λ (q : Dict K ℕ). Agree dec less order q (insert_item less item rest))
              (sym (assign-insert dec x.key n at c.cache e' one)) agree),
        All-insert_item less order (λ y. y.node < suc c.next_node) item rest (omega arith)
            (Below-suc c.next_node rest low),
      )

  again-seen :
      (n : ℕ) (x : Item K V) (c : TimedCache K V) (k : K)
      → IsValid dec less order c
      → c.cache.find k ≡ some n
      → deref n c.timed ≡ some x
      → Lacks x.key x.ts (remove n c.timed)
      → (j : K) → seen dec j (again n x c k) ≡ seen dec j c
  unfolding seen_at assign
  again-seen n x c k (a, below) e found lacks j =
      let item : Item K V = record x { node = c.next_node } in
      let rest = remove n c.timed in
      let ys = insert_item less item rest in
      let low = All-remove (λ y. y.node < c.next_node) n c.timed below in
      let (placed, there) =
        deref-insert_item dec less order item rest (Below-Lacks c.next_node rest low) lacks in
      seen_lem dec j (again n x c k)
      ∙ (elim (dec j k)
          as (λ q.
            seen_at dec ys (ite q (some (inserted_at less item rest)) (c.cache.find j))
            ≡ seen_at dec c.timed (c.cache.find j)) [
              | yes same ↦
                  ap (λ m. Option.map (λ y. some (Item.val y)) (deref m ys)) placed
                  ∙ ap (Option.map (λ y. some (Item.val y))) there
                  ∙ sym (ap (Option.map (λ y. some (Item.val y))) found)
                  ∙ sym (ap (seen_at dec c.timed) (ap c.cache.find same ∙ e))
              | no other ↦
                  seen_other dec less order item rest (c.cache.find j)
                    (λ u h. Below-held dec j u c.next_node c.timed below (a.held j u h))
                  ∙ elsewhere other (c.cache.find j) refl
            ])
      ∙ sym (seen_lem dec j c)
    where
      elsewhere :
          j ≢ k
          → (o : Option ℕ) → c.cache.find j ≡ o
          → seen_at dec (remove n c.timed) o ≡ seen_at dec c.timed o
      elsewhere other none h = refl
      elsewhere other (some u) h = ap (Option.map (λ y. some (Item.val y))) (
          deref-remove_other n u c.timed (λ same.
            let (y, e', at) = deref-Holds j u c.timed a.distinct (a.held j u h) in
            let (z, e'', at') = deref-Holds k n c.timed a.distinct (a.held k n e) in
            let y_z : y ≡ z = the_item (sym e' ∙ ap (λ m. deref m c.timed) same ∙ e'') in
            other (sym at.0 ∙ ap Item.key y_z ∙ at'.0)))

  -- The parts of `expired`.
  abbrev at_item :
      ℕ → K → ℕ → TimedCache K V → ℕ → Option (Item K V) → Option (TimedCache K V × Bool)
  at_item now k ts c n none = none
  at_item now k ts c n (some x) =
      if x.ts == (ts + now) % 2 ^ 64 then some (c, true) else some (again n x c k, true)

  expired_found :
      (now : ℕ) (k : K) (ts : ℕ) (c : TimedCache K V) (n : ℕ)
      → c.cache.find k ≡ some n
      → expired dec less now k ts c ≡ at_item now k ts c n (deref n c.timed)
  unfolding expired
  expired_found now k ts c n e = rw (e, expired) refl

  -- `expired` of a valid cache, whatever the time, uses no iterator whose element is gone and says whether the
  -- key is there. It leaves the cache valid, with the same items at the same times in the set, and `get`
  -- of any key finds what it found before.
  pub expired-exists :
      (now : ℕ) (k : K) (ts : ℕ) (c : TimedCache K V)
      → IsValid dec less order c
      → (c' : TimedCache K V) × (expired dec less now k ts c ≡ some (c', exists dec k c))
        × IsValid dec less order c'
        × (plain c'.timed ≡ plain c.timed)
        × ((j : K) → seen dec j c' ≡ seen dec j c)
  unfolding expired exists
  expired-exists now k ts c (a, below) = elim (Option-cases (c.cache.find k)) [
    | inl e ↦ (c, rw (e, expired, exists) refl, (a, below), refl, λ j. refl)
    | inr (n, e) ↦
        let (x, found, at) = deref-Holds k n c.timed a.distinct (a.held k n e) in
        let run = expired_found now k ts c n e ∙ ap (at_item now k ts c n) found in
        let (same, lacks) = back_in less order n c.next_node x c.timed a.sorted found in
        elim (Bool-cases (x.ts == (ts + now) % 2 ^ 64)) [
          | inl now_too ↦ (c, rw (e, exists) (run ∙ rw now_too refl), (a, below), refl, λ j. refl)
          | inr later ↦ (
            again n x c k,
            rw (e, exists) (run ∙ rw later refl),
            again-IsValid n x c k (a, below) e found at.0,
            same,
            again-seen n x c k (a, below) e found lacks,
          )
        ]
  ]
