-- ===== src/Cache/Timed/Timeout.antt =====
-- `checkTimeout` of `TimedCache`: what goes and what stays.
use ynwad.Base.{
  ℕ, ◌+◌, ◌≤◌, ◌<◌, ◌≡◌, refl, sym, ap, ◌∙◌, Bool, true, false, List, [], ◌∷◌, ◌++◌, Option, none,
  some, leb, leb→le, leb→gt, if◌then◌else◌, Bool-cases, All, length, reverse, inl, inr,
  reverse-append, append_assoc, arith,
}
use mathlib.Core.Path.{fun_ext}
use mathlib.Core.Logic.{ite}
use ynwad.Cache.Timed.{Item, TimedCache, before, evict, deref, timeout_loop, check_timeout}
use ynwad.Cache.Timed.Order.{IsOrder, Sorted}
use ynwad.Cache.Timed.Valid.{IsValid, find-erase}
use ynwad.Cache.Timed.Live.{without, deref-Holds}
use ynwad.Cache.Timed.Back.{All-deref}
use ynwad.Cache.Timed.Keeps.{timeout_loop-IsValid}

same_calls {ℓ} : {A : Type ℓ} (b : Bool) (cs : A) → cs ≡ (if b then cs else cs)
same_calls true cs = refl
same_calls false cs = refl

more_calls {ℓ} :
    {A : Type ℓ} (b : Bool) (a : A) (ps cs : List A)
    → (if b then reverse ps ++ (if b then a ∷ cs else cs) else (if b then a ∷ cs else cs))
      ≡ (if b then reverse (a ∷ ps) ++ cs else cs)
more_calls true a ps cs =
    sym (append_assoc (reverse ps) (a ∷ []) cs)
    ∙ ap (λ t. t ++ cs) (sym (reverse-append (a ∷ []) ps))
more_calls false a ps cs = refl

ite_swap {ℓ κ} :
    {A : Type ℓ} {B : Type κ} (a : Dec A) (b : Dec B) (o : Option ℕ)
    → ite a none (ite b none o) ≡ ite b none (ite a none o)
ite_swap (yes _) (yes _) o = refl
ite_swap (yes _) (no _) o = refl
ite_swap (no _) (yes _) o = refl
ite_swap (no _) (no _) o = refl

module _ {ℓ} {K V : Type ℓ} (dec : Discrete K) where
  -- What the map has once the keys of items are gone.
  abbrev pub find_behind : List (Item K V) → (K → Option ℕ) → K → Option ℕ
  find_behind [] f k = f k
  find_behind (x ∷ gone) f k = ite (dec k x.key) none (find_behind gone f k)

  find_behind-without :
      (j : K) (gone : List (Item K V)) (f : K → Option ℕ) (k : K)
      → find_behind gone (without dec f j) k ≡ ite (dec k j) none (find_behind gone f k)
  find_behind-without j [] f k = refl
  find_behind-without j (x ∷ gone) f k =
      ap (ite (dec k x.key) none) (find_behind-without j gone f k)
      ∙ ite_swap (dec k x.key) (dec k j) (find_behind gone f k)

  abbrev pub pairs : List (Item K V) → List (K × V)
  pairs [] = []
  pairs (x ∷ gone) = (x.key, x.val) ∷ pairs gone

  -- How the items part.
  pub record Timeout (ts count : ℕ) (xs : List (Item K V)) (c : TimedCache K V)
      (r : TimedCache K V × ℕ) : Type ℓ where
    pub gone : List (Item K V)
    pub parts : xs ≡ gone ++ r.0.timed
    pub due : All (λ x. x.ts ≤ ts) gone
    pub left : All (λ x. ts < x.ts) r.0.timed
    pub number : r.1 ≡ count + length gone
    pub calls : r.0.called ≡ (if c.callback then reverse (pairs gone) ++ c.called else c.called)
    pub finds : (k : K) → r.0.cache.find k ≡ find_behind gone c.cache.find k

  module _ (less : K → K → Bool) (order : IsOrder less) where
    behind_all :
        (ts : ℕ) (x : Item K V) (xs : List (Item K V))
        → ts < x.ts
        → All (λ y. before less x y ≡ true) xs
        → All (λ y. ts < y.ts) xs
    behind_all ts x [] h l = tt
    behind_all ts x (y ∷ ys) h l = (ground (arith, h, l.0), behind_all ts x ys h l.1)

    timeout_loop-Timeout :
        (ts count : ℕ) (xs : List (Item K V)) (c : TimedCache K V)
        → Sorted less order xs
        → Timeout ts count xs c (timeout_loop dec ts count xs c)
    unfolding timeout_loop
    timeout_loop-Timeout ts count [] c s = record {
      gone = [];
      parts = refl;
      due = tt;
      left = tt;
      number = omega arith;
      calls = same_calls c.callback c.called;
      finds = λ k. refl;
    }
    timeout_loop-Timeout ts count (x ∷ xs) c s = elim (Bool-cases (leb x.ts ts)) [
      | inl out ↦
          rw (out, timeout_loop)
            (let t = timeout_loop-Timeout ts (count + 1) xs (evict dec x c) s.1 in
              record {
                gone = x ∷ t.gone;
                parts = ap (λ ys. x ∷ ys) t.parts;
                due = (leb→le x.ts ts out, t.due);
                left = t.left;
                number = omega (arith, t.number);
                calls = t.calls ∙ more_calls c.callback (x.key, x.val) (pairs t.gone) c.called;
                finds = λ k.
                    t.finds k
                    ∙ ap (λ f. find_behind t.gone f k) (fun_ext (find-erase dec x.key c.cache))
                    ∙ find_behind-without x.key t.gone c.cache.find k;
              })
      | inr keep ↦
          rw (keep, timeout_loop)
            (record {
              gone = [];
              parts = refl;
              due = tt;
              left = (leb→gt x.ts ts keep, behind_all ts x xs (leb→gt x.ts ts keep) s.0);
              number = omega arith;
              calls = same_calls c.callback c.called;
              finds = λ k. refl;
            })
    ]

    -- checkTimeout of a valid cache takes out, in the order of time, the items up to the time, and no others;
    -- it counts them and calls the callback for each. The map loses the keys of these items, and what it
    -- refers to then is later than the time; the cache stays valid.
    pub check_timeout-Timeout :
        (ts : ℕ) (c : TimedCache K V)
        → IsValid dec less order c
        → let r = check_timeout dec ts c in
          Timeout ts 0 c.timed c r
          × IsValid dec less order r.0
          × ((k : K) (n : ℕ)
              → r.0.cache.find k ≡ some n
              → (x : Item K V) × (deref n r.0.timed ≡ some x) × (x.key ≡ k) × (ts < x.ts))
    unfolding check_timeout
    check_timeout-Timeout ts c a =
        let t = timeout_loop-Timeout ts 0 c.timed c a.0.sorted in
        let v = timeout_loop-IsValid dec less order ts 0 c.timed c a.0 a.1 in
        let xs = (timeout_loop dec ts 0 c.timed c).0.timed in
        (
          t,
          v,
          λ k n e.
              let (x, found, at) = deref-Holds k n xs v.0.distinct (v.0.held k n e) in
              (x, found, at.0, All-deref (λ y. ts < y.ts) n x xs t.left found),
        )
