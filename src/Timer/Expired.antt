-- ===== src/Timer/Expired.antt =====
-- `listExpiredCb` of sylar/timer.cc: the callbacks that it gives, and what it leaves.
use ynwad.Base.{
  ℕ, ◌+◌, ◌^◌, ◌≡◌, ◌≢◌, ◌≤◌, ◌<◌, ◌⊎◌, inl, inr, refl, sym, ap, Bool, true, false, not, ◌&&◌, List,
  [], ◌∷◌, ◌++◌, append-nil, Option, All, All-split, Bool-cases, arith, ltb, ltb→lt, if◌then◌else◌,
}
use ynwad.Timer.{
  Timer, TimerManager, fire, split_due, sub_ms, detect_clock_rollover, list_expired_cb,
}
use ynwad.Timer.Order.{In}
use ynwad.Timer.Valid.{Live, Valid, IsValid, every, each, both}
use ynwad.Timer.Due.{Sorted-suffix, split_due-Parts, later-All}
use ynwad.Timer.Fire.{Pending, Sorted-away, callbacks, fire-Pending, after, fire-other, fire-after}
use mathlib.Core.Path.{subst}

In-split : (b : ℕ) (xs ys : List ℕ) → In b (xs ++ ys) → In b ys ⊎ In b xs
In-split b [] ys k = inl k
In-split b (x ∷ xs) ys (inl e) = inr (inl e)
In-split b (x ∷ xs) ys (inr k) = elim (In-split b xs ys k) [ inl j ↦ inl j | inr j ↦ inr (inr j) ]

away_each :
    (expired xs : List ℕ)
    → All (λ a. All (λ b. b ≢ a) xs) expired
    → All (λ b. All (λ a. b ≢ a) expired) xs
away_each [] xs h = every (λ b. All (λ a. b ≢ a) []) xs (λ b. tt)
away_each (a ∷ expired) xs h =
    both (λ b. All (λ c. b ≢ c) expired) _ xs (each xs (λ b n rest. (n, rest)) h.0)
      (away_each expired xs h.1)

-- The clock went back by more than an hour, or at all when it had not reached an hour.
abbrev pub WentBack : ℕ → ℕ → Type 0
WentBack now previous = (now < previous) × ((previous < 3600000) ⊎ (now + 3600000 < previous))

rollover_cases :
    (now previous : ℕ)
    → previous < 2 ^ 64
    → let b = ltb now previous && ltb now (sub_ms previous 3600000) in
      ((b ≡ true) × WentBack now previous) ⊎ ((b ≡ false) × (¬ WentBack now previous))
rollover_cases now previous small = ground (arith, small)

module _ {ℓ} {C : Type ℓ} where
  Valid-Pending :
      (heap : ℕ → Timer C) (expired xs : List ℕ)
      → Valid heap (expired ++ xs)
      → Pending heap expired xs
  Valid-Pending heap expired xs v =
      let (different, away) = Sorted-away heap expired xs v.sorted in
      let (waiting, live) = All-split (λ b. Live (heap b)) expired xs v.live in
      record {
        sorted = Sorted-suffix heap expired xs v.sorted;
        live = live;
        waiting = waiting;
        different = different;
        away = away;
        listed = λ b l. In-split b expired xs (v.listed b l);
      }

  -- All timers are due when the clock went back, and else those up to its time.
  abbrev pub Due : ℕ → TimerManager C → List ℕ → List ℕ → Type 0
  Due now m out left =
      (WentBack now m.previous_time × (left ≡ []))
      ⊎ ((¬ WentBack now m.previous_time)
          × All (λ a. Timer.next (m.heap a) ≤ now) out
          × All (λ a. now < Timer.next (m.heap a)) left)

  -- What `listExpiredCb` does.
  pub record Ran (now : ℕ) (m : TimerManager C) (r : TimerManager C × List (Option C))
      : Type ℓ where
    pub out : List ℕ
    pub left : List ℕ
    pub parts : out ++ left ≡ m.timers
    pub due : Due now m out left
    pub called : r.1 ≡ callbacks m.heap out
    pub run : All (λ a. r.0.heap a ≡ after now (m.heap a)) out
    pub kept : All (λ a. r.0.heap a ≡ m.heap a) left
    pub valid : IsValid r.0

  ran :
      (now : ℕ) (m : TimerManager C) (out left : List ℕ)
      → IsValid m
      → out ++ left ≡ m.timers
      → Due now m out left
      → let fired = fire now out m.heap left in
        Ran now m (record m { heap = fired.1.0; timers = fired.1.1; previous_time = now }, fired.0)
  ran now m out left v whole d =
      let p = Valid-Pending m.heap out left (subst (Valid m.heap) (sym whole) v) in
      let (called, valid) = fire-Pending now out m.heap left p in
      record {
        out = out;
        left = left;
        parts = whole;
        due = d;
        called = called;
        run = fire-after now out m.heap left p.different;
        kept =
            each left (λ b far. fire-other now out m.heap left b far) (away_each out left p.away);
        valid = valid;
      }

  -- When no timer is due.
  idle :
      (now : ℕ) (m : TimerManager C)
      → IsValid m
      → Due now m [] m.timers
      → (r : TimerManager C) → r.heap ≡ m.heap
      → IsValid r
      → Ran now m (r, [])
  unfolding callbacks
  idle now m v d r e v' = record {
    out = [];
    left = m.timers;
    parts = refl;
    due = d;
    called = refl;
    run = tt;
    kept = every _ m.timers (λ b. ap (λ (h : ℕ → Timer C). h b) e);
    valid = v';
  }

  -- The rest of `listExpiredCb` once the clock is looked at, for a set that is not empty.
  rest_lem :
      (now p : ℕ) (m : TimerManager C) (a : ℕ) (xs : List ℕ) (rollover : Bool)
      → Valid m.heap (a ∷ xs)
      → ((rollover ≡ true) × WentBack now m.previous_time)
        ⊎ ((rollover ≡ false) × (¬ WentBack now m.previous_time))
      → let m0 : TimerManager C = record m { timers = a ∷ xs } in
        let m' : TimerManager C = record m0 { previous_time = now } in
        let d = if rollover then (a ∷ xs, []) else split_due m.heap now p (a ∷ xs) in
        let fired = fire now d.0 m.heap d.1 in
        Ran now m0 (
          if not rollover && ltb now (Timer.next (m.heap a))
          then (m', [])
          else (record m' { heap = fired.1.0; timers = fired.1.1 }, fired.0))
  rest_lem now p m a xs true v (inl back) =
      ran now (record m { timers = a ∷ xs }) (a ∷ xs) [] v (append-nil (a ∷ xs))
        (inl (back.1, refl))
  rest_lem now p m a xs true v (inr still) = absurd (ground (arith, still.0))
  rest_lem now p m a xs false v (inl back) = absurd (ground (arith, back.0))
  rest_lem now p m a xs false v (inr still) =
      let d = split_due m.heap now p (a ∷ xs) in
      let m0 : TimerManager C = record m { timers = a ∷ xs } in
      let (whole, early, late) = split_due-Parts m.heap now p (a ∷ xs) v.sorted in
      elim (Bool-cases (ltb now (Timer.next (m.heap a)))) [
        | inl e ↦
            let first = ltb→lt now (Timer.next (m.heap a)) e in
            rw e (
              idle now m0 v
                (inr (still.1, tt, (first, later-All m.heap now a xs first (v.sorted).0)))
                (record m0 { previous_time = now }) refl v)
        | inr e ↦ rw e (ran now m0 d.0 d.1 v whole (inr (still.1, early, late)))
      ]

  expired_at :
      (now p : ℕ) (m : TimerManager C) (xs : List ℕ)
      → Valid m.heap xs
      → m.previous_time < 2 ^ 64
      → let m0 : TimerManager C = record m { timers = xs } in Ran now m0 (list_expired_cb now p m0)
  unfolding list_expired_cb detect_clock_rollover
  expired_at now p m [] v small =
      let m0 : TimerManager C = record m { timers = [] } in
      idle now m0 v
        (elim (rollover_cases now m.previous_time small) [
          | inl back ↦ inl (back.1, refl)
          | inr still ↦ inr (still.1, tt, tt)
        ])
        m0 refl v
  expired_at now p m (a ∷ xs) v small =
      rest_lem now p m a xs (detect_clock_rollover now (record m { timers = a ∷ xs })).1 v
        (rollover_cases now m.previous_time small)

  -- `listExpiredCb` on a valid manager with a 64-bit clock parts the set's timers: the first ones, all when
  -- the clock went back by more than an hour, or at all in the first hour of its count, and else exactly those
  -- whose time is not above the clock. It gives their callbacks in the set's order. The recurring ones of them
  -- have the clock's value plus their period for their next time, the others have lost their callback, the
  -- timers that are not due are as before, and the manager is valid again.
  pub list_expired_cb-due :
      (now p : ℕ) (m : TimerManager C)
      → IsValid m
      → m.previous_time < 2 ^ 64
      → Ran now m (list_expired_cb now p m)
  list_expired_cb-due now p m ok small = expired_at now p m m.timers ok small
