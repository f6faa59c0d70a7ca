-- ===== src/Timer/Due.antt =====
-- Which timers of sylar/timer.cc are due.
use ynwad.Base.{
  ℕ, ◌+◌, ◌-◌, ◌≡◌, ◌≤◌, ◌<◌, refl, sym, ap, ◌∙◌, true, false, inl, inr, List, [], ◌∷◌, ◌++◌,
  append_assoc, Bool-cases, All, All-append, arith, leb, leb→gt, max, ◌^◌, ◌⊎◌, ◌==◌, if◌then◌else◌,
}
use mathlib.Core.Path.{subst}
use ynwad.Timer.{
  Timer, less, before, lower_bound, same_time, split_due, get_next_timer, TimerManager, sub_ms,
}
use ynwad.Timer.Order.{In, Sorted}

module _ {ℓ} {C : Type ℓ} (heap : ℕ → Timer C) where
  -- A list in two parts, the first of which has `P` and the second `Q`.
  abbrev Parts : (ℕ → Type 0) → (ℕ → Type 0) → List ℕ → List ℕ × List ℕ → Type 0
  Parts P Q xs b = (b.0 ++ b.1 ≡ xs) × All P b.0 × All Q b.1

  less_le : (x a y b : ℕ) → less x a y b ≡ true → x ≤ y
  unfolding less
  less_le x a y b h = ground (arith, h)

  not_less_le : (x a y b : ℕ) → less x a y b ≡ false → y ≤ x
  unfolding less
  not_less_le x a y b h = ground (arith, h)

  after_le :
      (now a : ℕ) (xs : List ℕ)
      → now ≤ Timer.next (heap a)
      → All (λ b. before heap a b ≡ true) xs
      → All (λ b. now ≤ Timer.next (heap b)) xs
  after_le now a [] h k = tt
  after_le now a (b ∷ xs) h k = (
    omega (arith, h, less_le (Timer.next (heap a)) a (Timer.next (heap b)) b k.0),
    after_le now a xs h k.1,
  )

  lower_bound-Parts :
      (now p : ℕ) (xs : List ℕ)
      → Sorted heap xs
      → Parts
          (λ a. Timer.next (heap a) ≤ now)
          (λ a. now ≤ Timer.next (heap a))
          xs
          (lower_bound heap now p xs)
  unfolding lower_bound
  lower_bound-Parts now p [] s = (refl, tt, tt)
  lower_bound-Parts now p (a ∷ xs) s = elim (Bool-cases (less (Timer.next (heap a)) a now p)) [
    | inl e ↦
        let (whole, early, late) = lower_bound-Parts now p xs s.1 in
        rw (e, lower_bound)
          (ap (λ t. a ∷ t) whole, (less_le (Timer.next (heap a)) a now p e, early), late)
    | inr e ↦
        let here = not_less_le (Timer.next (heap a)) a now p e in
        rw (e, lower_bound) (refl, tt, (here, after_le now a xs here s.0))
  ]

  pub later-All :
      (now a : ℕ) (xs : List ℕ)
      → now < Timer.next (heap a)
      → All (λ b. before heap a b ≡ true) xs
      → All (λ b. now < Timer.next (heap b)) xs
  later-All now a [] h k = tt
  later-All now a (b ∷ xs) h k = (
    omega (arith, h, less_le (Timer.next (heap a)) a (Timer.next (heap b)) b k.0),
    later-All now a xs h k.1,
  )

  same_time-Parts :
      (now : ℕ) (xs : List ℕ)
      → Sorted heap xs
      → All (λ a. now ≤ Timer.next (heap a)) xs
      → Parts
          (λ a. Timer.next (heap a) ≤ now)
          (λ a. now < Timer.next (heap a))
          xs
          (same_time heap now xs)
  unfolding same_time
  same_time-Parts now [] s h = (refl, tt, tt)
  same_time-Parts now (a ∷ xs) s h = elim (Bool-cases (Timer.next (heap a) == now)) [
    | inl e ↦
        let (whole, equal, late) = same_time-Parts now xs s.1 h.1 in
        rw (e, same_time) (ap (λ t. a ∷ t) whole, (ground (arith, e), equal), late)
    | inr e ↦
        let later : now < Timer.next (heap a) = ground (arith, e, h.0) in
        rw (e, same_time) (refl, tt, (later, later-All now a xs later s.0))
  ]

  pub Sorted-suffix : (xs ys : List ℕ) → Sorted heap (xs ++ ys) → Sorted heap ys
  Sorted-suffix [] ys s = s
  Sorted-suffix (a ∷ xs) ys s = Sorted-suffix xs ys s.1

  -- In a sorted set the bounds that `listExpiredCb` computes cut off exactly the timers that are due:
  -- their times are not above the clock, and those of the others are.
  pub split_due-Parts :
      (now p : ℕ) (xs : List ℕ)
      → Sorted heap xs
      → let b = split_due heap now p xs in
        (b.0 ++ b.1 ≡ xs)
        × All (λ a. Timer.next (heap a) ≤ now) b.0
        × All (λ a. now < Timer.next (heap a)) b.1
  unfolding split_due
  split_due-Parts now p xs s =
      let (whole, early, late) = lower_bound-Parts now p xs s in
      let b = lower_bound heap now p xs in
      let (whole', equal, later) =
        same_time-Parts now b.1 (Sorted-suffix b.0 b.1 (subst (Sorted heap) (sym whole) s)) late in
      (
        append_assoc b.0 (same_time heap now b.1).0 (same_time heap now b.1).1
            ∙ ap (λ t. b.0 ++ t) whole'
            ∙ whole,
        All-append _ b.0 (same_time heap now b.1).0 early equal,
        later,
      )

  first_le :
      (a : ℕ) (xs : List ℕ)
      → Sorted heap (a ∷ xs)
      → All (λ b. Timer.next (heap a) ≤ Timer.next (heap b)) (a ∷ xs)
  first_le a xs s = (omega arith, after_le (Timer.next (heap a)) a xs (omega arith) s.0)

  waits :
      (now wait first : ℕ) (xs : List ℕ)
      → now + wait ≡ max now first
      → All (λ b. first ≤ Timer.next (heap b)) xs
      → All (λ b. now + wait ≤ max now (Timer.next (heap b))) xs
  waits now wait first [] e s = tt
  waits now wait first (b ∷ xs) e s = (ground (arith, e, s.0), waits now wait first xs e s.1)

  wait_first :
      (now first : ℕ)
      → first < 2 ^ 64
      → now + (if leb first now then 0 else sub_ms first now) ≡ max now first
  wait_first now first small = elim (Bool-cases (leb first now)) [
    | inl e ↦ rw e (ground (arith, e))
    | inr e ↦
        let gap : sub_ms first now ≡ first - now = omega (arith, small, leb→gt first now e) in
        rw (e, gap) (ground (arith, leb→gt first now e))
  ]

  -- How long the wait is for timers in a set.
  abbrev pub Waits : ℕ → List ℕ → ℕ → Type 0
  Waits now xs wait =
      All (λ b. now + wait ≤ max now (Timer.next (heap b))) xs
      × (((xs ≡ []) × (wait ≡ 2 ^ 64 - 1))
          ⊎ ((b : ℕ) × In b xs × (now + wait ≡ max now (Timer.next (heap b)))))

  wait_at :
      (now : ℕ) (m : TimerManager C) (xs : List ℕ)
      → Sorted heap xs
      → All (λ b. Timer.next (heap b) < 2 ^ 64) xs
      → Waits now xs (get_next_timer now (record m { heap = heap; timers = xs })).1
  unfolding get_next_timer
  wait_at now m [] s small = (tt, inl (refl, refl))
  wait_at now m (a ∷ xs) s small =
      let first = Timer.next (heap a) in
      let e = wait_first now first small.0 in
      (
        waits now (if leb first now then 0 else sub_ms first now) first (a ∷ xs) e
            (first_le a xs s),
        inr (a, inl refl, e),
      )

-- The wait that `getNextTimer` gives on a sorted set of 64-bit times is up to the time of the first timer:
-- at its end the clock has reached the time of some timer of the set, unless that has passed already, when
-- there is no wait, and the wait is beyond no timer's time that has not passed. Without a timer all bits
-- are set.
pub get_next_timer-max {ℓ} :
    {C : Type ℓ} (now : ℕ) (m : TimerManager C)
    → Sorted m.heap m.timers
    → All (λ b. Timer.next (m.heap b) < 2 ^ 64) m.timers
    → Waits m.heap now m.timers (get_next_timer now m).1
get_next_timer-max now m s small = wait_at m.heap now m m.timers s small
