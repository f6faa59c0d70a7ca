-- ===== src/Timer.antt =====
-- The timers of sylar/timer.cc. A timer is an object at an address, shared by the manager's set and by
-- its users, so its fields are in a heap; `m_timers` is the list of the set's addresses in the order
-- of its comparator. The lock makes each operation one step. The clock's value, the address that `new`
-- gives and the callback are arguments.
-- An operation returns `none` where the source's behaviour is undefined: `erase` at the set's end.
pub mod Order
pub mod Valid
pub mod Due
pub mod Fire
pub mod Expired
pub mod Users
pub mod Reset
mod Tests
use ynwad.Base.{
  ℕ, zero, suc, ◌+◌, ◌-◌, ◌*◌, ◌%◌, ◌^◌, Bool, true, false, not, List, [], ◌∷◌, ◌++◌, Option, none,
  some, ltb, leb, ◌==◌, ◌&&◌, if◌then◌else◌,
}

-- `cb` is null once the timer was cancelled or has run for the last time.
pub record Timer {ℓ} (C : Type ℓ) : Type ℓ where
  pub recurring : Bool
  pub ms : ℕ
  pub next : ℕ
  pub cb : Option C

-- `fronts` counts the calls of `onTimerInsertedAtFront`.
pub record TimerManager {ℓ} (C : Type ℓ) : Type ℓ where
  pub heap : ℕ → Timer C
  pub timers : List ℕ
  pub tickled : Bool
  pub previous_time : ℕ
  pub fronts : ℕ

-- Milliseconds are 64 bits wide.
abbrev pub add_ms : ℕ → ℕ → ℕ
add_ms a b = (a + b) % 2 ^ 64

abbrev pub sub_ms : ℕ → ℕ → ℕ
sub_ms a b = (a + (2 ^ 64 - b)) % 2 ^ 64

-- `Timer::Comparator` at two timers that are not null, by time and address.
unfoldable pub less : ℕ → ℕ → ℕ → ℕ → Bool
less next a next' b = if ltb next next' then true else if ltb next' next then false else ltb a b

unfoldable pub at_begin : ℕ → List ℕ → Bool
at_begin a [] = false
at_begin a (b ∷ bs) = a == b

module _ {ℓ} {C : Type ℓ} where
  abbrev pub write : ℕ → Timer C → (ℕ → Timer C) → ℕ → Timer C
  write a t heap b = if b == a then t else heap b

  abbrev pub before : (ℕ → Timer C) → ℕ → ℕ → Bool
  before heap a b = less (Timer.next (heap a)) a (Timer.next (heap b)) b

  -- The set's `find`, `insert` and `erase` of what was found.
  unfoldable pub find : (ℕ → Timer C) → ℕ → List ℕ → Bool
  find heap a [] = false
  find heap a (b ∷ bs) = if before heap b a then find heap a bs else not (before heap a b)

  unfoldable pub insert : (ℕ → Timer C) → ℕ → List ℕ → List ℕ
  insert heap a [] = a ∷ []
  insert heap a (b ∷ bs) =
      if before heap b a
      then b ∷ insert heap a bs
      else if before heap a b
      then a ∷ b ∷ bs
      else b ∷ bs

  unfoldable pub erase : (ℕ → Timer C) → ℕ → List ℕ → List ℕ
  erase heap a [] = []
  erase heap a (b ∷ bs) =
      if before heap b a then b ∷ erase heap a bs else if before heap a b then b ∷ bs else bs

  abbrev pub new_manager : ℕ → (ℕ → Timer C) → TimerManager C
  new_manager now heap = record {
    heap = heap;
    timers = [];
    tickled = false;
    previous_time = now;
    fronts = 0;
  }

  -- `addTimer(val, lock)`
  unfoldable pub add_timer_at : ℕ → TimerManager C → TimerManager C
  add_timer_at a m =
      let timers = insert m.heap a m.timers in
      let at_front = at_begin a timers && not m.tickled in
      record m {
        timers = timers;
        tickled = if at_front then true else m.tickled;
        fronts = if at_front then suc m.fronts else m.fronts;
      }

  -- `addTimer(ms, cb, recurring)`: the new object is at `a`; an empty function is accepted.
  unfoldable pub add_timer : ℕ → ℕ → ℕ → Option C → Bool → TimerManager C → TimerManager C
  add_timer now a ms cb recurring m = add_timer_at a (record m {
    heap =
        write a (record { recurring = recurring; ms = ms; next = add_ms now ms; cb = cb }) m.heap;
  })

  -- `Timer::cancel`
  unfoldable pub cancel : ℕ → TimerManager C → Option (TimerManager C × Bool)
  cancel a m = elim (Timer.cb (m.heap a)) [
    | none ↦ some (m, false)
    | some _ ↦
        let heap = write a (record (m.heap a) { cb = none }) m.heap in
        if find heap a m.timers
        then some (record m { heap = heap; timers = erase heap a m.timers }, true)
        else none
  ]

  -- `Timer::refresh`
  unfoldable pub refresh : ℕ → ℕ → TimerManager C → TimerManager C × Bool
  refresh now a m = elim (Timer.cb (m.heap a)) [
    | none ↦ (m, false)
    | some _ ↦
        let heap = write a (record (m.heap a) { next = add_ms now (Timer.ms (m.heap a)) }) m.heap in
        if find m.heap a m.timers
        then (record m { heap = heap; timers = insert heap a (erase m.heap a m.timers) }, true)
        else (m, false)
  ]

  -- `Timer::reset`
  unfoldable pub reset : ℕ → ℕ → ℕ → Bool → TimerManager C → TimerManager C × Bool
  reset now a ms from_now m =
      let t = m.heap a in
      let start = if from_now then now else sub_ms (Timer.next t) (Timer.ms t) in
      let heap = write a (record t { ms = ms; next = add_ms start ms }) m.heap in
      if (ms == Timer.ms t) && not from_now then (m, true) else elim (Timer.cb t) [
        | none ↦ (m, false)
        | some _ ↦
            if find m.heap a m.timers
            then (add_timer_at a (record m { heap = heap; timers = erase m.heap a m.timers }), true)
            else (m, false)
      ]

  -- `getNextTimer`: the wait in milliseconds, all bits set without a timer.
  unfoldable pub get_next_timer : ℕ → TimerManager C → TimerManager C × ℕ
  get_next_timer now m = elim m.timers [
    | [] ↦ (record m { tickled = false }, 2 ^ 64 - 1)
    | a ∷ _ ↦ (
      record m { tickled = false },
      if leb (Timer.next (m.heap a)) now then 0 else sub_ms (Timer.next (m.heap a)) now,
    )
  ]

  unfoldable pub has_timer : TimerManager C → Bool
  has_timer m = elim m.timers [ [] ↦ false | _ ∷ _ ↦ true ]

  -- `detectClockRollover`
  unfoldable pub detect_clock_rollover : ℕ → TimerManager C → TimerManager C × Bool
  detect_clock_rollover now m = (
    record m { previous_time = now },
    ltb now m.previous_time && ltb now (sub_ms m.previous_time (60 * 60 * 1000)),
  )

  -- `lower_bound`: the elements before the timer of `now` at `p`, and the others.
  unfoldable pub lower_bound : (ℕ → Timer C) → ℕ → ℕ → List ℕ → List ℕ × List ℕ
  lower_bound heap now p [] = ([], [])
  lower_bound heap now p (a ∷ xs) =
      let rest = lower_bound heap now p xs in
      if less (Timer.next (heap a)) a now p then (a ∷ rest.0, rest.1) else ([], a ∷ xs)

  -- The loop behind it: the elements of this very time, and the others.
  unfoldable pub same_time : (ℕ → Timer C) → ℕ → List ℕ → List ℕ × List ℕ
  same_time heap now [] = ([], [])
  same_time heap now (a ∷ xs) =
      let rest = same_time heap now xs in
      if Timer.next (heap a) == now then (a ∷ rest.0, rest.1) else ([], a ∷ xs)

  unfoldable pub split_due : (ℕ → Timer C) → ℕ → ℕ → List ℕ → List ℕ × List ℕ
  split_due heap now p xs =
      let b = lower_bound heap now p xs in let s = same_time heap now b.1 in (b.0 ++ s.0, s.1)

  -- The loop over the expired timers: the callbacks, the heap and the set.
  unfoldable pub fire :
      ℕ → List ℕ → (ℕ → Timer C) → List ℕ → List (Option C) × ((ℕ → Timer C) × List ℕ)
  fire now [] heap xs = ([], (heap, xs))
  fire now (a ∷ expired) heap xs =
      let t = heap a in
      let heap' =
        write a
          (if Timer.recurring t
            then record t { next = add_ms now (Timer.ms t) }
            else record t { cb = none })
          heap in
      let xs' = if Timer.recurring t then insert heap' a xs else xs in
      let rest = fire now expired heap' xs' in (Timer.cb t ∷ rest.0, rest.1)

  -- `listExpiredCb`; the object for the comparison is at `p`.
  unfoldable pub list_expired_cb : ℕ → ℕ → TimerManager C → TimerManager C × List (Option C)
  list_expired_cb now p m = elim m.timers [
    | [] ↦ (m, [])
    | a ∷ xs ↦
        let (m', rollover) = detect_clock_rollover now m in
        let due = if rollover then (a ∷ xs, []) else split_due m.heap now p (a ∷ xs) in
        let fired = fire now due.0 m.heap due.1 in
        if not rollover && ltb now (Timer.next (m.heap a))
        then (m', [])
        else (record m' { heap = fired.1.0; timers = fired.1.1 }, fired.0)
  ]
