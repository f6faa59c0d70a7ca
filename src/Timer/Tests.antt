-- ===== src/Timer/Tests.antt =====
-- Runs of the timers on small inputs.
use ynwad.Base.{
  ℕ, ◌≡◌, ◌≢◌, ◌⊎◌, ◌&&◌, ◌==◌, not, ◌<◌, ◌^◌, refl, true, false, [], ◌∷◌, none, some, All, arith,
}
use ynwad.Timer.{
  Timer, TimerManager, new_manager, add_timer, cancel, list_expired_cb, reset, split_due,
  add_timer_at, get_next_timer, insert, less, fire, lower_bound, same_time, detect_clock_rollover,
}
use ynwad.Timer.Order.{In}
use ynwad.Timer.Valid.{IsValid}
use ynwad.Timer.Due.{Waits, get_next_timer-max}
use ynwad.Timer.Users.{is_set, cancel-is_set, add_timer-IsValid}
use ynwad.Timer.Reset.{moved, reset-IsValid}
use ynwad.Timer.Expired.{Ran, list_expired_cb-due}

-- A callback is a number here.
abbrev no_timer : ℕ → Timer ℕ
no_timer a = record { recurring = false; ms = 0; next = 0; cb = none }

abbrev empty : TimerManager ℕ
empty = new_manager 100 no_timer

empty-IsValid : IsValid empty
empty-IsValid = record { sorted = tt; live = tt; listed = λ b l. absurd (ground (arith, l.1)) }

-- A timer at address 1 for the time 150, and a recurring one at address 2 for the time 130.
abbrev two_timers : TimerManager ℕ
two_timers = add_timer 100 2 30 (some 20) true (add_timer 100 1 50 (some 10) false empty)

one-IsValid : IsValid (add_timer 100 1 50 (some 10) false empty)
one-IsValid = (add_timer-IsValid 1 empty empty-IsValid 100 50 10 false refl).0

free : Timer.cb (TimerManager.heap (add_timer 100 1 50 (some 10) false empty) 2) ≡ none
unfolding add_timer add_timer_at
free = refl

two_timers-IsValid : IsValid two_timers
two_timers-IsValid =
    (add_timer-IsValid 2 (add_timer 100 1 50 (some 10) false empty) one-IsValid 100 30 20 true
      free).0

cancel-is_set_example :
    (m' : TimerManager ℕ) × (cancel 1 two_timers
      ≡ some (m', is_set (Timer.cb (TimerManager.heap two_timers 1))))
    × IsValid m'
    × (Timer.cb (m'.heap 1) ≡ none)
    × All (λ b. b ≢ 1) m'.timers
    × All
        (λ b. (b ≡ 1) ⊎ (In b m'.timers × (m'.heap b ≡ TimerManager.heap two_timers b)))
        (TimerManager.timers two_timers)
cancel-is_set_example = cancel-is_set 1 two_timers two_timers-IsValid

list_expired_cb-due_example : Ran 140 two_timers (list_expired_cb 140 3 two_timers)
unfolding add_timer add_timer_at
list_expired_cb-due_example = list_expired_cb-due 140 3 two_timers two_timers-IsValid (omega arith)

times_below :
    All (λ b. Timer.next (TimerManager.heap two_timers b) < 2 ^ 64) (TimerManager.timers two_timers)
unfolding add_timer add_timer_at insert less
times_below = (omega arith, (omega arith, tt))

get_next_timer-max_example :
    Waits
      (TimerManager.heap two_timers)
      110
      (TimerManager.timers two_timers)
      (get_next_timer 110 two_timers).1
get_next_timer-max_example =
    get_next_timer-max 110 two_timers (two_timers-IsValid.sorted) times_below

reset-IsValid_example :
    let r = reset 120 1 80 true two_timers in
    IsValid r.0
    × ((Timer.cb (TimerManager.heap two_timers 1) ≡ none) ⊎ ((r.1 ≡ true) × In 1 r.0.timers))
    × ((Timer.cb (TimerManager.heap two_timers 1) ≡ none)
        ⊎ ((((80 == Timer.ms (TimerManager.heap two_timers 1)) && not true) ≡ true)
            ⊎ (r.0.heap 1 ≡ moved 120 1 80 true two_timers)))
reset-IsValid_example = reset-IsValid 120 1 80 true two_timers two_timers-IsValid

-- At 140 the recurring timer has run, and it comes back after the other one.
list_expired_cb_run : (list_expired_cb 140 3 two_timers).1 ≡ some 20 ∷ []
unfolding list_expired_cb add_timer add_timer_at insert less split_due fire lower_bound same_time
    detect_clock_rollover
list_expired_cb_run = refl

wait_run : (get_next_timer 110 two_timers).1 ≡ 20
unfolding get_next_timer add_timer add_timer_at insert less
wait_run = refl
