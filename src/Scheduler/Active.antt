-- ===== src/Scheduler/Active.antt =====
-- `m_activeThreadCount` of sylar/scheduler.cc counts the threads from where they take a task to where its
-- fiber has come back, so `stopping` waits for them.
use ynwad.Base.{
  ℕ, zero, suc, ◌+◌, ◌-◌, ◌≡◌, ◌≢◌, refl, sym, ap, ◌∙◌, Bool, true, false, not, ◌&&◌, ◌||◌, List,
  [], ◌∷◌, ◌++◌, ◌≤◌, Option, none, some, ◌==◌, ==_iff, if◌then◌else◌, All, All-append, get_elem?,
  ◌⊎◌, inl, inr, arith,
}
use ynwad.Base
use mathlib.Core.Path.{subst}
use mathlib.Core.Option.{some-injective}
use ynwad.Scheduler.{Task, has_work, Scheduler, schedule_no_lock, stopping, is_empty}
use ynwad.Scheduler.Workers.{Worker, System, Step, scheduled, stopped, acted, Reach, here, further}
use ynwad.Scheduler.Balance.{busy, Balanced, act-Balanced}

abbrev pub all_busy : List Worker → ℕ
all_busy [] = 0
all_busy (w ∷ ws) = busy w + all_busy ws

-- The counter is the number of threads with a task.
abbrev pub IsCounted : System → Type 0
IsCounted m = m.scheduler.active_thread_count ≡ all_busy m.workers

busy-set :
    (i : ℕ) (w w' : Worker) (ws : List Worker)
    → get_elem? ws i ≡ some w
    → all_busy (Base.set ws i w') + busy w ≡ all_busy ws + busy w'
busy-set i w w' [] e = absurd (ground (arith, e))
busy-set zero w w' (x ∷ ws) e = omega (arith, ap busy (some-injective x w e))
busy-set (suc i) w w' (x ∷ ws) e = omega (arith, busy-set i w w' ws e)

schedule_active :
    (t : Task) (s : Scheduler)
    → (schedule_no_lock t s).0.active_thread_count ≡ s.active_thread_count
unfolding schedule_no_lock
schedule_active t s = choice (has_work t)
  where
    choice :
        (b : Bool)
        → (if b then record s { fibers = s.fibers ++ (t ∷ []) } else s).active_thread_count
          ≡ s.active_thread_count
    choice true = refl
    choice false = refl

busy_below :
    (i : ℕ) (w : Worker) (ws : List Worker) → get_elem? ws i ≡ some w → busy w ≤ all_busy ws
busy_below i w [] e = absurd (ground (arith, e))
busy_below zero w (x ∷ ws) e = omega (arith, ap busy (some-injective x w e))
busy_below (suc i) w (x ∷ ws) e = omega (arith, busy_below i w ws e)

Step-IsCounted : (m m' : System) → Step m m' → IsCounted m → IsCounted m'
Step-IsCounted m _ (scheduled t) ok = schedule_active t m.scheduler ∙ ok
Step-IsCounted m _ stopped ok = ok
Step-IsCounted m _ (acted {s} {w} {w'} i new x found acts) ok =
    let below = busy_below i w m.workers found in
    let balanced : s.active_thread_count + busy w ≡ m.scheduler.active_thread_count + busy w' =
      subst (Balanced (busy w) m.scheduler) acts
        (act-Balanced new x w m.scheduler (omega (arith, below, ok))) in
    omega (arith, ok, balanced, busy-set i w w' m.workers found)

-- However the threads' steps, the tasks that are scheduled and `stop` interleave, the counter is the
-- number of threads that have a task.
pub Reach-IsCounted : (m m' : System) → IsCounted m → Reach m m' → IsCounted m'
Reach-IsCounted m _ ok here = ok
Reach-IsCounted m m' ok (further {m₁} r step) =
    Step-IsCounted m₁ m' step (Reach-IsCounted m m₁ ok r)

is_empty-nil : (ts : List Task) → is_empty ts ≡ true → ts ≡ []
is_empty-nil [] e = refl
is_empty-nil (t ∷ ts) e = absurd (ground (arith, e))

idle_all : (ws : List Worker) → all_busy ws ≡ 0 → All (λ w. busy w ≡ 0) ws
idle_all [] e = tt
idle_all (w ∷ ws) e = (omega (arith, e), idle_all ws (omega (arith, e)))

stopping_parts : (a b c d : Bool) → (a && b && c && d) ≡ true → (c ≡ true) × (d ≡ true)
stopping_parts a b c d e = ground (arith, e)

-- When a scheduler whose threads began without tasks says that it may stop, the queue is empty and no
-- thread is between the taking of a task and the decrement of the count when its fiber has come back.
pub stopping-idle :
    (m m' : System)
    → IsCounted m
    → Reach m m'
    → stopping m'.scheduler ≡ true
    → (m'.scheduler.fibers ≡ []) × All (λ w. busy w ≡ 0) m'.workers
unfolding stopping
stopping-idle m m' ok r e =
    let s = m'.scheduler in
    let (none_left, no_active) =
      stopping_parts s.auto_stop s.is_stopping (is_empty s.fibers) (s.active_thread_count == 0) e in
    (
      is_empty-nil s.fibers none_left,
      idle_all m'.workers
          (sym (Reach-IsCounted m m' ok r) ∙ (==_iff s.active_thread_count 0).0 no_active),
    )
