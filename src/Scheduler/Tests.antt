-- ===== src/Scheduler/Tests.antt =====
-- Runs of the scheduler, and the theorems at concrete inputs.
use ynwad.Base.{ℕ, ◌≡◌, refl, true, false, List, [], ◌∷◌, ◌++◌, Option, none, some, All, arith}
use ynwad.Scheduler.{
  done, failed, FiberState, hold, exec, Task, Scheduler, schedule_no_lock, stopping, pick, Found,
  swap_in, ready, set_state,
}
use ynwad.Scheduler.Workers.{
  looking, holding, in_fiber, back_fiber, leave_fiber, settle_fiber, less_active, Worker, System,
  scheduled, stopped, acted, Reach, here, further, look, enter, act, fiber_task,
}
use ynwad.Scheduler.Pick.{Picks, pick-Picks}
use ynwad.Scheduler.Waiting.{turn, arrives, serve, Taken, callback, serve-Taken}
use ynwad.Scheduler.Balance.{busy}
use ynwad.Scheduler.Active.{stopping-idle}

abbrev held : ℕ → FiberState
held f = hold

-- A task of the thread 2, and one of any.
abbrev bound : Task
bound = record (callback 5) { thread = some 2 }

abbrev two_tasks : List Task
two_tasks = bound ∷ callback 6 ∷ []

pick_passes :
    pick held 1 two_tasks
    ≡ done (record { taken = some (callback 6); left = bound ∷ []; tickle_me = true })
unfolding pick
pick_passes = refl

pick-Picks_example : (r : Found) × (pick held 1 two_tasks ≡ done r) × Picks held 1 two_tasks r
pick-Picks_example = pick-Picks held 1 two_tasks (refl, (refl, tt))

serve-Taken_example :
    (got : List (Option Task)) × (serve
        (turn held 1 ∷ arrives (callback 8) ∷ turn held 2 ∷ [])
        ((bound ∷ []) ++ (callback 6 ∷ []))
      ≡ done got)
    × Taken (callback 6) got
serve-Taken_example =
    serve-Taken 6 (turn held 1 ∷ arrives (callback 8) ∷ turn held 2 ∷ []) (bound ∷ []) [] (refl, tt)
      tt (omega arith)

abbrev at_rest : Scheduler
at_rest = record {
  fibers = [];
  states = held;
  active_thread_count = 0;
  idle_thread_count = 0;
  auto_stop = false;
  is_stopping = false;
}

abbrev worker : ℕ → Worker
worker n = record { thread = n; place = looking; cb_fiber = none; idle_over = false }

abbrev started : System
started = record { scheduler = at_rest; workers = worker 1 ∷ worker 2 ∷ [] }

-- A fiber is scheduled, and the first thread takes it.
abbrev with_fiber : System
with_fiber = record started { scheduler = (schedule_no_lock (fiber_task 3) at_rest).0 }

abbrev taken : System
taken = record {
  scheduler = record at_rest { active_thread_count = 1 };
  workers = record (worker 1) { place = holding (fiber_task 3) } ∷ worker 2 ∷ [];
}

takes : Reach started taken
unfolding schedule_no_lock act look pick
takes = further (further here (scheduled (fiber_task 3))) (acted 0 9 hold refl refl)

abbrev told_to_stop : System
told_to_stop = record started {
  scheduler = record at_rest { auto_stop = true; is_stopping = true };
}

stopping-idle_example :
    (told_to_stop.scheduler.fibers ≡ []) × All (λ w. busy w ≡ 0) told_to_stop.workers
unfolding stopping
stopping-idle_example = stopping-idle started told_to_stop refl (further here stopped) refl

-- A thread that has decremented the count, and not yet scheduled its fiber again, does not count.
abbrev going : System
going = record taken { scheduler = record taken.scheduler { auto_stop = true; is_stopping = true } }

abbrev running : System
running = record {
  scheduler = set_state 3 exec going.scheduler;
  workers = record (worker 1) { place = in_fiber 3 } ∷ worker 2 ∷ [];
}

abbrev back : System
back = record {
  scheduler = less_active (set_state 3 ready running.scheduler);
  workers = record (worker 1) { place = back_fiber 3 } ∷ worker 2 ∷ [];
}

stops_early :
    Reach started back
    × (stopping back.scheduler ≡ true)
    × (back.scheduler.states 3 ≡ ready)
    × ((settle_fiber 3 (worker 1) back.scheduler).0.fibers ≡ fiber_task 3 ∷ [])
unfolding schedule_no_lock act look pick enter swap_in leave_fiber stopping settle_fiber
stops_early = (
  further (further (further takes stopped) (acted 0 9 hold refl refl)) (acted 0 9 ready refl refl),
  refl,
  refl,
  refl,
)

-- Two threads take one fiber that was scheduled twice, before either has switched to it.
abbrev twice : Scheduler
twice = record at_rest { fibers = fiber_task 3 ∷ fiber_task 3 ∷ [] }

abbrev after_two : Scheduler
after_two = record at_rest { active_thread_count = 2 }

first_takes :
    look (worker 1) twice
    ≡ done (
      record at_rest { fibers = fiber_task 3 ∷ []; active_thread_count = 1 },
      record (worker 1) { place = holding (fiber_task 3) },
    )
unfolding look pick
first_takes = refl

second_takes :
    look (worker 2) (record at_rest { fibers = fiber_task 3 ∷ []; active_thread_count = 1 })
    ≡ done (after_two, record (worker 2) { place = holding (fiber_task 3) })
unfolding look pick
second_takes = refl

second_fails : enter 9 (fiber_task 3) (worker 2) (record after_two { states = λ f. exec }) ≡ failed
unfolding enter swap_in
second_fails = refl
