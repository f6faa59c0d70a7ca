-- ===== src/Scheduler/Workers.antt =====
-- The threads of sylar/scheduler.cc in `run`: where each is, and its steps.
use ynwad.Base.{
  ℕ, zero, suc, ◌+◌, ◌-◌, ◌≡◌, Bool, true, false, not, ◌&&◌, ◌||◌, List, [], ◌∷◌, ◌++◌, Option,
  none, some, ◌==◌, if◌then◌else◌, get_elem?,
}
use ynwad.Base
use ynwad.Scheduler.{
  Checked, done, ◌>>=◌, FiberState, init, hold, exec, term, ready, except, is_over, Task, Scheduler,
  schedule_no_lock, stopping, pick, set_state, swap_in, reset,
}

-- Before the loop over the tasks, behind it with a task, in a task's fiber, in the fiber of a callback,
-- behind the decrement of the count that follows either, behind the loop without a task, in the idle
-- fiber, behind `run`.
pub data Place : Type 0 where
  looking : Place
  holding : Task → Place
  in_fiber : ℕ → Place
  in_cb_fiber : ℕ → Place
  back_fiber : ℕ → Place
  back_cb : ℕ → Place
  resting : Place
  idling : Place
  ended : Place

-- A thread with its own fibers; `idle_over` says that the idle fiber has ended.
pub record Worker : Type 0 where
  pub thread : ℕ
  pub place : Place
  pub cb_fiber : Option ℕ
  pub idle_over : Bool

-- `--m_activeThreadCount`
abbrev pub less_active : Scheduler → Scheduler
less_active s = record s { active_thread_count = s.active_thread_count - 1 }

-- The critical section at the head of the loop.
unfoldable pub look : Worker → Scheduler → Checked (Scheduler × Worker)
look w s = do
  found ← pick s.states w.thread s.fibers
  elim found.taken [
    | none ↦ done (record s { fibers = found.left }, record w { place = resting })
    | some t ↦ done (
      record s { fibers = found.left; active_thread_count = s.active_thread_count + 1 },
      record w { place = holding t },
    )
  ]

-- A callback runs in the thread's `cb_fiber`, or in a `new` one.
unfoldable pub enter_cb : ℕ → Worker → Scheduler → Checked (Scheduler × Worker)
enter_cb new w s = elim w.cb_fiber [
  | some f ↦ do s₁ ← reset f s; s₂ ← swap_in f s₁; done (s₂, record w { place = in_cb_fiber f })
  | none ↦ do
    s₁ ← swap_in new (set_state new init s)
    done (s₁, record w { place = in_cb_fiber new; cb_fiber = some new })
]

abbrev pub drop_task : Worker → Scheduler → Checked (Scheduler × Worker)
drop_task w s = done (less_active s, record w { place = looking })

-- What is done with the task that was taken, up to the switch.
unfoldable pub enter : ℕ → Task → Worker → Scheduler → Checked (Scheduler × Worker)
enter new t w s =
    let without_fiber : Checked (Scheduler × Worker) = elim t.cb [
      | some c ↦ enter_cb new w s
      | none ↦ drop_task w s
    ] in
    elim t.fiber [
      | some f ↦
          if is_over (s.states f)
          then without_fiber
          else do s₁ ← swap_in f s; done (s₁, record w { place = in_fiber f })
      | none ↦ without_fiber
    ]

abbrev pub fiber_task : ℕ → Task
fiber_task f = record { fiber = some f; cb = none; thread = none }

-- The fiber of a task has come back in a state: `--m_activeThreadCount`, without the lock.
unfoldable pub leave_fiber : ℕ → FiberState → Worker → Scheduler → Scheduler × Worker
leave_fiber f x w s = (less_active (set_state f x s), record w { place = back_fiber f })

-- The same of a callback's fiber.
unfoldable pub leave_cb : ℕ → FiberState → Worker → Scheduler → Scheduler × Worker
leave_cb f x w s = (less_active (set_state f x s), record w { place = back_cb f })

-- What is done with a fiber that is back, by its state.
unfoldable pub settle_fiber : ℕ → Worker → Scheduler → Scheduler × Worker
settle_fiber f w s =
    let after : Scheduler = elim (s.states f) [
      | ready ↦ (schedule_no_lock (fiber_task f) s).0
      | term ↦ s
      | except ↦ s
      | init ↦ set_state f hold s
      | hold ↦ set_state f hold s
      | exec ↦ set_state f hold s
    ] in
    (after, record w { place = looking })

unfoldable pub settle_cb : ℕ → Worker → Scheduler → Scheduler × Worker
settle_cb f w s =
    let free = record w { place = looking; cb_fiber = none } in
    let kept = record w { place = looking; cb_fiber = some f } in
    elim (s.states f) [
      | ready ↦ ((schedule_no_lock (fiber_task f) s).0, free)
      | term ↦ (set_state f init s, kept)
      | except ↦ (set_state f init s, kept)
      | init ↦ (set_state f hold s, free)
      | hold ↦ (set_state f hold s, free)
      | exec ↦ (set_state f hold s, free)
    ]

-- Without a task: `run` ends when the idle fiber has ended, and enters it otherwise.
unfoldable pub rest : Worker → Scheduler → Scheduler × Worker
rest w s =
    if w.idle_over
    then (s, record w { place = ended })
    else (record s { idle_thread_count = s.idle_thread_count + 1 }, record w { place = idling })

-- The idle fiber ends when the scheduler may stop, and yields otherwise.
unfoldable pub wake : Worker → Scheduler → Scheduler × Worker
wake w s = (
  record s { idle_thread_count = s.idle_thread_count - 1 },
  record w { place = looking; idle_over = stopping s },
)

-- The next step of a thread; `new` is the address of a new fiber, `x` the state of one that comes back.
unfoldable pub act : ℕ → FiberState → Worker → Scheduler → Checked (Scheduler × Worker)
act new x w s = elim w.place [
  | looking ↦ look w s
  | holding t ↦ enter new t w s
  | in_fiber f ↦ done (leave_fiber f x w s)
  | in_cb_fiber f ↦ done (leave_cb f x w s)
  | back_fiber f ↦ done (settle_fiber f w s)
  | back_cb f ↦ done (settle_cb f w s)
  | resting ↦ done (rest w s)
  | idling ↦ done (wake w s)
  | ended ↦ done (s, w)
]

pub record System : Type 0 where
  pub scheduler : Scheduler
  pub workers : List Worker

-- `schedule` from anywhere, the flags that `stop` sets, and a step of one of the threads.
pub data Step : System → System → Type 0 where
  scheduled :
      {m : System} (t : Task) → Step m (record m { scheduler = (schedule_no_lock t m.scheduler).0 })
  stopped :
      {m : System}
      → Step m
          (record m { scheduler = record m.scheduler { auto_stop = true; is_stopping = true } })
  acted :
      {m : System} {s : Scheduler} {w w' : Worker} (i new : ℕ) (x : FiberState)
      → get_elem? m.workers i ≡ some w
      → act new x w m.scheduler ≡ done (s, w')
      → Step m (record { scheduler = s; workers = Base.set m.workers i w' })

pub data Reach (m : System) : System → Type 0 where
  here : Reach m m
  further : {m₁ m₂ : System} → Reach m m₁ → Step m₁ m₂ → Reach m m₂
