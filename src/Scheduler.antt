-- ===== src/Scheduler.antt =====
-- The scheduler of sylar/scheduler.cc and scheduler.h with the states of the fibers of sylar/fiber.cc.
-- A fiber is an address; what it runs between two switches is not modelled, only the state in which it
-- comes back. `run` is cut at its switches and at its critical sections, so that threads interleave.
pub mod Workers
mod Pick
mod Waiting
mod Balance
mod Active
mod Tests
use ynwad.Base.{
  ℕ, zero, suc, ◌+◌, ◌-◌, Bool, true, false, not, ◌&&◌, ◌||◌, List, [], ◌∷◌, ◌++◌, Option, none,
  some, ◌==◌, if◌then◌else◌,
}

-- A failed assertion ends the program.
pub data Checked {ℓ} (A : Type ℓ) : Type ℓ where
  done : A → Checked A
  failed : Checked A

infixl 5 ◌>>=◌
abbrev pub ◌>>=◌ {ℓ κ} : {A : Type ℓ} {B : Type κ} → Checked A → (A → Checked B) → Checked B
◌>>=◌ m f = elim m [ done a ↦ f a | failed ↦ failed ]

pub data FiberState : Type 0 where
  init : FiberState
  hold : FiberState
  exec : FiberState
  term : FiberState
  ready : FiberState
  except : FiberState

-- The state of a fiber that has ended.
abbrev pub is_over : FiberState → Bool
is_over term = true
is_over except = true
is_over _ = false

abbrev pub is_exec : FiberState → Bool
is_exec exec = true
is_exec _ = false

-- `FiberAndThread`: the thread -1 is `none`.
pub record Task : Type 0 where
  pub fiber : Option ℕ
  pub cb : Option ℕ
  pub thread : Option ℕ

abbrev pub is_some {ℓ} : {A : Type ℓ} → Option A → Bool
is_some none = false
is_some (some a) = true

-- `ft.fiber || ft.cb`
abbrev pub has_work : Task → Bool
has_work t = is_some t.fiber || is_some t.cb

pub record Scheduler : Type 0 where
  pub fibers : List Task
  pub states : ℕ → FiberState
  pub active_thread_count : ℕ
  pub idle_thread_count : ℕ
  pub auto_stop : Bool
  pub is_stopping : Bool

abbrev pub is_empty : List Task → Bool
is_empty [] = true
is_empty (t ∷ ts) = false

-- The scheduler with the task behind the others, and whether to tickle.
unfoldable pub schedule_no_lock : Task → Scheduler → Scheduler × Bool
schedule_no_lock t s =
    (if has_work t then record s { fibers = s.fibers ++ (t ∷ []) } else s, is_empty s.fibers)

unfoldable pub stopping : Scheduler → Bool
stopping s = s.auto_stop && s.is_stopping && is_empty s.fibers && s.active_thread_count == 0

-- `it->thread != -1 && it->thread != GetThreadId()`
abbrev pub is_foreign : ℕ → Task → Bool
is_foreign thread t = elim t.thread [ none ↦ false | some n ↦ not (n == thread) ]

-- `it->fiber && it->fiber->getState() == Fiber::EXEC`
abbrev pub is_running : (ℕ → FiberState) → Task → Bool
is_running states t = elim t.fiber [ none ↦ false | some f ↦ is_exec (states f) ]

-- What the loop over the tasks finds: the task, the tasks left, and whether to tickle.
pub record Found : Type 0 where
  pub taken : Option Task
  pub left : List Task
  pub tickle_me : Bool

unfoldable pub pick : (ℕ → FiberState) → ℕ → List Task → Checked Found
pick states thread [] = done (record { taken = none; left = []; tickle_me = false })
pick states thread (t ∷ ts) =
    let rest = pick states thread ts in
    if is_foreign thread t
    then rest >>= (λ r. done (record r { left = t ∷ r.left; tickle_me = true }))
    else if not (has_work t)
    then failed
    else if is_running states t
    then rest >>= (λ r. done (record r { left = t ∷ r.left }))
    else done (record { taken = some t; left = ts; tickle_me = not (is_empty ts) })

abbrev pub set_state : ℕ → FiberState → Scheduler → Scheduler
set_state f x s = record s { states = λ g. if g == f then x else s.states g }

-- `swapIn`, up to the switch.
unfoldable pub swap_in : ℕ → Scheduler → Checked Scheduler
swap_in f s = if is_exec (s.states f) then failed else done (set_state f exec s)

-- `reset`: of a fiber that is new or has ended.
unfoldable pub reset : ℕ → Scheduler → Checked Scheduler
reset f s = elim (s.states f) [
  | init ↦ done (set_state f init s)
  | term ↦ done (set_state f init s)
  | except ↦ done (set_state f init s)
  | hold ↦ failed
  | exec ↦ failed
  | ready ↦ failed
]
