-- ===== src/Scheduler/Balance.antt =====
-- What each step of `run` in sylar/scheduler.cc does to `m_activeThreadCount`.
use ynwad.Base.{
  ℕ, ◌+◌, ◌≡◌, refl, sym, ap, ◌∙◌, Bool, true, false, ◌≤◌, Option, none, some, if◌then◌else◌, arith,
}
use ynwad.Scheduler.{
  Checked, done, failed, ◌>>=◌, FiberState, init, hold, exec, term, ready, except, Task, is_over,
  Scheduler, schedule_no_lock, pick, Found, set_state, swap_in, reset, is_exec,
}
use ynwad.Scheduler.Workers.{
  Place, looking, holding, in_fiber, in_cb_fiber, back_fiber, back_cb, resting, idling, ended,
  Worker, look, enter, enter_cb, leave_fiber, leave_cb, settle_fiber, settle_cb, fiber_task, rest,
  wake, act, drop_task,
}

-- 1 for a thread that has a task, from where it is taken to where its fiber has come back.
abbrev pub busy_at : Place → ℕ
busy_at looking = 0
busy_at (holding t) = 1
busy_at (in_fiber f) = 1
busy_at (in_cb_fiber f) = 1
busy_at (back_fiber f) = 0
busy_at (back_cb f) = 0
busy_at resting = 0
busy_at idling = 0
busy_at ended = 0

abbrev pub busy : Worker → ℕ
busy w = busy_at w.place

-- What a step of a thread does to the counter, it does to the thread.
abbrev pub Balanced : ℕ → Scheduler → Checked (Scheduler × Worker) → Type 0
Balanced before s failed = Unit
Balanced before s (done (s', w')) =
    s'.active_thread_count + before ≡ s.active_thread_count + busy w'

abbrev Keeps : Scheduler → Checked Scheduler → Type 0
Keeps s failed = Unit
Keeps s (done s') = s'.active_thread_count ≡ s.active_thread_count

swap_in-Keeps : (f : ℕ) (s : Scheduler) → Keeps s (swap_in f s)
unfolding swap_in
swap_in-Keeps f s =
    elim (s.states f) as (λ x. Keeps s (if is_exec x then failed else done (set_state f exec s))) [
      | init ↦ refl
      | hold ↦ refl
      | exec ↦ tt
      | term ↦ refl
      | ready ↦ refl
      | except ↦ refl
    ]

reset-Keeps : (f : ℕ) (s : Scheduler) → Keeps s (reset f s)
unfolding reset
reset-Keeps f s =
    elim (s.states f)
      as (λ x. Keeps s (elim x [
        | init ↦ done (set_state f init s)
        | term ↦ done (set_state f init s)
        | except ↦ done (set_state f init s)
        | hold ↦ failed
        | exec ↦ failed
        | ready ↦ failed
      ])) [ init ↦ refl | hold ↦ tt | exec ↦ tt | term ↦ refl | ready ↦ tt | except ↦ refl ]

bind-Keeps :
    (n : ℕ) (s t : Scheduler) (m : Checked Scheduler) (k : Scheduler → Checked (Scheduler × Worker))
    → t.active_thread_count ≡ s.active_thread_count
    → Keeps t m
    → ((u : Scheduler) → u.active_thread_count ≡ s.active_thread_count → Balanced n s (k u))
    → Balanced n s (m >>= k)
bind-Keeps n s t failed k e keeps h = tt
bind-Keeps n s t (done u) k e keeps h = h u (keeps ∙ e)

same :
    (u s : Scheduler)
    → u.active_thread_count ≡ s.active_thread_count
    → u.active_thread_count + 1 ≡ s.active_thread_count + 1
same u s e = ap (λ n. n + 1) e

look-Balanced : (w : Worker) (s : Scheduler) → Balanced 0 s (look w s)
unfolding look
look-Balanced w s = by_pick (pick s.states w.thread s.fibers)
  where
    taken : Found → Option Task → Checked (Scheduler × Worker)
    taken found o = elim o [
      | none ↦ done (record s { fibers = found.left }, record w { place = resting })
      | some t ↦ done (
        record s { fibers = found.left; active_thread_count = s.active_thread_count + 1 },
        record w { place = holding t },
      )
    ]

    by_task : (found : Found) (o : Option Task) → Balanced 0 s (taken found o)
    by_task found none = refl
    by_task found (some t) = omega arith

    by_pick : (m : Checked Found) → Balanced 0 s (m >>= (λ found. taken found found.taken))
    by_pick failed = tt
    by_pick (done found) = by_task found found.taken

enter_cb-Balanced : (new : ℕ) (w : Worker) (s : Scheduler) → Balanced 1 s (enter_cb new w s)
unfolding enter_cb
enter_cb-Balanced new w s =
    elim w.cb_fiber
      as (λ o. Balanced 1 s (elim o [
        | some f ↦
            reset f s
            >>= (λ s₁. swap_in f s₁ >>= (λ s₂. done (s₂, record w { place = in_cb_fiber f })))
        | none ↦
            swap_in new (set_state new init s)
            >>= (λ s₁. done (s₁, record w { place = in_cb_fiber new; cb_fiber = some new }))
      ])) [
        | some f ↦
            bind-Keeps 1 s s (reset f s) _ refl (reset-Keeps f s)
              (λ t e. bind-Keeps 1 s t (swap_in f t) _ e (swap_in-Keeps f t) (λ u e'. same u s e'))
        | none ↦
            bind-Keeps 1 s (set_state new init s) (swap_in new (set_state new init s)) _ refl
              (swap_in-Keeps new (set_state new init s)) (λ u e. same u s e)
      ]

enter-Balanced :
    (new : ℕ) (t : Task) (w : Worker) (s : Scheduler)
    → 1 ≤ s.active_thread_count
    → Balanced 1 s (enter new t w s)
unfolding enter
enter-Balanced new t w s positive = by_fiber t.fiber
  where
    without_fiber : Checked (Scheduler × Worker)
    without_fiber = elim t.cb [ some c ↦ enter_cb new w s | none ↦ drop_task w s ]

    by_cb : Balanced 1 s without_fiber
    by_cb =
        elim t.cb
          as (λ o. Balanced 1 s (elim o [ some c ↦ enter_cb new w s | none ↦ drop_task w s ])) [
            | some c ↦ enter_cb-Balanced new w s
            | none ↦ omega (arith, positive)
          ]

    over :
        (f : ℕ) (b : Bool)
        → Balanced 1 s (
            if b
            then without_fiber
            else swap_in f s >>= (λ s₁. done (s₁, record w { place = in_fiber f })))
    over f true = by_cb
    over f false = bind-Keeps 1 s s (swap_in f s) _ refl (swap_in-Keeps f s) (λ u e. same u s e)

    by_fiber :
        (o : Option ℕ)
        → Balanced 1 s (elim o [
          | some f ↦
              if is_over (s.states f)
              then without_fiber
              else swap_in f s >>= (λ s₁. done (s₁, record w { place = in_fiber f }))
          | none ↦ without_fiber
        ])
    by_fiber none = by_cb
    by_fiber (some f) = over f (is_over (s.states f))

settle_fiber-Balanced :
    (f : ℕ) (w : Worker) (s : Scheduler) → Balanced 0 s (done (settle_fiber f w s))
unfolding settle_fiber schedule_no_lock
settle_fiber-Balanced f w s =
    elim (s.states f)
      as (λ x.
        Scheduler.active_thread_count (elim x [
          | ready ↦ (schedule_no_lock (fiber_task f) s).0
          | term ↦ s
          | except ↦ s
          | init ↦ set_state f hold s
          | hold ↦ set_state f hold s
          | exec ↦ set_state f hold s
        ])
          + 0
        ≡ s.active_thread_count + 0) [
          | init ↦ refl
          | hold ↦ refl
          | exec ↦ refl
          | term ↦ refl
          | ready ↦ refl
          | except ↦ refl
        ]

settle_cb-Balanced : (f : ℕ) (w : Worker) (s : Scheduler) → Balanced 0 s (done (settle_cb f w s))
unfolding settle_cb schedule_no_lock
settle_cb-Balanced f w s =
    let free = record w { place = looking; cb_fiber = none } in
    let kept = record w { place = looking; cb_fiber = some f } in
    elim (s.states f)
      as (λ x. Balanced 0 s (
        done (elim x [
          | ready ↦ ((schedule_no_lock (fiber_task f) s).0, free)
          | term ↦ (set_state f init s, kept)
          | except ↦ (set_state f init s, kept)
          | init ↦ (set_state f hold s, free)
          | hold ↦ (set_state f hold s, free)
          | exec ↦ (set_state f hold s, free)
        ]))) [
          | init ↦ refl
          | hold ↦ refl
          | exec ↦ refl
          | term ↦ refl
          | ready ↦ refl
          | except ↦ refl
        ]

rest-Balanced : (w : Worker) (s : Scheduler) → Balanced 0 s (done (rest w s))
unfolding rest
rest-Balanced w s =
    elim w.idle_over
      as (λ b. Balanced 0 s (
        done (
          if b then (s, record w { place = ended }) else (
            record s { idle_thread_count = s.idle_thread_count + 1 },
            record w { place = idling },
          )))) [ true ↦ refl | false ↦ refl ]

act_at :
    (p : Place) (new : ℕ) (x : FiberState) (w : Worker) (s : Scheduler)
    → w.place ≡ p
    → busy_at p ≤ s.active_thread_count
    → Balanced (busy_at p) s (elim p [
      | looking ↦ look w s
      | holding t ↦ enter new t w s
      | in_fiber f ↦ done (leave_fiber f x w s)
      | in_cb_fiber f ↦ done (leave_cb f x w s)
      | back_fiber f ↦ done (settle_fiber f w s)
      | back_cb f ↦ done (settle_cb f w s)
      | resting ↦ done (rest w s)
      | idling ↦ done (wake w s)
      | ended ↦ done (s, w)
    ])
unfolding wake leave_fiber leave_cb
act_at looking new x w s e enough = look-Balanced w s
act_at (holding t) new x w s e enough = enter-Balanced new t w s enough
act_at (in_fiber f) new x w s e enough = omega (arith, enough)
act_at (in_cb_fiber f) new x w s e enough = omega (arith, enough)
act_at (back_fiber f) new x w s e enough = settle_fiber-Balanced f w s
act_at (back_cb f) new x w s e enough = settle_cb-Balanced f w s
act_at resting new x w s e enough = rest-Balanced w s
act_at idling new x w s e enough = refl
act_at ended new x w s e enough = ap (λ p. s.active_thread_count + busy_at p) (sym e)

pub act-Balanced :
    (new : ℕ) (x : FiberState) (w : Worker) (s : Scheduler)
    → busy w ≤ s.active_thread_count
    → Balanced (busy w) s (act new x w s)
unfolding act
act-Balanced new x w s enough = act_at w.place new x w s refl enough
