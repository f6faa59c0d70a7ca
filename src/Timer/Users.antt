-- ===== src/Timer/Users.antt =====
-- What the users of a timer call: `addTimer`, `cancel` and `refresh` of sylar/timer.cc.
use ynwad.Base.{
  ℕ, ◌≡◌, ◌≢◌, ◌⊎◌, refl, sym, ap, ◌∙◌, Bool, true, false, inl, inr, Option, none, some,
  Option-cases, All, if◌then◌else◌,
}
use ynwad.Timer.{
  Timer, TimerManager, write, find, insert, erase, add_ms, add_timer_at, add_timer, cancel, refresh,
}
use native.Mathlib.Decide.{ℕ_discrete}
use ynwad.Timer.Order.{In, write_here, write_other, find-In, insert-In}
use ynwad.Timer.Valid.{
  IsValid, each, Around, Without, Valid-Around, Around-Without, Without-insert, Without-dead,
  Valid-Without, Without-write, Around-write, kept-Live,
}

module _ {ℓ} {C : Type ℓ} where
  -- Whether the callback is there, as `if(m_cb)` sees it.
  unfoldable pub is_set : Option C → Bool
  is_set none = false
  is_set (some f) = true

  module _ (a : ℕ) (m : TimerManager C) (ok : IsValid m) where
    -- `cancel` on a valid manager ends. It says whether the timer had its callback, takes the timer out
    -- of the set and its callback away and leaves every other timer in the set as it is, and the manager
    -- is valid.
    pub cancel-is_set :
        (m' : TimerManager C) × (cancel a m ≡ some (m', is_set (Timer.cb (m.heap a))))
        × IsValid m'
        × (Timer.cb (m'.heap a) ≡ none)
        × All (λ b. b ≢ a) m'.timers
        × All (λ b. (b ≡ a) ⊎ (In b m'.timers × (m'.heap b ≡ m.heap b))) m.timers
    unfolding cancel is_set
    cancel-is_set = elim (Option-cases (Timer.cb (m.heap a))) [
      | inl dead ↦
          let w = Valid-Without a m.heap m.timers ok dead in
          (
            m,
            rw (dead, cancel, is_set) refl,
            ok,
            dead,
            w.absent,
            each m.timers
                (λ b l. elim (ℕ_discrete b a) [
                  | yes same ↦ inl same
                  | no other ↦ inr (w.listed b other l, refl)
                ])
                ok.live,
          )
      | inr (f, alive) ↦
          let t : Timer C = record (m.heap a) { cb = none } in
          let heap : ℕ → Timer C = write a t m.heap in
          let was = Valid-Around a m.heap m.timers ok (f, alive) in
          let r : Around a heap m.timers = Around-write a m.heap m.timers t refl was in
          let w = Around-Without a heap m.timers r in
          let dead : Timer.cb (heap a) ≡ none = ap Timer.cb (write_here a t m.heap) in
          (
            record m { heap = heap; timers = erase heap a m.timers },
            rw (alive, cancel, is_set) (rw (find-In heap a m.timers r.sorted r.there) refl),
            Without-dead a heap (erase heap a m.timers) w dead,
            dead,
            w.absent,
            each m.timers
                (λ b l. elim (ℕ_discrete b a) [
                  | yes same ↦ inl same
                  | no other ↦ inr (
                    w.listed b other (kept-Live a m.heap m.timers t b other l),
                    write_other a b t m.heap other,
                  )
                ])
                ok.live,
          )
    ]

    -- `refresh` on a valid manager says whether the timer has its callback. If so, the timer is in the
    -- set at the clock's value plus its period; the manager is valid.
    pub refresh-is_set :
        (now : ℕ)
        → (m' : TimerManager C) × (refresh now a m ≡ (m', is_set (Timer.cb (m.heap a))))
          × IsValid m'
          × ((Timer.cb (m.heap a) ≡ none)
              ⊎ ((Timer.next (m'.heap a) ≡ add_ms now (Timer.ms (m.heap a))) × In a m'.timers))
    unfolding refresh is_set
    refresh-is_set now = elim (Option-cases (Timer.cb (m.heap a))) [
      | inl dead ↦ (m, rw (dead, refresh, is_set) refl, ok, inl dead)
      | inr (f, alive) ↦
          let t : Timer C = record (m.heap a) { next = add_ms now (Timer.ms (m.heap a)) } in
          let heap : ℕ → Timer C = write a t m.heap in
          let r = Valid-Around a m.heap m.timers ok (f, alive) in
          let xs = erase m.heap a m.timers in
          let w : Without a heap xs =
            Without-write a m.heap xs t (Around-Without a m.heap m.timers r) in
          let here : heap a ≡ t = write_here a t m.heap in
          let done : TimerManager C = record m { heap = heap; timers = insert heap a xs } in
          (
            done,
            ap
                  (λ o. elim o [
                    | none ↦ (m, false)
                    | some _ ↦ if find m.heap a m.timers then (done, true) else (m, false)
                  ])
                  alive
                ∙ ap (λ q. if q then (done, true) else (m, false))
                    (find-In m.heap a m.timers r.sorted r.there)
                ∙ ap (λ o. (done, is_set o)) (sym alive),
            Without-insert a heap xs w (f, ap Timer.cb here ∙ alive),
            inr (ap Timer.next here, insert-In heap a xs w.sorted w.absent),
          )
    ]

    -- A new timer with a callback, at an address where there is none, is in the set of a valid manager at the clock's
    -- value plus its period, with its callback; the manager is valid.
    pub add_timer-IsValid :
        (now ms : ℕ) (cb : C) (recurring : Bool)
        → Timer.cb (m.heap a) ≡ none
        → let m' = add_timer now a ms (some cb) recurring m in
          IsValid m'
          × In a m'.timers
          × (Timer.next (m'.heap a) ≡ add_ms now ms)
          × (Timer.cb (m'.heap a) ≡ some cb)
    unfolding add_timer add_timer_at
    add_timer-IsValid now ms cb recurring free =
        let t : Timer C = record {
          recurring = recurring;
          ms = ms;
          next = add_ms now ms;
          cb = some cb;
        } in
        let heap : ℕ → Timer C = write a t m.heap in
        let w : Without a heap m.timers =
          Without-write a m.heap m.timers t (Valid-Without a m.heap m.timers ok free) in
        let here : heap a ≡ t = write_here a t m.heap in
        (
          Without-insert a heap m.timers w (cb, ap Timer.cb here),
          insert-In heap a m.timers w.sorted w.absent,
          ap Timer.next here,
          ap Timer.cb here,
        )
