-- ===== src/Timer/Reset.antt =====
-- `reset` of sylar/timer.cc.
use ynwad.Base.{
  ℕ, ◌≡◌, ◌⊎◌, refl, ap, ◌∙◌, Bool, true, false, not, ◌&&◌, ◌==◌, Option, none, some, Option-cases,
  inl, inr, arith, if◌then◌else◌,
}
use ynwad.Timer.{Timer, TimerManager, write, find, erase, add_ms, sub_ms, add_timer_at, reset}
use ynwad.Timer.Order.{In, write_here, find-In, insert-In}
use ynwad.Timer.Valid.{
  Live, IsValid, Without, Valid-Around, Around-Without, Without-insert, Without-write,
}

module _ {ℓ} {C : Type ℓ} (now a ms : ℕ) (from_now : Bool) (m : TimerManager C) where
  -- The timer after `reset`, where it is put back.
  abbrev pub moved : Timer C
  moved =
      let t = m.heap a in
      let start = if from_now then now else sub_ms (Timer.next t) (Timer.ms t) in
      record t { ms = ms; next = add_ms start ms }

  abbrev taken_out : TimerManager C
  taken_out = record m { heap = write a moved m.heap; timers = erase m.heap a m.timers }

  -- What `reset` returns, by the outcome of its three tests.
  abbrev Outcome : Bool → Option C → Bool → Type ℓ
  Outcome early cb found =
      let r : TimerManager C × Bool = if early then (m, true) else elim cb [
        | none ↦ (m, false)
        | some _ ↦ if found then (add_timer_at a taken_out, true) else (m, false)
      ] in
      IsValid r.0
      × ((Timer.cb (m.heap a) ≡ none) ⊎ ((r.1 ≡ true) × In a r.0.timers))
      × ((Timer.cb (m.heap a) ≡ none) ⊎ ((early ≡ true) ⊎ (r.0.heap a ≡ moved)))

  outcome_at :
      (early : Bool) (cb : Option C) (found : Bool)
      → IsValid m
      → Timer.cb (m.heap a) ≡ cb
      → (Live (m.heap a) → found ≡ true)
      → Outcome early cb found
  unfolding add_timer_at
  outcome_at true cb found ok e h = (ok, in_set, inr (inl refl))
    where
      in_set : (Timer.cb (m.heap a) ≡ none) ⊎ ((true ≡ true) × In a m.timers)
      in_set = elim (Option-cases (Timer.cb (m.heap a))) [
        | inl dead ↦ inl dead
        | inr l ↦ inr (refl, ok.listed a l)
      ]
  outcome_at false none found ok e h = (ok, inl e, inl e)
  outcome_at false (some f) false ok e h = absurd (ground (arith, h (f, e)))
  outcome_at false (some f) true ok e h =
      let r = Valid-Around a m.heap m.timers ok (f, e) in
      let xs = erase m.heap a m.timers in
      let heap : ℕ → Timer C = write a moved m.heap in
      let w : Without a heap xs =
        Without-write a m.heap xs moved (Around-Without a m.heap m.timers r) in
      let here : heap a ≡ moved = write_here a moved m.heap in
      (
        Without-insert a heap xs w (f, ap Timer.cb here ∙ e),
        inr (refl, insert-In heap a xs w.sorted w.absent),
        inr (inr here),
      )

  -- `reset` leaves a valid manager valid. Of a timer with its callback it returns true, and the timer is
  -- in the set; unless the period is the old one and the clock does not count, the timer has the new
  -- period and its time is counted from the clock's value or from the start of the old period.
  pub reset-IsValid :
      IsValid m
      → let r = reset now a ms from_now m in
        IsValid r.0
        × ((Timer.cb (m.heap a) ≡ none) ⊎ ((r.1 ≡ true) × In a r.0.timers))
        × ((Timer.cb (m.heap a) ≡ none)
            ⊎ ((((ms == Timer.ms (m.heap a)) && not from_now) ≡ true) ⊎ (r.0.heap a ≡ moved)))
  unfolding reset
  reset-IsValid ok =
      outcome_at ((ms == Timer.ms (m.heap a)) && not from_now) (Timer.cb (m.heap a))
        (find m.heap a m.timers) ok refl (λ l. find-In m.heap a m.timers ok.sorted (ok.listed a l))
