-- ===== src/Scheduler/Pick.antt =====
-- The loop of `Scheduler::run` over the tasks takes the first task that the thread may run.
use ynwad.Base.{
  ℕ, ◌≡◌, refl, ap, Bool, true, false, not, List, [], ◌∷◌, ◌++◌, none, some, All, ◌⊎◌, inl, inr,
}
use ynwad.Scheduler.{
  done, FiberState, Task, has_work, is_foreign, is_running, is_empty, Found, pick,
}

abbrev pub IsTask : Task → Type 0
IsTask t = has_work t ≡ true

pub Bool-cases : (b : Bool) → (b ≡ true) ⊎ (b ≡ false)
Bool-cases true = inl refl
Bool-cases false = inr refl

module _ (states : ℕ → FiberState) (thread : ℕ) where
  -- A task of another thread, or one whose fiber runs.
  abbrev pub Skips : Task → Type 0
  Skips t = (is_foreign thread t ≡ true) ⊎ (is_running states t ≡ true)

  -- The first task that is not passed over, or none.
  pub data Picks (ts : List Task) : Found → Type 0 where
    took :
        {k : Bool} (before after : List Task) (t : Task)
        → ts ≡ before ++ (t ∷ after)
        → All Skips before
        → is_foreign thread t ≡ false
        → is_running states t ≡ false
        → Picks ts (record { taken = some t; left = before ++ after; tickle_me = k })
    passed :
        {k : Bool} → All Skips ts → Picks ts (record { taken = none; left = ts; tickle_me = k })

  -- One more task that is passed over.
  behind :
      (t : Task) (ts : List Task) (r : Found) (k : Bool)
      → Skips t
      → Picks ts r
      → Picks (t ∷ ts) (record r { left = t ∷ r.left; tickle_me = k })
  behind t ts _ k skip (took before after x e all mine idle) =
      took (t ∷ before) after x (ap (λ xs. t ∷ xs) e) (skip, all) mine idle
  behind t ts _ k skip (passed all) = passed (skip, all)

  -- On tasks that have a fiber or a callback the loop ends without a failed assertion; it takes the first
  -- task that is bound to no other thread and whose fiber does not run, and leaves the others in order.
  pub pick-Picks :
      (ts : List Task) → All IsTask ts → (r : Found) × (pick states thread ts ≡ done r) × Picks ts r
  unfolding pick
  pick-Picks [] all = (record { taken = none; left = []; tickle_me = false }, refl, passed tt)
  pick-Picks (t ∷ ts) all =
      let (r, e, found) = pick-Picks ts all.1 in
      elim (Bool-cases (is_foreign thread t)) [
        | inl foreign ↦ (
          record r { left = t ∷ r.left; tickle_me = true },
          rw (foreign, e) refl,
          behind t ts r true (inl foreign) found,
        )
        | inr mine ↦ elim (Bool-cases (is_running states t)) [
          | inl runs ↦ (
            record r { left = t ∷ r.left },
            rw (mine, all.0, runs, e) refl,
            behind t ts r r.tickle_me (inr runs) found,
          )
          | inr idle ↦ (
            record { taken = some t; left = ts; tickle_me = not (is_empty ts) },
            rw (mine, all.0, idle) refl,
            took [] ts t refl tt mine idle,
          )
        ]
      ]
