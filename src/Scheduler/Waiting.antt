-- ===== src/Scheduler/Waiting.antt =====
-- A callback that is bound to no thread waits for no more turns than there are tasks before it.
use ynwad.Base.{
  ℕ, suc, ◌<◌, ◌≡◌, refl, ap, ◌∙◌, Bool, true, false, not, List, [], ◌∷◌, ◌++◌, Option, none, some,
  if◌then◌else◌, All, length, ◌⊎◌, inl, inr, arith, append_assoc, All-append, All-split,
}
use mathlib.Core.Path.{subst}
use ynwad.Scheduler.{
  Checked, done, ◌>>=◌, FiberState, Task, has_work, is_foreign, is_running, is_empty, Found, pick,
}
use ynwad.Scheduler.Pick.{IsTask, Bool-cases, Picks, took, passed, pick-Picks}

abbrev pub callback : ℕ → Task
callback c = record { fiber = none; cb = some c; thread = none }

-- A turn of a thread, with the fibers' states of that moment, or a task that is scheduled.
pub data Event : Type 0 where
  turn : (ℕ → FiberState) → ℕ → Event
  arrives : Task → Event

abbrev pub turns : List Event → ℕ
turns [] = 0
turns (turn states thread ∷ es) = suc (turns es)
turns (arrives t ∷ es) = turns es

-- The tasks that are taken, in order; an empty place is a turn that took none.
unfoldable pub serve : List Event → List Task → Checked (List (Option Task))
serve [] ts = done []
serve (turn states thread ∷ es) ts = do
  found ← pick states thread ts
  rest ← serve es found.left
  done (found.taken ∷ rest)
serve (arrives t ∷ es) ts = serve es (if has_work t then ts ++ (t ∷ []) else ts)

-- A task is among those taken.
abbrev pub Taken : Task → List (Option Task) → Type 0
Taken x [] = ⊥
Taken x (o ∷ os) = (o ≡ some x) ⊎ Taken x os

-- Where the callback is after a turn: taken, or one place further to the front.
data Nearer (x : Task) (before after : List Task) : Found → Type 0 where
  reached :
      {k : Bool} (left : List Task)
      → All IsTask left
      → Nearer x before after (record { taken = some x; left = left; tickle_me = k })
  closer :
      {o : Option Task} {k : Bool} (before' : List Task)
      → suc (length before') ≡ length before
      → All IsTask before'
      → Nearer x before after (record { taken = o; left = before' ++ (x ∷ after); tickle_me = k })

module _ (states : ℕ → FiberState) (thread : ℕ) (c : ℕ) where
  passes :
      (t : Task) (before after : List Task) (r : Found) (k : Bool)
      → IsTask t
      → Nearer (callback c) before after r
      → Nearer (callback c) (t ∷ before) after (record r { left = t ∷ r.left; tickle_me = k })
  passes t before after _ k work (reached left all) = reached (t ∷ left) (work, all)
  passes t before after _ k work (closer before' e all) =
      closer (t ∷ before') (ap suc e) (work, all)

  pick-Nearer :
      (before after : List Task)
      → All IsTask before
      → All IsTask after
      → (r : Found) × (pick states thread (before ++ (callback c ∷ after)) ≡ done r)
        × Nearer (callback c) before after r
  unfolding pick
  pick-Nearer [] after all alla = (
    record { taken = some (callback c); left = after; tickle_me = not (is_empty after) },
    refl,
    reached after alla,
  )
  pick-Nearer (t ∷ before) after all alla =
      let (r, e, near) = pick-Nearer before after all.1 alla in
      elim (Bool-cases (is_foreign thread t)) [
        | inl foreign ↦ (
          record r { left = t ∷ r.left; tickle_me = true },
          rw (foreign, e) refl,
          passes t before after r true all.0 near,
        )
        | inr mine ↦ elim (Bool-cases (is_running states t)) [
          | inl runs ↦ (
            record r { left = t ∷ r.left },
            rw (mine, all.0, runs, e) refl,
            passes t before after r r.tickle_me all.0 near,
          )
          | inr idle ↦ (
            record {
              taken = some t;
              left = before ++ (callback c ∷ after);
              tickle_me = not (is_empty (before ++ (callback c ∷ after)));
            },
            rw (mine, all.0, idle) refl,
            closer before refl all.1,
          )
        ]
      ]

  Picks-left :
      (ts : List Task) (r : Found) → All IsTask ts → Picks states thread ts r → All IsTask r.left
  Picks-left ts _ all (took before after t e skip mine idle) =
      let parts = All-split IsTask before (t ∷ after) (subst (All IsTask) e all) in
      All-append IsTask before after parts.0 parts.1.1
  Picks-left ts _ all (passed skip) = all

-- A task is put behind the others.
arrived :
    (t : Task) (b : Bool) (ts : List Task)
    → has_work t ≡ b
    → All IsTask ts
    → All IsTask (if b then ts ++ (t ∷ []) else ts)
arrived t true ts e all = All-append IsTask ts (t ∷ []) all (e, tt)
arrived t false ts e all = all

serve_ends :
    (es : List Event) (ts : List Task)
    → All IsTask ts
    → (got : List (Option Task)) × (serve es ts ≡ done got)
unfolding serve
serve_ends [] ts all = ([], refl)
serve_ends (turn states thread ∷ es) ts all =
    let (r, e, found) = pick-Picks states thread ts all in
    let (got, e') = serve_ends es r.left (Picks-left states thread 0 ts r all found) in
    (r.taken ∷ got, rw (e, e') refl)
serve_ends (arrives t ∷ es) ts all = serve_ends es _ (arrived t (has_work t) ts refl all)

-- The rest of the turns, after one.
after_turn :
    (c : ℕ) (states : ℕ → FiberState) (thread : ℕ) (es : List Event) (before after : List Task)
    (r : Found)
    → pick states thread (before ++ (callback c ∷ after)) ≡ done r
    → Nearer (callback c) before after r
    → length before < suc (turns es)
    → ((before' : List Task)
        → All IsTask before'
        → length before' < turns es
        → (got : List (Option Task)) × (serve es (before' ++ (callback c ∷ after)) ≡ done got)
          × Taken (callback c) got)
    → (got : List (Option Task)) × (serve (turn states thread ∷ es) (before ++ (callback c ∷ after))
        ≡ done got)
      × Taken (callback c) got
unfolding serve
after_turn c states thread es before after _ e (reached left all) h ih =
    let (got, e') = serve_ends es left all in (some (callback c) ∷ got, rw (e, e') refl, inl refl)
after_turn c states thread es before after _ e (closer {o} before' len all) h ih =
    let (got, e', found) = ih before' all (omega (arith, len, h)) in
    (o ∷ got, rw (e, e') refl, inr found)

behind_all :
    (b : Bool) (x t : Task) (before after : List Task)
    → (if b then (before ++ (x ∷ after)) ++ (t ∷ []) else before ++ (x ∷ after))
      ≡ before ++ (x ∷ (if b then after ++ (t ∷ []) else after))
behind_all true x t before after = append_assoc before (x ∷ after) (t ∷ [])
behind_all false x t before after = refl

-- Whatever threads take turns, whatever the fibers' states and whatever tasks arrive, the turns end and a
-- callback that is bound to no thread is taken when there are more turns than tasks before it.
pub serve-Taken :
    (c : ℕ) (es : List Event) (before after : List Task)
    → All IsTask before
    → All IsTask after
    → length before < turns es
    → (got : List (Option Task)) × (serve es (before ++ (callback c ∷ after)) ≡ done got)
      × Taken (callback c) got
unfolding serve
serve-Taken c [] before after all alla h = absurd (omega (arith, h))
serve-Taken c (turn states thread ∷ es) before after all alla h =
    let (r, e, near) = pick-Nearer states thread c before after all alla in
    after_turn c states thread es before after r e near h
      (λ before' all' h'. serve-Taken c es before' after all' alla h')
serve-Taken c (arrives t ∷ es) before after all alla h =
    let (got, e, found) =
      serve-Taken c es before (if has_work t then after ++ (t ∷ []) else after) all
        (arrived t (has_work t) after refl alla) h in
    (got, ap (serve es) (behind_all (has_work t) (callback c) t before after) ∙ e, found)
