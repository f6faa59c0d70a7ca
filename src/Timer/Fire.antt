-- ===== src/Timer/Fire.antt =====
-- The loop of `listExpiredCb` of sylar/timer.cc over the expired timers.
use ynwad.Base.{
  ℕ, ◌≡◌, ◌≢◌, ◌⊎◌, inl, inr, refl, sym, ap, ◌∙◌, Bool, List, [], ◌∷◌, ◌++◌, Option, none, All,
  All-split, map, Bool-cases, arith, if◌then◌else◌,
}
use ynwad.Timer.{Timer, write, insert, add_ms, fire}
use ynwad.Timer.Order.{
  In, Sorted, write_here, write_other, All-not_self, All-insert, insert-Sorted, insert-In,
  insert-keeps, Sorted-times,
}
use ynwad.Timer.Valid.{Live, Valid, each, both, kept-Live, was-Live}
use mathlib.Core.Path.{subst}
use native.Mathlib.Decide.{ℕ_discrete}

abbrev pub AllDifferent : List ℕ → Type 0
AllDifferent [] = Unit
AllDifferent (a ∷ xs) = All (λ b. b ≢ a) xs × AllDifferent xs

module _ {ℓ} {C : Type ℓ} where
  unfoldable pub callbacks : (ℕ → Timer C) → List ℕ → List (Option C)
  callbacks heap xs = map (λ a. Timer.cb (heap a)) xs

  -- The timers `expired` are out of the set and have not run yet.
  pub record Pending (heap : ℕ → Timer C) (expired xs : List ℕ) : Type ℓ where
    pub sorted : Sorted heap xs
    pub live : All (λ b. Live (heap b)) xs
    pub waiting : All (λ b. Live (heap b)) expired
    pub different : AllDifferent expired
    pub away : All (λ a. All (λ b. b ≢ a) xs) expired
    pub listed : (b : ℕ) → Live (heap b) → In b xs ⊎ In b expired

  module _ (heap : ℕ → Timer C) where
    pub Sorted-away :
        (expired xs : List ℕ)
        → Sorted heap (expired ++ xs)
        → AllDifferent expired × All (λ a. All (λ b. b ≢ a) xs) expired
    Sorted-away [] xs s = (tt, tt)
    Sorted-away (a ∷ expired) xs s =
        let (different, away) = Sorted-away expired xs s.1 in
        let (near, far) =
          All-split (λ b. b ≢ a) expired xs (All-not_self heap a (expired ++ xs) s.0) in
        ((near, different), (far, away))

    module _ (a : ℕ) (expired xs : List ℕ) (p : Pending heap (a ∷ expired) xs) (t : Timer C) where
      Sorted-write : Sorted (write a t heap) xs
      Sorted-write =
          Sorted-times heap (write a t heap) xs
            (each xs (λ b other. ap Timer.next (write_other a b t heap other)) p.away.0) p.sorted

      Live-write :
          (ys : List ℕ)
          → All (λ b. b ≢ a) ys
          → All (λ b. Live (heap b)) ys
          → All (λ b. Live (write a t heap b)) ys
      Live-write ys other l =
          both (λ b. b ≢ a) (λ b. Live (write a t heap b)) ys
            (each ys (λ b l' other'. kept-Live a heap xs t b other' l') l) other

      listed_write : (b : ℕ) → b ≢ a → Live (write a t heap b) → In b xs ⊎ In b expired
      listed_write b other l = elim (p.listed b (was-Live a heap xs t b other l)) [
        | inl there ↦ inl there
        | inr (inl here) ↦ absurd (other here)
        | inr (inr later) ↦ inr later
      ]

      callbacks-write :
          (ys : List ℕ) → All (λ b. b ≢ a) ys → callbacks (write a t heap) ys ≡ callbacks heap ys
      unfolding callbacks
      callbacks-write [] h = refl
      callbacks-write (y ∷ ys) h =
          ap (λ c. Timer.cb c ∷ callbacks (write a t heap) ys) (write_other a y t heap h.0)
          ∙ ap (λ cs. Timer.cb (heap y) ∷ cs) (callbacks-write ys h.1)

      Pending-dead : t.cb ≡ none → Pending (write a t heap) expired xs
      Pending-dead dead = record {
        sorted = Sorted-write;
        live = Live-write xs p.away.0 p.live;
        waiting = Live-write expired p.different.0 p.waiting.1;
        different = p.different.1;
        away = p.away.1;
        listed = λ b l. elim (ℕ_discrete b a) [
          | yes same ↦ absurd (
              ground (
                arith,
                dead,
                l.1,
                ap (λ c. Timer.cb (write a t heap c)) same,
                ap Timer.cb (write_here a t heap),
              ))
          | no other ↦ listed_write b other l
        ];
      }

      Pending-again : Live t → Pending (write a t heap) expired (insert (write a t heap) a xs)
      Pending-again alive = record {
        sorted = insert-Sorted (write a t heap) a xs Sorted-write p.away.0;
        live =
            All-insert (write a t heap) (λ b. Live (write a t heap b)) a xs
              (subst Live (sym (write_here a t heap)) alive) (Live-write xs p.away.0 p.live);
        waiting = Live-write expired p.different.0 p.waiting.1;
        different = p.different.1;
        away =
            both (λ b. b ≢ a) _ expired
              (each expired
                (λ c far other.
                  All-insert (write a t heap) (λ b. b ≢ c) a xs (λ e. other (sym e)) far)
                p.away.1)
              p.different.0;
        listed = λ b l. elim (ℕ_discrete b a) [
          | yes same ↦ inl (
              subst (λ c. In c (insert (write a t heap) a xs)) (sym same)
                (insert-In (write a t heap) a xs Sorted-write p.away.0))
          | no other ↦ elim (listed_write b other l) [
            | inl there ↦ inl (insert-keeps (write a t heap) a b xs p.away.0 there)
            | inr later ↦ inr later
          ]
        ];
      }

  -- What a round leaves, for a timer that is recurring or not.
  abbrev Fired : ℕ → ℕ → List ℕ → (ℕ → Timer C) → List ℕ → Bool → Type ℓ
  Fired now a expired heap xs recurring =
      let t = heap a in
      let heap' =
        write a
          (if recurring
            then record t { next = add_ms now (Timer.ms t) }
            else record t { cb = none })
          heap in
      let r = fire now expired heap' (if recurring then insert heap' a xs else xs) in
      (Timer.cb t ∷ r.0 ≡ Timer.cb t ∷ callbacks heap expired) × Valid r.1.0 r.1.1

  -- The loop gives the callbacks in the timers' order, and a heap and a set that are valid again.
  pub fire-Pending :
      (now : ℕ) (expired : List ℕ) (heap : ℕ → Timer C) (xs : List ℕ)
      → Pending heap expired xs
      → let r = fire now expired heap xs in (r.0 ≡ callbacks heap expired) × Valid r.1.0 r.1.1
  unfolding fire callbacks
  fire-Pending now [] heap xs p = (
    refl,
    record {
      sorted = p.sorted;
      live = p.live;
      listed = λ b l. elim (p.listed b l) [ inl there ↦ there | inr none_left ↦ absurd none_left ];
    },
  )
  fire-Pending now (a ∷ expired) heap xs p = elim (Bool-cases (Timer.recurring (heap a))) [
    | inl e ↦
        let t : Timer C = record (heap a) { next = add_ms now (Timer.ms (heap a)) } in
        let q = Pending-again heap a expired xs p t p.waiting.0 in
        let (called, valid) =
          fire-Pending now expired (write a t heap) (insert (write a t heap) a xs) q in
        subst (Fired now a expired heap xs) (sym e) (
          ap (λ cs. Timer.cb (heap a) ∷ cs)
              (called ∙ callbacks-write heap a expired xs p t expired p.different.0),
          valid,
        )
    | inr e ↦
        let t : Timer C = record (heap a) { cb = none } in
        let q = Pending-dead heap a expired xs p t refl in
        let (called, valid) = fire-Pending now expired (write a t heap) xs q in
        subst (Fired now a expired heap xs) (sym e) (
          ap (λ cs. Timer.cb (heap a) ∷ cs)
              (called ∙ callbacks-write heap a expired xs p t expired p.different.0),
          valid,
        )
  ]

  -- A timer once it has run.
  abbrev pub after : ℕ → Timer C → Timer C
  after now t =
      if Timer.recurring t
      then record t { next = add_ms now (Timer.ms t) }
      else record t { cb = none }

  pub fire-other :
      (now : ℕ) (expired : List ℕ) (heap : ℕ → Timer C) (xs : List ℕ) (b : ℕ)
      → All (λ a. b ≢ a) expired
      → (fire now expired heap xs).1.0 b ≡ heap b
  unfolding fire
  fire-other now [] heap xs b h = refl
  fire-other now (a ∷ expired) heap xs b h =
      let heap' = write a (after now (heap a)) heap in
      fire-other now expired heap' (if Timer.recurring (heap a) then insert heap' a xs else xs) b
        h.1
      ∙ write_other a b (after now (heap a)) heap h.0

  pub fire-after :
      (now : ℕ) (expired : List ℕ) (heap : ℕ → Timer C) (xs : List ℕ)
      → AllDifferent expired
      → All (λ a. (fire now expired heap xs).1.0 a ≡ after now (heap a)) expired
  unfolding fire
  fire-after now [] heap xs d = tt
  fire-after now (a ∷ expired) heap xs d =
      let heap' = write a (after now (heap a)) heap in
      let xs' = if Timer.recurring (heap a) then insert heap' a xs else xs in
      (
        fire-other now expired heap' xs' a (each expired (λ c n e. n (sym e)) d.0)
            ∙ write_here a (after now (heap a)) heap,
        both (λ b. b ≢ a) _ expired
            (each expired
              (λ b e other. e ∙ ap (after now) (write_other a b (after now (heap a)) heap other))
              (fire-after now expired heap' xs' d.1))
            d.0,
      )
