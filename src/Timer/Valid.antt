-- ===== src/Timer/Valid.antt =====
-- The invariant of the timers of sylar/timer.cc: the set is in order and has the timers that still
-- have a callback, no others. `Around` and `Without` are this invariant while one timer is changed.
use ynwad.Base.{ℕ, ◌≡◌, ◌≢◌, sym, ap, ◌∙◌, List, [], ◌∷◌, none, some, All, arith}
use ynwad.Timer.{Timer, TimerManager, write, insert, erase}
use ynwad.Timer.Order.{
  In, Sorted, write_here, write_other, All-insert, insert-Sorted, insert-In, insert-keeps,
  All-erase, erase-Sorted, erase-absent, erase-keeps, Sorted-times,
}
use mathlib.Core.Path.{subst}
use native.Mathlib.Decide.{ℕ_discrete}

pub every {κ} : (P : ℕ → Type κ) (xs : List ℕ) → ((b : ℕ) → P b) → All P xs
every P [] h = tt
every P (x ∷ xs) h = (h x, every P xs h)

pub each {κ μ} :
    {P : ℕ → Type κ} {Q : ℕ → Type μ} (xs : List ℕ) → ((b : ℕ) → P b → Q b) → All P xs → All Q xs
each [] f h = tt
each (x ∷ xs) f h = (f x h.0, each xs f h.1)

pub both {κ μ} :
    (P : ℕ → Type κ) (Q : ℕ → Type μ) (xs : List ℕ) → All (λ b. P b → Q b) xs → All P xs → All Q xs
both P Q [] f h = tt
both P Q (x ∷ xs) f h = (f.0 h.0, both P Q xs f.1 h.1)

module _ {ℓ} {C : Type ℓ} where
  abbrev pub Live : Timer C → Type ℓ
  Live t = (f : C) × (t.cb ≡ some f)

  pub record Valid (heap : ℕ → Timer C) (xs : List ℕ) : Type ℓ where
    pub sorted : Sorted heap xs
    pub live : All (λ b. Live (heap b)) xs
    pub listed : (b : ℕ) → Live (heap b) → In b xs

  abbrev pub IsValid : TimerManager C → Type ℓ
  IsValid m = Valid m.heap m.timers

  -- The timer `a` is in the set, whatever it is.
  pub record Around (a : ℕ) (heap : ℕ → Timer C) (xs : List ℕ) : Type ℓ where
    pub sorted : Sorted heap xs
    pub there : In a xs
    pub live : All (λ b. b ≢ a → Live (heap b)) xs
    pub listed : (b : ℕ) → b ≢ a → Live (heap b) → In b xs

  -- The timer `a` is not in the set, whatever it is.
  pub record Without (a : ℕ) (heap : ℕ → Timer C) (xs : List ℕ) : Type ℓ where
    pub sorted : Sorted heap xs
    pub absent : All (λ b. b ≢ a) xs
    pub live : All (λ b. Live (heap b)) xs
    pub listed : (b : ℕ) → b ≢ a → Live (heap b) → In b xs

  module _ (a : ℕ) (heap : ℕ → Timer C) (xs : List ℕ) where
    pub Valid-Around : Valid heap xs → Live (heap a) → Around a heap xs
    Valid-Around v alive = record {
      sorted = v.sorted;
      there = v.listed a alive;
      live = each xs (λ b l other. l) v.live;
      listed = λ b other l. v.listed b l;
    }

    pub Around-Without : Around a heap xs → Without a heap (erase heap a xs)
    Around-Without r = record {
      sorted = erase-Sorted heap a xs r.sorted;
      absent = gone;
      live =
          both (λ b. b ≢ a) (λ b. Live (heap b)) (erase heap a xs)
            (All-erase heap (λ b. b ≢ a → Live (heap b)) a xs r.live) gone;
      listed = λ b other l. erase-keeps heap a b xs r.sorted r.there other (r.listed b other l);
    }
      where
        gone : All (λ b. b ≢ a) (erase heap a xs)
        gone = erase-absent heap a xs r.sorted r.there

    pub Without-insert : Without a heap xs → Live (heap a) → Valid heap (insert heap a xs)
    Without-insert w alive = record {
      sorted = insert-Sorted heap a xs w.sorted w.absent;
      live = All-insert heap (λ b. Live (heap b)) a xs alive w.live;
      listed = λ b l. elim (ℕ_discrete b a) [
        | yes same ↦
            subst (λ t. In t (insert heap a xs)) (sym same) (insert-In heap a xs w.sorted w.absent)
        | no other ↦ insert-keeps heap a b xs w.absent (w.listed b other l)
      ];
    }

    pub Without-dead : Without a heap xs → Timer.cb (heap a) ≡ none → Valid heap xs
    Without-dead w dead = record {
      sorted = w.sorted;
      live = w.live;
      listed = λ b l. elim (ℕ_discrete b a) [
        | yes same ↦ absurd (ground (arith, dead, l.1, ap (λ t. Timer.cb (heap t)) same))
        | no other ↦ w.listed b other l
      ];
    }

    pub Valid-Without : Valid heap xs → Timer.cb (heap a) ≡ none → Without a heap xs
    Valid-Without v dead = record {
      sorted = v.sorted;
      absent =
          each xs (λ b l same. absurd (ground (arith, dead, l.1, ap (λ t. Timer.cb (heap t)) same)))
            v.live;
      live = v.live;
      listed = λ b other l. v.listed b l;
    }

    module _ (t : Timer C) where
      pub kept-Live : (b : ℕ) → b ≢ a → Live (heap b) → Live (write a t heap b)
      kept-Live b other l = subst Live (sym (write_other a b t heap other)) l

      pub was-Live : (b : ℕ) → b ≢ a → Live (write a t heap b) → Live (heap b)
      was-Live b other l = subst Live (write_other a b t heap other) l

      pub Without-write : Without a heap xs → Without a (write a t heap) xs
      Without-write w = record {
        sorted =
            Sorted-times heap (write a t heap) xs
              (each xs (λ b other. ap Timer.next (write_other a b t heap other)) w.absent) w.sorted;
        absent = w.absent;
        live =
            both (λ b. b ≢ a) (λ b. Live (write a t heap b)) xs
              (each xs (λ b l other. kept-Live b other l) w.live) w.absent;
        listed = λ b other l. w.listed b other (was-Live b other l);
      }

      -- A change of the timer in place, at its old time.
      pub Around-write :
          t.next ≡ Timer.next (heap a) → Around a heap xs → Around a (write a t heap) xs
      Around-write same_time r = record {
        sorted = Sorted-times heap (write a t heap) xs (every _ xs times) r.sorted;
        there = r.there;
        live = each xs (λ b l other. kept-Live b other (l other)) r.live;
        listed = λ b other l. r.listed b other (was-Live b other l);
      }
        where
          times : (b : ℕ) → Timer.next (write a t heap b) ≡ Timer.next (heap b)
          times b = elim (ℕ_discrete b a) [
            | yes same ↦
                ap (λ c. Timer.next (write a t heap c)) same
                ∙ ap Timer.next (write_here a t heap)
                ∙ same_time
                ∙ ap (λ c. Timer.next (heap c)) (sym same)
            | no other ↦ ap Timer.next (write_other a b t heap other)
          ]
