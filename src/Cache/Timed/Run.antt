-- ===== src/Cache/Timed/Run.antt =====
-- Runs of the operations of `TimedCache` and its invariant.
use ynwad.Base.{
  ℕ, ◌≡◌, ◌⊎◌, refl, sym, ap, Bool, true, List, [], ◌∷◌, ◌++◌, Option, none, some, inl, inr,
}
use mathlib.Core.Path.{subst}
use ynwad.Cache.Dict.{empty_dict}
use ynwad.Cache.Timed.{
  TimedCache, new_cache, clear, set_max_size, set_elasticity, set_prune_callback, get, del, exists,
  check_timeout, set, expired,
}
use ynwad.Cache.Timed.Order.{IsOrder, Below}
use ynwad.Cache.Timed.Valid.{Agree, IsValid}
use ynwad.Cache.Timed.Keeps.{
  empty_Agree, set-IsValid, get-IsValid, del-IsValid, timeout_loop-IsValid,
}
use ynwad.Cache.Timed.Expired.{expired-exists}

-- The operations, as a client calls them.
pub data Op {ℓ} (K V : Type ℓ) : Type ℓ where
  set_op : ℕ → K → V → ℕ → Op K V
  get_op del_op : K → Op K V
  expired_op : ℕ → K → ℕ → Op K V
  timeout_op max_size_op elasticity_op : ℕ → Op K V
  clear_op callback_op : Op K V

abbrev pub first {ℓ κ} : {A : Type ℓ} {B : Type κ} → Option (A × B) → Option A
first none = none
first (some r) = some r.0

module _ {ℓ} {K V : Type ℓ} (dec : Discrete K) (less : K → K → Bool) where
  unfoldable pub step : Op K V → TimedCache K V → Option (TimedCache K V)
  step (set_op now k v wait) c = set dec less now k v wait c
  step (get_op k) c = first (get dec k c)
  step (del_op k) c = first (del dec k c)
  step (expired_op now k ts) c = first (expired dec less now k ts c)
  step (timeout_op ts) c = some (check_timeout dec ts c).0
  step (max_size_op n) c = some (set_max_size n c)
  step (elasticity_op n) c = some (set_elasticity n c)
  step clear_op c = some (clear c)
  step callback_op c = some (set_prune_callback c)

  unfoldable pub run : List (Op K V) → TimedCache K V → Option (TimedCache K V)
  run [] c = some c
  run (op ∷ ops) c = elim (step op c) [ none ↦ none | some c' ↦ run ops c' ]

  module _ (order : IsOrder less) where
    empty_IsValid :
        (c : TimedCache K V) → c.cache ≡ empty_dict → c.timed ≡ [] → IsValid dec less order c
    empty_IsValid c e e' = (
      subst (λ d. Agree dec less order d c.timed) (sym e)
          (subst (Agree dec less order empty_dict) (sym e') (empty_Agree dec less order)),
      subst (Below c.next_node) (sym e') tt,
    )

    -- A step ends validly, or is a `del` of a key that is there.
    Steps : Op K V → TimedCache K V → Type ℓ
    Steps op c =
        ((c' : TimedCache K V) × (step op c ≡ some c') × IsValid dec less order c')
        ⊎ ((k : K) × (op ≡ del_op k) × (exists dec k c ≡ true))

    step-IsValid : (op : Op K V) (c : TimedCache K V) → IsValid dec less order c → Steps op c
    unfolding step check_timeout Steps
    step-IsValid (set_op now k v wait) c a = inl (set-IsValid dec less order now k v wait c a)
    step-IsValid (get_op k) c a =
        let (r, e, v) = get-IsValid dec less order k c a in inl (r.0, ap first e, v)
    step-IsValid (del_op k) c a = elim (del-IsValid dec less order k c a) [
      | inl (r, e, v) ↦ inl (r.0, ap first e, v)
      | inr e ↦ inr (k, refl, e)
    ]
    step-IsValid (expired_op now k ts) c a =
        let (c', e, v, _, _) = expired-exists dec less order now k ts c a in inl (c', ap first e, v)
    step-IsValid (timeout_op ts) c a = inl (
      (check_timeout dec ts c).0,
      refl,
      timeout_loop-IsValid dec less order ts 0 c.timed c a.0 a.1,
    )
    step-IsValid (max_size_op n) c a = inl (set_max_size n c, refl, a)
    step-IsValid (elasticity_op n) c a = inl (set_elasticity n c, refl, a)
    step-IsValid clear_op c a = inl (clear c, refl, empty_IsValid (clear c) refl refl)
    step-IsValid callback_op c a = inl (set_prune_callback c, refl, a)

    -- A run ends validly, or a `del` of a key that is there comes up in it.
    abbrev pub Runs : List (Op K V) → TimedCache K V → Type ℓ
    Runs ops c =
        ((c' : TimedCache K V) × (run ops c ≡ some c') × IsValid dec less order c')
        ⊎ ((done : List (Op K V)) × (k : K) × (left : List (Op K V)) × (c' : TimedCache K V) × (ops
              ≡ done ++ (del_op k ∷ left))
            × (run done c ≡ some c')
            × (exists dec k c' ≡ true))

    run_from : (ops : List (Op K V)) (c : TimedCache K V) → IsValid dec less order c → Runs ops c
    unfolding run Steps
    run_from [] c a = inl (c, refl, a)
    run_from (op ∷ ops) c a = elim (step-IsValid op c a) [
      | inl (c', e, v) ↦ elim (run_from ops c' v) [
        | inl (c'', e', v') ↦ inl (c'', rw (e, run) e', v')
        | inr (done, k, left, c'', parts, e', there) ↦
            inr (op ∷ done, k, left, c'', ap (λ t. op ∷ t) parts, rw (e, run) e', there)
      ]
      | inr (k, same, there) ↦ inr ([], k, ops, c, ap (λ o. o ∷ ops) same, refl, there)
    ]

    -- Any sequence of operations on a new cache, at any times, ends, and uses no iterator whose element is
    -- gone, unless it comes to a `del` of a key that is there. At the end the map refers to elements of
    -- the set, which is sorted, each with its key, and has as many entries as such elements.
    pub run-IsValid :
        (max_size elasticity : ℕ) (ops : List (Op K V)) → Runs ops (new_cache max_size elasticity)
    run-IsValid max_size elasticity ops =
        run_from ops (new_cache max_size elasticity)
          (empty_IsValid (new_cache max_size elasticity) refl refl)
