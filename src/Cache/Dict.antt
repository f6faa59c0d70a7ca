-- ===== src/Cache/Dict.antt =====
-- What the caches use of `std::unordered_map`: the values by key, and how many there are.
use ynwad.Base.{ℕ, suc, ◌-◌, Option, none, some}
use mathlib.Core.Logic.{ite}

pub record Dict {ℓ κ} (K : Type ℓ) (A : Type κ) : Type (ℓ ⊔ κ) where
  pub find : K → Option A
  pub size : ℕ

module _ {ℓ κ} {K : Type ℓ} {A : Type κ} where
  abbrev pub empty_dict : Dict K A
  empty_dict = record { find = λ _. none; size = 0 }

  -- `insert` of a key that is there changes nothing.
  unfoldable pub insert : Discrete K → K → A → Dict K A → Dict K A
  insert dec k a d = elim (d.find k) [
    | none ↦ record { find = λ j. ite (dec j k) (some a) (d.find j); size = suc d.size }
    | some _ ↦ d
  ]

  unfoldable pub erase : Discrete K → K → Dict K A → Dict K A
  erase dec k d = elim (d.find k) [
    | none ↦ d
    | some _ ↦ record { find = λ j. ite (dec j k) none (d.find j); size = d.size - 1 }
  ]

  -- `it->second = a` at the entry of a key.
  unfoldable pub assign : Discrete K → K → A → Dict K A → Dict K A
  assign dec k a d = record { find = λ j. ite (dec j k) (some a) (d.find j); size = d.size }
