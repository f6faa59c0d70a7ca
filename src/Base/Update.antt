-- ===== src/Base/Update.antt =====
-- Lists with one element replaced, by index.
use Prim.Native.Nat.{ℕ, zero, suc, ◌<◌}
use mathlib.Core.List.{List, [], ◌∷◌}
use mathlib.Core.Logic.{◌≢◌}
use mathlib.Core.Option.{some, some-injective}
use mathlib.Core.Path.{◌≡◌, refl, ap, subst}
use native.Mathlib.Omega.{arith}
use ynwad.Base.Lists.{All, get_elem?, length, set}

module _ {ℓ} {A : Type ℓ} where
  pub get_elem-some : (i : ℕ) (xs : List A) → i < length xs → (a : A) × (get_elem? xs i ≡ some a)
  get_elem-some i [] h = absurd (omega arith)
  get_elem-some zero (a ∷ xs) h = (a, refl)
  get_elem-some (suc i) (a ∷ xs) h = get_elem-some i xs (omega arith)

  pub get_elem-set :
      (i : ℕ) (a b : A) (xs : List A) → get_elem? xs i ≡ some a → get_elem? (set xs i b) i ≡ some b
  get_elem-set i a b [] h = absurd (ground (arith, h))
  get_elem-set zero a b (x ∷ xs) h = refl
  get_elem-set (suc i) a b (x ∷ xs) h = get_elem-set i a b xs h

  pub get_elem-set_other :
      (i j : ℕ) (b : A) (xs : List A) → j ≢ i → get_elem? (set xs i b) j ≡ get_elem? xs j
  get_elem-set_other i j b [] h = refl
  get_elem-set_other zero zero b (x ∷ xs) h = absurd (h refl)
  get_elem-set_other zero (suc j) b (x ∷ xs) h = refl
  get_elem-set_other (suc i) zero b (x ∷ xs) h = refl
  get_elem-set_other (suc i) (suc j) b (x ∷ xs) h = get_elem-set_other i j b xs (λ e. h (ap suc e))

  pub All-get_elem {κ} :
      (P : A → Type κ) (i : ℕ) (a : A) (xs : List A) → All P xs → get_elem? xs i ≡ some a → P a
  All-get_elem P i a [] h e = absurd (ground (arith, e))
  All-get_elem P zero a (x ∷ xs) h e = subst P (some-injective x a e) h.0
  All-get_elem P (suc i) a (x ∷ xs) h e = All-get_elem P i a xs h.1 e

  pub All-set {κ} :
      (P : A → Type κ) (i : ℕ) (b : A) (xs : List A) → All P xs → P b → All P (set xs i b)
  All-set P i b [] h p = tt
  All-set P zero b (x ∷ xs) h p = (p, h.1)
  All-set P (suc i) b (x ∷ xs) h p = (h.0, All-set P i b xs h.1 p)
