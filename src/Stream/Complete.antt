-- ===== src/Stream/Complete.antt =====
-- The loops of sylar/stream.cc end, with the whole size transferred or with the answer that stopped them.
use ynwad.Base.{
  ℕ, zero, suc, ◌+◌, ◌-◌, ◌^◌, ◌≤◌, ◌<◌, ◌≡◌, refl, ap, ◌∙◌, some, arith, if◌then◌else◌, lt→ltb,
}
use mathlib.Core.Path.{subst}
use ynwad.Stream.{
  ℤ, pos, negsuc, to_int, start_left, transfer, read_fix_size, write_fix_size, read_fix_size_ba,
  write_fix_size_ba,
}

-- An answer that stops the loop.
pub data IsStop : ℤ → Type 0 where
  nothing : IsStop (pos 0)
  failed : {n : ℕ} → IsStop (negsuc n)

module _ {ℓ} {W : Type ℓ} (step : ℕ → ℕ → W → ℤ × W) where
  -- The calls that move `size` bytes from `offset` on, each at the place behind the one before it, of a
  -- transfer in which `left` bytes are wanted.
  pub data Moves : ℕ → ℕ → ℕ → W → W → Type ℓ where
    none_yet : {offset left : ℕ} {w : W} → Moves offset left 0 w w
    then_more :
        {offset left n size : ℕ} {w w₁ w₂ : W}
        → step offset left w ≡ (pos (suc n), w₁)
        → Moves (offset + suc n) (left - suc n) size w₁ w₂
        → Moves offset left (suc n + size) w w₂

  -- How a transfer of `left` bytes ends.
  pub data Ending (length offset left : ℕ) (w : W) : ℤ × W → Type ℓ where
    whole : {w' : W} → Moves offset left left w w' → Ending length offset left w (to_int length, w')
    stopped :
        {size : ℕ} {w₁ w₂ : W} {e : ℤ}
        → Moves offset left size w w₁
        → size < left
        → step (offset + size) (left - size) w₁ ≡ (e, w₂)
        → IsStop e
        → Ending length offset left w (e, w₂)

  -- A call moves no more than it is asked for.
  abbrev pub IsBounded : Type ℓ
  IsBounded = (offset left n : ℕ) (w w' : W) → step offset left w ≡ (pos n, w') → n ≤ left

  at_once :
      (offset left : ℕ) (w : W) → step (offset + 0) (suc left - 0) w ≡ step offset (suc left) w
  at_once offset left w =
      ap (λ t. step t (suc left - 0) w) none_behind ∙ ap (λ t. step offset t w) all_left
    where
      none_behind : offset + 0 ≡ offset
      none_behind = omega arith

      all_left : suc left - 0 ≡ suc left
      all_left = omega arith

  -- One more call before what is known of the rest.
  continued :
      (length offset left n : ℕ) (w w' : W) (r : ℤ × W)
      → n ≤ left
      → step offset (suc left) w ≡ (pos (suc n), w')
      → Ending length (offset + suc n) (left - n) w' r
      → Ending length offset (suc left) w r
  continued length offset left n w w' r small e (whole {w' = w''} m) = whole (
      subst (λ t. Moves offset (suc left) t w w'') sum
        (then_more e (subst (λ t. Moves (offset + suc n) t (left - n) w' w'') rest m)))
    where
      rest : left - n ≡ suc left - suc n
      rest = omega arith

      sum : suc n + (left - n) ≡ suc left
      sum = omega (arith, small)
  continued length offset left n w w' r small e (stopped {size} {w₁} {w₂} m below last stop) =
      stopped (then_more e (subst (λ t. Moves (offset + suc n) t size w' w₁) rest m))
        (omega (arith, below, small))
        (ap (λ t. step t (suc left - (suc n + size)) w₁) place
          ∙ ap (λ t. step (offset + suc n + size) t w₁) wanted
          ∙ last)
        stop
    where
      rest : left - n ≡ suc left - suc n
      rest = omega arith

      place : offset + (suc n + size) ≡ offset + suc n + size
      place = omega arith

      wanted : suc left - (suc n + size) ≡ left - n - size
      wanted = omega arith

  -- What the loop does with an answer.
  answered :
      (fuel length offset left : ℕ) (w : W) (answer : ℤ × W)
      → IsBounded
      → step offset (suc left) w ≡ answer
      → ((n : ℕ) (w' : W)
          → (r : ℤ × W) × (transfer step fuel length (offset + suc n) (left - n) w' ≡ some r)
            × Ending length (offset + suc n) (left - n) w' r)
      → (r : ℤ × W) × ((elim answer.0 [
        | pos zero ↦ some answer
        | pos (suc n) ↦ transfer step fuel length (offset + suc n) (left - n) answer.1
        | negsuc n ↦ some answer
      ])
          ≡ some r)
        × Ending length offset (suc left) w r
  answered fuel length offset left w (pos zero, w') bounded e rest =
      ((pos zero, w'), refl, stopped none_yet (omega arith) (at_once offset left w ∙ e) nothing)
  answered fuel length offset left w (negsuc n, w') bounded e rest =
      ((negsuc n, w'), refl, stopped none_yet (omega arith) (at_once offset left w ∙ e) failed)
  answered fuel length offset left w (pos (suc n), w') bounded e rest =
      let (r, same, ending) = rest n w' in
      (
        r,
        same,
        continued length offset left n w w' r
            (omega (arith, bounded offset (suc left) (suc n) w w' e)) e ending,
      )

  pub transfer_ends :
      (fuel length offset left : ℕ) (w : W)
      → IsBounded
      → left ≤ fuel
      → (r : ℤ × W) × (transfer step fuel length offset left w ≡ some r)
        × Ending length offset left w r
  unfolding transfer
  transfer_ends fuel length offset zero w bounded enough =
      ((to_int length, w), refl, whole none_yet)
  transfer_ends zero length offset (suc left) w bounded enough = absurd (omega (arith, enough))
  transfer_ends (suc fuel) length offset (suc left) w bounded enough =
      answered fuel length offset left w (step offset (suc left) w) bounded refl (λ n w'.
        transfer_ends fuel length (offset + suc n) (left - n) w' bounded (omega (arith, enough)))

  -- When the calls move no more than they are asked for and the length is below 2 ^ 63, `readFixSize` and
  -- `writeFixSize` of a buffer end: with the length as an `int` after calls at consecutive places that moved
  -- it all, or with the first answer that is not positive.
  pub read_fix_size_ends :
      (length : ℕ) (w : W)
      → IsBounded
      → length < 2 ^ 63
      → (r : ℤ × W) × (read_fix_size step length w ≡ some r)
        × (write_fix_size step length w ≡ some r)
        × Ending length 0 length w r
  unfolding read_fix_size write_fix_size
  read_fix_size_ends length w bounded small =
      let start : start_left length ≡ length =
        ap (λ t. if t then length else 0) (lt→ltb length (2 ^ 63) small) in
      let (r, e, ending) = transfer_ends length length 0 length w bounded (omega arith) in
      let same = ap (λ t. transfer step t length 0 t w) start ∙ e in (r, same, same, ending)

module _ {ℓ} {W : Type ℓ} (call : ℕ → W → ℤ × W) where
  -- The same of a `ByteArray`.
  pub read_fix_size_ba_ends :
      (length : ℕ) (w : W)
      → IsBounded (λ offset left w. call left w)
      → length < 2 ^ 63
      → (r : ℤ × W) × (read_fix_size_ba call length w ≡ some r)
        × (write_fix_size_ba call length w ≡ some r)
        × Ending (λ offset left w. call left w) length 0 length w r
  unfolding read_fix_size_ba write_fix_size_ba read_fix_size write_fix_size
  read_fix_size_ba_ends length w bounded small =
      read_fix_size_ends (λ offset left w. call left w) length w bounded small
