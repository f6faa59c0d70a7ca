-- ===== src/Stream.antt =====
-- The loops of sylar/stream.cc that read or write a fixed size: `Stream::readFixSize` and
-- `Stream::writeFixSize`. A stream's own `read` and `write` are virtual; they are arguments here, and
-- work on a state of any type. They get the place in the buffer and how much is left.
mod Complete
mod Tests
use ynwad.Base.{ℕ, zero, suc, ◌+◌, ◌-◌, ◌*◌, ◌/◌, ◌%◌, ◌^◌, Option, none, some, ltb, if◌then◌else◌}

-- `int`, as `read` and `write` return it.
pub data ℤ : Type 0 where
  pos : ℕ → ℤ
  negsuc : ℕ → ℤ

-- The conversion of a `size_t` to `int`.
abbrev pub to_int : ℕ → ℤ
to_int n = let low = n % 2 ^ 32 in if ltb low (2 ^ 31) then pos low else negsuc (2 ^ 32 - 1 - low)

-- `int64_t left = length`, where a negative number leaves nothing to do.
abbrev pub start_left : ℕ → ℕ
start_left length = if ltb length (2 ^ 63) then length else 0

module _ {ℓ} {W : Type ℓ} where
  -- The loop. `fuel` bounds the calls; `none` is a loop that has not ended.
  unfoldable pub transfer : (ℕ → ℕ → W → ℤ × W) → ℕ → ℕ → ℕ → ℕ → W → Option (ℤ × W)
  transfer step fuel length offset zero w = some (to_int length, w)
  transfer step zero length offset (suc left) w = none
  transfer step (suc fuel) length offset (suc left) w =
      let answer = step offset (suc left) w in
      elim answer.0 [
        | pos zero ↦ some answer
        | pos (suc n) ↦ transfer step fuel length (offset + suc n) (left - n) answer.1
        | negsuc n ↦ some answer
      ]

  -- `readFixSize` and `writeFixSize` of a buffer.
  unfoldable pub read_fix_size : (ℕ → ℕ → W → ℤ × W) → ℕ → W → Option (ℤ × W)
  read_fix_size read length w = transfer read (start_left length) length 0 (start_left length) w

  unfoldable pub write_fix_size : (ℕ → ℕ → W → ℤ × W) → ℕ → W → Option (ℤ × W)
  write_fix_size write length w = transfer write (start_left length) length 0 (start_left length) w

  -- Of a `ByteArray`, which keeps its place itself.
  unfoldable pub read_fix_size_ba : (ℕ → W → ℤ × W) → ℕ → W → Option (ℤ × W)
  read_fix_size_ba read length w =
      transfer (λ offset left w. read left w) (start_left length) length 0 (start_left length) w

  unfoldable pub write_fix_size_ba : (ℕ → W → ℤ × W) → ℕ → W → Option (ℤ × W)
  write_fix_size_ba write length w =
      transfer (λ offset left w. write left w) (start_left length) length 0 (start_left length) w
