-- ===== src/Stream/Tests.antt =====
-- A stream that gives two bytes at a time, and the theorem about the loops of stream.cc on it.
use ynwad.Base.{ℕ, ◌-◌, ◌≡◌, refl, ap, min, some, arith}
use ynwad.Stream.{ℤ, pos, negsuc, transfer, read_fix_size, write_fix_size}
use ynwad.Stream.Complete.{Ending, IsBounded, read_fix_size_ends}

-- The state is what the stream still has.
abbrev two_bytes : ℕ → ℕ → ℕ → ℤ × ℕ
two_bytes offset left w = (pos (min (min 2 left) w), w - min 2 left)

two_bytes-IsBounded : IsBounded two_bytes
two_bytes-IsBounded offset left n w w' e =
    omega (arith, ap {B = ℕ} (λ r. elim r.0 [ pos k ↦ k | negsuc k ↦ 0 ]) e)

read_five : read_fix_size two_bytes 5 9 ≡ some (pos 5, 4)
unfolding read_fix_size transfer
read_five = refl

read_fix_size_ends_example :
    (r : ℤ × ℕ) × (read_fix_size two_bytes 5 3 ≡ some r)
    × (write_fix_size two_bytes 5 3 ≡ some r)
    × Ending two_bytes 5 0 5 3 r
read_fix_size_ends_example = read_fix_size_ends two_bytes 5 3 two_bytes-IsBounded (omega arith)
