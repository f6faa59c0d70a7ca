-- ===== src/ByteArray/Bind.antt =====
-- A chain of operations on a buffer, one step at a time.
use ynwad.Base.{◌≡◌}
use ynwad.ByteArray.{ByteArray, M, done, throws, ◌>>=◌}

module _ {ℓ κ} {A : Type ℓ} {B : Type κ} (m : M A) (f : A → M B) {b b' : ByteArray} where
  -- What follows a step that is done runs on the object as the step left it.
  pub bind_done : {a : A} → m b ≡ done a b' → (m >>= f) b ≡ f a b'
  bind_done e = rw (e, ◌>>=◌)

  pub bind_throws : m b ≡ throws b' → (m >>= f) b ≡ throws b'
  bind_throws e = rw (e, ◌>>=◌)
