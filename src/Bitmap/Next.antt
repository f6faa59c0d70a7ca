-- ===== src/Bitmap/Next.antt =====
-- The iterator of sylar/ds/bitmap.cc goes to the next bit that is set.
use ynwad.Base.{
  ℕ, ◌+◌, ◌-◌, ◌≤◌, ◌<◌, ◌≡◌, refl, ap, ◌∙◌, Bool, Option, none, some, ltb, if◌then◌else◌, arith,
}
use ynwad.Bitmap.{Bitmap, done, ◌>>=◌, get}
use ynwad.Bitmap.Valid.{IsPlain}
use ynwad.Bitmap.Visit.{positions}
use ynwad.Bitmap.Cursor.{Iterator, next, begin, is_at}
use ynwad.Bitmap.Seek.{first, seek-next}

-- The position at which an iterator stands.
abbrev pub stands : Iterator → Option ℕ
stands it = if is_at it then some (it.after_pos - 1) else none

stands_at :
    (q : ℕ) (b : Bitmap)
    → stands (record { after_pos = q + 1; map = b }) ≡ (if ltb q b.size then some q else none)
unfolding is_at
stands_at q b = ground arith

module _ (test : ℕ → Bool) (b : Bitmap) (ok : IsPlain b)
    (bits : (i : ℕ) → i < b.size → get i b ≡ done (test i)) where
  next_stands :
      (p : ℕ)
      → p ≤ b.size
      → (it : Iterator) × (next (record { after_pos = p; map = b }) ≡ done it)
        × (stands it ≡ first (positions test p (b.size - p)))
        × (it.map ≡ b)
  unfolding next
  next_stands p h =
      let (q, e, at) = seek-next test b p ok bits h in
      (
        record { after_pos = q + 1; map = b },
        ap (λ m. m >>= (λ (n : ℕ). done (record { after_pos = n + 1; map = b }))) e,
        stands_at q b ∙ at,
        refl,
      )

  -- On a plain bitmap whose bits `get` finds, a new iterator stands at the first bit that is set; and `next`
  -- of an iterator at or before the end, of which the positions below `p` are behind it, takes it to the
  -- first bit from `p` on that is set, of the same map. When there is none, the iterator stands nowhere.
  pub next-first :
      (p : ℕ)
      → p ≤ b.size
      → ((it : Iterator) × (begin b ≡ done it) × (stands it ≡ first (positions test 0 b.size)))
        × ((it : Iterator) × (next (record { after_pos = p; map = b }) ≡ done it)
            × (stands it ≡ first (positions test p (b.size - p)))
            × (it.map ≡ b))
  unfolding begin
  next-first p h =
      let (it, e, at, _) = next_stands 0 (omega arith) in
      ((it, e, at ∙ ap (λ n. first (positions test 0 n)) whole), next_stands p h)
    where
      whole : b.size - 0 ≡ b.size
      whole = omega arith
