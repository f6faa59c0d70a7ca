-- ===== src/Base/Splice.antt =====
-- Overwriting part of a list.
use ynwad.Base.Lists.{
  length, take, drop, splice, length-append, length-take, length-drop, take-append-drop,
  take-append_left, take-append_right, drop-append_left, drop-append_right, drop_all, take-take,
  drop-take,
}
use ynwad.Base.Tests.{ltb, if◌then◌else◌}
use Prim.Native.Nat.{ℕ, ◌+◌, ◌-◌, ◌≤◌}
use mathlib.Core.Path.{◌≡◌, refl, sym, ap, ◌≡⟨◌⟩◌, ◌∎}
use mathlib.Core.List.{List, [], ◌∷◌, ◌++◌, append-nil, append_assoc}
use native.Mathlib.Nat.{zero-add, suc-add}
use native.Mathlib.Omega.{arith}

module _ {ℓ} {A : Type ℓ} where
  -- Overwriting within the first part of a list, and across its end.
  pub splice-append_left :
      (xs ys : List A) (i : ℕ) (buf : List A)
      → i + length buf ≤ length xs
      → splice xs i buf ++ ys ≡ splice (xs ++ ys) i buf
  splice-append_left xs ys i buf h = rw (
    take-append_left i xs ys (omega arith),
    drop-append_left (i + length buf) xs ys h,
    append_assoc,
    append_assoc,
  )

  pub splice-append_across :
      (xs ys : List A) (i c : ℕ) (buf : List A)
      → i + c ≡ length xs
      → c ≤ length buf
      → splice xs i (take c buf) ++ splice ys 0 (drop c buf) ≡ splice (xs ++ ys) i buf
  splice-append_across xs ys i c buf h hc =
      splice xs i (take c buf) ++ splice ys 0 (drop c buf)
      ≡⟨ rw (drop_all (i + length (take c buf)) xs full, append-nil, append_assoc) refl ⟩
        take i xs ++ (take c buf ++ (drop c buf ++ drop (0 + length (drop c buf)) ys))
      ≡⟨ ap (λ t. take i xs ++ t) (sym (append_assoc (take c buf) (drop c buf) _)) ⟩
        take i xs ++ ((take c buf ++ drop c buf) ++ drop (0 + length (drop c buf)) ys)
      ≡⟨ (rw (take-append-drop c buf, front, back, rest)) ⟩ splice (xs ++ ys) i buf ∎
    where
      full : length xs ≤ i + length (take c buf)
      full = omega (arith, length-take c buf)

      front : take i (xs ++ ys) ≡ take i xs
      front = take-append_left i xs ys (omega arith)

      back : drop (i + length buf) (xs ++ ys) ≡ drop (i + length buf - length xs) ys
      back = drop-append_right (i + length buf) xs ys (omega arith)

      rest : i + length buf - length xs ≡ 0 + length (drop c buf)
      rest = omega (arith, length-drop c buf)

  pub length-splice :
      (xs : List A) (i : ℕ) (buf : List A)
      → i + length buf ≤ length xs
      → length (splice xs i buf) ≡ length xs
  length-splice xs i buf h = omega (
    arith,
    length-append (take i xs) (buf ++ drop (i + length buf) xs),
    length-append buf (drop (i + length buf) xs),
    length-take i xs,
    length-drop (i + length buf) xs,
  )

  pub splice-append_right :
      (xs ys : List A) (i : ℕ) (buf : List A)
      → xs ++ splice ys i buf ≡ splice (xs ++ ys) (length xs + i) buf
  splice-append_right [] ys i buf = rw zero-add
  splice-append_right (x ∷ xs) ys i buf =
      rw (suc-add (length xs) i, suc-add (length xs + i) (length buf))
        (ap (◌∷◌ x) (splice-append_right xs ys i buf))

  pub take-splice :
      (xs : List A) (i s s' : ℕ) (buf : List A)
      → i ≤ s
      → s ≤ length xs
      → s' ≡ (if ltb s (i + length buf) then i + length buf else s)
      → take s' (splice xs i buf) ≡ splice (take s xs) i buf
  take-splice xs i s s' buf hi hs e =
      take s' (splice xs i buf)
      ≡⟨ take-append_right s' (take i xs) _ (omega (arith, front, long)) ⟩
        take i xs ++ take (s' - length (take i xs)) (buf ++ tail)
      ≡⟨ ap (λ t. take i xs ++ t) (take-append_right _ buf tail (omega (arith, front, long))) ⟩
        take i xs ++ (buf ++ take (s' - length (take i xs) - length buf) tail)
      ≡⟨ (rw (take-take i s xs hi, drop-take (i + length buf) s xs, count)) ⟩
        splice (take s xs) i buf ∎
    where
      tail : List A
      tail = drop (i + length buf) xs

      front : length (take i xs) ≡ i
      front = omega (arith, length-take i xs)

      long : i + length buf ≤ s'
      long = ground arith

      count : s' - length (take i xs) - length buf ≡ s - (i + length buf)
      count = ground (arith, front)
