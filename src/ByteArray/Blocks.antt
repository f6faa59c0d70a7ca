-- ===== src/ByteArray/Blocks.antt =====
-- The copying loops of sylar/bytearray.cc on a chain of blocks of one size, against the bytes that
-- the chain holds from end to end.
use ynwad.Base.{
  ℕ, suc, ◌+◌, ◌-◌, ◌*◌, ◌/◌, ◌≤◌, ◌<◌, ◌≡◌, refl, sym, ap, ◌∙◌, false, List, [], ◌∷◌, ◌++◌, inl,
  inr, append_assoc, length, take, drop, splice, arith, ltb, leb, ◌==◌, Bool-cases, All,
  length-append, length-take, length-drop, take-append_left, drop-append_left, take_all, leb→le,
  splice-append_left, splice-append_across, length-splice, leb→gt, ltb-false, ltb→lt, ltb→ge,
  if◌then◌else◌, take-append_right,
}
use ynwad.ByteArray.{copied, write_nodes, read_nodes, seek}
use mathlib.Core.List.{flatten}
use native.Mathlib.Nat.{div-eq_of_lt, div_self, add-div_left}

-- Every block has the size `k`.
abbrev pub IsUniform : ℕ → List (List ℕ) → Type 0
IsUniform k = All (λ n. length n ≡ k)

module _ (k : ℕ) where
  pub length-flatten : (ns : List (List ℕ)) → IsUniform k ns → length (flatten ns) ≡ length ns * k
  unfolding flatten
  length-flatten [] u = omega arith
  length-flatten (n ∷ ns) u = omega (arith, length-append n (flatten ns), length-flatten ns u.1)

pub flatten-append : (ms ns : List (List ℕ)) → flatten (ms ++ ns) ≡ flatten ms ++ flatten ns
unfolding flatten
flatten-append [] ns = refl
flatten-append (m ∷ ms) ns = rw (flatten-append ms ns, append_assoc)

div_step : (k a : ℕ) → 0 < k → (k + a) / k ≡ suc (a / k)
div_step k a h = rw (add-div_left a h) (omega arith)

last_step : (k a : ℕ) → 0 < k → a ≤ k → (if k == a then 1 else 0) ≡ a / k
last_step k a h le = ground (arith, div_self h, div-eq_of_lt {n = a} {m = k})

across_step :
    (k m npos : ℕ) (buf : List ℕ)
    → m ≡ k
    → 0 < k
    → npos < k
    → m - npos < length buf
    → suc ((0 + length (drop (m - npos) buf)) / k) ≡ (npos + length buf) / k
across_step k m npos buf e hk hn h =
    sym (div_step k (0 + length (drop (m - npos) buf)) hk)
    ∙ ap (λ t. t / k) (omega (arith, length-drop (m - npos) buf))

-- The loop of `write` on blocks with room for `buf` behind `npos`: it overwrites the bytes from
-- `npos` on, leaves the shape of the chain, and stops at the block of the byte behind the last.
pub write_nodes-splice :
    (k : ℕ) (ns : List (List ℕ)) (npos : ℕ) (buf : List ℕ)
    → 0 < k
    → IsUniform k ns
    → npos < k
    → 0 < length buf
    → npos + length buf ≤ length ns * k
    → (ns' : List (List ℕ)) × (write_nodes ns npos buf ≡ copied ns' ((npos + length buf) / k))
      × IsUniform k ns'
      × (length ns' ≡ length ns)
      × (flatten ns' ≡ splice (flatten ns) npos buf)
unfolding write_nodes flatten
write_nodes-splice k [] npos buf hk u hn hb room = absurd (omega arith)
write_nodes-splice k (n ∷ ns) npos buf hk u hn hb room =
    elim (Bool-cases (leb (length buf) (length n - npos))) [
      | inl fits ↦
          let le : npos + length buf ≤ k = omega (arith, leb→le _ _ fits) in
          (
            splice n npos buf ∷ ns,
            rw (fits, u.0, last_step k (npos + length buf) hk le),
            (omega (arith, length-splice n npos buf (omega arith)), u.1),
            refl,
            splice-append_left n (flatten ns) npos buf (omega arith),
          )
      | inr more ↦
          let c = length n - npos in
          let gt : c < length buf = leb→gt _ _ more in
          let (ns', e, u', l, f) =
            write_nodes-splice k ns 0 (drop c buf) hk u.1 hk (omega (arith, length-drop c buf))
              (omega (arith, length-drop c buf)) in
          (
            splice n npos (take c buf) ∷ ns',
            rw (more, e, across_step k (length n) npos buf u.0 hk hn gt),
            (
              omega (arith, length-splice n npos (take c buf) (omega (arith, length-take c buf))),
              u',
            ),
            ap suc l,
            rw f (splice-append_across n (flatten ns) npos c buf (omega arith) (omega arith)),
          )
    ]

pub take-drop_within :
    (i c : ℕ) (xs ys : List ℕ) → i + c ≤ length xs → take c (drop i xs) ≡ take c (drop i (xs ++ ys))
take-drop_within i c xs ys h =
    rw (drop-append_left i xs ys (omega arith))
      (sym (take-append_left c (drop i xs) ys (omega (arith, length-drop i xs))))

pub take-drop_across :
    (i size : ℕ) (xs ys : List ℕ)
    → i ≤ length xs
    → length xs - i ≤ size
    → take (length xs - i) (drop i xs) ++ take (size - (length xs - i)) (drop 0 ys)
      ≡ take size (drop i (xs ++ ys))
take-drop_across i size xs ys h hs = rw (
  drop-append_left i xs ys h,
  take-append_right size (drop i xs) ys (omega (arith, length-drop i xs)),
  length-drop i xs,
  take_all (length xs - i) (drop i xs) (omega (arith, length-drop i xs)),
)

step_behind : (k m a b i : ℕ) → m ≡ k → 0 < k → m + a ≡ b → suc i + a / k ≡ i + b / k
step_behind k m a b i e hk h =
    omega (arith, div_step k a hk, ap (λ (t : ℕ). t / k) (let e' : k + a ≡ b = omega arith in e'))

-- The loop of `read` for at least one byte that the chain holds.
pub read_nodes-bytes :
    (k : ℕ) (ns : List (List ℕ)) (npos size : ℕ)
    → 0 < k
    → IsUniform k ns
    → npos < k
    → 0 < size
    → npos + size ≤ length ns * k
    → read_nodes ns npos size ≡ copied (take size (drop npos (flatten ns))) ((npos + size) / k)
unfolding read_nodes flatten
read_nodes-bytes k [] npos size hk u hn hs room = absurd (omega arith)
read_nodes-bytes k (n ∷ ns) npos size hk u hn hs room =
    elim (Bool-cases (leb size (length n - npos))) [
      | inl fits ↦
          let le : npos + size ≤ k = omega (arith, leb→le _ _ fits) in
          rw (size-ne-zero, fits, u.0, last_step k (npos + size) hk le)
            (ap (λ t. copied t ((npos + size) / k))
              (take-drop_within npos size n (flatten ns) (omega arith)))
      | inr more ↦
          let gt : length n - npos < size = leb→gt _ _ more in
          let ih =
            read_nodes-bytes k ns 0 (size - (length n - npos)) hk u.1 hk (omega arith)
              (omega arith) in
          ground (
            arith,
            more,
            ih,
            step_behind k (length n) (0 + (size - (length n - npos))) (npos + size) 0,
            take-drop_across npos size n (flatten ns),
          )
    ]
  where
    size-ne-zero : (size == 0) ≡ false
    size-ne-zero = ground arith

-- The walk of `setPosition` stops at the block of the byte behind the position.
pub seek-div :
    (k : ℕ) (ns : List (List ℕ)) (v i : ℕ)
    → 0 < k
    → IsUniform k ns
    → 0 < length ns
    → v ≤ length ns * k
    → seek ns v i ≡ copied tt (i + v / k)
unfolding seek
seek-div k [] v i hk u h room = absurd (omega arith)
seek-div k (n ∷ []) v i hk u h room =
    rw (ltb-false _ _ fits) (ground (arith, div_self hk, div-eq_of_lt {n = v} {m = k}))
  where
    fits : v ≤ length n
    fits = omega arith
seek-div k (n ∷ m ∷ ns) v i hk u h room = elim (Bool-cases (ltb (length n) v)) [
  | inl more ↦
      let ih =
        seek-div k (m ∷ ns) (v - length n) (suc i) hk u.1 (omega arith)
          (omega (arith, ltb→lt _ _ more)) in
      let lt : length n < v = ltb→lt _ _ more in
      rw (more, ih)
        (ap (copied tt) (step_behind k (length n) (v - length n) v i u.0 hk (omega arith)))
  | inr fits ↦
      let le : v ≤ length n = ltb→ge _ _ fits in
      rw fits (ground (arith, div_self hk, div-eq_of_lt {n = v} {m = k}))
]
