-- ===== src/ByteArray/Flat.antt =====
-- Where the position of a valid buffer stands among its blocks and among the bytes it holds.
use ynwad.Base.{
  take, take-take, drop-take, ℕ, zero, suc, ◌+◌, ◌-◌, ◌*◌, ◌/◌, ◌%◌, ◌≤◌, ◌<◌, ◌≡◌, sym, ap, ◌∙◌,
  List, [], ◌∷◌, inl, inr, length, drop, arith, leb, Bool-cases, length-take, drop-append_right,
  drop-nil, leb→le, leb→gt,
}
use ynwad.ByteArray.{ByteArray}
use ynwad.ByteArray.Blocks.{IsUniform, length-flatten}
use ynwad.ByteArray.Valid.{IsValid, contents}
use mathlib.Core.List.{flatten}
use native.Mathlib.Nat.{mul-add-div_right, div-add-mod', zero-mul, div-le_of_le-mul, mul_comm}

module _ (k : ℕ) where
  pub flatten-drop :
      (c : ℕ) (ns : List (List ℕ))
      → IsUniform k ns
      → flatten (drop c ns) ≡ drop (c * k) (flatten ns)
  unfolding flatten
  flatten-drop zero ns u = rw zero-mul
  flatten-drop (suc c) [] u = sym (drop-nil (suc c * k))
  flatten-drop (suc c) (n ∷ ns) u =
      flatten-drop c ns u.1
      ∙ sym (
          drop-append_right (suc c * k) n (flatten ns) (omega arith)
          ∙ ap (λ t. drop t (flatten ns)) (omega arith))

-- The blocks behind the current one have room for what the whole chain has room for.
pub room_behind :
    (k n c r p len : ℕ) → c * k + r ≡ p → p + len ≤ n * k → 0 < len → r + len ≤ (n - c) * k
room_behind k n c r p len e h hl = elim (Bool-cases (leb c n)) [
  | inl le ↦
      let d = n - c in
      let parts : n ≡ c + d = omega (arith, leb→le _ _ le) in
      omega (arith, ap (λ (t : ℕ). t * k) parts)
  | inr gt ↦
      let lt : n < c = leb→gt _ _ gt in
      let big : n * k ≤ c * k = grind arith in absurd (omega arith)
]

pub length-contents : (b : ByteArray) → IsValid b → length (contents b) ≡ b.size
length-contents b v =
    omega
      (arith, length-take b.size (flatten b.nodes), length-flatten b.base_size b.nodes v.uniform)

-- What `m_position % m_baseSize` and `m_cur` make up.
pub position_parts :
    (b : ByteArray) → IsValid b → b.cur * b.base_size + b.position % b.base_size ≡ b.position
position_parts b v = rw v.cur_eq (div-add-mod' b.position b.base_size)

pub cur_moves :
    (b : ByteArray) (n : ℕ)
    → IsValid b
    → b.cur + (b.position % b.base_size + n) / b.base_size ≡ (b.position + n) / b.base_size
cur_moves b n v =
    sym (mul-add-div_right v.base_pos b.cur (b.position % b.base_size + n))
    ∙ ap (λ t. t / b.base_size) (omega (arith, position_parts b v))

pub cur-le-length : (b : ByteArray) → IsValid b → b.cur ≤ length b.nodes
cur-le-length b v =
    rw v.cur_eq
      (div-le_of_le-mul b.base_size (omega (arith, mul_comm (length b.nodes) b.base_size)))

pub take-drop-take :
    (n p s : ℕ) (xs : List ℕ) → p + n ≤ s → take n (drop p (take s xs)) ≡ take n (drop p xs)
take-drop-take n p s xs h = rw (drop-take p s xs) (take-take n (s - p) (drop p xs) (omega arith))
