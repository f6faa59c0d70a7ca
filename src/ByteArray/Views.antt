-- ===== src/ByteArray/Views.antt =====
-- Reading without moving: the scatter lists, `toString`, and the `read` at a place.
use ynwad.Base.{
  ℕ, ◌+◌, ◌-◌, ◌*◌, ◌/◌, ◌%◌, ◌^◌, ◌≤◌, ◌<◌, ◌≡◌, refl, sym, ap, ◌∙◌, false, List, [], inl, inr,
  length, take, drop, arith, ltb, ◌==◌, Bool-cases, All-drop, length-drop, drop-drop, min,
  ltb-false, if◌then◌else◌, take_all, drop_all,
}
use ynwad.ByteArray.{ByteArray, done, read_size, read_at, to_string}
use ynwad.ByteArray.Blocks.{read_nodes-bytes}
use ynwad.ByteArray.Valid.{IsValid, contents}
use ynwad.ByteArray.Flat.{
  flatten-drop, room_behind, position_parts, cur-le-length, length-contents, take-drop-take,
}
use ynwad.ByteArray.Iovec.{Iovec, get_read_buffers, get_read_buffers_at, gather, place-gather}
use mathlib.Core.List.{flatten}
use native.Mathlib.Nat.{mod-lt, div-add-mod', div-le_of_le-mul, mul_comm}

clamp_min : (n m : ℕ) → (if ltb m n then m else n) ≡ min n m
clamp_min n m = ground arith

base_test : (b : ByteArray) → IsValid b → (b.base_size == 0) ≡ false
base_test b v = ground arith

-- `getReadBuffers` leaves the buffer alone and names, in order, exactly the bytes behind the position,
-- as many as asked for or as there are; it returns how many.
pub get_read_buffers-gather :
    (len : ℕ) (b : ByteArray)
    → IsValid b
    → (vs : List Iovec) × (get_read_buffers len b ≡ done (min len (read_size b), vs) b)
      × (gather b.nodes vs ≡ take (min len (read_size b)) (drop b.position (contents b)))
unfolding get_read_buffers gather
get_read_buffers-gather len b v = elim (Bool-cases (min len (read_size b) == 0)) [
  | inl none ↦
      let z : min len (read_size b) ≡ 0 = ground arith in
      ([], rw (clamp_min len (read_size b), none, z), rw z)
  | inr some ↦
      let n = min len (read_size b) in
      let pos : 0 < n = ground arith in
      let fits : b.position + n ≤ b.size = omega (arith, v.position_le) in
      let (vs, steps, e, g) =
        place-gather b b.cur (b.position % b.base_size) b.position n v (cur-le-length b v)
          (position_parts b v) (mod-lt b.position v.base_pos) pos (omega (arith, v.size_le)) in
      (
        vs,
        rw (clamp_min len (read_size b), some, base_test b v, e),
        g ∙ sym (take-drop-take n b.position b.size (flatten b.nodes) fits),
      )
]

-- With a place of its own, `getReadBuffers` names the bytes from that place on, if they are there.
pub get_read_buffers_at-gather :
    (len position : ℕ) (b : ByteArray)
    → IsValid b
    → 0 < min len (read_size b)
    → position + min len (read_size b) ≤ b.size
    → (vs : List Iovec) × (get_read_buffers_at len position b ≡ done (min len (read_size b), vs) b)
      × (gather b.nodes vs ≡ take (min len (read_size b)) (drop position (contents b)))
unfolding get_read_buffers_at
get_read_buffers_at-gather len position b v pos fits =
    let n = min len (read_size b) in
    let some : (n == 0) ≡ false = ground arith in
    let (vs, steps, e, g) =
      place-gather b (position / b.base_size) (position % b.base_size) position n v
        (div-le_of_le-mul b.base_size
          (omega (arith, v.size_le, v.capacity_eq, mul_comm (length b.nodes) b.base_size)))
        (div-add-mod' position b.base_size) (mod-lt position v.base_pos) pos
        (omega (arith, v.size_le)) in
    (
      vs,
      rw (clamp_min len (read_size b), some, base_test b v, e),
      g ∙ sym (take-drop-take n position b.size (flatten b.nodes) fits),
    )

-- What the `read` at a place gives: the bytes from the current block on, at the place's offset in its
-- own block. They are the bytes at that place only if it lies in the current block.
pub read_at-flatten :
    (size position : ℕ) (b : ByteArray)
    → IsValid b
    → 0 < size
    → position + size ≤ b.size
    → b.size < 2 ^ 64
    → b.cur * b.base_size + position % b.base_size + size ≤ b.capacity
    → read_at size position b
      ≡ done (take size (drop (b.cur * b.base_size + position % b.base_size) (flatten b.nodes))) b
unfolding read_at
read_at-flatten size position b v pos fits word room = rw (
  ltb-false ((b.size + 2 ^ 64 - position) % 2 ^ 64) size (omega arith),
  base_test b v,
  read_nodes-bytes b.base_size (drop b.cur b.nodes) r size v.base_pos
      (All-drop _ b.cur b.nodes v.uniform) (mod-lt position v.base_pos) pos behind,
  flatten-drop b.base_size b.cur b.nodes v.uniform,
  drop-drop r (b.cur * b.base_size) (flatten b.nodes),
)
  where
    r : ℕ
    r = position % b.base_size

    behind : r + size ≤ length (drop b.cur b.nodes) * b.base_size
    behind = rw (length-drop b.cur b.nodes) (
        room_behind b.base_size (length b.nodes) b.cur r (b.cur * b.base_size + r) size refl
          (omega (arith, room, v.capacity_eq)) pos)

-- `toString` gives all bytes behind the position, and leaves the buffer alone.
pub to_string-contents :
    (b : ByteArray)
    → IsValid b
    → b.size < 2 ^ 64
    → to_string b ≡ done (drop b.position (contents b)) b
unfolding to_string
to_string-contents b v word = elim (Bool-cases (read_size b == 0)) [
  | inl none ↦
      let end : b.size ≤ b.position = ground arith in
      rw (none, drop_all b.position (contents b) (omega (arith, length-contents b v, end)))
  | inr some ↦
      let pos : 0 < read_size b = ground arith in
      rw some (
        read_at-flatten (read_size b) b.position b v pos (omega (arith, v.position_le)) word
          (omega (arith, position_parts b v, v.size_le, v.position_le))
        ∙ ap (λ t. done t b) (all_left pos))
]
  where
    all_left :
        0 < read_size b
        → take
            (read_size b)
            (drop (b.cur * b.base_size + b.position % b.base_size) (flatten b.nodes))
          ≡ drop b.position (contents b)
    all_left pos =
        ap (λ t. take (read_size b) (drop t (flatten b.nodes))) (position_parts b v)
        ∙ sym (
            take-drop-take (read_size b) b.position b.size (flatten b.nodes)
              (omega (arith, v.position_le)))
        ∙ take_all (read_size b) (drop b.position (contents b))
            (omega (arith, length-drop b.position (contents b), length-contents b v))
