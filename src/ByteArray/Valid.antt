-- ===== src/ByteArray/Valid.antt =====
-- The well-formedness of a buffer, and what growing the chain of blocks does to it.
use ynwad.Base.{
  ℕ, zero, suc, ◌+◌, ◌-◌, ◌*◌, ◌/◌, ◌≤◌, ◌<◌, ◌≡◌, refl, sym, ap, ◌∙◌, false, List, ◌++◌, inl, inr,
  length, take, arith, leb, ◌==◌, Bool-cases, length-append, All-append, All-take, length-take,
  take-append_left, if◌then◌else◌, ◌||◌,
}
use ynwad.ByteArray.{ByteArray, done, new_node, new_nodes, init, clear, add_capacity, capacity_left}
use ynwad.ByteArray.Blocks.{IsUniform, length-flatten, flatten-append}
use mathlib.Core.List.{flatten}
use native.Mathlib.Nat.{zero-div, mul-div_cancel, lt-div-mul-add}

-- There is a block at least, all blocks have the base size, the counters are ordered, and `m_cur` is
-- the block of the position: the null pointer exactly when the position is at the capacity.
pub record IsValid (b : ByteArray) : Type 0 where
  pub base_pos : 0 < b.base_size
  pub uniform : IsUniform b.base_size b.nodes
  pub some_node : 0 < length b.nodes
  pub capacity_eq : b.capacity ≡ length b.nodes * b.base_size
  pub size_le : b.size ≤ b.capacity
  pub position_le : b.position ≤ b.size
  pub cur_eq : b.cur ≡ b.position / b.base_size

-- The bytes that have been written: the first `m_size` of the chain.
abbrev pub contents : ByteArray → List ℕ
contents b = take b.size (flatten b.nodes)

length-new_node : (fresh : ℕ → ℕ) (i s : ℕ) → length (new_node fresh i s) ≡ s
unfolding new_node
length-new_node fresh i zero = refl
length-new_node fresh i (suc s) = ap suc (length-new_node fresh (suc i) s)

pub init-IsValid : (fresh : ℕ → ℕ) (base_size : ℕ) → 0 < base_size → IsValid (init fresh base_size)
unfolding init
init-IsValid fresh base_size h = record {
  base_pos = h;
  uniform = (length-new_node fresh 0 base_size, tt);
  some_node = omega arith;
  capacity_eq = omega arith;
  size_le = omega arith;
  position_le = omega arith;
  cur_eq = sym (zero-div base_size);
}

pub clear-IsValid : (b : ByteArray) → IsValid b → IsValid (clear b)
unfolding clear
clear-IsValid b v = record {
  base_pos = v.base_pos;
  uniform = All-take _ 1 b.nodes v.uniform;
  some_node = omega (arith, length-take 1 b.nodes);
  capacity_eq = omega (arith, ap (λ (t : ℕ). t * b.base_size) one_node);
  size_le = omega arith;
  position_le = omega arith;
  cur_eq = sym (zero-div b.base_size);
}
  where
    one_node : length (take 1 b.nodes) ≡ 1
    one_node = omega (arith, length-take 1 b.nodes)

new_nodes-IsUniform : (fresh : ℕ → ℕ) (k i count : ℕ) → IsUniform k (new_nodes fresh k i count)
unfolding new_nodes
new_nodes-IsUniform fresh k i zero = tt
new_nodes-IsUniform fresh k i (suc count) =
    (length-new_node fresh i k, new_nodes-IsUniform fresh k (i + k) count)

length-new_nodes : (fresh : ℕ → ℕ) (k i count : ℕ) → length (new_nodes fresh k i count) ≡ count
unfolding new_nodes
length-new_nodes fresh k i zero = refl
length-new_nodes fresh k i (suc count) = ap suc (length-new_nodes fresh k (i + k) count)

-- `b'` is `b` with more blocks: room for `size` bytes behind the position, and no other change.
pub record Grows (size : ℕ) (b b' : ByteArray) : Type 0 where
  pub valid : IsValid b'
  pub room : b.position + size ≤ b'.capacity
  pub same_contents : contents b' ≡ contents b
  pub same_position : b'.position ≡ b.position
  pub same_size : b'.size ≡ b.size
  pub same_base : b'.base_size ≡ b.base_size
  pub same_endian : b'.endian ≡ b.endian

ceil_enough : (need k : ℕ) → 0 < k → need ≤ (need + k - 1) / k * k
ceil_enough need k h = omega (arith, lt-div-mul-add {a = need + k - 1} h)

-- The buffer with `count` blocks more.
abbrev extended : ByteArray → ℕ → ByteArray
extended b count = record b {
  nodes = b.nodes ++ new_nodes b.fresh b.base_size b.capacity count;
  capacity = b.capacity + count * b.base_size;
  cur = if capacity_left b == 0 then length b.nodes else b.cur;
}

extended_cur :
    (b : ByteArray)
    → IsValid b
    → (if capacity_left b == 0 then length b.nodes else b.cur) ≡ b.position / b.base_size
extended_cur b v = elim (Bool-cases (capacity_left b == 0)) [
  | inl full ↦
      let at_end : b.position ≡ length b.nodes * b.base_size = ground arith in
      rw (full, at_end) (sym (mul-div_cancel (length b.nodes) v.base_pos))
  | inr free ↦ rw free v.cur_eq
]

extended-Grows :
    (b : ByteArray) (size count : ℕ)
    → IsValid b
    → size ≤ capacity_left b + count * b.base_size
    → Grows size b (extended b count)
extended-Grows b size count v enough = record {
  valid = record {
    base_pos = v.base_pos;
    uniform = All-append _ b.nodes _ v.uniform (new_nodes-IsUniform _ _ _ count);
    some_node = omega (arith, length_all);
    capacity_eq = omega (arith, length_all, ap (λ (t : ℕ). t * b.base_size) length_all);
    size_le = omega arith;
    position_le = v.position_le;
    cur_eq = extended_cur b v;
  };
  room = omega arith;
  same_contents = rw (flatten-append b.nodes _) (take-append_left b.size (flatten b.nodes) _ fits);
  same_position = refl;
  same_size = refl;
  same_base = refl;
  same_endian = refl;
}
  where
    fits : b.size ≤ length (flatten b.nodes)
    fits = omega (arith, length-flatten b.base_size b.nodes v.uniform)

    length_all : length (extended b count).nodes ≡ length b.nodes + count
    length_all =
        length-append b.nodes _ ∙ ap (λ t. length b.nodes + t) (length-new_nodes _ _ _ count)

-- Enough blocks are added for `size` more bytes; what the buffer holds and its position stay.
pub add_capacity_lem :
    (size : ℕ) (b : ByteArray)
    → IsValid b
    → (b' : ByteArray) × (add_capacity size b ≡ done tt b') × Grows size b b'
unfolding add_capacity
add_capacity_lem size b v = elim (Bool-cases (size == 0 || leb size (capacity_left b))) [
  | inl enough ↦ (b, rw enough, same (ground arith))
  | inr more ↦
      let count = (size - capacity_left b + b.base_size - 1) / b.base_size in
      let base : (b.base_size == 0) ≡ false = ground arith in
      (
        extended b count,
        rw (more, base),
        extended-Grows b size count v
            (omega (arith, ceil_enough (size - capacity_left b) b.base_size)),
      )
]
  where
    same : size ≤ capacity_left b → Grows size b b
    same h = record {
      valid = v;
      room = omega arith;
      same_contents = refl;
      same_position = refl;
      same_size = refl;
      same_base = refl;
      same_endian = refl;
    }
