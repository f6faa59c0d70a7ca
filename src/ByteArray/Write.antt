-- ===== src/ByteArray/Write.antt =====
-- `write` on the bytes that a buffer holds: the chain of blocks is out of sight.
use ynwad.Base.{
  ℕ, ◌+◌, ◌*◌, ◌/◌, ◌%◌, ◌≤◌, ◌<◌, ◌≡◌, refl, sym, ap, ◌∙◌, ◌≡⟨◌⟩◌, ◌∎, false, List, [], ◌∷◌, ◌++◌,
  length, take, drop, splice, arith, ltb, ◌==◌, All-append, All-take, All-drop, length-append,
  length-take, length-drop, take-append-drop, splice-append_right, take-splice, if◌then◌else◌,
}
use ynwad.ByteArray.{ByteArray, done, add_capacity, store, write, ◌>>=◌, node_offset}
use ynwad.ByteArray.Bind.{bind_done}
use ynwad.ByteArray.Blocks.{IsUniform, flatten-append, length-flatten, write_nodes-splice}
use ynwad.ByteArray.Valid.{IsValid, contents, add_capacity_lem}
use ynwad.ByteArray.Flat.{room_behind, position_parts, cur_moves, cur-le-length}
use mathlib.Core.List.{flatten}
use mathlib.Core.Path.{ap₂}
use native.Mathlib.Nat.{mod-lt, add-zero}

-- `b'` is `b` with `buf` written over the bytes from the position on, and behind them.
pub record Wrote (buf : List ℕ) (b b' : ByteArray) : Type 0 where
  pub valid : IsValid b'
  pub overwritten : contents b' ≡ splice (contents b) b.position buf
  pub moved : b'.position ≡ b.position + length buf
  pub same_base : b'.base_size ≡ b.base_size
  pub same_endian : b'.endian ≡ b.endian

-- The buffer behind `store`, with `ns` for the blocks from the current one on.
abbrev stored : ByteArray → List ℕ → List (List ℕ) → ByteArray
stored b buf ns = record b {
  nodes = take b.cur b.nodes ++ ns;
  cur = b.cur + (b.position % b.base_size + length buf) / b.base_size;
  position = b.position + length buf;
  size = if ltb b.size (b.position + length buf) then b.position + length buf else b.size;
}

module _ (b : ByteArray) (v : IsValid b) (buf : List ℕ)
    (room : b.position + length buf ≤ b.capacity) (ns : List (List ℕ))
    (u : IsUniform b.base_size ns) (same_length : length ns ≡ length (drop b.cur b.nodes))
    (overwrites : flatten ns
      ≡ splice (flatten (drop b.cur b.nodes)) (b.position % b.base_size) buf) where
  abbrev front : List (List ℕ)
  front = take b.cur b.nodes

  length-front : length front ≡ b.cur
  length-front = omega (arith, length-take b.cur b.nodes, cur-le-length b v)

  front_bytes : length (flatten front) + b.position % b.base_size ≡ b.position
  front_bytes =
      rw (length-flatten b.base_size front (All-take _ b.cur b.nodes v.uniform), length-front)
        (position_parts b v)

  flatten-stored : flatten (front ++ ns) ≡ splice (flatten b.nodes) b.position buf
  flatten-stored =
      flatten (front ++ ns)
      ≡⟨ flatten-append front ns ∙ ap (λ t. flatten front ++ t) overwrites ⟩
        flatten front ++ splice (flatten (drop b.cur b.nodes)) (b.position % b.base_size) buf
      ≡⟨ splice-append_right (flatten front) (flatten (drop b.cur b.nodes)) _ buf ⟩
        splice (flatten front ++ flatten (drop b.cur b.nodes))
          (length (flatten front) + b.position % b.base_size) buf
      ≡⟨ ap₂ (λ xs i. splice xs i buf) whole front_bytes ⟩ splice (flatten b.nodes) b.position buf ∎
    where
      whole : flatten front ++ flatten (drop b.cur b.nodes) ≡ flatten b.nodes
      whole = sym (flatten-append front _) ∙ ap flatten (take-append-drop b.cur b.nodes)

  stored-IsValid : IsValid (stored b buf ns)
  stored-IsValid = record {
    base_pos = v.base_pos;
    uniform = All-append _ front ns (All-take _ b.cur b.nodes v.uniform) u;
    some_node = omega (arith, length_all);
    capacity_eq = omega (arith, ap (λ (t : ℕ). t * b.base_size) length_all);
    size_le = ground arith;
    position_le = ground arith;
    cur_eq = cur_moves b (length buf) v;
  }
    where
      length_all : length (front ++ ns) ≡ length b.nodes
      length_all = omega (
        arith,
        length-append front ns,
        length-front,
        length-drop b.cur b.nodes,
        cur-le-length b v,
      )

  stored-Wrote : Wrote buf b (stored b buf ns)
  stored-Wrote = record {
    valid = stored-IsValid;
    overwritten =
        ap (take (stored b buf ns).size) flatten-stored
        ∙ take-splice (flatten b.nodes) b.position b.size _ buf v.position_le
            (omega (arith, length-flatten b.base_size b.nodes v.uniform)) refl;
    moved = refl;
    same_base = refl;
    same_endian = refl;
  }

store_lem :
    (b : ByteArray) (buf : List ℕ)
    → IsValid b
    → 0 < length buf
    → b.position + length buf ≤ b.capacity
    → (b' : ByteArray) × (store buf (b.position % b.base_size) b ≡ done tt b') × Wrote buf b b'
unfolding store
store_lem b buf v some_byte room =
    let (ns, e, u, l, f) =
      write_nodes-splice b.base_size (drop b.cur b.nodes) (b.position % b.base_size) buf v.base_pos
        (All-drop _ b.cur b.nodes v.uniform) (mod-lt b.position v.base_pos) some_byte behind in
    (stored b buf ns, rw (e, store), stored-Wrote b v buf room ns u l f)
  where
    behind : b.position % b.base_size + length buf ≤ length (drop b.cur b.nodes) * b.base_size
    behind = rw (length-drop b.cur b.nodes) (
        room_behind b.base_size (length b.nodes) b.cur _ b.position (length buf)
          (position_parts b v) (omega arith) some_byte)

write_chain :
    (buf : List ℕ) (b b1 b2 : ByteArray)
    → 0 < length buf
    → add_capacity (length buf) b ≡ done tt b1
    → IsValid b1
    → store buf (b1.position % b1.base_size) b1 ≡ done tt b2
    → write buf b ≡ done tt b2
unfolding write
write_chain buf b b1 b2 some_byte grown v done_b1 = rw nonempty (
    bind_done (add_capacity (length buf)) (λ _. node_offset >>= store buf) grown
    ∙ bind_done node_offset (store buf) offset
    ∙ done_b1)
  where
    nonempty : (length buf == 0) ≡ false
    nonempty = ground arith

    base : (b1.base_size == 0) ≡ false
    base = ground arith

    offset : node_offset b1 ≡ done (b1.position % b1.base_size) b1
    offset = rw base

-- A write succeeds on every valid buffer.
pub write_lem :
    (buf : List ℕ) (b : ByteArray)
    → IsValid b
    → (b' : ByteArray) × (write buf b ≡ done tt b') × Wrote buf b b'
unfolding write
write_lem [] b v = (
  b,
  refl,
  record {
    valid = v;
    overwritten = sym (
        ap (λ t. take b.position (contents b) ++ drop t (contents b)) (add-zero b.position)
        ∙ take-append-drop b.position (contents b));
    moved = omega arith;
    same_base = refl;
    same_endian = refl;
  },
)
write_lem (x ∷ xs) b v =
    let (b1, e1, g) = add_capacity_lem (length (x ∷ xs)) b v in
    let (b2, e2, w) = store_lem b1 (x ∷ xs) g.valid (omega arith) (omega arith) in
    (
      b2,
      write_chain (x ∷ xs) b b1 b2 (omega arith) e1 g.valid e2,
      record {
        valid = w.valid;
        overwritten =
            w.overwritten ∙ ap₂ (λ c p. splice c p (x ∷ xs)) g.same_contents g.same_position;
        moved = omega arith;
        same_base = w.same_base ∙ g.same_base;
        same_endian = w.same_endian ∙ g.same_endian;
      },
    )
