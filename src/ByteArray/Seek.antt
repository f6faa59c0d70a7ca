-- ===== src/ByteArray/Seek.antt =====
-- `setPosition`, and the round trip of a write, a step back and a read.
use ynwad.Base.{
  inl, inr, ltb→ge, Bool-cases, ℕ, ◌+◌, ◌/◌, ◌≤◌, ◌<◌, ◌≡◌, refl, sym, ap, ◌∙◌, List, ◌++◌, length,
  take, drop, splice, arith, ltb, ltb-false, lt→ltb, length-take, take-append_left, take_all,
  drop-append_right, take-take, if◌then◌else◌,
}
use ynwad.ByteArray.{M, ByteArray, done, throws, write, read, set_position, ◌>>◌}
use ynwad.ByteArray.Bind.{bind_done}
use ynwad.ByteArray.Blocks.{seek-div}
use ynwad.ByteArray.Valid.{IsValid, contents}
use ynwad.ByteArray.Flat.{length-contents}
use ynwad.ByteArray.Write.{Wrote, write_lem}
use ynwad.ByteArray.Read.{Gave, read_cases}
use mathlib.Core.List.{flatten}
use mathlib.Core.Path.{ap₂}
use native.Mathlib.Nat.{zero-add, sub_self}

-- The position is `v`, and the buffer holds what it held, with more bytes behind if `v` is beyond.
pub record Sought (v : ℕ) (b b' : ByteArray) : Type 0 where
  pub valid : IsValid b'
  pub at : b'.position ≡ v
  pub size_eq : b'.size ≡ (if ltb b.size v then v else b.size)
  pub keeps : take b.size (contents b') ≡ contents b
  pub same_base : b'.base_size ≡ b.base_size
  pub same_endian : b'.endian ≡ b.endian

module _ (v : ℕ) (b : ByteArray) (ok : IsValid b) where
  seek_lem : v ≤ b.capacity → (b' : ByteArray) × (set_position v b ≡ done tt b') × Sought v b b'
  unfolding set_position
  seek_lem h = (
    record b { position = v; size = if ltb b.size v then v else b.size; cur = v / b.base_size },
    rw (
      ltb-false b.capacity v h,
      seek-div b.base_size b.nodes v 0 ok.base_pos ok.uniform ok.some_node (omega arith),
      zero-add,
    ),
    record {
      valid = record {
        base_pos = ok.base_pos;
        uniform = ok.uniform;
        some_node = ok.some_node;
        capacity_eq = ok.capacity_eq;
        size_le = ground arith;
        position_le = ground arith;
        cur_eq = refl;
      };
      at = refl;
      size_eq = refl;
      keeps = take-take b.size _ (flatten b.nodes) (ground arith);
      same_base = refl;
      same_endian = refl;
    },
  )

  seek_beyond : b.capacity < v → set_position v b ≡ throws b
  unfolding set_position
  seek_beyond h = rw (lt→ltb b.capacity v h)

-- `setPosition` on every branch: beyond the capacity it throws and changes nothing, and up to the
-- capacity it moves there, keeps the bytes, and takes the bytes before the position into the size.
pub set_position_cases :
    (v : ℕ) (b : ByteArray)
    → IsValid b
    → (b.capacity < v → set_position v b ≡ throws b)
      × (v ≤ b.capacity → (b' : ByteArray) × (set_position v b ≡ done tt b') × Sought v b b')
set_position_cases v b ok = (seek_beyond v b ok, seek_lem v b ok)

-- `setPosition` without the blocks.
unfoldable pub set_position_flat : ℕ → M (Unit {0})
set_position_flat v b =
    if ltb b.capacity v
    then throws b
    else done tt (record b {
      position = v;
      size = if ltb b.size v then v else b.size;
      cur = v / b.base_size;
    })

-- On a valid buffer `setPosition` is `set_position_flat` on every branch: beyond the capacity it
-- throws and changes nothing, and up to the capacity it moves there and takes the bytes before the
-- new position into the size. It never walks off the chain.
pub set_position-set_position_flat :
    (v : ℕ) (b : ByteArray) → IsValid b → set_position v b ≡ set_position_flat v b
unfolding set_position_flat set_position
set_position-set_position_flat v b ok = elim (Bool-cases (ltb b.capacity v)) [
  | inl beyond ↦ rw beyond
  | inr within ↦
      let le : v ≤ b.capacity = ltb→ge _ _ within in
      rw (
        within,
        seek-div b.base_size b.nodes v 0 ok.base_pos ok.uniform ok.some_node
            (omega (arith, ok.capacity_eq)),
        zero-add,
      )
]

splice_back :
    (xs buf : List ℕ) (i : ℕ) → i ≤ length xs → take (length buf) (drop i (splice xs i buf)) ≡ buf
splice_back xs buf i h = rw (
  drop-append_right i (take i xs) (buf ++ drop (i + length buf) xs) (omega (arith, front)),
  front,
  sub_self,
  take-append_left (length buf) buf (drop (i + length buf) xs) (omega arith),
  take_all (length buf) buf (omega arith),
)
  where
    front : length (take i xs) ≡ i
    front = omega (arith, length-take i xs)

-- A step within the written bytes changes none of them.
pub Sought-contents :
    (v : ℕ) (b b' : ByteArray) → IsValid b → Sought v b b' → v ≤ b.size → contents b' ≡ contents b
Sought-contents v b b' ok s h =
    sym (take_all b.size (contents b') (omega (arith, length-contents b' s.valid, size))) ∙ s.keeps
  where
    size : b'.size ≡ b.size
    size = s.size_eq ∙ rw (ltb-false b.size v h)

module _ (buf : List ℕ) (b : ByteArray) (ok : IsValid b) (some_byte : 0 < length buf)
    (b1 b2 b3 : ByteArray) (bytes : List ℕ) (w : Wrote buf b b1) (s : Sought b.position b1 b2)
    (g : Gave (length buf) b2 bytes b3) where
  sizes : b.position + length buf ≤ b1.size
  sizes = omega (arith, w.moved, w.valid.position_le)

  same : contents b2 ≡ contents b1
  same = Sought-contents b.position b1 b2 w.valid s (omega (arith, sizes))

  -- The bytes that come back are those written.
  read_back : bytes ≡ buf
  read_back =
      g.bytes_eq
      ∙ ap₂ (λ p c. take (length buf) (drop p c)) s.at (same ∙ w.overwritten)
      ∙ splice_back (contents b) buf b.position
          (omega (arith, ok.position_le, length-contents b ok))

  ends_at : b3.position ≡ b.position + length buf
  ends_at = omega (arith, g.moved, s.at)

-- What was written is read back from where it was written: after a write of at least one byte, a step
-- back to where it began and a read of as many bytes give those bytes, on a buffer that holds its old
-- bytes overwritten from the position on, with the position behind them.
pub write-read :
    (buf : List ℕ) (b : ByteArray)
    → IsValid b
    → 0 < length buf
    → (b' : ByteArray) × ((write buf >> (set_position b.position >> read (length buf))) b
        ≡ done buf b')
      × IsValid b'
      × (b'.position ≡ b.position + length buf)
      × (contents b' ≡ splice (contents b) b.position buf)
write-read buf b ok some_byte =
    let (b1, e1, w) = write_lem buf b ok in
    let (b2, e2, s) = seek_lem b.position b1 w.valid (omega (arith, w.moved, w.valid)) in
    let (bytes, b3, e3, g) =
      (read_cases (length buf) b2 s.valid).1 some_byte
        (omega (arith, s.at, s.size_eq, b2_size b1 b2 w s)) in
    (
      b3,
      bind_done (write buf) _ e1
          ∙ bind_done (set_position b.position) (λ _. read (length buf)) e2
          ∙ e3
          ∙ ap (λ t. done t b3) (read_back buf b ok some_byte b1 b2 b3 bytes w s g),
      g.valid,
      ends_at buf b ok some_byte b1 b2 b3 bytes w s g,
      g.same_contents ∙ same buf b ok some_byte b1 b2 b3 bytes w s g ∙ w.overwritten,
    )
  where
    b2_size :
        (b1 b2 : ByteArray)
        → Wrote buf b b1
        → Sought b.position b1 b2
        → b.position + length buf ≤ b2.size
    b2_size b1 b2 w s =
        let fits : b.position + length buf ≤ b1.size =
          omega (arith, w.moved, w.valid.position_le) in
        rw (s.size_eq, ltb-false b1.size b.position (omega (arith, fits))) fits
