-- ===== src/Codec/Text.antt =====
-- Strings with their length in front.
use ynwad.Base.{
  ℕ, ◌+◌, ◌%◌, ◌^◌, ◌≤◌, ◌<◌, ◌≡◌, refl, sym, ap, ◌∙◌, List, [], ◌++◌, append_assoc, append-nil,
  length, take, drop, splice, arith, length-take, take-append-drop, length-drop,
}
use ynwad.ByteArray.{ByteArray, Endian, done, fault, null_deref, ◌>>◌, write, read, set_position}
use ynwad.ByteArray.Bind.{bind_done}
use ynwad.ByteArray.Flat.{length-contents}
use ynwad.ByteArray.Valid.{IsValid, contents}
use ynwad.ByteArray.Write.{write_lem}
use ynwad.ByteArray.Read.{read_cases}
use ynwad.Codec.{
  read_fixed, write_string_fixed, read_string_fixed, write_string_vint, read_string_vint,
  read_uint64,
}
use ynwad.Codec.Chain.{
  Encodes, Decodes, ahead, read-Decodes, Decodes-bind, Encodes-then, round_trip, round_trip_part,
}
use ynwad.Codec.Fixed.{wire, write_fixed-Encodes, read_fixed-Decodes, length-wire}
use ynwad.Codec.Varint.{vint, write_uint64-Encodes, read_uint64-Decodes}
use mathlib.Core.Path.{subst}
use native.Mathlib.Nat.{mod-lt, mod-le, one-le-pow}

-- The part of `s` behind the first `n` bytes is left ahead.
read_part-Decodes :
    (e : Endian) (s : List ℕ) (n : ℕ)
    → 0 < n
    → n ≤ length s
    → Decodes (read n) e (take n s) (take n s)
read_part-Decodes e s n hn h =
    subst (λ t. Decodes (read t) e (take n s) (take n s)) full
      (read-Decodes e (take n s) (omega (arith, full)))
  where
    full : length (take n s) ≡ n
    full = omega (arith, length-take n s)

write-Encodes : (e : Endian) (s : List ℕ) → Encodes (write s) e s
write-Encodes e s b ok order = write_lem s b ok

write_string_fixed-Encodes :
    (w : ℕ) (s : List ℕ) (e : Endian)
    → Encodes (write_string_fixed w s) e (wire w (length s % 256 ^ w) e ++ s)
unfolding write_string_fixed
write_string_fixed-Encodes w s e =
    Encodes-then _ _ e _ s (write_fixed-Encodes w (length s % 256 ^ w) e) (write-Encodes e s)

read_string_fixed-Decodes :
    (w n : ℕ) (s : List ℕ) (e : Endian)
    → 0 < w
    → n < 256 ^ w
    → 0 < n
    → n ≤ length s
    → Decodes (read_string_fixed w) e (wire w n e ++ take n s) (take n s)
unfolding read_string_fixed
read_string_fixed-Decodes w n s e hw hn pos h =
    Decodes-bind (read_fixed w) read e (wire w n e) (take n s) n (take n s)
      (read_fixed-Decodes w n e hw hn) (read_part-Decodes e s n pos h)

-- The two operations leave the string cut to the length that the width can say: as many of its
-- first bytes as its length modulo 256 ^ w come back, where that is not 0. So a string that is shorter
-- than 256 ^ w, and not empty, comes back whole. The whole string is in the buffer in any case.
pub string_fixed-round_trip :
    (w : ℕ) (s : List ℕ) (b : ByteArray)
    → IsValid b
    → 0 < w
    → 0 < length s % 256 ^ w
    → (b' : ByteArray) × ((write_string_fixed w s
            >> (set_position b.position >> read_string_fixed w))
          b
        ≡ done (take (length s % 256 ^ w) s) b')
      × IsValid b'
      × (contents b' ≡ splice (contents b) b.position (wire w (length s % 256 ^ w) b.endian ++ s))
string_fixed-round_trip w s b ok hw pos =
    let (b', e, v, p, c) =
      round_trip_part (write_string_fixed w s) (read_string_fixed w) (head ++ take n s) (drop n s)
        (take n s) b
        (subst (Encodes (write_string_fixed w s) b.endian) (sym whole)
          (write_string_fixed-Encodes w s b.endian))
        (read_string_fixed-Decodes w n s b.endian hw small pos (mod-le (length s) (256 ^ w))) ok in
    (b', e, v, c ∙ ap (splice (contents b) b.position) whole)
  where
    n : ℕ
    n = length s % 256 ^ w

    head : List ℕ
    head = wire w n b.endian

    small : n < 256 ^ w
    small = mod-lt (length s) (one-le-pow w 256 (omega arith))

    whole : (head ++ take n s) ++ drop n s ≡ head ++ s
    whole = append_assoc head (take n s) (drop n s) ∙ ap (λ t. head ++ t) (take-append-drop n s)

-- A string that is not empty comes back whole through the variable-length form.
pub string_vint-round_trip :
    (s : List ℕ) (b : ByteArray)
    → IsValid b
    → 0 < length s
    → length s < 2 ^ 64
    → (b' : ByteArray) × ((write_string_vint s >> (set_position b.position >> read_string_vint)) b
        ≡ done s b')
      × IsValid b'
      × (b'.position ≡ b.position + length (vint 9 (length s) ++ s))
      × (contents b' ≡ splice (contents b) b.position (vint 9 (length s) ++ s))
unfolding write_string_vint read_string_vint
string_vint-round_trip s b ok pos h =
    round_trip _ _ (vint 9 (length s) ++ s) s b
      (Encodes-then _ _ b.endian _ s (write_uint64-Encodes (length s) b.endian h)
        (write-Encodes b.endian s))
      (Decodes-bind read_uint64 read b.endian _ s (length s) s
        (read_uint64-Decodes (length s) b.endian h) (read-Decodes b.endian s pos))
      ok

-- An empty string cannot be read where its length field ends the last block, with all bytes of the
-- capacity in use: `read` looks through the null `m_cur` although there is nothing to copy.
pub empty_string_fault :
    (w : ℕ) (b : ByteArray)
    → IsValid b
    → 0 < w
    → b.size ≡ b.capacity
    → ahead b ≡ wire w 0 b.endian
    → read_string_fixed w b ≡ fault null_deref
unfolding read_string_fixed
empty_string_fault w b ok hw full last =
    let (b1, e1, t, h1) =
      read_fixed-Decodes w 0 b.endian hw (one-le-pow w 256 (omega arith)) b [] ok refl
        (last ∙ sym (append-nil (wire w 0 b.endian))) in
    let at_end : b1.position ≡ b1.capacity = omega (
      arith,
      t.moved,
      t.same_capacity,
      ap length last,
      length-drop b.position (contents b),
      length-contents b ok,
      length-wire w 0 b.endian,
      ok.position_le,
    ) in
    bind_done (read_fixed w) read e1 ∙ (read_cases 0 b1 t.valid).3 refl at_end
