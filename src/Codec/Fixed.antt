-- ===== src/Codec/Fixed.antt =====
-- The fixed-width integers: what they write in either byte order, and that they are read back.
use ynwad.Base.{
  ℕ, zero, suc, ◌+◌, ◌*◌, ◌/◌, ◌%◌, ◌^◌, ◌<◌, ◌≡◌, refl, sym, ap, ◌∙◌, List, [], ◌∷◌, length,
  splice, reverse, reverse-reverse, arith, All, All-reverse, length-reverse,
}
use ynwad.ByteArray.{ByteArray, Endian, little, big, done, ◌>>◌, read, set_position}
use ynwad.ByteArray.Bind.{bind_done}
use ynwad.ByteArray.Valid.{IsValid, contents}
use ynwad.ByteArray.Write.{write_lem}
use ynwad.Codec.{to_bytes, of_bytes, byteswap, in_order, write_fixed, read_fixed}
use native.Mathlib.Nat.{pow-suc}
use mathlib.Core.Path.{ap₂, subst}
use ynwad.Codec.Chain.{Encodes, Decodes, read-Decodes, round_trip}

pub length-to_bytes : (w v : ℕ) → length (to_bytes w v) ≡ w
unfolding to_bytes
length-to_bytes zero v = refl
length-to_bytes (suc w) v = ap suc (length-to_bytes w (v / 256))

pub of_bytes-to_bytes : (w v : ℕ) → v < 256 ^ w → of_bytes (to_bytes w v) ≡ v
unfolding to_bytes of_bytes
of_bytes-to_bytes zero zero h = refl
of_bytes-to_bytes zero (suc v) h = absurd (omega arith)
of_bytes-to_bytes (suc w) v h =
    omega (arith, of_bytes-to_bytes w (v / 256) (omega (arith, pow-suc 256 w)))

to_bytes-of_bytes : (xs : List ℕ) → All (λ x. x < 256) xs → to_bytes (length xs) (of_bytes xs) ≡ xs
unfolding to_bytes of_bytes
to_bytes-of_bytes [] h = refl
to_bytes-of_bytes (x ∷ xs) h =
    ap₂ (λ a v. a ∷ to_bytes (length xs) v) low high ∙ ap (◌∷◌ x) (to_bytes-of_bytes xs h.1)
  where
    low : (x + 256 * of_bytes xs) % 256 ≡ x
    low = omega (arith, h.0)

    high : (x + 256 * of_bytes xs) / 256 ≡ of_bytes xs
    high = omega (arith, h.0)

pub to_bytes-IsByte : (w v : ℕ) → All (λ x. x < 256) (to_bytes w v)
unfolding to_bytes
to_bytes-IsByte zero v = tt
to_bytes-IsByte (suc w) v = (omega arith, to_bytes-IsByte w (v / 256))

-- The bytes of a value in a byte order: big-endian is the most significant byte first.
unfoldable pub wire : ℕ → ℕ → Endian → List ℕ
wire w v little = to_bytes w v
wire w v big = reverse (to_bytes w v)

pub to_bytes-byteswap : (w v : ℕ) → to_bytes w (byteswap w v) ≡ reverse (to_bytes w v)
unfolding byteswap
to_bytes-byteswap w v =
    ap (λ t. to_bytes t (byteswap w v)) (sym full)
    ∙ to_bytes-of_bytes (reverse (to_bytes w v))
        (All-reverse _ (to_bytes w v) (to_bytes-IsByte w v))
  where
    full : length (reverse (to_bytes w v)) ≡ w
    full = length-reverse (to_bytes w v) ∙ length-to_bytes w v

to_bytes-in_order : (w v : ℕ) (e : Endian) → to_bytes w (in_order w v e) ≡ wire w v e
unfolding in_order wire
to_bytes-in_order w v little = refl
to_bytes-in_order w v big = to_bytes-byteswap w v

pub length-wire : (w v : ℕ) (e : Endian) → length (wire w v e) ≡ w
unfolding wire
length-wire w v little = length-to_bytes w v
length-wire w v big = length-reverse (to_bytes w v) ∙ length-to_bytes w v

pub in_order-wire : (w v : ℕ) (e : Endian) → v < 256 ^ w → in_order w (of_bytes (wire w v e)) e ≡ v
unfolding in_order wire byteswap
in_order-wire w v little h = of_bytes-to_bytes w v h
in_order-wire w v big h =
    ap (λ t. of_bytes (reverse t)) (to_bytes-byteswap w v)
    ∙ ap of_bytes (reverse-reverse (to_bytes w v))
    ∙ of_bytes-to_bytes w v h

pub write_fixed-Encodes : (w v : ℕ) (e : Endian) → Encodes (write_fixed w v) e (wire w v e)
unfolding write_fixed
write_fixed-Encodes w v e b ok order =
    let bytes : to_bytes w (in_order w v b.endian) ≡ wire w v e =
      ap (λ t. to_bytes w (in_order w v t)) order ∙ to_bytes-in_order w v e in
    rw bytes (write_lem (wire w v e) b ok)

pub read_fixed-Decodes :
    (w v : ℕ) (e : Endian) → 0 < w → v < 256 ^ w → Decodes (read_fixed w) e (wire w v e) v
unfolding read_fixed
read_fixed-Decodes w v e hw h b rest ok order front =
    let (b1, e1, t, h1) =
      read-Decodes e (wire w v e) (omega (arith, length-wire w v e)) b rest ok order front in
    let e1' : read w b ≡ done (wire w v e) b1 =
      subst (λ n. read n b ≡ done (wire w v e) b1) (length-wire w v e) e1 in
    (
      b1,
      bind_done (read w) _ e1'
          ∙ ap (λ o. done (in_order w (of_bytes (wire w v e)) o) b1) (t.same_endian ∙ order)
          ∙ ap (λ x. done x b1) (in_order-wire w v e h),
      t,
      h1,
    )

-- An integer of `w` bytes that is written in the buffer's byte order at the position, and read from
-- there, comes back, for every valid buffer and any block size. The buffer's bytes from the position
-- on are overwritten by its bytes, most significant first in a big-endian buffer.
pub fixed-round_trip :
    (w v : ℕ) (b : ByteArray)
    → IsValid b
    → 0 < w
    → v < 256 ^ w
    → (b' : ByteArray) × ((write_fixed w v >> (set_position b.position >> read_fixed w)) b
        ≡ done v b')
      × IsValid b'
      × (b'.position ≡ b.position + length (wire w v b.endian))
      × (contents b' ≡ splice (contents b) b.position (wire w v b.endian))
fixed-round_trip w v b ok hw h =
    round_trip (write_fixed w v) (read_fixed w) (wire w v b.endian) v b
      (write_fixed-Encodes w v b.endian) (read_fixed-Decodes w v b.endian hw h) ok
