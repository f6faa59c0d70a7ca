-- ===== src/Codec/Varint.antt =====
-- The variable-length integers and zigzag of sylar/bytearray.cc.
use ynwad.Base.{
  ℕ, zero, suc, ◌+◌, ◌*◌, ◌/◌, ◌%◌, ◌^◌, ◌≤◌, ◌<◌, ◌≡◌, refl, sym, ap, ◌∙◌, some, List, [], ◌∷◌,
  inl, inr, length, splice, arith, ltb, leb, Bool-cases, if◌then◌else◌, bit_and, bit_or, lt→ltb,
  ltb-false, leb-false, leb→gt,
}
use ynwad.Base.Bits.{bit_or_high, bit_and_mask}
use ynwad.ByteArray.{ByteArray, Endian, done, pure, ◌>>◌, read, set_position}
use ynwad.ByteArray.Bind.{bind_done}
use ynwad.ByteArray.Valid.{IsValid, contents}
use ynwad.ByteArray.Write.{write_lem}
use ynwad.Codec.{
  groups, write_groups, write_uint32, write_uint64, read_fuint8, read_groups, read_uint32,
  read_uint64, shl,
}
use ynwad.Codec.Chain.{Encodes, Decodes, read-Decodes, Decodes-bind, round_trip}
use native.Mathlib.Nat.{pow-suc, mod-eq_of_lt, add-zero, div-add-mod}
use mathlib.Core.Path.{subst}
use native.Mathlib.Numerals.{towards_suc}

-- The groups of seven bits of `v`, the lowest first, all but the last with the top bit set; for `v`
-- of at most `k + 1` groups.
unfoldable pub vint : ℕ → ℕ → List ℕ
vint zero v = v ∷ []
vint (suc k) v = let rest = vint k (v / 128) in if leb 128 v then (v % 128 + 128) ∷ rest else v ∷ []

inner_byte : (v : ℕ) → bit_or (bit_and v 0x7f) 0x80 ≡ v % 128 + 128
inner_byte v = ap (λ t. bit_or t 0x80) (bit_and_mask 7 v) ∙ bit_or_high 7 (v % 128) 1 (omega arith)

groups-vint : (k v : ℕ) → v < 128 ^ suc k → groups (suc k) v ≡ some (vint k v)
unfolding groups vint
groups-vint zero v h =
    rw (leb-false 128 v (omega arith), mod-eq_of_lt {n = v} {m = 256} (omega arith))
groups-vint (suc k) v h = elim (Bool-cases (leb 128 v)) [
  | inl more ↦ rw (more, inner_byte v, groups-vint k (v / 128) (omega (arith, pow-suc 128 (suc k))))
  | inr last ↦ rw (last, mod-eq_of_lt {n = v} {m = 256} (omega (arith, leb→gt _ _ last)))
]

pub length-vint : (k v : ℕ) → (1 ≤ length (vint k v)) × (length (vint k v) ≤ k + 1)
unfolding vint
length-vint zero v = omega arith
length-vint (suc k) v = ground (arith, length-vint k (v / 128))

-- One byte.
read_fuint8-Decodes : (x : ℕ) (e : Endian) → Decodes read_fuint8 e (x ∷ []) x
unfolding read_fuint8
read_fuint8-Decodes x e b rest ok order front =
    let (b1, e1, t, h1) = read-Decodes e (x ∷ []) (omega arith) b rest ok order front in
    (b1, bind_done (read 1) _ e1 ∙ ap (λ y. done y b1) (omega arith), t, h1)

two_pow_seven : (i : ℕ) → 2 ^ (i + 7) ≡ 128 * 2 ^ i
two_pow_seven i = simp towards_suc (omega arith)

-- The value is what has been read and what is to come.
value_parts : (acc v i : ℕ) → acc + v % 128 * 2 ^ i + v / 128 * 2 ^ (i + 7) ≡ acc + v * 2 ^ i
value_parts acc v i = omega (
  arith,
  ap (λ (t : ℕ). v / 128 * t) (two_pow_seven i),
  ap (λ (t : ℕ). t * 2 ^ i) (div-add-mod v 128),
)

acc_fits : (acc v i : ℕ) → acc < 2 ^ i → acc + v % 128 * 2 ^ i < 2 ^ (i + 7)
acc_fits acc v i h = omega (arith, two_pow_seven i, group)
  where
    small : v % 128 ≤ 127
    small = omega arith

    group : v % 128 * 2 ^ i ≤ 127 * 2 ^ i
    group = grind arith

module _ (w : ℕ) (e : Endian) where
  last_round :
      (rounds i acc v : ℕ)
      → v < 128
      → acc < 2 ^ i
      → acc + v * 2 ^ i < 2 ^ w
      → Decodes (read_groups w (suc rounds) i acc) e (v ∷ []) (acc + v * 2 ^ i)
  unfolding read_groups
  last_round rounds i acc v hv ha fits =
      Decodes-bind read_fuint8 _ e (v ∷ []) [] v (acc + v * 2 ^ i) (read_fuint8-Decodes v e)
        (λ b rest ok order front. (
          b,
          rw (
            lt→ltb v 128 hv,
            mod-eq_of_lt {n = v * 2 ^ i} {m = 2 ^ w} (omega arith),
            bit_or_high i acc v ha,
          ),
          record {
            valid = ok;
            same_contents = refl;
            same_capacity = refl;
            moved = sym (add-zero b.position);
            same_endian = refl;
          },
          front,
        ))

  inner_round :
      (rounds i acc v : ℕ) (ys : List ℕ) (c : ℕ)
      → acc < 2 ^ i
      → acc + v * 2 ^ i < 2 ^ w
      → Decodes (read_groups w rounds (i + 7) (acc + v % 128 * 2 ^ i)) e ys c
      → Decodes (read_groups w (suc rounds) i acc) e ((v % 128 + 128) ∷ ys) c
  unfolding read_groups
  inner_round rounds i acc v ys c ha fits more =
      Decodes-bind read_fuint8 _ e ((v % 128 + 128) ∷ []) ys (v % 128 + 128) c
        (read_fuint8-Decodes _ e) (subst (λ m. Decodes m e ys c) (sym goes_on) more)
    where
      low : bit_and (v % 128 + 128) 0x7f ≡ v % 128
      low = bit_and_mask 7 (v % 128 + 128) ∙ omega arith

      small : v % 128 * 2 ^ i ≤ v * 2 ^ i
      small = grind arith

      goes_on :
          (if ltb (v % 128 + 128) 0x80
            then pure (bit_or acc (shl w (v % 128 + 128) i))
            else read_groups w rounds (i + 7) (bit_or acc (shl w (bit_and (v % 128 + 128) 0x7f) i)))
          ≡ read_groups w rounds (i + 7) (acc + v % 128 * 2 ^ i)
      goes_on = rw (
        ltb-false (v % 128 + 128) 0x80 (omega arith),
        low,
        mod-eq_of_lt {n = v % 128 * 2 ^ i} {m = 2 ^ w} (omega (arith, small)),
        bit_or_high i acc (v % 128) ha,
      )

  read_groups-Decodes :
      (k rounds i acc v : ℕ)
      → v < 128 ^ suc k
      → k < rounds
      → acc < 2 ^ i
      → acc + v * 2 ^ i < 2 ^ w
      → Decodes (read_groups w rounds i acc) e (vint k v) (acc + v * 2 ^ i)
  unfolding vint
  read_groups-Decodes k zero i acc v h hk ha fits = absurd (omega arith)
  read_groups-Decodes zero (suc rounds) i acc v h hk ha fits =
      last_round rounds i acc v (omega arith) ha fits
  read_groups-Decodes (suc k) (suc rounds) i acc v h hk ha fits = elim (Bool-cases (leb 128 v)) [
    | inl more ↦ rw more (
        inner_round rounds i acc v (vint k (v / 128)) (acc + v * 2 ^ i) ha fits (
          subst
            (λ c.
              Decodes (read_groups w rounds (i + 7) (acc + v % 128 * 2 ^ i)) e (vint k (v / 128)) c)
            (value_parts acc v i)
            (read_groups-Decodes k rounds (i + 7) (acc + v % 128 * 2 ^ i) (v / 128)
              (omega (arith, pow-suc 128 (suc k))) (omega arith) (acc_fits acc v i ha)
              (omega (arith, value_parts acc v i)))))
    | inr last ↦ rw last (last_round rounds i acc v (leb→gt _ _ last) ha fits)
  ]

write_groups-Encodes :
    (k v : ℕ) (e : Endian) → v < 128 ^ suc k → Encodes (write_groups (suc k) v) e (vint k v)
unfolding write_groups
write_groups-Encodes k v e h b ok order =
    rw (groups-vint k v h, write_groups) (write_lem (vint k v) b ok)

uint_value : (v : ℕ) → 0 + v * 2 ^ 0 ≡ v
uint_value v = omega arith

pub write_uint32-Encodes : (v : ℕ) (e : Endian) → v < 2 ^ 32 → Encodes (write_uint32 v) e (vint 4 v)
unfolding write_uint32
write_uint32-Encodes v e h = write_groups-Encodes 4 v e (omega arith)

pub write_uint64-Encodes : (v : ℕ) (e : Endian) → v < 2 ^ 64 → Encodes (write_uint64 v) e (vint 9 v)
unfolding write_uint64
write_uint64-Encodes v e h = write_groups-Encodes 9 v e (omega arith)

pub read_uint32-Decodes : (v : ℕ) (e : Endian) → v < 2 ^ 32 → Decodes read_uint32 e (vint 4 v) v
unfolding read_uint32
read_uint32-Decodes v e h =
    subst (Decodes (read_groups 32 5 0 0) e (vint 4 v)) (uint_value v)
      (read_groups-Decodes 32 e 4 5 0 0 v (omega arith) (omega arith) (omega arith) (omega arith))

pub read_uint64-Decodes : (v : ℕ) (e : Endian) → v < 2 ^ 64 → Decodes read_uint64 e (vint 9 v) v
unfolding read_uint64
read_uint64-Decodes v e h =
    subst (Decodes (read_groups 64 10 0 0) e (vint 9 v)) (uint_value v)
      (read_groups-Decodes 64 e 9 10 0 0 v (omega arith) (omega arith) (omega arith) (omega arith))

-- A uint32_t that is written in the variable-length form comes back: the loop of `writeUint32` never
-- leaves its five bytes, and the buffer has the groups of seven bits at the old position.
pub uint32-round_trip :
    (v : ℕ) (b : ByteArray)
    → IsValid b
    → v < 2 ^ 32
    → (b' : ByteArray) × ((write_uint32 v >> (set_position b.position >> read_uint32)) b
        ≡ done v b')
      × IsValid b'
      × (b'.position ≡ b.position + length (vint 4 v))
      × (contents b' ≡ splice (contents b) b.position (vint 4 v))
uint32-round_trip v b ok h =
    round_trip (write_uint32 v) read_uint32 (vint 4 v) v b (write_uint32-Encodes v b.endian h)
      (read_uint32-Decodes v b.endian h) ok

-- Every uint64_t that is written and read again comes back, in at most ten bytes.
pub uint64-round_trip :
    (v : ℕ) (b : ByteArray)
    → IsValid b
    → v < 2 ^ 64
    → (b' : ByteArray) × ((write_uint64 v >> (set_position b.position >> read_uint64)) b
        ≡ done v b')
      × IsValid b'
      × (b'.position ≡ b.position + length (vint 9 v))
      × (contents b' ≡ splice (contents b) b.position (vint 9 v))
uint64-round_trip v b ok h =
    round_trip (write_uint64 v) read_uint64 (vint 9 v) v b (write_uint64-Encodes v b.endian h)
      (read_uint64-Decodes v b.endian h) ok
