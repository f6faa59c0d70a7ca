-- ===== src/Codec/Chain.antt =====
-- What an operation writes and what it reads, in a form that composes: the bytes behind the position.
use ynwad.Base.{
  ℕ, ◌+◌, ◌-◌, ◌≤◌, ◌<◌, ◌≡◌, refl, sym, ap, ◌∙◌, ◌≡⟨◌⟩◌, ◌∎, List, [], ◌++◌, append_assoc,
  append-nil, length, take, drop, splice, arith, length-append, length-take, length-drop,
  take-append_left, drop-append_right, drop-drop, take_all,
}
use ynwad.ByteArray.{ByteArray, Endian, M, done, ◌>>=◌, ◌>>◌, read, set_position}
use ynwad.ByteArray.Bind.{bind_done}
use ynwad.ByteArray.Valid.{IsValid, contents}
use ynwad.ByteArray.Flat.{length-contents}
use ynwad.ByteArray.Write.{Wrote}
use ynwad.ByteArray.Read.{read_cases}
use ynwad.ByteArray.Seek.{Sought-contents, set_position_cases}
use native.Mathlib.Nat.{sub_self}
use mathlib.Core.Path.{ap₂, subst}

-- The bytes that are still to be read.
abbrev pub ahead : ByteArray → List ℕ
ahead b = drop b.position (contents b)

-- `b'` is `b` with the position `n` bytes further.
pub record Took (n : ℕ) (b b' : ByteArray) : Type 0 where
  pub valid : IsValid b'
  pub same_contents : contents b' ≡ contents b
  pub same_capacity : b'.capacity ≡ b.capacity
  pub moved : b'.position ≡ b.position + n
  pub same_endian : b'.endian ≡ b.endian

-- In the byte order `e`, the operation writes `bytes`.
abbrev pub Encodes : M (Unit {0}) → Endian → List ℕ → Type 0
Encodes m e bytes =
    (b : ByteArray)
    → IsValid b
    → b.endian ≡ e
    → (b' : ByteArray) × (m b ≡ done tt b') × Wrote bytes b b'

-- In the byte order `e`, the operation takes `bytes` from the front of what is ahead, and gives `a`.
abbrev pub Decodes {ℓ} : {A : Type ℓ} → M A → Endian → List ℕ → A → Type ℓ
Decodes m e bytes a =
    (b : ByteArray) (rest : List ℕ)
    → IsValid b
    → b.endian ≡ e
    → ahead b ≡ bytes ++ rest
    → (b' : ByteArray) × (m b ≡ done a b') × Took (length bytes) b b' × (ahead b' ≡ rest)

drop-append_self {ℓ} : {A : Type ℓ} (xs ys : List A) → drop (length xs) (xs ++ ys) ≡ ys
drop-append_self xs ys =
    drop-append_right (length xs) xs ys (omega arith) ∙ ap (λ t. drop t ys) (sub_self (length xs))

take-append_self {ℓ} : {A : Type ℓ} (xs ys : List A) → take (length xs) (xs ++ ys) ≡ xs
take-append_self xs ys =
    take-append_left (length xs) xs ys (omega arith) ∙ take_all (length xs) xs (omega arith)

ahead_behind :
    (bytes rest : List ℕ) (b b' : ByteArray)
    → ahead b ≡ bytes ++ rest
    → contents b' ≡ contents b
    → b'.position ≡ b.position + length bytes
    → ahead b' ≡ rest
ahead_behind bytes rest b b' e c p =
    ap₂ drop p c
    ∙ sym (drop-drop (length bytes) b.position (contents b))
    ∙ ap (drop (length bytes)) e
    ∙ drop-append_self bytes rest

pub read-Decodes :
    (e : Endian) (bytes : List ℕ) → 0 < length bytes → Decodes (read (length bytes)) e bytes bytes
read-Decodes e bytes some_byte b rest v order h =
    let (got, b', done_b, g) = (read_cases (length bytes) b v).1 some_byte enough in
    (
      b',
      done_b
          ∙ ap (λ t. done t b')
              (g.bytes_eq ∙ ap (take (length bytes)) h ∙ take-append_self bytes rest),
      record {
        valid = g.valid;
        same_contents = g.same_contents;
        same_capacity = g.same_capacity;
        moved = g.moved;
        same_endian = g.same_endian;
      },
      ahead_behind bytes rest b b' h g.same_contents g.moved,
    )
  where
    enough : b.position + length bytes ≤ b.size
    enough = omega (
      arith,
      length-contents b v,
      length-drop b.position (contents b),
      ap length h,
      length-append bytes rest,
    )

pub Decodes-bind {ℓ κ} :
    {A : Type ℓ} {B : Type κ} (m : M A) (f : A → M B) (e : Endian) (xs ys : List ℕ) (a : A) (c : B)
    → Decodes m e xs a
    → Decodes (f a) e ys c
    → Decodes (m >>= f) e (xs ++ ys) c
Decodes-bind m f e xs ys a c dm df b rest v order h =
    let (b1, e1, t1, h1) = dm b (ys ++ rest) v order (h ∙ append_assoc xs ys rest) in
    let (b2, e2, t2, h2) = df b1 rest t1.valid (t1.same_endian ∙ order) h1 in
    (
      b2,
      bind_done m f e1 ∙ e2,
      record {
        valid = t2.valid;
        same_contents = t2.same_contents ∙ t1.same_contents;
        same_capacity = t2.same_capacity ∙ t1.same_capacity;
        moved = omega (arith, t1.moved, t2.moved, length-append xs ys);
        same_endian = t2.same_endian ∙ t1.same_endian;
      },
      h2,
    )

pub Decodes-pure {ℓ κ} :
    {A : Type ℓ} {B : Type κ} (m : M A) (f : A → B) (e : Endian) (xs : List ℕ) (a : A)
    → Decodes m e xs a
    → Decodes (m >>= λ x. done (f x)) e xs (f a)
Decodes-pure m f e xs a dm b rest v order h =
    let (b1, e1, t1, h1) = dm b rest v order h in (b1, bind_done m (λ x. done (f x)) e1, t1, h1)

-- Writing on behind what was written.
splice-splice :
    (c xs ys : List ℕ) (p : ℕ)
    → p ≤ length c
    → splice (splice c p xs) (p + length xs) ys ≡ splice c p (xs ++ ys)
splice-splice c xs ys p h =
    splice (splice c p xs) (p + length xs) ys
    ≡⟨ ap (λ t. splice t (p + length xs) ys) (sym (append_assoc (take p c) xs behind)) ⟩
      splice (front ++ behind) (p + length xs) ys
    ≡⟨ ap₂ (λ t u. t ++ (ys ++ u)) cut rest ⟩ front ++ (ys ++ drop (p + length (xs ++ ys)) c)
    ≡⟨ append_assoc (take p c) xs _ ∙ ap (λ t. take p c ++ t) (sym (append_assoc xs ys _)) ⟩
      splice c p (xs ++ ys) ∎
  where
    front : List ℕ
    front = take p c ++ xs

    behind : List ℕ
    behind = drop (p + length xs) c

    length-front : length front ≡ p + length xs
    length-front = omega (arith, length-append (take p c) xs, length-take p c)

    cut : take (p + length xs) (front ++ behind) ≡ front
    cut = ap (λ t. take t (front ++ behind)) (sym length-front) ∙ take-append_self front behind

    rest : drop (p + length xs + length ys) (front ++ behind) ≡ drop (p + length (xs ++ ys)) c
    rest =
        drop-append_right (p + length xs + length ys) front behind (omega (arith, length-front))
        ∙ drop-drop _ (p + length xs) c
        ∙ ap (λ t. drop t c) (omega (arith, length-front, length-append xs ys))

pub Encodes-then :
    (m k : M (Unit {0})) (e : Endian) (xs ys : List ℕ)
    → Encodes m e xs
    → Encodes k e ys
    → Encodes (m >> k) e (xs ++ ys)
Encodes-then m k e xs ys em ek b v order =
    let (b1, e1, w1) = em b v order in
    let (b2, e2, w2) = ek b1 w1.valid (w1.same_endian ∙ order) in
    (
      b2,
      bind_done m (λ _. k) e1 ∙ e2,
      record {
        valid = w2.valid;
        overwritten =
            w2.overwritten
            ∙ ap₂ (λ c p. splice c p ys) w1.overwritten w1.moved
            ∙ splice-splice (contents b) xs ys b.position
                (omega (arith, v.position_le, length-contents b v));
        moved = omega (arith, w1.moved, w2.moved, length-append xs ys);
        same_base = w2.same_base ∙ w1.same_base;
        same_endian = w2.same_endian ∙ w1.same_endian;
      },
    )

splice_ahead :
    (c bytes : List ℕ) (p : ℕ)
    → p ≤ length c
    → drop p (splice c p bytes) ≡ bytes ++ drop (p + length bytes) c
splice_ahead c bytes p h =
    drop-append_right p (take p c) (bytes ++ drop (p + length bytes) c)
      (omega (arith, length-take p c))
    ∙ ap (λ t. drop t (bytes ++ drop (p + length bytes) c)) none_left
  where
    none_left : p - length (take p c) ≡ 0
    none_left = omega (arith, length-take p c)

-- What is written, and read from where it was written, comes back, where the reader takes the first
-- part of what was written.
pub round_trip_part {ℓ} :
    {A : Type ℓ} (w : M (Unit {0})) (r : M A) (bytes extra : List ℕ) (a : A) (b : ByteArray)
    → Encodes w b.endian (bytes ++ extra)
    → Decodes r b.endian bytes a
    → IsValid b
    → (b' : ByteArray) × ((w >> (set_position b.position >> r)) b ≡ done a b')
      × IsValid b'
      × (b'.position ≡ b.position + length bytes)
      × (contents b' ≡ splice (contents b) b.position (bytes ++ extra))
round_trip_part w r bytes extra a b ew dr v =
    let (b1, e1, wrote) = ew b v refl in
    let (b2, e2, s) =
      (set_position_cases b.position b1 wrote.valid).1 (omega (arith, wrote.moved, wrote.valid)) in
    let same =
      Sought-contents b.position b1 b2 wrote.valid s (omega (arith, wrote.moved, wrote.valid)) in
    let (b3, e3, t, h3) =
      dr b2 (extra ++ drop (b.position + length (bytes ++ extra)) (contents b)) s.valid
        (s.same_endian ∙ wrote.same_endian)
        (ap₂ drop s.at (same ∙ wrote.overwritten)
          ∙ splice_ahead (contents b) (bytes ++ extra) b.position
              (omega (arith, v.position_le, length-contents b v))
          ∙ append_assoc bytes extra _) in
    (
      b3,
      bind_done w (λ _. set_position b.position >> r) e1
          ∙ bind_done (set_position b.position) (λ _. r) e2
          ∙ e3,
      t.valid,
      omega (arith, t.moved, s.at),
      t.same_contents ∙ same ∙ wrote.overwritten,
    )

pub round_trip {ℓ} :
    {A : Type ℓ} (w : M (Unit {0})) (r : M A) (bytes : List ℕ) (a : A) (b : ByteArray)
    → Encodes w b.endian bytes
    → Decodes r b.endian bytes a
    → IsValid b
    → (b' : ByteArray) × ((w >> (set_position b.position >> r)) b ≡ done a b')
      × IsValid b'
      × (b'.position ≡ b.position + length bytes)
      × (contents b' ≡ splice (contents b) b.position bytes)
round_trip w r bytes a b ew dr v =
    let (b', e, v', p, c) =
      round_trip_part w r bytes [] a b (subst (Encodes w b.endian) (sym (append-nil bytes)) ew) dr
        v in
    (b', e, v', p, c ∙ ap (splice (contents b) b.position) (append-nil bytes))
