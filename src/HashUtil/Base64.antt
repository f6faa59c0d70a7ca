-- ===== src/HashUtil/Base64.antt =====
-- base64 there and back.
use ynwad.Base.{
  ℕ, zero, suc, ◌+◌, ◌*◌, ◌/◌, ◌%◌, ◌^◌, ◌≤◌, ◌<◌, ◌≡◌, refl, ap, ◌∙◌, true, none, some, List, [],
  ◌∷◌, ◌++◌, length, All, arith,
}
use mathlib.Core.Path.{ap₂}
use ynwad.HashUtil.{
  sextet, gather, group_text, encode_groups, base64encode, gather_text, group_bytes, is_group,
  decode_groups, base64decode,
}
use ynwad.HashUtil.Groups.{
  gather_text-bits, gather_text-two, gather_text-one, gather-byte, gather-full, gather-none,
}

abbrev pub IsByte : ℕ → Type 0
IsByte x = x < 256

-- What the decoder does behind a group that it has read.
decode_group :
    (fuel : ℕ) (padding packed : ℕ) (c : ℕ) (text rest : List ℕ) (bytes : List ℕ)
    → gather_text 4 0 0 (c ∷ text) ≡ some (0, padding, packed, rest)
    → is_group 0 padding rest ≡ true
    → decode_groups fuel rest ≡ some bytes
    → decode_groups (suc fuel) (c ∷ text) ≡ some (group_bytes padding packed ++ bytes)
unfolding decode_groups
decode_group fuel padding packed c text rest bytes e ok more =
    rw (e, decode_groups) (rw (ok, decode_groups) (rw (more, decode_groups) refl))

ended : (fuel : ℕ) → decode_groups fuel [] ≡ some []
unfolding decode_groups
ended zero = refl
ended (suc fuel) = refl

three :
    (x y z : ℕ) (xs : List ℕ)
    → x < 256
    → y < 256
    → z < 256
    → gather 3 0 (x ∷ y ∷ z ∷ xs) ≡ (0, x * 65536 + y * 256 + z, xs)
three x y z xs hx hy hz =
    gather-byte 2 0 x _ hx
    ∙ gather-byte 1 _ y _ hy
    ∙ gather-byte 0 _ z xs hz
    ∙ gather-full _ xs
    ∙ ap (λ t. (0, t, xs)) (omega arith)

two : (x y : ℕ) → x < 256 → y < 256 → gather 3 0 (x ∷ y ∷ []) ≡ (1, x * 256 + y, [])
two x y hx hy =
    gather-byte 2 0 x _ hx
    ∙ gather-byte 1 _ y _ hy
    ∙ gather-none 1 _
    ∙ ap (λ t. (1, t, [])) (omega arith)

one : (x : ℕ) → x < 256 → gather 3 0 (x ∷ []) ≡ (2, x, [])
one x hx = gather-byte 2 0 x _ hx ∙ gather-none 2 _ ∙ ap (λ t. (2, t, [])) (omega arith)

-- The text of a group, and what it is decoded to.
group_text_three : ℕ → List ℕ
group_text_three n =
    sextet (n / 2 ^ 18) ∷ sextet (n / 2 ^ 12 % 64) ∷ sextet (n / 2 ^ 6 % 64) ∷ sextet (n % 64) ∷ []

encode-three :
    (fuel x y z : ℕ) (xs : List ℕ)
    → x < 256
    → y < 256
    → z < 256
    → encode_groups (suc fuel) (x ∷ y ∷ z ∷ xs)
      ≡ group_text_three (x * 65536 + y * 256 + z) ++ encode_groups fuel xs
unfolding encode_groups group_text group_text_three
encode-three fuel x y z xs hx hy hz =
    ap (λ (g : ℕ × ℕ × List ℕ). group_text g.0 g.1 ++ encode_groups fuel g.2)
      (three x y z xs hx hy hz)
    ∙ ap (λ n. group_text_three n ++ encode_groups fuel xs) (omega arith)

encode-two :
    (fuel x y : ℕ)
    → x < 256
    → y < 256
    → encode_groups (suc fuel) (x ∷ y ∷ []) ≡ (
        let n = (x * 256 + y) * 256 in
        sextet (n / 2 ^ 18) ∷ sextet (n / 2 ^ 12 % 64) ∷ sextet (n / 2 ^ 6 % 64) ∷ b'=' ∷ [])
unfolding encode_groups group_text
encode-two fuel x y hx hy =
    ap (λ (g : ℕ × ℕ × List ℕ). group_text g.0 g.1 ++ encode_groups fuel g.2) (two x y hx hy)

encode-one :
    (fuel x : ℕ)
    → x < 256
    → encode_groups (suc fuel) (x ∷ [])
      ≡ (let n = x * 65536 in sextet (n / 2 ^ 18) ∷ sextet (n / 2 ^ 12 % 64) ∷ b'=' ∷ b'=' ∷ [])
unfolding encode_groups group_text
encode-one fuel x hx =
    ap (λ (g : ℕ × ℕ × List ℕ). group_text g.0 g.1 ++ encode_groups fuel g.2) (one x hx)

-- Enough fuel for both loops is the number of bytes, and of characters.
decode-encode :
    (fuel more : ℕ) (xs : List ℕ)
    → All IsByte xs
    → length xs ≤ fuel
    → length (encode_groups fuel xs) ≤ more
    → decode_groups more (encode_groups fuel xs) ≡ some xs
unfolding encode_groups decode_groups group_text_three group_bytes
decode-encode fuel zero [] h enough room = refl
decode-encode fuel (suc more) [] h enough room = refl
decode-encode zero more (x ∷ xs) h enough room = absurd (omega arith)
decode-encode (suc fuel) zero (x ∷ []) h enough room =
    absurd (omega (arith, room, ap length (encode-one fuel x h.0)))
decode-encode (suc fuel) zero (x ∷ y ∷ []) h enough room =
    absurd (omega (arith, room, ap length (encode-two fuel x y h.0 h.1.0)))
decode-encode (suc fuel) zero (x ∷ y ∷ z ∷ xs) h enough room =
    absurd (omega (arith, room, ap length (encode-three fuel x y z xs h.0 h.1.0 h.1.1.0)))
decode-encode (suc fuel) (suc more) (x ∷ []) h enough room =
    ap (decode_groups (suc more)) (encode-one fuel x h.0)
    ∙ decode_group more 2 (x * 65536) _ _ [] [] (gather_text-one x h.0) refl (ended more)
    ∙ ap (λ t. some (t ∷ [])) (omega (arith, h.0))
decode-encode (suc fuel) (suc more) (x ∷ y ∷ []) h enough room =
    ap (decode_groups (suc more)) (encode-two fuel x y h.0 h.1.0)
    ∙ decode_group more 1 ((x * 256 + y) * 256) _ _ [] []
        (gather_text-two (x * 256 + y) (omega (arith, h.0, h.1.0))) refl (ended more)
    ∙ ap₂ (λ s t. some (s ∷ t ∷ [])) (omega (arith, h.0, h.1.0)) (omega (arith, h.0, h.1.0))
decode-encode (suc fuel) (suc more) (x ∷ y ∷ z ∷ xs) h enough room =
    ap (decode_groups (suc more)) (encode-three fuel x y z xs h.0 h.1.0 h.1.1.0)
    ∙ decode_group more 0 (x * 65536 + y * 256 + z) _ _ (encode_groups fuel xs) xs
        (gather_text-bits (x * 65536 + y * 256 + z) (encode_groups fuel xs)
          (omega (arith, h.0, h.1.0, h.1.1.0)))
        refl
        (decode-encode fuel more xs h.1.1.1 (omega arith)
          (omega (arith, room, ap length (encode-three fuel x y z xs h.0 h.1.0 h.1.1.0))))
    ∙ ap₂ (λ s t. some (s ∷ t ∷ (x * 65536 + y * 256 + z) % 256 ∷ xs))
        (omega (arith, h.0, h.1.0, h.1.1.0)) (omega (arith, h.0, h.1.0, h.1.1.0))
    ∙ ap (λ t. some (x ∷ y ∷ t ∷ xs)) (omega (arith, h.0, h.1.0, h.1.1.0))

-- base64 of any bytes is decoded to these bytes.
pub base64decode-base64encode : (xs : List ℕ) → All IsByte xs → base64decode (base64encode xs) ≡ xs
unfolding base64decode base64encode
base64decode-base64encode xs h =
    ap (λ o. elim o [ none ↦ [] | some bytes ↦ bytes ])
      (decode-encode (length xs) (length (encode_groups (length xs) xs)) xs h (omega arith)
        (omega arith))
