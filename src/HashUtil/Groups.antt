-- ===== src/HashUtil/Groups.antt =====
-- The characters of base64 and the bits of a group, both ways.
use ynwad.Base.{
  ℕ, zero, suc, ◌+◌, ◌*◌, ◌/◌, ◌%◌, ◌^◌, ◌<◌, ◌≡◌, refl, ap, ◌∙◌, Bool, true, false, not, ◌&&◌,
  Option, none, some, List, [], ◌∷◌, ◌==◌, bit_or, ==_iff, if◌then◌else◌, arith,
}
use ynwad.Base.Bits.{bit_or_high}
use ynwad.HashUtil.{alphabet, sextet, gather, decode_char, gather_text}

-- A test of every character's place.
passes : (ℕ → Bool) → ℕ → Bool
passes test zero = true
passes test (suc top) = if test top then passes test top else false

passes-lt : (test : ℕ → Bool) (top n : ℕ) → n < top → passes test top ≡ true → test n ≡ true
unfolding passes
passes-lt test zero n below e = absurd (omega arith)
passes-lt test (suc top) n below e = ground (arith, passes-lt test top n)

abbrev decodes : ℕ → Bool
decodes n =
    elim (decode_char (sextet n)) [ none ↦ false | some v ↦ v == n ] && not (sextet n == b'=')

decodes_table : passes decodes 64 ≡ true
unfolding passes decode_char alphabet
decodes_table = refl

value_of : (o : Option ℕ) (n : ℕ) → elim o [ none ↦ false | some v ↦ v == n ] ≡ true → o ≡ some n
value_of none n h = absurd (ground (arith, h))
value_of (some v) n h = ap some ((==_iff v n).0 h)

-- Each of the 64 characters stands for its place, and none is the padding.
sextet_lem : (n : ℕ) → n < 64 → (decode_char (sextet n) ≡ some n) × ((sextet n == b'=') ≡ false)
sextet_lem n h =
    let both = passes-lt decodes 64 n h decodes_table in
    (value_of (decode_char (sextet n)) n (ground (arith, both)), ground (arith, both))

gather_text-char :
    (left n c packed : ℕ) (text : List ℕ)
    → decode_char c ≡ some n
    → (c == b'=') ≡ false
    → gather_text (suc left) 0 packed (c ∷ text) ≡ gather_text left 0 (bit_or n (packed * 64)) text
unfolding gather_text
gather_text-char left n c packed text value other =
    rw (other, gather_text) (rw (value, gather_text) refl)

pub gather_text-sextet :
    (left n packed : ℕ) (text : List ℕ)
    → n < 64
    → gather_text (suc left) 0 packed (sextet n ∷ text) ≡ gather_text left 0 (n + packed * 64) text
gather_text-sextet left n packed text h =
    let (value, other) = sextet_lem n h in
    gather_text-char left n (sextet n) packed text value other
    ∙ ap (λ t. gather_text left 0 t text) (bit_or_high 6 n packed h)

pub gather_text-pad :
    (left padding packed : ℕ) (text : List ℕ)
    → gather_text (suc left) padding packed (b'=' ∷ text)
      ≡ gather_text left (padding + 1) (packed * 64) text
unfolding gather_text
gather_text-pad left padding packed text = refl

pub gather_text-full :
    (padding packed : ℕ) (text : List ℕ)
    → gather_text 0 padding packed text ≡ some (0, padding, packed, text)
unfolding gather_text
gather_text-full padding packed [] = refl
gather_text-full padding packed (c ∷ text) = refl

pub gather-byte :
    (left packed x : ℕ) (xs : List ℕ)
    → x < 256
    → gather (suc left) packed (x ∷ xs) ≡ gather left (x + packed * 256) xs
unfolding gather
gather-byte left packed x xs h = rw (bit_or_high 8 x packed h)

pub gather-full : (packed : ℕ) (xs : List ℕ) → gather 0 packed xs ≡ (0, packed, xs)
unfolding gather
gather-full packed [] = refl
gather-full packed (x ∷ xs) = refl

-- The four characters of 24 bits give these bits.
pub gather_text-bits :
    (n : ℕ) (text : List ℕ)
    → n < 2 ^ 24
    → gather_text 4 0 0 (
        sextet (n / 2 ^ 18)
        ∷ sextet (n / 2 ^ 12 % 64)
        ∷ sextet (n / 2 ^ 6 % 64)
        ∷ sextet (n % 64)
        ∷ text)
      ≡ some (0, 0, n, text)
gather_text-bits n text h =
    gather_text-sextet 3 (n / 2 ^ 18) 0 _ (omega arith)
    ∙ gather_text-sextet 2 (n / 2 ^ 12 % 64) _ _ (omega arith)
    ∙ gather_text-sextet 1 (n / 2 ^ 6 % 64) _ _ (omega arith)
    ∙ gather_text-sextet 0 (n % 64) _ text (omega arith)
    ∙ gather_text-full 0 _ text
    ∙ ap (λ t. some (0, 0, t, text)) (omega arith)

pub gather_text-two :
    (n : ℕ)
    → n < 2 ^ 16
    → gather_text 4 0 0 (
        sextet (n * 256 / 2 ^ 18)
        ∷ sextet (n * 256 / 2 ^ 12 % 64)
        ∷ sextet (n * 256 / 2 ^ 6 % 64)
        ∷ b'='
        ∷ [])
      ≡ some (0, 1, n * 256, [])
gather_text-two n h =
    gather_text-sextet 3 (n * 256 / 2 ^ 18) 0 _ (omega arith)
    ∙ gather_text-sextet 2 (n * 256 / 2 ^ 12 % 64) _ _ (omega arith)
    ∙ gather_text-sextet 1 (n * 256 / 2 ^ 6 % 64) _ _ (omega arith)
    ∙ gather_text-pad 0 0 _ []
    ∙ gather_text-full 1 _ []
    ∙ ap (λ t. some (0, 1, t, [])) (omega arith)

pub gather_text-one :
    (n : ℕ)
    → n < 2 ^ 8
    → gather_text 4 0 0
        (sextet (n * 65536 / 2 ^ 18) ∷ sextet (n * 65536 / 2 ^ 12 % 64) ∷ b'=' ∷ b'=' ∷ [])
      ≡ some (0, 2, n * 65536, [])
gather_text-one n h =
    gather_text-sextet 3 (n * 65536 / 2 ^ 18) 0 _ (omega arith)
    ∙ gather_text-sextet 2 (n * 65536 / 2 ^ 12 % 64) _ _ (omega arith)
    ∙ gather_text-pad 1 0 _ _
    ∙ gather_text-pad 0 1 _ []
    ∙ gather_text-full 2 _ []
    ∙ ap (λ t. some (0, 2, t, [])) (omega arith)

pub gather-none : (left packed : ℕ) → gather left packed [] ≡ (left, packed, [])
unfolding gather
gather-none zero packed = refl
gather-none (suc left) packed = refl
