-- ===== src/Bitmap/Tests.antt =====
-- Runs of the bitmap, and the theorems at concrete inputs.
use ynwad.Base.{
  ℕ, zero, suc, ◌+◌, ◌-◌, ◌*◌, ◌^◌, ◌≤◌, ◌<◌, ◌≡◌, refl, Bool, true, false, not, ◌&&◌, ◌||◌, [],
  ◌∷◌, ◌==◌, if◌then◌else◌, length, All, arith,
}
use ynwad.Bitmap.{Bitmap, done, ◌>>=◌, get, set, words_for, has_bit}
use ynwad.Bitmap.Ops.{and_assign, or_assign}
use ynwad.Bitmap.Packed.{compress, uncompress, compress_words, write_count, end_run}
use ynwad.Bitmap.Scan.{any, any_packed, cross, get_count, count_packed}
use ynwad.Bitmap.Walk.{foreach}
use ynwad.Bitmap.Valid.{IsPlain}
use ynwad.Bitmap.Plain.{set-get, assigns-get}
use ynwad.Bitmap.Branch.{length-compress_words}
use ynwad.Bitmap.RoundTrip.{uncompress-compress, assigns-compress}
use ynwad.Bitmap.Visit.{positions, visit}
use ynwad.Bitmap.Foreach.{foreach-visit}
use ynwad.Bitmap.Cross.{cross-meet, meet}
use ynwad.Bitmap.Wire.{write_to, read_from, write_to-read_from}
use ynwad.ByteArray
use ynwad.ByteArray.{ByteArray, big, ◌>>◌, set_position}
use ynwad.Base.{some}
use ynwad.Bitmap.Cursor.{Iterator, next, begin}
use ynwad.Bitmap.Seek.{first}
use ynwad.Bitmap.Next.{stands, next-first}

-- 60 bits in five words: the bits 1, 14 to 41, and 59.
abbrev some_bits : Bitmap
some_bits = record {
  compressed = false;
  size = 60;
  words = 2 ∷ 0x3fff ∷ 0x3fff ∷ 0 ∷ 8 ∷ [];
  is_null = false;
}

abbrev other_bits : Bitmap
other_bits = record some_bits { words = 3 ∷ 0 ∷ 1 ∷ 0 ∷ 0 ∷ [] }

some_bits-IsPlain : IsPlain some_bits
some_bits-IsPlain = record {
  plain = refl;
  narrow = omega arith;
  full = refl;
  each = (omega arith, (omega arith, (omega arith, (omega arith, (omega arith, tt)))));
}

other_bits-IsPlain : IsPlain other_bits
other_bits-IsPlain = record {
  plain = refl;
  narrow = omega arith;
  full = refl;
  each = (omega arith, (omega arith, (omega arith, (omega arith, (omega arith, tt)))));
}

some_bits_data : All (λ w. w < 2 ^ 14) some_bits.words
some_bits_data = (omega arith, (omega arith, (omega arith, (omega arith, (omega arith, tt)))))

other_bits_data : All (λ w. w < 2 ^ 14) other_bits.words
other_bits_data = (omega arith, (omega arith, (omega arith, (omega arith, (omega arith, tt)))))

set-get_example :
    (set 20 false some_bits >>= get 20) ≡ (if 20 == 20 then done false else get 20 some_bits)
set-get_example = set-get 20 20 false some_bits some_bits-IsPlain (omega arith) (omega arith)

assigns-get_example :
    ((and_assign some_bits other_bits >>= get 28)
      ≡ (get 28 some_bits >>= (λ x. get 28 other_bits >>= (λ y. done (x && y)))))
    × ((or_assign some_bits other_bits >>= get 28)
        ≡ (get 28 some_bits >>= (λ x. get 28 other_bits >>= (λ y. done (x || y)))))
assigns-get_example =
    assigns-get 28 some_bits other_bits some_bits-IsPlain other_bits-IsPlain refl (omega arith)

compress_run : compress_words false 0 some_bits.words ≡ 2 ∷ 0xc01c ∷ 0 ∷ 8 ∷ []
unfolding compress_words write_count end_run
compress_run = refl

length-compress_words_example :
    length (compress_words false (14 * 0) some_bits.words) ≤ 0 + length some_bits.words
length-compress_words_example = length-compress_words false 0 some_bits.words some_bits_data

uncompress-compress_example :
    uncompress (compress some_bits)
    ≡ done (record some_bits { is_null = words_for some_bits.size == 0 })
uncompress-compress_example = uncompress-compress some_bits some_bits-IsPlain some_bits_data

assigns-compress_example :
    (and_assign other_bits (compress some_bits) ≡ and_assign other_bits some_bits)
    × (or_assign other_bits (compress some_bits) ≡ or_assign other_bits some_bits)
assigns-compress_example =
    assigns-compress other_bits some_bits other_bits-IsPlain some_bits-IsPlain other_bits_data
      some_bits_data refl

-- Three bits of a bitmap of four.
abbrev few_bits : Bitmap
few_bits = record { compressed = false; size = 4; words = 0xd ∷ []; is_null = false }

few_bits-IsPlain : IsPlain few_bits
few_bits-IsPlain = record {
  plain = refl;
  narrow = omega arith;
  full = refl;
  each = (omega arith, tt);
}

few : ℕ → Bool
few i = has_bit 0xd i

few_bits-get : (i : ℕ) → i < 4 → get i few_bits ≡ done (few i)
unfolding get few
few_bits-get zero h = refl
few_bits-get (suc zero) h = refl
few_bits-get (suc (suc zero)) h = refl
few_bits-get (suc (suc (suc zero))) h = refl
few_bits-get (suc (suc (suc (suc i)))) h = absurd (omega (arith, h))

-- The sum of the first two positions.
abbrev two_of : ℕ → ℕ × ℕ → (ℕ × ℕ) × Bool
two_of i (sum, left) = ((sum + i, left - 1), not (left == 1))

foreach-visit_example :
    foreach two_of few_bits (0, 2) ≡ done (visit two_of (positions few 0 few_bits.size) (0, 2))
foreach-visit_example = foreach-visit two_of few few_bits (0, 2) few_bits-IsPlain few_bits-get

next-first_example :
    ((it : Iterator) × (begin few_bits ≡ done it)
      × (stands it ≡ first (positions few 0 few_bits.size)))
    × ((it : Iterator) × (next (record { after_pos = 2; map = few_bits }) ≡ done it)
        × (stands it ≡ first (positions few 2 (few_bits.size - 2)))
        × (it.map ≡ few_bits))
next-first_example = next-first few few_bits few_bits-IsPlain few_bits-get 2 (omega arith)

cross-meet_example : cross some_bits other_bits ≡ done (meet some_bits.words other_bits.words)
cross-meet_example = cross-meet some_bits other_bits some_bits-IsPlain other_bits-IsPlain refl

-- A compressed run of 28 bits of 0: `any` sees the low byte of its length.
any_of_zeros :
    any (record { compressed = true; size = 28; words = 0x801c ∷ []; is_null = false }) ≡ done true
unfolding any any_packed
any_of_zeros = refl

-- A compressed run of 16394 bits of 1 takes two words; `getCount` adds the two parts of its length up.
count_of_ones :
    get_count
      (record { compressed = true; size = 16394; words = 0xc00a ∷ 0xc001 ∷ []; is_null = false })
    ≡ done 11
unfolding get_count count_packed
count_of_ones = refl

-- A byte buffer of blocks of eight bytes.
abbrev eight : ByteArray
eight = record {
  base_size = 8;
  position = 0;
  capacity = 8;
  size = 0;
  endian = big;
  nodes = (0 ∷ 0 ∷ 0 ∷ 0 ∷ 0 ∷ 0 ∷ 0 ∷ 0 ∷ []) ∷ [];
  cur = 0;
  fresh = λ i. 0;
}

eight-IsValid : ByteArray.Valid.IsValid eight
eight-IsValid = omega arith

write_to-read_from_example :
    (b' : ByteArray) × ((write_to some_bits >> (set_position 0 >> read_from)) eight
      ≡ ByteArray.done (some (record some_bits { is_null = false })) b')
    × ByteArray.Valid.IsValid b'
write_to-read_from_example =
    write_to-read_from some_bits eight eight-IsValid (omega arith) (omega arith) (omega arith)
      some_bits-IsPlain.each
