-- ===== src/Bitmap/Scan.antt =====
-- What sylar/ds/bitmap.cc asks of a whole bitmap: `any`, `cross`, `getCount`; and `resize`.
use ynwad.Base.{
  ℕ, zero, suc, ◌+◌, ◌-◌, ◌*◌, ◌/◌, ◌%◌, ◌^◌, Bool, true, false, not, ◌&&◌, ◌||◌, List, [], ◌∷◌,
  ◌++◌, Option, none, some, ltb, leb, ◌==◌, if◌then◌else◌, bit_and, bit_or, length, replicate, take,
  get_elem?,
}
use ynwad.Base
use ynwad.Bitmap.{
  Bitmap, Outcome, done, throws, fault, ◌>>=◌, in_bounds, compress_mask, value_mask, count_mask,
  mask_of, has_bit, words_for, data_size, get_range,
}
use ynwad.Bitmap.Ops.{pack64, run_count}
use ynwad.Bitmap.Packed.{popcount, count_bits}

-- The loop of `any` over the first `n` words.
unfoldable pub any_word : ℕ → List ℕ → Outcome Bool
any_word zero ws = done false
any_word (suc n) [] = fault
any_word (suc n) (w ∷ ws) = if w == 0 then any_word n ws else done true

-- The loop of `any` over compressed words, each cut to a `uint8_t`.
unfoldable pub any_packed : List ℕ → Bool
any_packed [] = false
any_packed (w ∷ ws) =
    let cur = w % 2 ^ 8 in
    let rest = any_packed ws in
    if bit_and cur compress_mask == 0
    then (if cur == 0 then rest else true)
    else if bit_and cur value_mask == 0
    then rest
    else true

unfoldable pub any : Bitmap → Outcome Bool
any b = if b.is_null then done false else if b.compressed then done (any_packed b.words) else do
  found ← any_word ((data_size b + 2 ^ 32 - 1) % 2 ^ 32) b.words
  if found then done true else do
    last ← in_bounds (get_elem? b.words ((data_size b + 2 ^ 32 - 1) % 2 ^ 32))
    done (not (bit_and last (mask_of (b.size % 14)) == 0))

-- The word that was the last one before `resize`, with the new bits after the old ones.
abbrev pub extend : ℕ → Bool → ℕ → ℕ
extend left v w = if v then bit_or w (mask_of left) else bit_and w (mask_of left)

unfoldable pub resize : ℕ → Bool → Bitmap → Outcome Bitmap
resize size v b =
    if b.compressed
    then throws
    else if ltb (data_size b) (words_for size)
    then (do
      w ← in_bounds (get_elem? b.words ((data_size b + 2 ^ 32 - 1) % 2 ^ 32))
      let grown = b.words ++ replicate (words_for size - data_size b) (if v then 0xffff else 0)
      done (record {
        compressed = false;
        size = size;
        words = Base.set grown ((data_size b + 2 ^ 32 - 1) % 2 ^ 32) (extend (b.size % 14) v w);
        is_null = false;
      }))
    else done (record {
      compressed = false;
      size = size;
      words = take (words_for size) b.words;
      is_null = b.is_null;
    })

-- The two loops of `normalCross`.
unfoldable pub cross_words : List ℕ → List ℕ → Outcome Bool
cross_words [] bs = done false
cross_words (a ∷ xs) [] = fault
cross_words (a ∷ xs) (b ∷ bs) = if bit_and a b == 0 then cross_words xs bs else done true

unfoldable pub cross_groups : ℕ → List ℕ → List ℕ → Outcome Bool
cross_groups zero xs bs = cross_words xs bs
cross_groups (suc groups) (a ∷ b ∷ c ∷ d ∷ xs) (a' ∷ b' ∷ c' ∷ d' ∷ bs) =
    let left = pack64 a b c d in
    let rest = cross_groups groups xs bs in
    if left == 0 then rest else if bit_and left (pack64 a' b' c' d') == 0 then rest else done true
cross_groups (suc groups) _ _ = fault

-- `compressCross`: the words of the right bitmap are compressed. `fuel` is the number of words.
unfoldable pub compress_cross : ℕ → ℕ → List ℕ → Bitmap → Outcome Bool
compress_cross fuel cur [] a = done false
compress_cross zero cur (w ∷ ws) a = fault
compress_cross (suc fuel) cur (w ∷ ws) a = elim (bit_and w compress_mask == 0) [
  | true ↦ do
    x ← in_bounds (get_elem? a.words (cur / 14))
    if bit_and x (bit_and w count_mask) == 0
        then compress_cross fuel ((cur + 14) % 2 ^ 32) ws a
        else done true
  | false ↦ do
    let v = not (bit_and w value_mask == 0)
    r ← run_count 1 v (bit_and w count_mask) ws
    found ← if v then get_range cur r.0 true a else done false
    if found then done true else compress_cross fuel ((cur + r.0) % 2 ^ 32) r.1 a
]

unfoldable pub cross : Bitmap → Bitmap → Outcome Bool
cross a b =
    if a.compressed
    then done false
    else if b.compressed
    then compress_cross (data_size b) 0 b.words a
    else cross_groups (a.size / 56) a.words b.words

-- `count_bits` of a `uint64_t`
abbrev pub count_bits64 : ℕ → ℕ
count_bits64 w = popcount 32 (w % 2 ^ 32) + popcount 32 (w / 2 ^ 32)

-- The bits of one word that `getCount` counts below the size: how many, and the position behind them.
unfoldable pub count_word : ℕ → ℕ → ℕ → ℕ → ℕ → ℕ × ℕ
count_word size w zero n cur = (0, cur)
count_word size w (suc left) n cur =
    let rest = count_word size w left (n + 1) (cur + 1) in
    if ltb cur size then ((if has_bit w n then 1 else 0) + rest.0, rest.1) else (0, cur)

unfoldable pub count_words : ℕ → ℕ → List ℕ → ℕ
count_words size cur [] = 0
count_words size cur (w ∷ ws) =
    let skipped = count_words size (cur + 14) ws in
    let counted = count_word size w 14 0 cur in
    if w == 0 then skipped else counted.0 + count_words size counted.1 ws

unfoldable pub count_groups : ℕ → ℕ → ℕ → List ℕ → Outcome ℕ
count_groups size zero cur ws = done (count_words size cur ws)
count_groups size (suc groups) cur (a ∷ b ∷ c ∷ d ∷ ws) = do
  rest ← count_groups size groups (cur + 56) ws
  done (count_bits64 (pack64 a b c d) + rest)
count_groups size (suc groups) cur _ = fault

unfoldable pub count_packed : List ℕ → ℕ
count_packed [] = 0
count_packed (w ∷ ws) =
    (if bit_and w compress_mask == 0
      then count_bits w
      else if bit_and w value_mask == 0
      then 0
      else bit_and w count_mask)
    + count_packed ws

unfoldable pub get_count : Bitmap → Outcome ℕ
get_count b =
    if b.compressed
    then done (count_packed b.words % 2 ^ 32)
    else do count ← count_groups b.size (data_size b / 4) 0 b.words; done (count % 2 ^ 32)
