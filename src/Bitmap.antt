-- ===== src/Bitmap.antt =====
-- The bitmap of sylar/ds/bitmap.cc, with `base_type` as it is built, `uint16_t`: a word has 14 bits of
-- the map, and its two upper bits are marks of the compressed form.
-- An operation gives its result, throws `std::logic_error`, or has a fault: an access beyond the
-- words, a failed assertion. `malloc` succeeds, also with no bytes.
pub mod Ops
mod Valid
mod Words
mod Plain
pub mod Scan
pub mod Walk
mod Visit
mod Steps
mod Foreach
pub mod Cursor
mod Seek
mod Next
mod Cross
pub mod Wire
mod Tests
pub mod Packed
mod Emit
mod Count
mod Branch
mod Loop
mod Transparent
mod Runs
mod RoundTrip
use ynwad.Base.{
  ℕ, zero, suc, ◌+◌, ◌-◌, ◌*◌, ◌/◌, ◌%◌, ◌^◌, Bool, true, false, not, ◌&&◌, ◌||◌, List, [], ◌∷◌,
  Option, none, some, ltb, ◌==◌, if◌then◌else◌, bit_and, bit_or, length, get_elem?, replicate,
}
use ynwad.Base

pub data Outcome {ℓ} (A : Type ℓ) : Type ℓ where
  done : A → Outcome A
  throws : Outcome A
  fault : Outcome A

infixl 5 ◌>>=◌
abbrev pub ◌>>=◌ {ℓ κ} : {A : Type ℓ} {B : Type κ} → Outcome A → (A → Outcome B) → Outcome B
◌>>=◌ m f = elim m [ done a ↦ f a | throws ↦ throws | fault ↦ fault ]

-- A missing word is an access out of bounds.
abbrev pub in_bounds {ℓ} : {A : Type ℓ} → Option A → Outcome A
in_bounds none = fault
in_bounds (some a) = done a

abbrev pub value_size : ℕ
value_size = 14

abbrev pub compress_mask : ℕ
compress_mask = 0x8000

abbrev pub value_mask : ℕ
value_mask = 0x4000

abbrev pub count_mask : ℕ
count_mask = 0x3fff

abbrev pub not_value_mask : ℕ
not_value_mask = 0xbfff

-- The tables that `init` fills.
abbrev pub pos_of : ℕ → ℕ
pos_of i = 2 ^ i

abbrev pub npos_of : ℕ → ℕ
npos_of i = 0xffff - 2 ^ i

abbrev pub mask_of : ℕ → ℕ
mask_of i = 2 ^ i - 1

-- `is_null` says that `m_data` is NULL; `m_dataSize` is the number of words.
pub record Bitmap : Type 0 where
  pub compressed : Bool
  pub size : ℕ
  pub words : List ℕ
  pub is_null : Bool

abbrev pub data_size : Bitmap → ℕ
data_size b = length b.words

-- `ceil(size * 1.0 / VALUE_SIZE)`: a quotient of 32-bit numbers is exact enough in a `double`.
abbrev pub words_for : ℕ → ℕ
words_for size = (size + 13) / 14

-- `Bitmap(size, def)`: each byte is `def`.
unfoldable pub new_bitmap : ℕ → ℕ → Bitmap
new_bitmap size def = record {
  compressed = false;
  size = size;
  words = replicate (words_for size) (def + def * 256);
  is_null = words_for size == 0;
}

-- `Bitmap(b)` and `operator=`
unfoldable pub copy : Bitmap → Bitmap
copy b = record b { is_null = false }

-- `tmp & POS[n]`
abbrev pub has_bit : ℕ → ℕ → Bool
has_bit w n = not (bit_and w (pos_of n) == 0)

unfoldable pub get : ℕ → Bitmap → Outcome Bool
get idx b = do w ← in_bounds (get_elem? b.words (idx / 14)); done (has_bit w (idx % 14))

abbrev pub set_bit : ℕ → ℕ → Bool → ℕ
set_bit w n v = if v then bit_or w (pos_of n) else bit_and w (npos_of n)

unfoldable pub set : ℕ → Bool → Bitmap → Outcome Bitmap
set idx v b = do
  w ← in_bounds (get_elem? b.words (idx / 14))
  done (record b { words = Base.set b.words (idx / 14) (set_bit w (idx % 14) v) })

-- The loop of `set(from, size, v)`: `n` words from `i` on.
unfoldable pub fill : ℕ → ℕ → ℕ → List ℕ → Outcome (List ℕ)
fill zero i w ws = done ws
fill (suc n) i w ws = if ltb i (length ws) then fill n (i + 1) w (Base.set ws i w) else fault

-- The whole words that a range of bits covers; the range has to begin and end with a word.
unfoldable pub word_range : ℕ → ℕ → Outcome (ℕ × ℕ)
word_range from size =
    let end = (from + size) % 2 ^ 32 in
    if (from % 14 == 0) && (end % 14 == 0) then done (from / 14, end / 14 - from / 14) else fault

unfoldable pub set_range : ℕ → ℕ → Bool → Bitmap → Outcome Bitmap
set_range from size v b = if size == 0 then done b else do
  r ← word_range from size
  ws ← fill r.1 r.0 (if v then count_mask else 0) b.words
  done (record b { words = ws })

-- The loop of `get(from, size, v)`.
unfoldable pub find_word : ℕ → ℕ → Bool → List ℕ → Outcome Bool
find_word zero i v ws = done false
find_word (suc n) i v ws =
    let rest = find_word n (i + 1) v ws in
    do
      w ← in_bounds (get_elem? ws i)
      let blank = bit_and w count_mask == 0
      if (if v then not blank else blank) then done true else rest

unfoldable pub get_range : ℕ → ℕ → Bool → Bitmap → Outcome Bool
get_range from size v b =
    if size == 0 then done false else do r ← word_range from size; find_word r.1 r.0 v b.words
