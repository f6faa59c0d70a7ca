-- ===== src/HashUtil.antt =====
-- The text codecs of sylar/util/hash_util.cc: base64, and bytes as hexadecimal digits. A string is the list
-- of its bytes. A thrown `std::invalid_argument` is `none`.
mod Groups
pub mod Base64
pub mod Hex
mod Tests
use ynwad.Base.{
  ℕ, zero, suc, ◌+◌, ◌-◌, ◌*◌, ◌/◌, ◌%◌, ◌^◌, Bool, true, false, not, ◌&&◌, ◌||◌, Option, none,
  some, List, [], ◌∷◌, ◌++◌, length, get_or, replicate, ltb, leb, ◌==◌, if◌then◌else◌, bit_or,
}
use Prim.Native.Char.{code}
use Prim.Native.String.{String}

abbrev pub codes : String → List ℕ
codes String.[] = []
codes (String.◌∷◌ c s) = code c ∷ codes s

abbrev pub between : ℕ → ℕ → ℕ → Bool
between low high c = leb low c && leb c high

unfoldable pub alphabet : List ℕ
alphabet = codes "ABCDEFGHIJKLMNOPQRSTUVWXYZabcdefghijklmnopqrstuvwxyz0123456789+/"

abbrev pub sextet : ℕ → ℕ
sextet n = get_or alphabet n 0

-- The bytes of a group: how many of three are missing, the bits so far, and the bytes behind it.
unfoldable pub gather : ℕ → ℕ → List ℕ → ℕ × ℕ × List ℕ
gather left packed [] = (left, packed, [])
gather zero packed (x ∷ xs) = (zero, packed, x ∷ xs)
gather (suc left) packed (x ∷ xs) = gather left (bit_or x (packed * 256)) xs

-- The characters of a group in which `left` bytes are missing.
unfoldable pub group_text : ℕ → ℕ → List ℕ
group_text left packed =
    let padding : ℕ = if left == 1 then 1 else if left == 2 then 2 else 0 in
    let bits = packed * 256 ^ left in
    sextet (bits / 2 ^ 18)
    ∷ sextet (bits / 2 ^ 12 % 64)
    ∷ ((if padding == 2 then [] else sextet (bits / 2 ^ 6 % 64) ∷ [])
        ++ ((if padding == 0 then sextet (bits % 64) ∷ [] else []) ++ replicate padding b'='))

-- The loop of `base64encode`, with as much fuel as there are bytes.
unfoldable pub encode_groups : ℕ → List ℕ → List ℕ
encode_groups fuel [] = []
encode_groups zero (x ∷ xs) = []
encode_groups (suc fuel) (x ∷ xs) =
    let group = gather 3 0 (x ∷ xs) in group_text group.0 group.1 ++ encode_groups fuel group.2

unfoldable pub base64encode : List ℕ → List ℕ
base64encode text = encode_groups (length text) text

unfoldable pub decode_char : ℕ → Option ℕ
decode_char c =
    if between b'A' b'Z' c
    then some (c - b'A')
    else if between b'a' b'z' c
    then some (c - b'a' + 26)
    else if between b'0' b'9' c
    then some (c - b'0' + 52)
    else if c == b'+'
    then some 62
    else if c == b'/'
    then some 63
    else none

-- The characters of a group: how many of four are missing, the padding, the bits, and what is behind it.
unfoldable pub gather_text : ℕ → ℕ → ℕ → List ℕ → Option (ℕ × ℕ × ℕ × List ℕ)
gather_text left padding packed [] = some (left, padding, packed, [])
gather_text zero padding packed (c ∷ text) = some (zero, padding, packed, c ∷ text)
gather_text (suc left) padding packed (c ∷ text) = elim (c == b'=') [
  | true ↦ gather_text left (padding + 1) (packed * 64) text
  | false ↦ if ltb 0 padding then none else elim (decode_char c) [
    | none ↦ none
    | some v ↦ gather_text left padding (bit_or v (packed * 64)) text
  ]
]

-- The bytes of a group.
unfoldable pub group_bytes : ℕ → ℕ → List ℕ
group_bytes padding packed =
    (packed / 2 ^ 16 % 256)
    ∷ ((if padding == 2 then [] else (packed / 2 ^ 8 % 256) ∷ [])
        ++ (if padding == 0 then (packed % 256) ∷ [] else []))

abbrev pub is_empty : List ℕ → Bool
is_empty [] = true
is_empty (x ∷ xs) = false

-- The tests behind a group.
abbrev pub is_group : ℕ → ℕ → List ℕ → Bool
is_group left padding rest =
    left == 0 && not (ltb 0 padding && not (is_empty rest)) && not (ltb 2 padding)

-- The loop of `base64decode`; `none` is `return "";`.
unfoldable pub decode_groups : ℕ → List ℕ → Option (List ℕ)
decode_groups fuel [] = some []
decode_groups zero (c ∷ text) = none
decode_groups (suc fuel) (c ∷ text) = elim (gather_text 4 0 0 (c ∷ text)) [
  | none ↦ none
  | some g ↦ elim (is_group g.0 g.1 g.3) [
    | false ↦ none
    | true ↦ elim (decode_groups fuel g.3) [
      | none ↦ none
      | some bytes ↦ some (group_bytes g.1 g.2 ++ bytes)
    ]
  ]
]

unfoldable pub base64decode : List ℕ → List ℕ
base64decode text = elim (decode_groups (length text) text) [ none ↦ [] | some bytes ↦ bytes ]

-- `c = (c > 9) ? c + 'a' - 10 : c + '0';`
unfoldable pub hex_digit : ℕ → ℕ
hex_digit c = if ltb 9 c then c + b'a' - 10 else c + b'0'

unfoldable pub hexstring_from_data : List ℕ → List ℕ
hexstring_from_data [] = []
hexstring_from_data (x ∷ xs) = hex_digit (x / 16 % 16) ∷ hex_digit (x % 16) ∷ hexstring_from_data xs

-- The `switch` on a character.
unfoldable pub hex_value : ℕ → Option ℕ
hex_value c =
    if between b'a' b'f' c
    then some (c - b'a' + 10)
    else if between b'A' b'F' c
    then some (c - b'A' + 10)
    else if between b'0' b'9' c
    then some (c - b'0')
    else none

-- The loop over pairs of characters, of a length that is even.
unfoldable pub hex_bytes : List ℕ → Option (List ℕ)
hex_bytes [] = some []
hex_bytes (c ∷ []) = none
hex_bytes (c ∷ d ∷ text) = elim (hex_value c) [
  | none ↦ none
  | some high ↦ elim (hex_value d) [
    | none ↦ none
    | some low ↦ elim (hex_bytes text) [
      | none ↦ none
      | some bytes ↦ some (bit_or low (high * 16 % 256) ∷ bytes)
    ]
  ]
]

unfoldable pub data_from_hexstring : List ℕ → Option (List ℕ)
data_from_hexstring text = if length text % 2 == 0 then hex_bytes text else none
