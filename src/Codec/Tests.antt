-- ===== src/Codec/Tests.antt =====
-- Runs of the codecs on buffers of three-byte blocks, and the theorems at concrete inputs.
use ynwad.Base.{ℕ, ◌+◌, ◌^◌, ◌<◌, ◌≡◌, refl, List, [], ◌∷◌, ◌++◌, length, splice, arith}
use ynwad.ByteArray.{ByteArray, big, done, fault, null_deref, ◌>>◌, set_position}
use ynwad.ByteArray.Valid.{IsValid, contents}
use ynwad.Codec.{
  write_fixed, read_fixed, write_uint32, read_uint32, to_bytes, encode_zigzag, decode_zigzag,
  read_string_fixed, write_string_vint, read_string_vint,
}
use ynwad.Codec.Fixed.{wire, fixed-round_trip}
use ynwad.Codec.Varint.{vint, uint32-round_trip}
use ynwad.Codec.Zigzag.{decode_zigzag-encode_zigzag}
use ynwad.Codec.Text.{string_vint-round_trip, empty_string_fault}
use mathlib.Core.List.{flatten}

abbrev three : ByteArray
three = record {
  base_size = 3;
  position = 0;
  capacity = 3;
  size = 0;
  endian = big;
  nodes = (7 ∷ 7 ∷ 7 ∷ []) ∷ [];
  cur = 0;
  fresh = λ i. 7;
}

three-IsValid : IsValid three
three-IsValid = omega arith

-- A buffer that ends with the length of an empty string.
abbrev ends_empty : ByteArray
ends_empty = record three { position = 1; size = 3; nodes = (5 ∷ 0 ∷ 0 ∷ []) ∷ [] }

ends_empty-IsValid : IsValid ends_empty
ends_empty-IsValid = omega arith

abbrev hello : List ℕ
hello = 104 ∷ 101 ∷ 108 ∷ 108 ∷ 111 ∷ []

fixed-round_trip_example :
    (b' : ByteArray) × ((write_fixed 4 305419896 >> (set_position 0 >> read_fixed 4)) three
      ≡ done 305419896 b')
    × IsValid b'
    × (b'.position ≡ 0 + length (wire 4 305419896 big))
    × (contents b' ≡ splice (contents three) 0 (wire 4 305419896 big))
fixed-round_trip_example =
    fixed-round_trip 4 305419896 three three-IsValid (omega arith) (omega arith)

uint32-round_trip_example :
    (b' : ByteArray) × ((write_uint32 300 >> (set_position 0 >> read_uint32)) three ≡ done 300 b')
    × IsValid b'
    × (b'.position ≡ 0 + length (vint 4 300))
    × (contents b' ≡ splice (contents three) 0 (vint 4 300))
uint32-round_trip_example = uint32-round_trip 300 three three-IsValid (omega arith)

decode_zigzag-encode_zigzag_example :
    (encode_zigzag 31 4294967291 < 2 ^ 32)
    × (decode_zigzag 31 (encode_zigzag 31 4294967291) ≡ 4294967291)
decode_zigzag-encode_zigzag_example = decode_zigzag-encode_zigzag 31 4294967291 (omega arith)

string_vint-round_trip_example :
    (b' : ByteArray) × ((write_string_vint hello >> (set_position 0 >> read_string_vint)) three
      ≡ done hello b')
    × IsValid b'
    × (b'.position ≡ 0 + length (vint 9 5 ++ hello))
    × (contents b' ≡ splice (contents three) 0 (vint 9 5 ++ hello))
string_vint-round_trip_example =
    string_vint-round_trip hello three three-IsValid (omega arith) (omega arith)

empty_string_fault_example : read_string_fixed 2 ends_empty ≡ fault null_deref
unfolding wire flatten to_bytes
empty_string_fault_example =
    empty_string_fault 2 ends_empty ends_empty-IsValid (omega arith) refl refl
