-- ===== src/HashUtil/Tests.antt =====
-- Texts of RFC 4648, and the theorems at concrete inputs.
use ynwad.Base.{◌≡◌, refl, none, some, [], ◌∷◌, arith}
use ynwad.HashUtil.{
  codes, alphabet, gather, group_text, encode_groups, base64encode, decode_char, gather_text,
  group_bytes, decode_groups, base64decode, hex_value, hexstring_from_data, hex_bytes,
  data_from_hexstring,
}
use ynwad.HashUtil.Base64.{base64decode-base64encode}
use ynwad.HashUtil.Hex.{data_from_hexstring-hexstring_from_data}

foobar : base64encode (codes "foobar") ≡ codes "Zm9vYmFy"
unfolding base64encode encode_groups gather group_text alphabet
foobar = refl

fooba : base64encode (codes "fooba") ≡ codes "Zm9vYmE="
unfolding base64encode encode_groups gather group_text alphabet
fooba = refl

foob_decoded : base64decode (codes "Zm9vYg==") ≡ codes "foob"
unfolding base64decode decode_groups gather_text decode_char group_bytes
foob_decoded = refl

inner_padding : base64decode (codes "Zg==Zg==") ≡ []
unfolding base64decode decode_groups gather_text decode_char group_bytes
inner_padding = refl

-- A group of one character and padding has no byte.
two_of_padding : base64decode (codes "A===") ≡ []
unfolding base64decode decode_groups gather_text decode_char group_bytes
two_of_padding = refl

both_cases : data_from_hexstring (codes "fF09") ≡ some (255 ∷ 9 ∷ [])
unfolding data_from_hexstring hex_bytes hex_value
both_cases = refl

odd_length : data_from_hexstring (codes "fF0") ≡ none
unfolding data_from_hexstring
odd_length = refl

base64decode-base64encode_example :
    base64decode (base64encode (0 ∷ 255 ∷ 7 ∷ 16 ∷ [])) ≡ 0 ∷ 255 ∷ 7 ∷ 16 ∷ []
base64decode-base64encode_example =
    base64decode-base64encode (0 ∷ 255 ∷ 7 ∷ 16 ∷ [])
      (omega arith, (omega arith, (omega arith, (omega arith, tt))))

data_from_hexstring-hexstring_from_data_example :
    data_from_hexstring (hexstring_from_data (0 ∷ 255 ∷ [])) ≡ some (0 ∷ 255 ∷ [])
data_from_hexstring-hexstring_from_data_example =
    data_from_hexstring-hexstring_from_data (0 ∷ 255 ∷ []) (omega arith, (omega arith, tt))
