-- ===== src/Encoding/Tests.antt =====
-- The codecs at concrete keys.
use wgtcp.Base.{ℕ, ◌≡◌, ◌↔◌, refl, List, [], ◌∷◌, ◌++◌, replicate, true, false, arith, length, some}
use wgtcp.Encoding.{
  key_to_base64, key_from_base64, key_to_hex, key_from_hex, encode_base64, encode_char,
  decode_base64, decode_char, accepts, hex_digit, key_len, key_is_zero,
}
use wgtcp.Encoding.Base64
use wgtcp.Encoding.Hex
use wgtcp.Encoding.Hex.{IsBytes, read_hex}
use wgtcp.Encoding.Zero.{IsZeros, key_is_zero_iff}

-- "TWFu" of RFC 4648.
encode_man : encode_base64 77 97 110 ≡ b'T' ∷ b'W' ∷ b'F' ∷ b'u' ∷ []
unfolding encode_base64 encode_char
encode_man = refl

abbrev a_key : List ℕ
a_key = 8 ∷ 200 ∷ replicate 29 113 ++ 64 ∷ []

abbrev zero_key : List ℕ
zero_key = replicate 32 0

abbrev zero_text : List ℕ
zero_text = replicate 43 b'A' ++ b'=' ∷ []

abbrev mixed_hex : List ℕ
mixed_hex = b'A' ∷ b'f' ∷ replicate 62 b'0'

abbrev mixed_key : List ℕ
mixed_key = 0xaf ∷ replicate 31 0

-- The decoder refuses a text whose last character before the sign has spare bits set.
spare_bits : (key_from_base64 true [] (replicate 42 b'A' ++ b'B' ∷ b'=' ∷ [])).0 ≡ false
unfolding key_from_base64 decode_base64 decode_char accepts
spare_bits = refl

decodes : (key_from_base64 false [] (zero_text)) ≡ (true, zero_key)
unfolding key_from_base64 decode_base64 decode_char accepts
decodes = refl

zeros : key_to_base64 (zero_key) ≡ zero_text
unfolding key_to_base64 encode_base64 encode_char
zeros = refl

hex_either_case : key_from_hex [] (mixed_hex) ≡ (true, mixed_key)
unfolding key_from_hex hex_digit accepts
hex_either_case = refl

key_from_base64_iff_example :
    (key_from_base64 true [] (zero_text) ≡ (true, zero_key))
    ↔ (IsBytes (zero_key) × (length (zero_key) ≡ key_len) × (key_to_base64 (zero_key) ≡ zero_text))
key_from_base64_iff_example =
    Base64.key_from_base64_iff true [] (zero_text) (zero_key) (omega arith)

key_from_hex_iff_example :
    (key_from_hex [] (mixed_hex) ≡ (true, mixed_key))
    ↔ ((length (mixed_hex) ≡ 64) × (read_hex (mixed_hex) ≡ some (mixed_key)))
key_from_hex_iff_example = Hex.key_from_hex_iff [] (mixed_hex) (mixed_key) (omega arith)

from_hex-to_hex_example : key_from_hex [] (key_to_hex a_key) ≡ (true, a_key)
from_hex-to_hex_example = Hex.from_hex-to_hex [] a_key (omega arith) refl

key_is_zero_iff_example : (key_is_zero zero_key ≡ true) ↔ IsZeros zero_key
key_is_zero_iff_example = key_is_zero_iff zero_key (omega arith)
