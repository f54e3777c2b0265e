-- ===== src/Encoding.antt =====
-- The constant-time key codecs of tools/encoding.c: base64 and hex.
-- A C string is the list of its characters before the terminating zero, each a number below 256;
-- an int or an unsigned int is its 32-bit pattern, and `signed_char` says how char is promoted.
pub mod Digits
pub mod Groups
pub mod Base64
pub mod Hex
pub mod Zero
mod Tests
use wgtcp.Base.{
  ℕ, zero, suc, ◌+◌, ◌-◌, ◌*◌, ◌/◌, ◌%◌, ◌^◌, ◌≡◌, Bool, true, false, not, ◌||◌, ltb, ◌==◌, bit_and,
  bit_or, bit_xor, if◌then◌else◌, u32, List, [], ◌∷◌, ◌++◌, length, get_elem?, set, Option, none,
  some,
}

abbrev pub u8 : ℕ → ℕ
u8 n = n % 2 ^ 8

abbrev sub32 : ℕ → ℕ → ℕ
sub32 a b = u32 (a + 2 ^ 32 - b)

-- `>> 8` of an unsigned int, and of an int, whose sign comes in from the left.
abbrev shr8 : ℕ → ℕ
shr8 w = w / 2 ^ 8

abbrev sar8 : ℕ → ℕ
sar8 w = if ltb w (2 ^ 31) then w / 2 ^ 8 else w / 2 ^ 8 + (2 ^ 32 - 2 ^ 24)

-- WG_KEY_LEN, WG_KEY_LEN_BASE64 - 1 and WG_KEY_LEN_HEX - 1: 32 bytes, and the texts for them.
abbrev pub key_len : ℕ
key_len = 32

abbrev pub base64_len : ℕ
base64_len = (key_len + 2) / 3 * 4

abbrev pub hex_len : ℕ
hex_len = key_len * 2

-- `1 & ((ret - 1) >> 8)`: whether no error was gathered in `ret`.
pub accepts : ℕ → Bool
accepts ret = bit_and 1 (sar8 (sub32 ret 1)) == 1

pub encode_char : ℕ → ℕ
encode_char v =
    let up = u32 (v + b'A' + bit_and (sar8 (sub32 25 v)) 6) in
    let low = sub32 (sub32 up (bit_and (sar8 (sub32 51 v)) 75)) (bit_and (sar8 (sub32 61 v)) 15) in
    u8 (low + bit_and (sar8 (sub32 62 v)) 3)

pub encode_base64 : ℕ → ℕ → ℕ → List ℕ
encode_base64 a b c =
    encode_char (bit_and (a / 2 ^ 2) 63)
    ∷ encode_char (bit_and (bit_or (a * 2 ^ 4) (b / 2 ^ 4)) 63)
    ∷ encode_char (bit_and (bit_or (b * 2 ^ 2) (c / 2 ^ 6)) 63)
    ∷ encode_char (bit_and c 63)
    ∷ []

-- The ten whole groups, then the last two bytes with a `=` in the fourth place.
pub encode_groups : ℕ → List ℕ → List ℕ
encode_groups (suc n) (a ∷ b ∷ c ∷ key) = encode_base64 a b c ++ encode_groups n key
encode_groups zero (a ∷ b ∷ key) = set (encode_base64 a b 0) 3 b'='
encode_groups other key = []

pub key_to_base64 : List ℕ → List ℕ
unfolding encode_groups
key_to_base64 key = encode_groups (key_len / 3) key

pub high_char : ℕ → ℕ
high_char k = u8 (u32 (87 + k / 2 ^ 4 + bit_and (shr8 (sub32 (k / 2 ^ 4) 10)) 0xFFFF_FFD9))

pub low_char : ℕ → ℕ
low_char k = u8 (u32 (87 + bit_and k 0xf + bit_and (shr8 (sub32 (bit_and k 0xf) 10)) 0xFFFF_FFD9))

pub key_to_hex : List ℕ → List ℕ
key_to_hex [] = []
key_to_hex (k ∷ key) = high_char k ∷ low_char k ∷ key_to_hex key

-- What one character adds to `ret`, and its value.
pub hex_digit : ℕ → ℕ × ℕ
hex_digit c =
    let c_num = u8 (bit_xor c 48) in
    let c_num0 = u8 (shr8 (sub32 c_num 10)) in
    let c_alpha = u8 (sub32 (bit_and c 0xFFFF_FFDF) 55) in
    let c_alpha0 = u8 (shr8 (bit_xor (sub32 c_alpha 10) (sub32 c_alpha 16))) in
    (
      u8 (sar8 (sub32 (bit_or c_num0 c_alpha0) 1)),
      bit_or (bit_and c_num0 c_num) (bit_and c_alpha0 c_alpha),
    )

pub hex_pairs : List ℕ → ℕ → ℕ × List ℕ
hex_pairs (a ∷ b ∷ text) ret =
    let (bad_high, high) = hex_digit a in
    let (bad_low, low) = hex_digit b in
    let (ret', key) = hex_pairs text (bit_or (bit_or ret bad_high) bad_low) in
    (ret', bit_or (u8 (high * 16)) low ∷ key)
hex_pairs other ret = (ret, [])

-- `key` is what the caller's array held: a text of another length leaves it as it is.
pub key_from_hex : List ℕ → List ℕ → Bool × List ℕ
unfolding hex_pairs
key_from_hex key hex =
    if not (length hex == hex_len)
    then (false, key)
    else (let (ret, key') = hex_pairs hex 0 in (accepts ret, key'))

pub key_bits : List ℕ → ℕ
key_bits [] = 0
key_bits (k ∷ key) = bit_or k (key_bits key)

pub key_is_zero : List ℕ → Bool
unfolding key_bits accepts
key_is_zero key = accepts (key_bits key)

module _ (signed_char : Bool) where
  abbrev promoted : ℕ → ℕ
  promoted c = if signed_char then (if ltb c 128 then c else c + (2 ^ 32 - 2 ^ 8)) else c

  -- A range of characters, from `lo` to `hi`: all ones if `c` is inside.
  abbrev inside : ℕ → ℕ → ℕ → ℕ
  inside lo hi c = sar8 (bit_and (sub32 (lo - 1) c) (sub32 c (hi + 1)))

  pub decode_char : ℕ → ℕ
  decode_char src =
      let c = promoted src in
      u32 (
        0xFFFF_FFFF
        + bit_and (inside b'A' b'Z' c) (sub32 c 64)
        + bit_and (inside b'a' b'z' c) (sub32 c 70)
        + bit_and (inside b'0' b'9' c) (u32 (c + 5))
        + bit_and (inside b'+' b'+' c) 63
        + bit_and (inside b'/' b'/' c) 64)

  pub decode_base64 : ℕ → ℕ → ℕ → ℕ → ℕ
  decode_base64 a b c d =
      bit_or
        (bit_or (bit_or (u32 (decode_char a * 2 ^ 18)) (u32 (decode_char b * 2 ^ 12)))
          (u32 (decode_char c * 2 ^ 6)))
        (decode_char d)

  pub decode_groups : ℕ → List ℕ → ℕ → ℕ × List ℕ
  decode_groups (suc n) (a ∷ b ∷ c ∷ d ∷ text) ret =
      let val = decode_base64 a b c d in
      let (ret', key) = decode_groups n text (bit_or ret (val / 2 ^ 31)) in
      (ret', bit_and (val / 2 ^ 16) 0xff ∷ bit_and (val / 2 ^ 8) 0xff ∷ bit_and val 0xff ∷ key)
  decode_groups zero (a ∷ b ∷ c ∷ text) ret =
      let val = decode_base64 a b c b'A' in
      (
        bit_or ret (bit_or (val / 2 ^ 31) (bit_and val 0xff)),
        bit_and (val / 2 ^ 16) 0xff ∷ bit_and (val / 2 ^ 8) 0xff ∷ [],
      )
  decode_groups other text ret = (ret, [])

  pub key_from_base64 : List ℕ → List ℕ → Bool × List ℕ
  unfolding decode_groups
  key_from_base64 key base64 =
      if not (length base64 == base64_len)
        || not (elim (get_elem? base64 (base64_len - 1)) [ some c ↦ c == b'=' | none ↦ false ])
      then (false, key)
      else (let (ret, key') = decode_groups (key_len / 3) base64 0 in (accepts ret, key'))
