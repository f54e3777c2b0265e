-- ===== src/Encoding/Digits.antt =====
-- What the constant-time arithmetic on one character computes, checked over every character.
use wgtcp.Base.{
  ℕ, zero, suc, ◌+◌, ◌-◌, ◌*◌, ◌<◌, ◌≡◌, ◌⊎◌, inl, inr, refl, Bool, true, false, ◌&&◌, leb, ltb,
  ◌==◌, ==_iff, if◌then◌else◌, Option, none, some, arith,
}
use wgtcp.Encoding.{encode_char, decode_char, hex_digit, high_char, low_char, accepts}

all_below : ℕ → (ℕ → Bool) → Bool
all_below zero p = true
all_below (suc n) p = p n && all_below n p

at_below : (n : ℕ) (p : ℕ → Bool) (x : ℕ) → all_below n p ≡ true → x < n → p x ≡ true
unfolding all_below
at_below zero p x all lt = elim lt [ ]
at_below (suc n) p x all lt = ground (arith, at_below n p x)

-- The base64 alphabet of RFC 4648, read as a table.
sextet : ℕ → Option ℕ
sextet c =
    if leb b'A' c && leb c b'Z'
    then some (c - b'A')
    else if leb b'a' c && leb c b'z'
    then some (c - b'a' + 26)
    else if leb b'0' c && leb c b'9'
    then some (c - b'0' + 52)
    else if c == b'+'
    then some 62
    else if c == b'/'
    then some 63
    else none

-- The hexadecimal digits of either case.
pub hex_value : ℕ → Option ℕ
hex_value c =
    if leb b'0' c && leb c b'9'
    then some (c - b'0')
    else if leb b'A' c && leb c b'F'
    then some (c - b'A' + 10)
    else if leb b'a' c && leb c b'f'
    then some (c - b'a' + 10)
    else none

abbrev bad_word : ℕ
bad_word = 0xFFFF_FFFF

agrees : Bool → ℕ → Option ℕ → Bool
unfolding decode_char encode_char
agrees signed c none = decode_char signed c == bad_word
agrees signed c (some v) = decode_char signed c == v && (ltb v 64 && encode_char v == c)

reads_char : Bool → ℕ → Bool
unfolding agrees sextet
reads_char signed c = agrees signed c (sextet c)

reads_table : (signed : Bool) → all_below 256 (reads_char signed) ≡ true
unfolding all_below reads_char
reads_table true = refl
reads_table false = refl

-- A character of the alphabet, with its value.
pub record IsDigit (signed : Bool) (c : ℕ) : Type 0 where
  pub value : ℕ
  pub word : decode_char signed c ≡ value
  pub below : value < 64
  pub char : encode_char value ≡ c

-- decode_base64's arithmetic gives the value of a character of the alphabet, and -1 for any other.
agrees-cases :
    (signed : Bool) (c : ℕ) (o : Option ℕ)
    → agrees signed c o ≡ true
    → IsDigit signed c ⊎ (decode_char signed c ≡ bad_word)
unfolding agrees
agrees-cases signed c none at = inr (ground arith)
agrees-cases signed c (some v) at =
    inl (record { value = v; word = ground arith; below = ground arith; char = ground arith })

pub char-cases :
    (signed : Bool) (c : ℕ) → c < 256 → IsDigit signed c ⊎ (decode_char signed c ≡ bad_word)
unfolding reads_char
char-cases signed c lt =
    agrees-cases signed c (sextet c) (at_below 256 (reads_char signed) c (reads_table signed) lt)

writes_char : Bool → ℕ → Bool
unfolding decode_char encode_char
writes_char signed v = decode_char signed (encode_char v) == v && ltb (encode_char v) 256

writes_table : (signed : Bool) → all_below 64 (writes_char signed) ≡ true
unfolding all_below writes_char
writes_table true = refl
writes_table false = refl

-- Each of the 64 values is read back from its character.
pub decode_char-encode_char :
    (signed : Bool) (v : ℕ) → v < 64 → decode_char signed (encode_char v) ≡ v
unfolding writes_char
decode_char-encode_char signed v lt =
    let at : writes_char signed v ≡ true =
      at_below 64 (writes_char signed) v (writes_table signed) lt in
    ground arith

pub encode_char-lt : (v : ℕ) → v < 64 → encode_char v < 256
unfolding writes_char
encode_char-lt v lt =
    let at : writes_char true v ≡ true = at_below 64 (writes_char true) v (writes_table true) lt in
    ground arith

-- What hex_digit must return: the error mask and the value.
abbrev pub expected : Option ℕ → ℕ × ℕ
expected none = (255, 0)
expected (some v) = (0, v)

reads_hex : ℕ → Bool
unfolding hex_digit hex_value
reads_hex c =
    (hex_digit c).0 == (expected (hex_value c)).0 && (hex_digit c).1 == (expected (hex_value c)).1

reads_hex_table : all_below 256 reads_hex ≡ true
unfolding all_below reads_hex
reads_hex_table = refl

pub hex_digit_lem : (c : ℕ) → c < 256 → hex_digit c ≡ expected (hex_value c)
unfolding reads_hex
hex_digit_lem c lt =
    let at : reads_hex c ≡ true = at_below 256 reads_hex c reads_hex_table lt in ground arith

pub hex_value-lt : (c v : ℕ) → hex_value c ≡ some v → v < 16
unfolding hex_value
hex_value-lt c v found = ground arith

is_accepted : ℕ → Bool
unfolding accepts
is_accepted ret = if ret == 0 then accepts ret else if accepts ret then false else true

accepts_table : all_below 256 is_accepted ≡ true
unfolding all_below is_accepted
accepts_table = refl

-- The last line of both decoders: success when no error bit is set.
pub accepts-eq_zero : (ret : ℕ) → ret < 256 → accepts ret ≡ (ret == 0)
unfolding is_accepted
accepts-eq_zero ret lt =
    let at : is_accepted ret ≡ true = at_below 256 is_accepted ret accepts_table lt in ground arith

spells : ℕ → Option ℕ → Option ℕ → Bool
spells k (some h) (some l) = h * 16 + l == k
spells k _ _ = false

writes_hex : ℕ → Bool
unfolding high_char low_char hex_value spells
writes_hex k =
    ltb (high_char k) 256
    && (ltb (low_char k) 256 && spells k (hex_value (high_char k)) (hex_value (low_char k)))

writes_hex_table : all_below 256 writes_hex ≡ true
unfolding all_below writes_hex
writes_hex_table = refl

spells-cases :
    (k : ℕ) (a b : Option ℕ)
    → spells k a b ≡ true
    → (h : ℕ) × (l : ℕ) × (a ≡ some h) × (b ≡ some l) × (h * 16 + l ≡ k)
unfolding spells
spells-cases k (some h) (some l) e = (h, l, refl, refl, (==_iff _ _).0 e)
spells-cases k none b e = cc
spells-cases k (some h) none e = cc

-- The two characters that key_to_hex writes for a byte are digits, and spell it.
pub written_lem :
    (k : ℕ)
    → k < 256
    → (high_char k < 256)
      × (low_char k < 256)
      × ((h : ℕ) × (l : ℕ) × (hex_value (high_char k) ≡ some h)
          × (hex_value (low_char k) ≡ some l)
          × (h * 16 + l ≡ k))
unfolding writes_hex
written_lem k lt =
    let at : writes_hex k ≡ true = at_below 256 writes_hex k writes_hex_table lt in
    (ground arith, ground arith, spells-cases k _ _ (ground arith))
