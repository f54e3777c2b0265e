-- ===== src/Encoding/Groups.antt =====
-- One group of four base64 characters, for three bytes: encode_base64 and decode_base64 of
-- tools/encoding.c.
use wgtcp.Base.{
  ℕ, ◌+◌, ◌*◌, ◌/◌, ◌%◌, ◌^◌, ◌<◌, ◌≡◌, inl, inr, refl, ◌∙◌, Bool, bit_or, bit_and, u32, [], ◌∷◌,
  arith,
}
use wgtcp.Base.Bits.{max-le-bit_or, bit_or-lt, bit_or_shifted, bit_and_63, bit_and_255}
use wgtcp.Encoding.{encode_char, encode_base64, decode_char, decode_base64}
use wgtcp.Encoding.Digits.{IsDigit, char-cases, decode_char-encode_char}

-- The number that four values of six bits stand for.
abbrev pub joined : ℕ → ℕ → ℕ → ℕ → ℕ
joined a b c d = a * 2 ^ 18 + b * 2 ^ 12 + c * 2 ^ 6 + d

group_of_words :
    (a b c d : ℕ)
    → a < 64
    → b < 64
    → c < 64
    → d < 64
    → bit_or (bit_or (bit_or (u32 (a * 2 ^ 18)) (u32 (b * 2 ^ 12))) (u32 (c * 2 ^ 6))) d
      ≡ joined a b c d
group_of_words a b c d p q r s =
    let ea : u32 (a * 2 ^ 18) ≡ a * 2 ^ 18 = omega arith in
    let eb : u32 (b * 2 ^ 12) ≡ b * 2 ^ 12 = omega arith in
    let ec : u32 (c * 2 ^ 6) ≡ c * 2 ^ 6 = omega arith in
    let one : bit_or (a * 2 ^ 18) (b * 2 ^ 12) ≡ (a * 2 ^ 6 + b) * 2 ^ 12 =
      omega (arith, bit_or_shifted 18 a (b * 2 ^ 12) (omega arith)) in
    let two : bit_or ((a * 2 ^ 6 + b) * 2 ^ 12) (c * 2 ^ 6)
        ≡ ((a * 2 ^ 6 + b) * 2 ^ 6 + c) * 2 ^ 6 =
      omega (arith, bit_or_shifted 12 (a * 2 ^ 6 + b) (c * 2 ^ 6) (omega arith)) in
    rw (ea, eb, ec, one, two)
      (omega (arith, bit_or_shifted 6 ((a * 2 ^ 6 + b) * 2 ^ 6 + c) d (omega arith)))

pub sextets_of_bytes :
    (x y z : ℕ)
    → x < 256
    → y < 256
    → z < 256
    → encode_base64 x y z
      ≡ encode_char (x / 4)
        ∷ encode_char (x % 4 * 16 + y / 16)
        ∷ encode_char (y % 16 * 4 + z / 64)
        ∷ encode_char (z % 64)
        ∷ []
unfolding encode_base64
sextets_of_bytes x y z p q r =
    let e0 : bit_and (x / 2 ^ 2) 63 ≡ x / 4 = omega (arith, bit_and_63 (x / 2 ^ 2)) in
    let e1 : bit_and (bit_or (x * 2 ^ 4) (y / 2 ^ 4)) 63 ≡ x % 4 * 16 + y / 16 = omega (
      arith,
      bit_and_63 (bit_or (x * 2 ^ 4) (y / 2 ^ 4)),
      bit_or_shifted 4 x (y / 2 ^ 4) (omega arith),
    ) in
    let e2 : bit_and (bit_or (y * 2 ^ 2) (z / 2 ^ 6)) 63 ≡ y % 16 * 4 + z / 64 = omega (
      arith,
      bit_and_63 (bit_or (y * 2 ^ 2) (z / 2 ^ 6)),
      bit_or_shifted 2 y (z / 2 ^ 6) (omega arith),
    ) in
    let e3 : bit_and z 63 ≡ z % 64 = bit_and_63 z in rw (e0, e1, e2, e3) refl

encode_joined :
    (a b c d : ℕ)
    → a < 64
    → b < 64
    → c < 64
    → d < 64
    → encode_base64
        (bit_and (joined a b c d / 2 ^ 16) 0xff)
        (bit_and (joined a b c d / 2 ^ 8) 0xff)
        (bit_and (joined a b c d) 0xff)
      ≡ encode_char a ∷ encode_char b ∷ encode_char c ∷ encode_char d ∷ []
encode_joined a b c d p q r s =
    let val = joined a b c d in
    let x : bit_and (val / 2 ^ 16) 0xff ≡ a * 4 + b / 16 =
      omega (arith, bit_and_255 (val / 2 ^ 16)) in
    let y : bit_and (val / 2 ^ 8) 0xff ≡ b % 16 * 16 + c / 4 =
      omega (arith, bit_and_255 (val / 2 ^ 8)) in
    let z : bit_and val 0xff ≡ c % 4 * 64 + d = omega (arith, bit_and_255 val) in
    rw (x, y, z) (sextets_of_bytes _ _ _ (omega arith) (omega arith) (omega arith) ∙ same)
  where
    same :
        encode_char ((a * 4 + b / 16) / 4)
          ∷ encode_char ((a * 4 + b / 16) % 4 * 16 + (b % 16 * 16 + c / 4) / 16)
          ∷ encode_char ((b % 16 * 16 + c / 4) % 16 * 4 + (c % 4 * 64 + d) / 64)
          ∷ encode_char ((c % 4 * 64 + d) % 64)
          ∷ []
        ≡ encode_char a ∷ encode_char b ∷ encode_char c ∷ encode_char d ∷ []
    same =
        let i : (a * 4 + b / 16) / 4 ≡ a = omega arith in
        let j : (a * 4 + b / 16) % 4 * 16 + (b % 16 * 16 + c / 4) / 16 ≡ b = omega arith in
        let k : (b % 16 * 16 + c / 4) % 16 * 4 + (c % 4 * 64 + d) / 64 ≡ c = omega arith in
        let l : (c % 4 * 64 + d) % 64 ≡ d = omega arith in rw (i, j, k, l) refl

pub encode_zero : encode_char 0 ≡ b'A'
unfolding encode_char
encode_zero = refl

module _ (signed : Bool) where
  group_value :
      {a b c d : ℕ} (da : IsDigit signed a) (db : IsDigit signed b) (dc : IsDigit signed c)
      (dd : IsDigit signed d)
      → decode_base64 signed a b c d ≡ joined da.value db.value dc.value dd.value
  unfolding decode_base64
  group_value da db dc dd =
      rw (da.word, db.word, dc.word, dd.word)
        (group_of_words _ _ _ _ da.below db.below dc.below dd.below)

  -- Without an error bit all four characters are of the alphabet.
  pub group_digits :
      (a b c d : ℕ)
      → a < 256
      → b < 256
      → c < 256
      → d < 256
      → decode_base64 signed a b c d / 2 ^ 31 ≡ 0
      → IsDigit signed a × IsDigit signed b × IsDigit signed c × IsDigit signed d
  unfolding decode_base64
  group_digits a b c d p q r s ok_bit =
      let wa = u32 (decode_char signed a * 2 ^ 18) in
      let wb = u32 (decode_char signed b * 2 ^ 12) in
      let wc = u32 (decode_char signed c * 2 ^ 6) in
      let wd = decode_char signed d in
      let ab = max-le-bit_or wa wb in
      let abc = max-le-bit_or (bit_or wa wb) wc in
      let abcd = max-le-bit_or (bit_or (bit_or wa wb) wc) wd in
      (
        digit a p (λ e. omega (arith, ab, abc, abcd, e)),
        digit b q (λ e. omega (arith, ab, abc, abcd, e)),
        digit c r (λ e. omega (arith, abc, abcd, e)),
        digit d s (λ e. omega (arith, abcd, e)),
      )
    where
      digit : (c : ℕ) → c < 256 → (decode_char signed c ≡ 0xFFFF_FFFF → ⊥) → IsDigit signed c
      digit c lt no_error = elim (char-cases signed c lt) [
        | inl d ↦ d
        | inr e ↦ absurd (no_error e)
      ]

  -- Encoding the three bytes of a group of four characters gives the characters back.
  pub encode_group :
      {a b c d : ℕ} (da : IsDigit signed a) (db : IsDigit signed b) (dc : IsDigit signed c)
      (dd : IsDigit signed d)
      → let val = decode_base64 signed a b c d in
        encode_base64 (bit_and (val / 2 ^ 16) 0xff) (bit_and (val / 2 ^ 8) 0xff) (bit_and val 0xff)
        ≡ a ∷ b ∷ c ∷ d ∷ []
  encode_group da db dc dd = rw (group_value da db dc dd) (
      encode_joined da.value db.value dc.value dd.value da.below db.below dc.below dd.below
      ∙ rw (da.char, db.char, dc.char, dd.char) refl)

  word-lt : (c : ℕ) → decode_char signed c < 2 ^ 32
  unfolding decode_char
  word-lt c = omega arith

  pub group-lt : (a b c d : ℕ) → decode_base64 signed a b c d < 2 ^ 32
  unfolding decode_base64
  group-lt a b c d =
      bit_or-lt 32 _ _
        (bit_or-lt 32 _ _ (bit_or-lt 32 _ _ (omega arith) (omega arith)) (omega arith)) (word-lt d)

  -- The bytes of a group that was written from bytes.
  pub group-encode_base64 :
      (x y z : ℕ)
      → x < 256
      → y < 256
      → z < 256
      → decode_base64 signed
          (encode_char (x / 4))
          (encode_char (x % 4 * 16 + y / 16))
          (encode_char (y % 16 * 4 + z / 64))
          (encode_char (z % 64))
        ≡ x * 2 ^ 16 + y * 2 ^ 8 + z
  unfolding decode_base64
  group-encode_base64 x y z p q r =
      let read = decode_char-encode_char signed in
      rw
        (
          read (x / 4) (omega arith),
          read (x % 4 * 16 + y / 16) (omega arith),
          read (y % 16 * 4 + z / 64) (omega arith),
          read (z % 64) (omega arith),
        )
        (group_of_words _ _ _ _ (omega arith) (omega arith) (omega arith) (omega arith)
          ∙ omega arith)
