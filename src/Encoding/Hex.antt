-- ===== src/Encoding/Hex.antt =====
-- key_to_hex and key_from_hex of tools/encoding.c, against the plain reading of hexadecimal digits.
use wgtcp.Base.{
  ℕ, ◌+◌, ◌-◌, ◌*◌, ◌≤◌, ◌<◌, ◌≡◌, ◌≢◌, ◌⊎◌, inl, inr, ◌↔◌, refl, ap, sym, ◌∙◌, true, false, bit_or,
  ◌==◌, ==_iff, List, [], ◌∷◌, length, Option, none, some, arith, All, Bool-cases, Option-cases,
}
use wgtcp.Base.Bits.{bit_or_zero, max-le-bit_or, bit_or-lt, bit_or_shifted}
use wgtcp.Encoding.{hex_digit, hex_pairs, accepts, key_from_hex, key_to_hex, hex_len, key_len, u8}
use wgtcp.Encoding.Digits.{
  hex_value, hex_digit_lem, written_lem, expected, hex_value-lt, accepts-eq_zero,
}

abbrev pub IsBytes : List ℕ → Type 0
IsBytes = All (λ c. c < 256)

-- The bytes of a text of hexadecimal digits, two for each byte.
pair : Option ℕ → Option ℕ → Option (List ℕ) → Option (List ℕ)
pair (some h) (some l) (some key) = some ((h * 16 + l) ∷ key)
pair _ _ _ = none

pub read_hex : List ℕ → Option (List ℕ)
unfolding pair
read_hex [] = some []
read_hex (a ∷ []) = none
read_hex (a ∷ b ∷ text) = pair (hex_value a) (hex_value b) (read_hex text)

mask-lt : (o : Option ℕ) → (expected o).0 < 256
mask-lt none = omega arith
mask-lt (some v) = omega arith

-- Errors are only added to what `ret` has.
hex_pairs-bounds :
    (text : List ℕ) (ret : ℕ)
    → IsBytes text
    → ret < 256
    → (ret ≤ (hex_pairs text ret).0) × ((hex_pairs text ret).0 < 256)
unfolding hex_pairs
hex_pairs-bounds [] ret bytes lt = omega arith
hex_pairs-bounds (a ∷ []) ret bytes lt = omega arith
hex_pairs-bounds (a ∷ b ∷ text) ret bytes lt =
    let ra = bit_or ret (hex_digit a).0 in
    let la : (hex_digit a).0 < 256 = rw (hex_digit_lem a bytes.0) (mask-lt (hex_value a)) in
    let lb : (hex_digit b).0 < 256 = rw (hex_digit_lem b bytes.1.0) (mask-lt (hex_value b)) in
    let one : ra < 256 = bit_or-lt 8 _ _ lt la in
    let two : bit_or ra (hex_digit b).0 < 256 = bit_or-lt 8 _ _ one lb in
    omega (
      arith,
      hex_pairs-bounds text (bit_or ra (hex_digit b).0) bytes.1.1 two,
      max-le-bit_or ret (hex_digit a).0,
      max-le-bit_or ra (hex_digit b).0,
    )

two_digits : (h l : ℕ) → h < 16 → l < 16 → bit_or (u8 (h * 16)) l ≡ h * 16 + l
two_digits h l p q =
    let e : u8 (h * 16) ≡ h * 16 = omega arith in rw e (bit_or_shifted 4 h l (omega arith))

pair-cases :
    (a b : Option ℕ) (rest : Option (List ℕ)) (key : List ℕ)
    → pair a b rest ≡ some key
    → (h : ℕ) × (l : ℕ) × (key' : List ℕ) × (a ≡ some h)
      × (b ≡ some l)
      × (rest ≡ some key')
      × (key ≡ (h * 16 + l) ∷ key')
unfolding pair
pair-cases (some h) (some l) (some key') key e = (h, l, key', refl, refl, refl, cc)
pair-cases none b rest key e = cc
pair-cases (some h) none rest key e = cc
pair-cases (some h) (some l) none key e = cc

pair-none :
    (a b : Option ℕ) (rest : Option (List ℕ))
    → pair a b rest ≡ none
    → ((expected a).0 ≡ 255) ⊎ ((expected b).0 ≡ 255) ⊎ (rest ≡ none)
unfolding pair
pair-none none b rest e = inl refl
pair-none (some h) none rest e = inr (inl refl)
pair-none (some h) (some l) none e = inr (inr refl)
pair-none (some h) (some l) (some key) e = cc

-- A readable text adds no error and gives its bytes.
hex_pairs-read :
    (text key : List ℕ) (ret : ℕ)
    → IsBytes text
    → read_hex text ≡ some key
    → hex_pairs text ret ≡ (ret, key)
unfolding hex_pairs read_hex
hex_pairs-read [] key ret bytes e = cc
hex_pairs-read (a ∷ []) key ret bytes e = cc
hex_pairs-read (a ∷ b ∷ text) key ret bytes e =
    let (h, l, key', ea, eb, er, ek) = pair-cases _ _ _ key e in
    let da : hex_digit a ≡ (0, h) = rw (hex_digit_lem a bytes.0, ea) refl in
    let db : hex_digit b ≡ (0, l) = rw (hex_digit_lem b bytes.1.0, eb) refl in
    rw (da, db, bit_or_zero ret, bit_or_zero ret, hex_pairs-read text key' ret bytes.1.1 er, ek)
      (ap (λ (x : ℕ). (ret, x ∷ key')) (two_digits h l (hex_value-lt a h ea) (hex_value-lt b l eb)))

-- A text with another character leaves an error.
hex_pairs-none :
    (text : List ℕ) (n ret : ℕ)
    → IsBytes text
    → ret < 256
    → length text ≡ n * 2
    → read_hex text ≡ none
    → 0 < (hex_pairs text ret).0
unfolding hex_pairs read_hex
hex_pairs-none [] n ret bytes lt even e = cc
hex_pairs-none (a ∷ []) n ret bytes lt even e = absurd (omega arith)
hex_pairs-none (a ∷ b ∷ text) n ret bytes lt even e =
    let ra = bit_or ret (hex_digit a).0 in
    let la : (hex_digit a).0 < 256 = rw (hex_digit_lem a bytes.0) (mask-lt (hex_value a)) in
    let lb : (hex_digit b).0 < 256 = rw (hex_digit_lem b bytes.1.0) (mask-lt (hex_value b)) in
    let one : ra < 256 = bit_or-lt 8 _ _ lt la in
    let two : bit_or ra (hex_digit b).0 < 256 = bit_or-lt 8 _ _ one lb in
    let grows = hex_pairs-bounds text (bit_or ra (hex_digit b).0) bytes.1.1 two in
    elim (pair-none (hex_value a) (hex_value b) (read_hex text) e) [
      | inl bad ↦
          let ba : (hex_digit a).0 ≡ 255 = rw (hex_digit_lem a bytes.0) bad in
          omega (arith, grows, max-le-bit_or ret (hex_digit a).0, max-le-bit_or ra (hex_digit b).0)
      | inr (inl bad) ↦
          let bb : (hex_digit b).0 ≡ 255 = rw (hex_digit_lem b bytes.1.0) bad in
          omega (arith, grows, max-le-bit_or ra (hex_digit b).0)
      | inr (inr rest) ↦ hex_pairs-none text (n - 1) _ bytes.1.1 two (omega arith) rest
    ]

decided :
    (old text : List ℕ)
    → length text ≡ hex_len
    → key_from_hex old text ≡ (accepts (hex_pairs text 0).0, (hex_pairs text 0).1)
unfolding key_from_hex
decided old text e = rw e refl

refused :
    (old text key : List ℕ) → (length text == hex_len) ≡ false → key_from_hex old text ≢ (true, key)
unfolding key_from_hex
refused old text key short found = ground arith

-- key_from_hex succeeds exactly on 64 hexadecimal digits of either case, and then gives the bytes
-- that they spell.
pub key_from_hex_iff :
    (old text key : List ℕ)
    → IsBytes text
    → (key_from_hex old text ≡ (true, key))
      ↔ ((length text ≡ 2 * key_len) × (read_hex text ≡ some key))
key_from_hex_iff old text key bytes = (
  λ found. elim (Bool-cases (length text == hex_len)) [
    | inl long ↦
        let e : length text ≡ hex_len = (==_iff _ _).0 long in
        let ret = (hex_pairs text 0).0 in
        let done = decided old text e in
        let small = hex_pairs-bounds text 0 bytes (omega arith) in
        let zero_ret : ret ≡ 0 =
          (==_iff _ _).0 (sym (accepts-eq_zero ret small.1) ∙ ap (λ t. t.0) (sym done ∙ found)) in
        elim (Option-cases (read_hex text)) [
          | inl bad ↦
              absurd (omega (arith, hex_pairs-none text key_len 0 bytes (omega arith) e bad))
          | inr (key', read) ↦
              let same : key' ≡ key =
                ap (λ t. t.1) (sym (hex_pairs-read text key' 0 bytes read))
                ∙ ap (λ t. t.1) (sym done ∙ found) in
              (e, read ∙ ap some same)
        ]
    | inr short ↦ absurd (refused old text key short found)
  ],
  λ h.
      decided old text h.0
      ∙ rw (hex_pairs-read text key 0 bytes h.1)
          (ap (λ b. (b, key)) (accepts-eq_zero 0 (omega arith))),
)

to_hex-IsBytes : (key : List ℕ) → IsBytes key → IsBytes (key_to_hex key)
unfolding key_to_hex
to_hex-IsBytes [] bytes = tt
to_hex-IsBytes (k ∷ key) bytes =
    let w = written_lem k bytes.0 in (w.0, (w.1, to_hex-IsBytes key bytes.1))

read_hex-key_to_hex : (key : List ℕ) → IsBytes key → read_hex (key_to_hex key) ≡ some key
unfolding key_to_hex read_hex pair
read_hex-key_to_hex [] bytes = refl
read_hex-key_to_hex (k ∷ key) bytes =
    let (h, l, eh, el, ek) = (written_lem k bytes.0).2 in
    rw (eh, el, read_hex-key_to_hex key bytes.1) (ap (λ (x : ℕ). some (x ∷ key)) ek)

length-key_to_hex : (key : List ℕ) → length (key_to_hex key) ≡ 2 * length key
unfolding key_to_hex
length-key_to_hex [] = refl
length-key_to_hex (k ∷ key) = omega (arith, length-key_to_hex key)

-- Every key of 32 bytes comes back from its hexadecimal text.
pub from_hex-to_hex :
    (old key : List ℕ)
    → IsBytes key
    → length key ≡ key_len
    → key_from_hex old (key_to_hex key) ≡ (true, key)
from_hex-to_hex old key bytes long =
    (key_from_hex_iff old (key_to_hex key) key (to_hex-IsBytes key bytes)).1
      (omega (arith, length-key_to_hex key), read_hex-key_to_hex key bytes)
