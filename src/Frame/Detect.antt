-- ===== src/Frame/Detect.antt =====
-- What the header checksum detects. It folds the header's three leading 16-bit words by `^`, rotates the
-- sum by five bits and masks it with a constant.
use wgtcp.Base.{
  ℕ, ◌+◌, ◌*◌, ◌/◌, ◌%◌, ◌^◌, ◌-◌, ◌<◌, ◌≡◌, ◌⊎◌, inl, inr, sym, ◌∙◌, ap, ap₂, true, arith, bit_xor,
  bit_or, bit_and, u16, ==_iff,
}
use Prim.Native.Nat.{bit_xor-bitwise}
use native.Mathlib.Nat.{mod-eq_of_lt}
use wgtcp.Base.Bits.{bit_xor_cancel, bit_xor_comm, bit_xor-lt, bit_or_shifted, bit_and_low}
use wgtcp.Frame.{EncapHeader, header_checksum, validate_header_checksum}

-- fields that fit their C types
pub record FitsFields (h : EncapHeader) : Type 0 where
  pub length_fits : h.length < 2 ^ 32
  pub type_fits : h.type < 256
  pub flags_fits : h.flags < 256
  pub checksum_fits : h.checksum < 2 ^ 16

-- the header's words
abbrev pub high : EncapHeader → ℕ
high h = h.length / 2 ^ 16

abbrev pub low : EncapHeader → ℕ
low h = h.length % 2 ^ 16

abbrev pub tag : EncapHeader → ℕ
tag h = h.flags * 2 ^ 8 + h.type

abbrev folded : EncapHeader → ℕ
folded h = bit_xor (bit_xor (high h) (low h)) (tag h)

abbrev rotate : ℕ → ℕ
rotate c = (c * 2 ^ 5 + c / 2 ^ 11) % 2 ^ 16

masked : (a : ℕ) → bit_and a 0xFFFF ≡ a % 2 ^ 16
masked a =
    let split : a / 2 ^ 16 * 2 ^ 16 + a % 2 ^ 16 ≡ a = omega arith in
    let part : bit_and (a / 2 ^ 16 * 2 ^ 16 + a % 2 ^ 16) (2 ^ 16 - 1) ≡ a % 2 ^ 16 =
      bit_and_low 16 (a / 2 ^ 16) (a % 2 ^ 16) (omega arith) in
    rw split at part

folded-lt : (h : EncapHeader) → FitsFields h → folded h < 2 ^ 16
folded-lt h v = bit_xor-lt 16 _ _ (bit_xor-lt 16 _ _ (omega arith) (omega arith)) (omega arith)

header_checksum_words :
    (h : EncapHeader) → FitsFields h → header_checksum h ≡ bit_xor (rotate (folded h)) 0xA5A5
unfolding header_checksum
header_checksum_words h v =
    let high_half : bit_and (h.length / 2 ^ 16) 0xFFFF ≡ high h =
      omega (arith, masked (h.length / 2 ^ 16)) in
    let first : u16 (bit_xor 0 (high h)) ≡ high h = omega (arith, bit_xor-bitwise 0 (high h)) in
    let pair : u16 (bit_xor (high h) (low h)) ≡ bit_xor (high h) (low h) =
      mod-eq_of_lt (bit_xor-lt 16 _ _ (omega arith) (omega arith)) in
    let all : u16 (folded h) ≡ folded h = mod-eq_of_lt (folded-lt h v) in
    let turned : u16 (bit_or (folded h * 2 ^ 5) (folded h / 2 ^ 11)) ≡ rotate (folded h) =
      ap (λ (t : ℕ). u16 t)
        (bit_or_shifted 5 (folded h) (folded h / 2 ^ 11) (omega (arith, folded-lt h v))) in
    let last : u16 (bit_xor (rotate (folded h)) 0xA5A5) ≡ bit_xor (rotate (folded h)) 0xA5A5 =
      mod-eq_of_lt (bit_xor-lt 16 _ _ (omega arith) (omega arith)) in
    rw high_half (
      rw first (
        rw (masked h.length)
          (rw pair (rw (bit_or_shifted 8 h.flags h.type v.type_fits) (rw all (rw turned last))))))

rotate_injective : (c d : ℕ) → c < 2 ^ 16 → d < 2 ^ 16 → rotate c ≡ rotate d → c ≡ d
rotate_injective c d p q e = omega arith

-- Equal checksums mean equal folded words.
folded_of_checksum :
    (h g : EncapHeader)
    → FitsFields h
    → FitsFields g
    → header_checksum h ≡ header_checksum g
    → folded h ≡ folded g
folded_of_checksum h g v w e = rotate_injective _ _ (folded-lt h v) (folded-lt g w) (
    bit_xor_cancel 0xA5A5 _ _ (
      bit_xor_comm _ _
      ∙ sym (header_checksum_words h v)
      ∙ e
      ∙ header_checksum_words g w
      ∙ bit_xor_comm _ _))

-- The two headers agree in three of their four words.
abbrev pub AgreeButOne : EncapHeader → EncapHeader → Type 0
AgreeButOne h g =
    (low h ≡ low g) × (tag h ≡ tag g) × (h.checksum ≡ g.checksum)
    ⊎ (high h ≡ high g) × (tag h ≡ tag g) × (h.checksum ≡ g.checksum)
    ⊎ (high h ≡ high g) × (low h ≡ low g) × (h.checksum ≡ g.checksum)
    ⊎ (high h ≡ high g) × (low h ≡ low g) × (tag h ≡ tag g)

same_words :
    (h g : EncapHeader)
    → FitsFields h
    → FitsFields g
    → high h ≡ high g
    → low h ≡ low g
    → tag h ≡ tag g
    → h.checksum ≡ g.checksum
    → h ≡ g
same_words h g v w a b c d = ground arith

-- Equal sums and one equal operand leave the other one equal.
xor_left : (a b x y : ℕ) → bit_xor a x ≡ bit_xor b y → x ≡ y → a ≡ b
xor_left a b x y e p =
    bit_xor_cancel x a b
      (bit_xor_comm x a ∙ e ∙ ap (λ (t : ℕ). bit_xor b t) (sym p) ∙ bit_xor_comm b x)

xor_right : (a b x y : ℕ) → bit_xor a x ≡ bit_xor b y → a ≡ b → x ≡ y
xor_right a b x y e p = bit_xor_cancel b x y (ap (λ (t : ℕ). bit_xor t x) (sym p) ∙ e)

-- The word that may differ is determined by the other three.
fourth_word :
    (h g : EncapHeader)
    → FitsFields h
    → FitsFields g
    → header_checksum h ≡ h.checksum
    → header_checksum g ≡ g.checksum
    → AgreeButOne h g
    → h ≡ g
fourth_word h g v w p q (inl (lo, ta, su)) =
    let sums : folded h ≡ folded g = folded_of_checksum h g v w (p ∙ su ∙ sym q) in
    same_words h g v w (xor_left _ _ _ _ (xor_left _ _ _ _ sums ta) lo) lo ta su
fourth_word h g v w p q (inr (inl (hi, ta, su))) =
    let sums : folded h ≡ folded g = folded_of_checksum h g v w (p ∙ su ∙ sym q) in
    same_words h g v w hi (xor_right _ _ _ _ (xor_left _ _ _ _ sums ta) hi) ta su
fourth_word h g v w p q (inr (inr (inl (hi, lo, su)))) =
    let sums : folded h ≡ folded g = folded_of_checksum h g v w (p ∙ su ∙ sym q) in
    same_words h g v w hi lo (xor_right _ _ _ _ sums (ap₂ bit_xor hi lo)) su
fourth_word h g v w p q (inr (inr (inr (hi, lo, ta)))) = same_words h g v w hi lo ta (
    sym p
    ∙ header_checksum_words h v
    ∙ ap (λ (t : ℕ). bit_xor (rotate t) 0xA5A5) (ap₂ bit_xor (ap₂ bit_xor hi lo) ta)
    ∙ sym (header_checksum_words g w)
    ∙ q)

-- Damage inside one 16-bit word of a header never goes unnoticed: two headers that agree in three of their
-- four words and both pass the checksum test are the same header.
pub one_word_error :
    (h g : EncapHeader)
    → FitsFields h
    → FitsFields g
    → AgreeButOne h g
    → validate_header_checksum h ≡ true
    → validate_header_checksum g ≡ true
    → h ≡ g
unfolding validate_header_checksum
one_word_error h g v w agree p q = fourth_word h g v w ((==_iff _ _).0 p) ((==_iff _ _).0 q) agree
