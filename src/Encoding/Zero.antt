-- ===== src/Encoding/Zero.antt =====
-- key_is_zero of tools/encoding.c.
use wgtcp.Base.{ℕ, ◌<◌, ◌≡◌, ◌↔◌, refl, sym, ◌∙◌, true, ==_iff, List, [], ◌∷◌, arith, All}
use wgtcp.Base.Bits.{max-le-bit_or, bit_or-lt}
use wgtcp.Encoding.{key_bits, key_is_zero}
use wgtcp.Encoding.Digits.{accepts-eq_zero}
use wgtcp.Encoding.Hex.{IsBytes}

abbrev pub IsZeros : List ℕ → Type 0
IsZeros = All (λ k. k ≡ 0)

key_bits-lt : (key : List ℕ) → IsBytes key → key_bits key < 256
unfolding key_bits
key_bits-lt [] bytes = omega arith
key_bits-lt (k ∷ key) bytes = bit_or-lt 8 k (key_bits key) bytes.0 (key_bits-lt key bytes.1)

no_bits : (key : List ℕ) → key_bits key ≡ 0 → IsZeros key
unfolding key_bits
no_bits [] e = tt
no_bits (k ∷ key) e =
    let parts = max-le-bit_or k (key_bits key) in
    (omega (arith, parts), no_bits key (omega (arith, parts)))

zeros_lem : (key : List ℕ) → IsZeros key → key_bits key ≡ 0
unfolding key_bits
zeros_lem [] z = refl
zeros_lem (k ∷ key) z = rw (z.0, zeros_lem key z.1) refl

-- key_is_zero holds exactly of the keys all of whose bytes are zero.
pub key_is_zero_iff : (key : List ℕ) → IsBytes key → (key_is_zero key ≡ true) ↔ IsZeros key
unfolding key_is_zero
key_is_zero_iff key bytes =
    let same = accepts-eq_zero (key_bits key) (key_bits-lt key bytes) in
    (λ e. no_bits key ((==_iff _ _).0 (sym same ∙ e)), λ z. same ∙ (==_iff _ _).1 (zeros_lem key z))
