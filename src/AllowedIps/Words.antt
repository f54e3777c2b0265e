-- ===== src/AllowedIps/Words.antt =====
-- The common prefix of two words by `^` and fls, and the bit that decides how it goes on.
use wgtcp.Base.{
  ℕ, zero, suc, ◌+◌, ◌-◌, ◌*◌, ◌/◌, ◌%◌, ◌^◌, ◌≤◌, ◌<◌, ◌≡◌, ◌↔◌, refl, sym, ap, ◌∙◌, min, bit_xor,
  arith,
}
use wgtcp.Base.Bits.{bit_xor_cancel, bit_xor_comm, bit_xor-lt, bit_xor_half, bit_xor_self}
use wgtcp.AllowedIps.{shr, Bitops}
use native.Mathlib.Nat.{pow-suc, one-le-pow}

-- The documentation of fls: the number of binary digits, of numbers with `n` at most.
abbrev pub CountsDigits : ℕ → (ℕ → ℕ) → Type 0
CountsDigits n f = (x d : ℕ) → x < 2 ^ n → (x < 2 ^ d) ↔ (f x ≤ d)

pub record IsBitops (ops : Bitops) : Type 0 where
  pub fls_lem : CountsDigits 32 ops.fls
  pub fls64_lem : CountsDigits 64 ops.fls64

-- How a measure of common prefixes and the bits behind them go together.
pub record IsPrefixOrder (bits : ℕ) (common : ℕ → ℕ → ℕ) (bit : ℕ → ℕ → ℕ) : Type 0 where
  pub within : (a b : ℕ) → common a b ≤ bits
  pub self : (a : ℕ) → common a a ≡ bits
  pub symmetric : (a b : ℕ) → common a b ≡ common b a
  pub triangle : (a b c : ℕ) → min (common a b) (common b c) ≤ common a c
  pub next : (d a b : ℕ) → d < bits → d ≤ common a b → (suc d ≤ common a b) ↔ (bit d a ≡ bit d b)
  pub binary : (d a : ℕ) → bit d a < 2

pub shr-half : (x k : ℕ) → shr (x / 2) k ≡ shr x k / 2
unfolding shr
shr-half x zero = refl
shr-half x (suc k) = ap (λ (t : ℕ). t / 2) (shr-half x k)

pub shr-add : (x m n : ℕ) → shr (shr x m) n ≡ shr x (m + n)
unfolding shr
shr-add x m zero = ap (λ (k : ℕ). shr x k) (omega arith)
shr-add x m (suc n) =
    let e : m + suc n ≡ suc (m + n) = omega arith in rw e (ap (λ (t : ℕ). t / 2) (shr-add x m n))

-- A difference below bit `k` is none above it.
xor-lt_iff : (k a b : ℕ) → (bit_xor a b < 2 ^ k) ↔ (shr a k ≡ shr b k)
unfolding shr
xor-lt_iff zero a b = (
  λ h. bit_xor_cancel a a b (omega (arith, bit_xor_self a)),
  λ e. rw e (omega (arith, bit_xor_self b)),
)
xor-lt_iff (suc k) a b =
    let half = xor-lt_iff k (a / 2) (b / 2) in
    let twice : 2 ^ suc k ≡ 2 * 2 ^ k = omega (arith, pow-suc 2 k) in
    (
      λ h. sym (shr-half a k) ∙ half.0 (omega (arith, bit_xor_half a b)) ∙ shr-half b k,
      λ e.
          let below = half.1 (shr-half a k ∙ e ∙ sym (shr-half b k)) in
          omega (arith, bit_xor_half a b),
    )

module _ (n : ℕ) (f : ℕ → ℕ) (counts : CountsDigits n f) where
  abbrev pub word_common : ℕ → ℕ → ℕ
  word_common a b = n - f (bit_xor a b)

  -- What it means that two words agree on their first `d` bits.
  common_iff :
      (a b d : ℕ)
      → a < 2 ^ n
      → b < 2 ^ n
      → d ≤ n
      → (d ≤ word_common a b) ↔ (shr a (n - d) ≡ shr b (n - d))
  common_iff a b d p q le =
      let digits = counts (bit_xor a b) (n - d) (bit_xor-lt n a b p q) in
      let all = counts (bit_xor a b) n (bit_xor-lt n a b p q) in
      let fits = all.0 (bit_xor-lt n a b p q) in
      let differ = xor-lt_iff (n - d) a b in
      (λ h. differ.0 (digits.1 (omega arith)), λ e. let few = digits.0 (differ.1 e) in omega arith)

  pub common_self : (a : ℕ) → word_common a a ≡ n
  common_self a =
      let few = (counts 0 0 (one-le-pow n 2 (omega arith))).0 (omega arith) in
      rw (bit_xor_self a) (omega arith)

  pub common_comm : (a b : ℕ) → word_common a b ≡ word_common b a
  common_comm a b = rw (bit_xor_comm a b) refl

  pub common_triangle :
      (a b c : ℕ)
      → a < 2 ^ n
      → b < 2 ^ n
      → c < 2 ^ n
      → min (word_common a b) (word_common b c) ≤ word_common a c
  common_triangle a b c p q r =
      let d = min (word_common a b) (word_common b c) in
      let ab = (common_iff a b d p q (omega arith)).0 (omega arith) in
      let bc = (common_iff b c d q r (omega arith)).0 (omega arith) in
      (common_iff a c d p r (omega arith)).1 (ab ∙ bc)

  pub common_next :
      (d a b : ℕ)
      → a < 2 ^ n
      → b < 2 ^ n
      → d < n
      → d ≤ word_common a b
      → (suc d ≤ word_common a b) ↔ (shr a (n - 1 - d) % 2 ≡ shr b (n - 1 - d) % 2)
  unfolding shr
  common_next d a b p q lt le =
      let here = (common_iff a b d p q (omega arith)).0 le in
      let there = common_iff a b (suc d) p q (omega arith) in
      let at : n - d ≡ suc (n - 1 - d) = omega arith in
      let behind : n - suc d ≡ n - 1 - d = omega arith in
      let halves : shr a (n - 1 - d) / 2 ≡ shr b (n - 1 - d) / 2 = rw at at here in
      (
        λ h. ap (λ (t : ℕ). t % 2) (rw behind at (there.0 h)),
        λ e. there.1 (rw behind (omega (arith, halves, e))),
      )

  -- All bits in common are the same word.
  pub common_all : (a b : ℕ) → a < 2 ^ n → b < 2 ^ n → n ≤ word_common a b → a ≡ b
  unfolding shr
  common_all a b p q h =
      let none_left : n - n ≡ 0 = omega arith in
      rw none_left at ((common_iff a b n p q (omega arith)).0 h)
