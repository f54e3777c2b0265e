-- ===== src/Base/Bits.antt =====
-- `^`, `|` and `&` on numbers of any size, by their lowest binary digit.
use Prim.Native.Nat.{digits, bitwise, differ, bit_and-bitwise, bit_or-bitwise, bit_xor-bitwise}
use Prim.Native.Nat.{
  ℕ, zero, suc, ◌+◌, ◌-◌, ◌*◌, ◌/◌, ◌%◌, ◌^◌, ◌≤◌, ◌<◌, min, max, bit_and, bit_or, bit_xor,
}
use mathlib.Core.Path.{◌≡◌, refl, ap, ◌∙◌}
use mathlib.Core.Logic.{inl, inr}
use wgtcp.Base.Tests.{Bool-cases, ◌==◌}
use native.Mathlib.Omega.{arith}
use native.Mathlib.Nat.{pow-suc, le_refl, one-le-pow}

differ_bits : (x y : ℕ) → x < 2 → y < 2 → differ x y ≡ (x + y) % 2
differ_bits zero zero p q = refl
differ_bits zero (suc zero) p q = refl
differ_bits (suc zero) zero p q = refl
differ_bits (suc zero) (suc zero) p q = refl
differ_bits (suc (suc x)) y p q = absurd (omega arith)
differ_bits zero (suc (suc y)) p q = absurd (omega arith)
differ_bits (suc zero) (suc (suc y)) p q = absurd (omega arith)

module _ (onZero : ℕ → ℕ) (onDigits : ℕ → ℕ → ℕ) where
  -- One unit of fuel more than is needed makes no difference, nor do several.
  one_more : (n a b : ℕ) → a ≤ n → digits onZero onDigits (suc n) a b ≡ digits onZero onDigits n a b
  one_more zero zero b le = refl
  one_more zero (suc a) b le = absurd (omega arith)
  one_more (suc n) zero b le = refl
  one_more (suc n) (suc a) b le = rw (one_more n (suc a / 2) (b / 2) (omega arith)) refl

  spare_fuel : (n a b : ℕ) → a ≤ n → digits onZero onDigits n a b ≡ bitwise onZero onDigits a b
  spare_fuel zero a b le = let none_left : a ≡ 0 = omega arith in rw none_left refl
  spare_fuel (suc n) a b le = elim (Bool-cases (a == suc n)) [
    | inl exact ↦ let same : a ≡ suc n = ground arith in rw same refl
    | inr spare ↦ one_more n a b (ground arith) ∙ spare_fuel n a b (ground arith)
  ]

  -- The lowest digit, when `onZero` treats a zero as the digits of zero.
  lowest_digit :
      ((b : ℕ) → onZero b ≡ onZero (b / 2) * 2 + onDigits 0 (b % 2))
      → (a b : ℕ)
      → bitwise onZero onDigits a b
        ≡ bitwise onZero onDigits (a / 2) (b / 2) * 2 + onDigits (a % 2) (b % 2)
  lowest_digit at_zero zero b = at_zero b
  lowest_digit at_zero (suc a) b = rw (spare_fuel a (suc a / 2) (b / 2) (omega arith)) refl

pub bit_and_step : (a b : ℕ) → bit_and a b ≡ bit_and (a / 2) (b / 2) * 2 + min (a % 2) (b % 2)
bit_and_step a b = simp bit_and-bitwise (lowest_digit (λ n. 0) min (λ n. omega arith) a b)

pub bit_or_step : (a b : ℕ) → bit_or a b ≡ bit_or (a / 2) (b / 2) * 2 + max (a % 2) (b % 2)
bit_or_step a b = simp bit_or-bitwise (lowest_digit (λ n. n) max (λ n. omega arith) a b)

pub bit_xor_step : (a b : ℕ) → bit_xor a b ≡ bit_xor (a / 2) (b / 2) * 2 + differ (a % 2) (b % 2)
bit_xor_step a b = simp bit_xor-bitwise (lowest_digit (λ n. n) differ at_zero a b)
  where
    at_zero : (n : ℕ) → n ≡ n / 2 * 2 + differ 0 (n % 2)
    at_zero n = omega (arith, differ_bits 0 (n % 2) (omega arith) (omega arith))

pub bit_xor_half : (a b : ℕ) → bit_xor a b ≡ bit_xor (a / 2) (b / 2) * 2 + (a + b) % 2
bit_xor_half a b =
    omega (arith, bit_xor_step a b, differ_bits (a % 2) (b % 2) (omega arith) (omega arith))

xor_cancel_fuel : (n a b c : ℕ) → a ≤ n → b ≤ n → c ≤ n → bit_xor a b ≡ bit_xor a c → b ≡ c
xor_cancel_fuel zero a b c p q r e = omega arith
xor_cancel_fuel (suc n) a b c p q r e =
    let half : b / 2 ≡ c / 2 =
      xor_cancel_fuel n (a / 2) (b / 2) (c / 2) (omega arith) (omega arith) (omega arith)
        (omega (arith, bit_xor_half a b, bit_xor_half a c)) in
    omega (arith, bit_xor_half a b, bit_xor_half a c)

-- `^` with a fixed number forgets nothing.
pub bit_xor_cancel : (a b c : ℕ) → bit_xor a b ≡ bit_xor a c → b ≡ c
bit_xor_cancel a b c e =
    xor_cancel_fuel (a + b + c) a b c (omega arith) (omega arith) (omega arith) e

xor_comm_fuel : (n a b : ℕ) → a ≤ n → b ≤ n → bit_xor a b ≡ bit_xor b a
xor_comm_fuel zero a b p q =
    let ea : a ≡ 0 = omega arith in let eb : b ≡ 0 = omega arith in rw (ea, eb)
xor_comm_fuel (suc n) a b p q = omega (
  arith,
  bit_xor_half a b,
  bit_xor_half b a,
  xor_comm_fuel n (a / 2) (b / 2) (omega arith) (omega arith),
)

pub bit_xor_comm : (a b : ℕ) → bit_xor a b ≡ bit_xor b a
bit_xor_comm a b = xor_comm_fuel (a + b) a b (omega arith) (omega arith)

twice-pow : (k : ℕ) → 2 ^ suc k ≡ 2 * 2 ^ k
twice-pow k = omega (arith, pow-suc 2 k)

-- `^` of numbers of k bits has k bits.
pub bit_xor-lt : (k a b : ℕ) → a < 2 ^ k → b < 2 ^ k → bit_xor a b < 2 ^ k
bit_xor-lt zero a b p q =
    let ea : a ≡ 0 = omega arith in let eb : b ≡ 0 = omega arith in rw (ea, eb) (omega arith)
bit_xor-lt (suc k) a b p q = omega (
  arith,
  bit_xor_half a b,
  twice-pow k,
  bit_xor-lt k (a / 2) (b / 2) (omega (arith, twice-pow k)) (omega (arith, twice-pow k)),
)

or_zero_fuel : (n a : ℕ) → a ≤ n → bit_or a 0 ≡ a
or_zero_fuel zero a p = let e : a ≡ 0 = omega arith in rw e
or_zero_fuel (suc n) a p = omega (arith, bit_or_step a 0, or_zero_fuel n (a / 2) (omega arith))

times-twice-pow : (q k : ℕ) → q * 2 ^ suc k ≡ 2 * (q * 2 ^ k)
times-twice-pow q k = omega (arith, ap (λ (t : ℕ). q * t) (twice-pow k))

-- `(high << k) | low` is a sum where `low` has k bits.
pub bit_or_shifted : (k high low : ℕ) → low < 2 ^ k → bit_or (high * 2 ^ k) low ≡ high * 2 ^ k + low
bit_or_shifted zero high low p =
    let e : low ≡ 0 = omega arith in
    rw e (omega (arith, or_zero_fuel (high * 2 ^ 0) (high * 2 ^ 0) (le_refl _)))
bit_or_shifted (suc k) high low p =
    let half : high * 2 ^ suc k / 2 ≡ high * 2 ^ k = omega (arith, times-twice-pow high k) in
    let rest : bit_or (high * 2 ^ suc k / 2) (low / 2) ≡ high * 2 ^ k + low / 2 =
      rw half (bit_or_shifted k high (low / 2) (omega (arith, twice-pow k))) in
    omega (arith, bit_or_step (high * 2 ^ suc k) low, times-twice-pow high k)

and_zero_fuel : (n a : ℕ) → a ≤ n → bit_and a 0 ≡ 0
and_zero_fuel zero a p = let e : a ≡ 0 = omega arith in rw e
and_zero_fuel (suc n) a p = omega (arith, bit_and_step a 0, and_zero_fuel n (a / 2) (omega arith))

-- A mask of the k low bits drops what stands above them.
pub bit_and_low : (k high low : ℕ) → low < 2 ^ k → bit_and (high * 2 ^ k + low) (2 ^ k - 1) ≡ low
bit_and_low zero high low p =
    omega (arith, and_zero_fuel (high * 2 ^ 0 + low) (high * 2 ^ 0 + low) (le_refl _))
bit_and_low (suc k) high low p =
    let pos : 1 ≤ 2 ^ k = one-le-pow k 2 (omega arith) in
    let mask : (2 ^ suc k - 1) / 2 ≡ 2 ^ k - 1 = omega (arith, twice-pow k) in
    let half : (high * 2 ^ suc k + low) / 2 ≡ high * 2 ^ k + low / 2 =
      omega (arith, times-twice-pow high k) in
    let rest : bit_and ((high * 2 ^ suc k + low) / 2) ((2 ^ suc k - 1) / 2) ≡ low / 2 =
      rw (mask, half) (bit_and_low k high (low / 2) (omega (arith, twice-pow k))) in
    omega (
      arith,
      bit_and_step (high * 2 ^ suc k + low) (2 ^ suc k - 1),
      twice-pow k,
      times-twice-pow high k,
    )

-- The lowest bit of a 32-bit number, and what is left of it without that bit.
pub bit_and-one : (f : ℕ) → bit_and f 1 ≡ f % 2
bit_and-one f =
    let split : f / 2 * 2 ^ 1 + f % 2 ≡ f = omega arith in
    let low : bit_and (f / 2 * 2 ^ 1 + f % 2) (2 ^ 1 - 1) ≡ f % 2 =
      bit_and_low 1 (f / 2) (f % 2) (omega arith) in
    rw split at low

pub bit_and_clear_one : (f : ℕ) → f < 2 ^ 32 → bit_and f 0xFFFF_FFFE ≡ f / 2 * 2
bit_and_clear_one f h =
    let rest : bit_and (0 * 2 ^ 31 + f / 2) (2 ^ 31 - 1) ≡ f / 2 =
      bit_and_low 31 0 (f / 2) (omega arith) in
    let same : 0 * 2 ^ 31 + f / 2 ≡ f / 2 = omega arith in
    omega (arith, bit_and_step f 0xFFFF_FFFE, rw same at rest)

pub bit_or_zero : (a : ℕ) → bit_or a 0 ≡ a
bit_or_zero a = or_zero_fuel a a (le_refl a)

max-le-or_fuel : (n a b : ℕ) → a ≤ n → b ≤ n → max a b ≤ bit_or a b
max-le-or_fuel zero a b p q = omega arith
max-le-or_fuel (suc n) a b p q =
    omega (arith, bit_or_step a b, max-le-or_fuel n (a / 2) (b / 2) (omega arith) (omega arith))

-- `|` loses nothing of either number, and stays within the bits of both.
pub max-le-bit_or : (a b : ℕ) → max a b ≤ bit_or a b
max-le-bit_or a b = max-le-or_fuel (a + b) a b (omega arith) (omega arith)

pub bit_or-lt : (k a b : ℕ) → a < 2 ^ k → b < 2 ^ k → bit_or a b < 2 ^ k
bit_or-lt zero a b p q =
    let ea : a ≡ 0 = omega arith in let eb : b ≡ 0 = omega arith in rw (ea, eb) (omega arith)
bit_or-lt (suc k) a b p q = omega (
  arith,
  bit_or_step a b,
  twice-pow k,
  bit_or-lt k (a / 2) (b / 2) (omega (arith, twice-pow k)) (omega (arith, twice-pow k)),
)

pub bit_and_63 : (x : ℕ) → bit_and x 63 ≡ x % 64
bit_and_63 x =
    let low : bit_and (x / 64 * 2 ^ 6 + x % 64) (2 ^ 6 - 1) ≡ x % 64 =
      bit_and_low 6 (x / 64) (x % 64) (omega arith) in
    let split : x / 64 * 2 ^ 6 + x % 64 ≡ x = omega arith in rw split at low

pub bit_and_255 : (x : ℕ) → bit_and x 0xff ≡ x % 256
bit_and_255 x =
    let low : bit_and (x / 256 * 2 ^ 8 + x % 256) (2 ^ 8 - 1) ≡ x % 256 =
      bit_and_low 8 (x / 256) (x % 256) (omega arith) in
    let split : x / 256 * 2 ^ 8 + x % 256 ≡ x = omega arith in rw split at low

xor_self_fuel : (n a : ℕ) → a ≤ n → bit_xor a a ≡ 0
xor_self_fuel zero a p = let e : a ≡ 0 = omega arith in rw e
xor_self_fuel (suc n) a p = omega (arith, bit_xor_half a a, xor_self_fuel n (a / 2) (omega arith))

pub bit_xor_self : (a : ℕ) → bit_xor a a ≡ 0
bit_xor_self a = xor_self_fuel a a (le_refl a)
