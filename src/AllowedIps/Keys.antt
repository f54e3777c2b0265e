-- ===== src/AllowedIps/Keys.antt =====
-- choose and common_bits of kernel/allowedips.c on keys of 32 and of 128 bits.
use wgtcp.Base.{
  ℕ, zero, suc, ◌+◌, ◌-◌, ◌*◌, ◌/◌, ◌%◌, ◌^◌, ◌≤◌, ◌<◌, ◌≡◌, ◌↔◌, ◌⊎◌, inl, inr, refl, sym, ap, ◌∙◌,
  min, bit_xor, arith, ==_iff, ◌==◌, u32, u64, Bool-cases, true, false, ltb, lt→ltb, le→ltb, ltb→lt,
  ◌≢◌,
}
use wgtcp.Base.Bits.{bit_xor_cancel, bit_xor_self, bit_xor-lt}
use wgtcp.AllowedIps.{shr, Bitops, byte_at, choose, fls128, common_bits, high_word}
use wgtcp.AllowedIps.Words.{
  IsBitops, IsPrefixOrder, shr-add, word_common, common_self, common_comm, common_triangle,
  common_next, common_all,
}

-- A bit of a byte is a bit of the number that the byte was cut from.
low_byte : (y b : ℕ) → b < 8 → shr (y % 256) b % 2 ≡ shr y b % 2
unfolding shr
low_byte y zero lt = omega arith
low_byte y (suc zero) lt = omega arith
low_byte y (suc (suc zero)) lt = omega arith
low_byte y (suc (suc (suc zero))) lt = omega arith
low_byte y (suc (suc (suc (suc zero)))) lt = omega arith
low_byte y (suc (suc (suc (suc (suc zero))))) lt = omega arith
low_byte y (suc (suc (suc (suc (suc (suc zero)))))) lt = omega arith
low_byte y (suc (suc (suc (suc (suc (suc (suc zero))))))) lt = omega arith
low_byte y (suc (suc (suc (suc (suc (suc (suc (suc b)))))))) lt = absurd (omega arith)

byte_bit : (x i b : ℕ) → b < 8 → shr (shr x (8 * i) % 256) b % 2 ≡ shr x (8 * i + b) % 2
byte_bit x i b lt = low_byte (shr x (8 * i)) b lt ∙ ap (λ (t : ℕ). t % 2) (shr-add x (8 * i) b)

flip4 : (j : ℕ) → j < 4 → bit_xor j 3 ≡ 3 - j
flip4 zero lt = refl
flip4 (suc zero) lt = refl
flip4 (suc (suc zero)) lt = refl
flip4 (suc (suc (suc zero))) lt = refl
flip4 (suc (suc (suc (suc j)))) lt = absurd (omega arith)

flip8 : (j : ℕ) → j < 8 → (bit_xor j 7 ≡ 7 - j) × (bit_xor (8 + j) 7 ≡ 15 - j)
flip8 zero lt = (refl, refl)
flip8 (suc zero) lt = (refl, refl)
flip8 (suc (suc zero)) lt = (refl, refl)
flip8 (suc (suc (suc zero))) lt = (refl, refl)
flip8 (suc (suc (suc (suc zero)))) lt = (refl, refl)
flip8 (suc (suc (suc (suc (suc zero))))) lt = (refl, refl)
flip8 (suc (suc (suc (suc (suc (suc zero)))))) lt = (refl, refl)
flip8 (suc (suc (suc (suc (suc (suc (suc zero))))))) lt = (refl, refl)
flip8 (suc (suc (suc (suc (suc (suc (suc (suc j)))))))) lt = absurd (omega arith)

-- The bit behind the first `c` of them, counted from the top of the word.
choose_v4 : (c key : ℕ) → c < 32 → choose 32 c key ≡ shr (u32 key) (31 - c) % 2
unfolding choose byte_at
choose_v4 c key lt =
    let place : 8 * (3 - c / 8) + (7 - c % 8) ≡ 31 - c = omega arith in
    rw (flip4 (c / 8) (omega arith)) (
      byte_bit (u32 key) (3 - c / 8) (7 - c % 8) (omega arith)
      ∙ ap (λ (k : ℕ). shr (u32 key) k % 2) place)

choose_high : (c key : ℕ) → c < 64 → choose 128 c key ≡ shr (high_word key) (63 - c) % 2
unfolding choose byte_at
choose_high c key lt =
    let place : 8 * (7 - c / 8) + (7 - c % 8) ≡ 63 - c = omega arith in
    rw ((flip8 (c / 8) (omega arith)).0, inside)
      (byte_bit (high_word key) (7 - c / 8) (7 - c % 8) (omega arith)
        ∙ ap (λ (k : ℕ). shr (high_word key) k % 2) place)
  where
    inside : ltb (7 - c / 8) 8 ≡ true
    inside = lt→ltb _ _ (omega arith)

choose_low : (c key : ℕ) → c < 64 → choose 128 (64 + c) key ≡ shr (u64 key) (63 - c) % 2
unfolding choose byte_at
choose_low c key lt =
    let place : 8 * (7 - c / 8) + (7 - c % 8) ≡ 63 - c = omega arith in
    let byte : (64 + c) / 8 ≡ 8 + c / 8 = omega arith in
    let bit : (64 + c) % 8 ≡ c % 8 = omega arith in
    let beyond : ltb (15 - c / 8) 8 ≡ false = le→ltb _ _ (omega arith) in
    let index : 15 - c / 8 - 8 ≡ 7 - c / 8 = omega arith in
    rw (byte, (flip8 (c / 8) (omega arith)).1, beyond, index, bit)
      (byte_bit (u64 key) (7 - c / 8) (7 - c % 8) (omega arith)
        ∙ ap (λ (k : ℕ). shr (u64 key) k % 2) place)

choose-lt : (bits c key : ℕ) → choose bits c key < 2
unfolding choose
choose-lt bits c key = omega arith

module _ (ops : Bitops) (laws : IsBitops ops) where
  abbrev word32 : ℕ → ℕ → ℕ
  word32 a b = word_common 32 ops.fls laws.fls_lem (u32 a) (u32 b)

  pub v4-IsPrefixOrder : IsPrefixOrder 32 (common_bits ops 32) (choose 32)
  unfolding common_bits
  v4-IsPrefixOrder = record {
    within = λ a b. omega arith;
    self = λ a. common_self 32 ops.fls laws.fls_lem (u32 a);
    symmetric = λ a b. common_comm 32 ops.fls laws.fls_lem (u32 a) (u32 b);
    triangle = λ a b c.
        common_triangle 32 ops.fls laws.fls_lem (u32 a) (u32 b) (u32 c) (omega arith) (omega arith)
          (omega arith);
    next = λ d a b lt le.
        rw (choose_v4 d a lt, choose_v4 d b lt)
          (common_next 32 ops.fls laws.fls_lem d (u32 a) (u32 b) (omega arith) (omega arith) lt le);
    binary = λ d a. choose-lt 32 d a;
  }

  abbrev word64 : ℕ → ℕ → ℕ
  word64 a b = word_common 64 ops.fls64 laws.fls64_lem a b

  fls64-le : (a b : ℕ) → a < 2 ^ 64 → b < 2 ^ 64 → ops.fls64 (bit_xor a b) ≤ 64
  fls64-le a b p q =
      (laws.fls64_lem (bit_xor a b) 64 (bit_xor-lt 64 a b p q)).0 (bit_xor-lt 64 a b p q)

  same_high :
      (x y z : ℕ)
      → y < 2 ^ 64
      → z < 2 ^ 64
      → 128 - fls128 ops (bit_xor x x) (bit_xor y z) ≡ 64 + word64 y z
  unfolding fls128
  same_high x y z p q = rw (bit_xor_self x) (omega (arith, fls64-le y z p q))

  other_high :
      (x x' y z : ℕ)
      → x < 2 ^ 64
      → x' < 2 ^ 64
      → x ≢ x'
      → (128 - fls128 ops (bit_xor x x') (bit_xor y z) ≡ word64 x x') × (word64 x x' < 64)
  unfolding fls128
  other_high x x' y z p q ne =
      let all = common_all 64 ops.fls64 laws.fls64_lem x x' p q in
      let differ : (bit_xor x x' == 0) ≡ false = elim (Bool-cases (bit_xor x x' == 0)) [
        | inl e ↦ absurd (ne (bit_xor_cancel x x x' (bit_xor_self x ∙ sym ((==_iff _ _).0 e))))
        | inr e ↦ e
      ] in
      (
        rw differ (omega (arith, fls64-le x x' p q)),
        elim (Bool-cases (ltb (word64 x x') 64)) [
          | inl e ↦ ltb→lt _ _ e
          | inr e ↦ absurd (ne (all (ground arith)))
        ],
      )

  high64 : ℕ → ℕ → ℕ
  high64 a b = word64 (high_word a) (high_word b)

  low64 : ℕ → ℕ → ℕ
  low64 a b = word64 (u64 a) (u64 b)

  -- The upper words are compared first.
  v6-cases :
      (a b : ℕ)
      → ((high64 a b ≡ 64) × (common_bits ops 128 a b ≡ 64 + low64 a b))
        ⊎ ((high64 a b < 64) × (common_bits ops 128 a b ≡ high64 a b))
  unfolding common_bits high64 low64
  v6-cases a b = elim (Bool-cases (high_word a == high_word b)) [
    | inl e ↦
        let one = (==_iff _ _).0 e in
        inl (
          rw one (common_self 64 ops.fls64 laws.fls64_lem (high_word b)),
          rw one (same_high (high_word b) (u64 a) (u64 b) (omega arith) (omega arith)),
        )
    | inr e ↦
        let two =
          other_high (high_word a) (high_word b) (u64 a) (u64 b) (omega arith) (omega arith)
            (ground arith) in
        inr (two.1, two.0)
  ]

  high_laws :
      (a b c : ℕ)
      → (high64 a b ≡ high64 b a)
        × (min (high64 a b) (high64 b c) ≤ high64 a c)
        × (high64 a a ≡ 64)
        × (high64 a b ≤ 64)
  unfolding high64
  high_laws a b c = (
    common_comm 64 ops.fls64 laws.fls64_lem _ _,
    common_triangle 64 ops.fls64 laws.fls64_lem (high_word a) (high_word b) (high_word c)
        (omega arith) (omega arith) (omega arith),
    common_self 64 ops.fls64 laws.fls64_lem (high_word a),
    omega arith,
  )

  low_laws :
      (a b c : ℕ)
      → (low64 a b ≡ low64 b a)
        × (min (low64 a b) (low64 b c) ≤ low64 a c)
        × (low64 a a ≡ 64)
        × (low64 a b ≤ 64)
  unfolding low64
  low_laws a b c = (
    common_comm 64 ops.fls64 laws.fls64_lem _ _,
    common_triangle 64 ops.fls64 laws.fls64_lem (u64 a) (u64 b) (u64 c) (omega arith) (omega arith)
        (omega arith),
    common_self 64 ops.fls64 laws.fls64_lem (u64 a),
    omega arith,
  )

  abbrev Next : ℕ → ℕ → ℕ → Type 0
  Next d a b = (suc d ≤ common_bits ops 128 a b) ↔ (choose 128 d a ≡ choose 128 d b)

  Next-high : (d a b : ℕ) → d < 64 → d ≤ common_bits ops 128 a b → Next d a b
  unfolding high64 low64
  Next-high d a b lt le =
      let step = λ (h : d ≤ high64 a b).
        common_next 64 ops.fls64 laws.fls64_lem d (high_word a) (high_word b) (omega arith)
          (omega arith) lt h in
      rw (choose_high d a lt, choose_high d b lt)
        (elim (v6-cases a b) [
          | inl (full, all) ↦ (λ h. (step (omega arith)).0 (omega arith), λ e. omega arith)
          | inr (part, all) ↦ (
            λ h. (step (omega arith)).0 (omega arith),
            λ e. let more = (step (omega arith)).1 e in omega arith,
          )
        ])

  Next-low : (c a b : ℕ) → c < 64 → 64 + c ≤ common_bits ops 128 a b → Next (64 + c) a b
  unfolding high64 low64
  Next-low c a b lt le =
      let step = λ (h : c ≤ low64 a b).
        common_next 64 ops.fls64 laws.fls64_lem c (u64 a) (u64 b) (omega arith) (omega arith) lt
          h in
      rw (choose_low c a lt, choose_low c b lt)
        (elim (v6-cases a b) [
          | inl (full, all) ↦ (
            λ h. (step (omega arith)).0 (omega arith),
            λ e. let more = (step (omega arith)).1 e in omega arith,
          )
          | inr (part, all) ↦ absurd (omega arith)
        ])

  v6-Next : (d a b : ℕ) → d < 128 → d ≤ common_bits ops 128 a b → Next d a b
  v6-Next d a b lt le = elim (Bool-cases (ltb d 64)) [
    | inl upper ↦ Next-high d a b (ltb→lt d 64 upper) le
    | inr lower ↦
        let split : 64 + (d - 64) ≡ d = ground arith in
        rw split at (Next-low (d - 64) a b (omega arith) (omega arith))
  ]

  pub v6-IsPrefixOrder : IsPrefixOrder 128 (common_bits ops 128) (choose 128)
  v6-IsPrefixOrder = record {
    within = λ a b. ground (arith, v6-cases a b, high_laws a b a, low_laws a b a);
    self = λ a. ground (arith, v6-cases a a, high_laws a a a, low_laws a a a);
    symmetric = λ a b. ground (arith, v6-cases a b, v6-cases b a, high_laws a b a, low_laws a b a);
    triangle = λ a b c. ground (
      arith,
      v6-cases a b,
      v6-cases b c,
      v6-cases a c,
      high_laws a b c,
      low_laws a b c,
      high_laws a b a,
    );
    next = v6-Next;
    binary = choose-lt 128;
  }
