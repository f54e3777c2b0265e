-- ===== src/Replay/Window.antt =====
-- counter_validate against a set of counters.
use wgtcp.Base.{
  ℕ, zero, suc, ◌+◌, ◌-◌, ◌*◌, ◌/◌, ◌%◌, ◌^◌, ◌≤◌, ◌<◌, ◌≡◌, ◌≢◌, inl, inr, refl, sym, ap, ◌∙◌,
  Bool, true, false, not, ◌||◌, ◌==◌, ltb, leb, min, bit_and, if◌then◌else◌, u64, arith, Bool-cases,
}
use wgtcp.Base.Bits.{bit_and_low}
use wgtcp.Replay.{
  ReplayCounter, counter_words, bits_per_long, counter_window_size, reject_after_messages,
  clear_words, set_bit, advance, mark, counter_validate,
}

-- What the window stands for: which counters have been accepted, and one more than the largest of them.
pub record Accepted : Type 0 where
  pub limit : ℕ
  pub seen : ℕ → Bool

-- the set with one more counter
abbrev pub insert : ℕ → Accepted → Accepted
insert n s = record {
  limit = if ltb s.limit (n + 1) then n + 1 else s.limit;
  seen = λ m. if m == n then true else s.seen m;
}

-- The specification: a counter is accepted unless the key is worn out, the counter is too old or has been
-- accepted before.
abbrev pub validate : ℕ → Accepted → Bool × Accepted
validate n s =
    if leb (reject_after_messages + 1) s.limit || leb reject_after_messages n
    then (false, s)
    else if ltb (counter_window_size + (n + 1)) s.limit
    then (false, s)
    else (not (s.seen n), insert n s)

-- The bit of `n + 1` in each word of the window says whether `n` is in the set.
pub record Represents (c : ReplayCounter) (s : Accepted) : Type 0 where
  pub limit_same : c.counter ≡ s.limit
  pub below : (n : ℕ) → s.limit ≤ n → s.seen n ≡ false
  pub bits :
      (word bit n : ℕ)
      → word ≤ c.counter / bits_per_long
      → c.counter / bits_per_long < word + counter_words
      → bit < bits_per_long
      → word * bits_per_long + bit ≡ n + 1
      → c.backtrack (word % counter_words) bit ≡ s.seen n

low_bits : (n : ℕ) → bit_and n (counter_words - 1) ≡ n % 128
low_bits n =
    let split : n / 2 ^ 7 * 2 ^ 7 + n % 2 ^ 7 ≡ n = omega arith in
    let part : bit_and (n / 2 ^ 7 * 2 ^ 7 + n % 2 ^ 7) (2 ^ 7 - 1) ≡ n % 2 ^ 7 =
      bit_and_low 7 (n / 2 ^ 7) (n % 2 ^ 7) (omega arith) in
    rw split at part

low_bits_word : (n : ℕ) → bit_and n (bits_per_long - 1) ≡ n % 64
low_bits_word n =
    let split : n / 2 ^ 6 * 2 ^ 6 + n % 2 ^ 6 ≡ n = omega arith in
    let part : bit_and (n / 2 ^ 6 * 2 ^ 6 + n % 2 ^ 6) (2 ^ 6 - 1) ≡ n % 2 ^ 6 =
      bit_and_low 6 (n / 2 ^ 6) (n % 2 ^ 6) (omega arith) in
    rw split at part

-- The clearing loop clears these words, and no others.
clear_words-hit :
    (n current i : ℕ) (bitmap : ℕ → ℕ → Bool) (w b : ℕ)
    → 1 ≤ i
    → i ≤ n
    → (i + current) % 128 ≡ w
    → clear_words n current bitmap w b ≡ false
unfolding clear_words
clear_words-hit zero current i bitmap w b pos le e = absurd (omega arith)
clear_words-hit (suc n) current i bitmap w b pos le e = elim (Bool-cases (i == suc n)) [
  | inl last ↦
      let same : bit_and (suc n + current) (counter_words - 1) ≡ w =
        ground (arith, low_bits (suc n + current)) in
      rw same (ground arith)
  | inr before ↦ ground (arith, clear_words-hit n current i bitmap w b pos (ground arith) e)
]

clear_words-miss :
    (n current : ℕ) (bitmap : ℕ → ℕ → Bool) (w b : ℕ)
    → ((i : ℕ) → 1 ≤ i → i ≤ n → (i + current) % 128 ≢ w)
    → clear_words n current bitmap w b ≡ bitmap w b
unfolding clear_words
clear_words-miss zero current bitmap w b other = refl
clear_words-miss (suc n) current bitmap w b other =
    let rest : clear_words n current bitmap w b ≡ bitmap w b =
      clear_words-miss n current bitmap w b (λ i pos le. other i pos (omega arith)) in
    let differ : (suc n + current) % 128 ≢ w = other (suc n) (omega arith) (omega arith) in
    ground (arith, rest, differ, low_bits (suc n + current))

-- the set, with a limit that is at least `t`
abbrev raise : ℕ → Accepted → Accepted
raise t s = record s { limit = if ltb s.limit t then t else s.limit }

-- The bits of the window after it has moved: the old ones where both windows are, zeros where it is new.
moved_bits :
    (t : ℕ) (c : ReplayCounter) (s : Accepted)
    → Represents c s
    → c.counter < t
    → (word bit n : ℕ) → word ≤ t / 64
    → t / 64 < word + 128
    → bit < 64
    → word * 64 + bit ≡ n + 1
    → clear_words (min (t / 64 - c.counter / 64) 128) (c.counter / 64) c.backtrack (word % 128) bit
      ≡ s.seen n
moved_bits t c s r lt word bit n low high b e = elim (Bool-cases (ltb (c.counter / 64) word)) [
  | inl fresh ↦
      clear_words-hit (min (t / 64 - c.counter / 64) 128) (c.counter / 64)
        ((word - c.counter / 64 - 1) % 128 + 1) c.backtrack (word % 128) bit (omega arith)
        (ground arith) (ground arith)
      ∙ sym (r.below n (ground (arith, r.limit_same)))
  | inr old ↦
      clear_words-miss (min (t / 64 - c.counter / 64) 128) (c.counter / 64) c.backtrack (word % 128)
        bit (λ i pos le e'. ground arith)
      ∙ r.bits word bit n (ground arith) (ground arith) b e
]

advance-Represents :
    (t : ℕ) (c : ReplayCounter) (s : Accepted)
    → Represents c s
    → Represents (advance t c) (raise t s)
unfolding advance
advance-Represents t c s r = elim (Bool-cases (ltb c.counter t)) [
  | inl up ↦
      let same : ltb s.limit t ≡ true = rw (← r.limit_same) up in
      rw (up, same)
        (record {
          limit_same = refl;
          below = λ n le. r.below n (ground (arith, r.limit_same));
          bits = moved_bits t c s r (ground arith);
        })
  | inr stay ↦ let same : ltb s.limit t ≡ false = rw (← r.limit_same) stay in rw (stay, same) r
]

set_bit-hit : (w b : ℕ) (bitmap : ℕ → ℕ → Bool) → set_bit w b bitmap w b ≡ true
set_bit-hit w b bitmap = ground arith

set_bit-miss :
    (w b : ℕ) (bitmap : ℕ → ℕ → Bool) (w' b' : ℕ)
    → (w' ≡ w → b' ≡ b → ⊥)
    → set_bit w b bitmap w' b' ≡ bitmap w' b'
set_bit-miss w b bitmap w' b' other = ground (arith, other)

-- Reading and setting the bit of `n + 1` reads and sets whether `n` is in the set.
mark-Represents :
    (n : ℕ) (c : ReplayCounter) (s : Accepted)
    → Represents c s
    → n < s.limit
    → s.limit ≤ n + 1 + counter_window_size
    → ((mark (n + 1) c).0 ≡ not (s.seen n))
      × Represents (mark (n + 1) c).1 (record s { seen = λ m. if m == n then true else s.seen m })
unfolding mark
mark-Represents n c s r lt near =
    rw (low_bits ((n + 1) / 64), low_bits_word (n + 1))
      (
        ap not (
            r.bits ((n + 1) / 64) ((n + 1) % 64) n (omega (arith, r.limit_same))
              (omega (arith, r.limit_same)) (omega arith) (omega arith)),
        record {
          limit_same = r.limit_same;
          below = λ m le. ground (arith, r.below m le);
          bits = λ word bit m low high b e. elim (Bool-cases (m == n)) [
            | inl this ↦
                let w : word ≡ (n + 1) / 64 = ground arith in
                let k : bit ≡ (n + 1) % 64 = ground arith in
                rw (this, w, k) (set_bit-hit ((n + 1) / 64 % 128) ((n + 1) % 64) c.backtrack)
            | inr another ↦ rw another (
                set_bit-miss ((n + 1) / 64 % 128) ((n + 1) % 64) c.backtrack (word % 128) bit
                  (λ w k. ground (arith, r.limit_same))
                ∙ r.bits word bit m low high b e)
          ];
        },
      )

-- counter_validate accepts exactly the counters that the specification accepts, and its window goes on
-- representing the set of the accepted ones.
pub counter_validate-validate :
    (n : ℕ) (c : ReplayCounter) (s : Accepted)
    → Represents c s
    → ((counter_validate n c).0 ≡ (validate n s).0)
      × Represents (counter_validate n c).1 (validate n s).1
unfolding counter_validate
counter_validate-validate n c s r =
    elim (Bool-cases (leb (reject_after_messages + 1) c.counter || leb reject_after_messages n)) [
      | inl worn ↦
          let worn' : (leb (reject_after_messages + 1) s.limit || leb reject_after_messages n)
              ≡ true =
            rw (← r.limit_same) worn in
          rw (worn, worn') (refl, r)
      | inr usable ↦
          let usable' : (leb (reject_after_messages + 1) s.limit || leb reject_after_messages n)
              ≡ false =
            rw (← r.limit_same) usable in
          let t : u64 (n + 1) ≡ n + 1 = ground (arith, usable) in
          let sum : u64 (counter_window_size + (n + 1)) ≡ counter_window_size + (n + 1) =
            ground (arith, usable) in
          elim (Bool-cases (ltb (counter_window_size + (n + 1)) c.counter)) [
            | inl late ↦
                let late' : ltb (counter_window_size + (n + 1)) s.limit ≡ true =
                  rw (← r.limit_same) late in
                rw (usable, usable', t, sum, late, late') (refl, r)
            | inr near ↦
                let near' : ltb (counter_window_size + (n + 1)) s.limit ≡ false =
                  rw (← r.limit_same) near in
                rw (usable, usable', t, sum, near, near')
                  (mark-Represents n (advance (n + 1) c) (raise (n + 1) s)
                    (advance-Represents (n + 1) c s r) (ground arith) (ground arith))
          ]
    ]
