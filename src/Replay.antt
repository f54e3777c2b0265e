-- ===== src/Replay.antt =====
-- counter_validate of kernel/receive.c: the replay window of RFC 6479 over struct noise_replay_counter of
-- kernel/noise.h, with words of 64 bits. The bitmap is a function of the word and the bit.
pub mod Window
pub mod Once
mod Tests
use wgtcp.Base.{
  ℕ, zero, suc, ◌+◌, ◌-◌, ◌*◌, ◌/◌, ◌^◌, Bool, true, false, not, ◌||◌, ◌==◌, ltb, leb, min, bit_and,
  if◌then◌else◌, u64, List, [], ◌∷◌, ◌++◌,
}

abbrev pub counter_bits_total : ℕ
counter_bits_total = 8192

abbrev pub bits_per_long : ℕ
bits_per_long = 64

abbrev pub counter_words : ℕ
counter_words = counter_bits_total / bits_per_long

abbrev pub counter_window_size : ℕ
counter_window_size = counter_bits_total - bits_per_long

-- U64_MAX - COUNTER_WINDOW_SIZE - 1
abbrev pub reject_after_messages : ℕ
reject_after_messages = 2 ^ 64 - 1 - counter_window_size - 1

-- struct noise_replay_counter: one more than the largest counter accepted, and the bitmap
pub record ReplayCounter : Type 0 where
  pub counter : ℕ
  pub backtrack : ℕ → ℕ → Bool

-- backtrack[word] = 0
abbrev pub clear_word : ℕ → (ℕ → ℕ → Bool) → ℕ → ℕ → Bool
clear_word word bitmap w b = if w == word then false else bitmap w b

-- set_bit(bit, &backtrack[word])
abbrev pub set_bit : ℕ → ℕ → (ℕ → ℕ → Bool) → ℕ → ℕ → Bool
set_bit word bit bitmap w b =
    if w == word then (if b == bit then true else bitmap w b) else bitmap w b

-- the loop that clears the `n` words behind `current`, around the end
pub clear_words : ℕ → ℕ → (ℕ → ℕ → Bool) → ℕ → ℕ → Bool
clear_words zero current bitmap = bitmap
clear_words (suc i) current bitmap =
    clear_word (bit_and (suc i + current) (counter_words - 1)) (clear_words i current bitmap)

-- the window moves up to a new largest counter
pub advance : ℕ → ReplayCounter → ReplayCounter
advance t c =
    if ltb c.counter t
    then record {
      counter = t;
      backtrack =
          clear_words (min (t / bits_per_long - c.counter / bits_per_long) counter_words)
            (c.counter / bits_per_long) c.backtrack;
    }
    else c

-- test_and_set_bit at the place of `t`
pub mark : ℕ → ReplayCounter → Bool × ReplayCounter
mark t c =
    let word = bit_and (t / bits_per_long) (counter_words - 1) in
    let bit = bit_and t (bits_per_long - 1) in
    (not (c.backtrack word bit), record c { backtrack = set_bit word bit c.backtrack })

-- counter_validate
pub counter_validate : ℕ → ReplayCounter → Bool × ReplayCounter
unfolding mark advance
counter_validate their_counter c =
    if leb (reject_after_messages + 1) c.counter || leb reject_after_messages their_counter
    then (false, c)
    else if ltb (u64 (counter_window_size + u64 (their_counter + 1))) c.counter
    then (false, c)
    else mark (u64 (their_counter + 1)) (advance (u64 (their_counter + 1)) c)

-- the state of a new key: memset to zero
abbrev pub new_counter : ReplayCounter
new_counter = record { counter = 0; backtrack = λ w b. false }
