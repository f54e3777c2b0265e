-- ===== src/Replay/Tests.antt =====
-- The replay window at concrete counters.
use wgtcp.Base.{ℕ, ◌+◌, ◌≤◌, ◌<◌, ◌≡◌, ◌↔◌, false, true, List, [], ◌∷◌, refl}
use wgtcp.Replay.{
  counter_validate, new_counter, counter_window_size, reject_after_messages, clear_words, advance,
  mark,
}
use wgtcp.Replay.Window.{validate, Represents, counter_validate-validate}
use wgtcp.Replay.Once.{
  elem, Distinct, received, empty_set, new-Represents, accepted_once, accepted_iff,
}

-- newest first: a repeated counter, and one that has left the window
abbrev history : List ℕ
history = 3 ∷ 9000 ∷ 7 ∷ 3 ∷ 7 ∷ []

accepts : (received history).0 ≡ 9000 ∷ 3 ∷ 7 ∷ []
unfolding received counter_validate mark advance clear_words
accepts = refl

accepted_once_example : Distinct (received history).0
accepted_once_example = accepted_once history

accepted_iff_example : ((counter_validate 8999 (received history).1).0 ≡ true) ↔ (
    (8999 < reject_after_messages)
    × ((received history).1.counter ≤ reject_after_messages)
    × ((received history).1.counter ≤ 8999 + 1 + counter_window_size)
    × (elem 8999 (received history).0 ≡ false))
accepted_iff_example = accepted_iff history 8999

counter_validate-validate_example :
    ((counter_validate 5 new_counter).0 ≡ (validate 5 empty_set).0)
    × Represents (counter_validate 5 new_counter).1 (validate 5 empty_set).1
counter_validate-validate_example = counter_validate-validate 5 new_counter empty_set new-Represents
