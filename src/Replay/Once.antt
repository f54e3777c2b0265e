-- ===== src/Replay/Once.antt =====
-- The counters of one key over time: what counter_validate lets through.
use wgtcp.Base.{
  ℕ, ◌+◌, ◌≤◌, ◌<◌, ◌≡◌, ◌↔◌, refl, sym, ◌∙◌, Bool, true, false, ◌||◌, ◌==◌, ltb, leb,
  if◌then◌else◌, List, [], ◌∷◌, arith, Bool-cases, inl, inr,
}
use wgtcp.Replay.{
  ReplayCounter, counter_validate, new_counter, counter_window_size, reject_after_messages,
}
use wgtcp.Replay.Window.{Accepted, validate, Represents, counter_validate-validate}

abbrev pub elem : ℕ → List ℕ → Bool
elem n [] = false
elem n (m ∷ ms) = if n == m then true else elem n ms

-- no number twice
abbrev pub Distinct : List ℕ → Type 0
Distinct [] = Unit
Distinct (n ∷ ns) = (elem n ns ≡ false) × Distinct ns

-- The counters that were accepted of those received with a new key, newest first, and the window's state.
unfoldable pub received : List ℕ → List ℕ × ReplayCounter
received [] = ([], new_counter)
received (n ∷ older) =
    let (accepted, c) = received older in
    let (fresh, c') = counter_validate n c in (if fresh then n ∷ accepted else accepted, c')

-- The window represents the set of the accepted counters, and none was accepted twice.
record IsHistory (accepted : List ℕ) (c : ReplayCounter) : Type 0 where
  set : Accepted
  represents : Represents c set
  member : (m : ℕ) → set.seen m ≡ elem m accepted
  distinct : Distinct accepted

abbrev pub empty_set : Accepted
empty_set = record { limit = 0; seen = λ m. false }

pub new-Represents : Represents new_counter empty_set
new-Represents = record {
  limit_same = refl;
  below = λ n le. refl;
  bits = λ word bit n low high b e. refl;
}

new-IsHistory : IsHistory [] new_counter
new-IsHistory = record {
  set = empty_set;
  represents = new-Represents;
  member = λ m. refl;
  distinct = tt;
}

elem-again :
    (n m : ℕ) (accepted : List ℕ) (seen : ℕ → Bool)
    → seen n ≡ true
    → seen m ≡ elem m accepted
    → (if m == n then true else seen m) ≡ elem m accepted
elem-again n m accepted seen again e = elim (Bool-cases (m == n)) [
  | inl same ↦
      let p : m ≡ n = ground arith in
      let this : seen m ≡ true = rw p again in rw same (sym this ∙ e)
  | inr other ↦ rw other e
]

-- What the specification does to the list of the accepted counters.
validate-history :
    (n : ℕ) (accepted : List ℕ) (s : Accepted)
    → ((m : ℕ) → s.seen m ≡ elem m accepted)
    → Distinct accepted
    → let (fresh, s') = validate n s in
      let accepted' : List ℕ = if fresh then n ∷ accepted else accepted in
      ((m : ℕ) → s'.seen m ≡ elem m accepted') × Distinct accepted'
validate-history n accepted s member distinct =
    elim (Bool-cases (leb (reject_after_messages + 1) s.limit || leb reject_after_messages n)) [
      | inl worn ↦ rw worn (member, distinct)
      | inr usable ↦ elim (Bool-cases (ltb (counter_window_size + (n + 1)) s.limit)) [
        | inl late ↦ rw (usable, late) (member, distinct)
        | inr near ↦ elim (Bool-cases (s.seen n)) [
          | inl again ↦
              rw (usable, near, again)
                ((λ m. elem-again n m accepted s.seen again (member m)), distinct)
          | inr first ↦
              rw (usable, near, first)
                ((λ m. rw (member m) refl), (sym (member n) ∙ first, distinct))
        ]
      ]
    ]

validate_iff :
    (n : ℕ) (s : Accepted)
    → ((validate n s).0 ≡ true) ↔ (
        (n < reject_after_messages)
        × (s.limit ≤ reject_after_messages)
        × (s.limit ≤ n + 1 + counter_window_size)
        × (s.seen n ≡ false))
validate_iff n s = (λ e. ground (arith, e), λ (a, b, c, d). ground (arith, d))

received-IsHistory : (ns : List ℕ) → IsHistory (received ns).0 (received ns).1
unfolding received
received-IsHistory [] = new-IsHistory
received-IsHistory (n ∷ older) =
    let h : IsHistory (received older).0 (received older).1 = received-IsHistory older in
    let (same, represents) = counter_validate-validate n (received older).1 h.set h.represents in
    let (member, distinct) = validate-history n (received older).0 h.set h.member h.distinct in
    record {
      set = (validate n h.set).1;
      represents = represents;
      member = rw same member;
      distinct = rw same distinct;
    }

-- Whatever counters arrive, in whatever order and however often, none is accepted twice.
pub accepted_once : (ns : List ℕ) → Distinct (received ns).0
accepted_once ns = (received-IsHistory ns).distinct

-- After any history, a counter is accepted exactly when it is below the limit of the key, has not been
-- accepted before, and is at most the window behind the largest one accepted (whose successor is
-- `counter`), on a key that is not worn out.
pub accepted_iff :
    (ns : List ℕ) (n : ℕ)
    → let (accepted, c) = received ns in
      ((counter_validate n c).0 ≡ true) ↔ (
        (n < reject_after_messages)
        × (c.counter ≤ reject_after_messages)
        × (c.counter ≤ n + 1 + counter_window_size)
        × (elem n accepted ≡ false))
accepted_iff ns n =
    let h : IsHistory (received ns).0 (received ns).1 = received-IsHistory ns in
    rw
      (
        (counter_validate-validate n (received ns).1 h.set h.represents).0,
        h.represents.limit_same,
        ← h.member n,
      )
      (validate_iff n h.set)
