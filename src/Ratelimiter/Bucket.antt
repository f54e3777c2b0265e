-- ===== src/Ratelimiter/Bucket.antt =====
-- One table: the credit of a source, and how packets and collections change it.
use wgtcp.Base.{
  ◌&&◌, ℕ, ◌+◌, ◌-◌, ◌^◌, ◌≤◌, ◌<◌, ◌≡◌, ◌⊎◌, inl, inr, refl, ◌∙◌, Bool, true, false, ltb, min,
  if◌then◌else◌, List, [], ◌∷◌, none, some, arith, Bool-cases, All,
}
use wgtcp.Ratelimiter.{
  Entry, refill, minus64, spend, is_for, find_entry, keep_entries, token_max, packet_cost,
  nsec_per_sec,
}

-- An entry was last used before now, and times and tokens are far from wrapping around.
pub record IsEntry (now : ℕ) (e : Entry) : Type 0 where
  pub past : e.last_time_ns ≤ now
  pub capped : e.tokens ≤ token_max

-- What a source may still spend at `now`: without an entry, a full bucket.
abbrev pub credit : ℕ → ℕ → ℕ → List Entry → ℕ
credit now net ip [] = token_max
credit now net ip (e ∷ es) =
    if is_for net ip e
    then min token_max (e.tokens + (now - e.last_time_ns))
    else credit now net ip es

abbrev pub cost : Bool → ℕ
cost ret = if ret then packet_cost else 0

refill_lem :
    (now : ℕ) (e : Entry)
    → IsEntry now e
    → now + token_max < 2 ^ 64
    → refill now e ≡ min token_max (e.tokens + (now - e.last_time_ns))
refill_lem now e v lt = omega (arith, v.past, v.capped)

refill-le : (now : ℕ) (e : Entry) → refill now e ≤ token_max
refill-le now e = omega arith

-- The cost of the decision and the tokens left are the tokens that were there.
pub spend_lem :
    (now : ℕ) (e : Entry)
    → IsEntry now e
    → now + token_max < 2 ^ 64
    → IsEntry now (spend now e).1
      × (cost (spend now e).0 + (spend now e).1.tokens
          ≡ min token_max (e.tokens + (now - e.last_time_ns)))
unfolding spend
spend_lem now e v lt = (
  record { past = omega arith; capped = ground (arith, refill-le now e) },
  ground (arith, refill_lem now e v lt),
)

pub spend-source :
    (now : ℕ) (e : Entry)
    → ((spend now e).1.net ≡ e.net)
      × ((spend now e).1.ip ≡ e.ip)
      × ((spend now e).1.last_time_ns ≡ now)
unfolding spend
spend-source now e = (refl, refl, refl)

abbrev pub Absent : ℕ → ℕ → List Entry → Type 0
Absent net ip es = All (λ e. is_for net ip e ≡ false) es

-- Entries in order. There may be two for one source: the search finds the first.
abbrev pub IsTable : ℕ → List Entry → Type 0
IsTable now [] = Unit
IsTable now (e ∷ es) = IsEntry now e × IsTable now es

pub Absent-credit :
    (now net ip : ℕ) (es : List Entry) → Absent net ip es → credit now net ip es ≡ token_max
Absent-credit now net ip [] h = refl
Absent-credit now net ip (e ∷ es) h = rw (h.0) (Absent-credit now net ip es h.1)

pub credit-le : (now net ip : ℕ) (es : List Entry) → credit now net ip es ≤ token_max
credit-le now net ip [] = omega arith
credit-le now net ip (e ∷ es) = ground (arith, credit-le now net ip es)

-- Time passes.
pub IsTable-later :
    (now later : ℕ) (es : List Entry) → now ≤ later → IsTable now es → IsTable later es
IsTable-later now later [] le h = tt
IsTable-later now later (e ∷ es) le (v, t) =
    (record { past = omega (arith, v.past); capped = v.capped }, IsTable-later now later es le t)

pub credit-later :
    (now later net ip : ℕ) (es : List Entry)
    → now ≤ later
    → IsTable now es
    → credit later net ip es ≤ credit now net ip es + (later - now)
credit-later now later net ip [] le h = omega arith
credit-later now later net ip (e ∷ es) le (v, t) =
    ground (arith, credit-later now later net ip es le t, v.past)

-- A collection.
pub keep-IsTable :
    (here : Entry → Bool) (started now : ℕ) (es : List Entry)
    → IsTable now es
    → IsTable now (keep_entries false here started es)
unfolding keep_entries
keep-IsTable here started now [] h = tt
keep-IsTable here started now (e ∷ es) (v, t) =
    elim (Bool-cases (here e && ltb nsec_per_sec (minus64 started e.last_time_ns))) [
      | inl goes ↦ rw goes (keep-IsTable here started now es t)
      | inr stays ↦ rw stays (v, keep-IsTable here started now es t)
    ]

-- The source's entry is in the bucket, and was used after the collection had read the time.
abbrev pub is_stale : (Entry → Bool) → ℕ → ℕ → ℕ → List Entry → Bool
is_stale here started net ip [] = false
is_stale here started net ip (e ∷ es) =
    if is_for net ip e
    then here e && ltb started e.last_time_ns
    else is_stale here started net ip es

-- What the worker collects had its bucket full again, unless it was used since the worker read the time.
pub keep-credit :
    (here : Entry → Bool) (started now net ip : ℕ) (es : List Entry)
    → IsTable now es
    → started ≤ now
    → now + token_max < 2 ^ 64
    → credit now net ip (keep_entries false here started es)
      ≤ credit now net ip es + (if is_stale here started net ip es then token_max else 0)
unfolding keep_entries
keep-credit here started now net ip [] h le lt = omega arith
keep-credit here started now net ip (e ∷ es) (v, t) le lt =
    let ih = keep-credit here started now net ip es t le lt in
    elim (Bool-cases (here e && ltb nsec_per_sec (minus64 started e.last_time_ns))) [
      | inr stays ↦ rw stays (elim (Bool-cases (is_for net ip e)) [
        | inr other ↦ rw other ih
        | inl this ↦ rw this (omega arith)
      ])
      | inl goes ↦ rw goes (elim (Bool-cases (is_for net ip e)) [
        | inr other ↦ rw other ih
        | inl this ↦
            let most = credit-le now net ip (keep_entries false here started es) in
            rw this (collected most (ground (arith, goes)) (ground (arith, goes)) v)
      ])
    ]
  where
    collected :
        {c : ℕ}
        → c ≤ token_max
        → here e ≡ true
        → nsec_per_sec < minus64 started e.last_time_ns
        → IsEntry now e
        → c
          ≤ min token_max (e.tokens + (now - e.last_time_ns))
            + (if here e && ltb started e.last_time_ns then token_max else 0)
    collected most in_it old v = ground (arith, most, in_it, old, v.past)

-- The table with the first entry of a source brought up to date.
abbrev pub spend_in : ℕ → ℕ → ℕ → List Entry → List Entry
spend_in now net ip [] = []
spend_in now net ip (e ∷ es) =
    let rest = spend_in now net ip es in if is_for net ip e then (spend now e).1 ∷ es else e ∷ rest

abbrev pub decision : ℕ → ℕ → ℕ → List Entry → Bool
decision now net ip [] = false
decision now net ip (e ∷ es) =
    let rest = decision now net ip es in if is_for net ip e then (spend now e).0 else rest

-- The search fails for a source that has no entry, and else decides by its entry.
pub find_entry-cases :
    (now net ip : ℕ) (es : List Entry)
    → (find_entry now net ip es ≡ none) × Absent net ip es
      ⊎ (find_entry now net ip es ≡ some (decision now net ip es, spend_in now net ip es))
unfolding find_entry
find_entry-cases now net ip [] = inl (refl, tt)
find_entry-cases now net ip (e ∷ es) = elim (Bool-cases (is_for net ip e)) [
  | inl this ↦ inr (rw this refl)
  | inr other ↦ elim (find_entry-cases now net ip es) [
    | inl (f, a) ↦ inl (rw (other, f) refl, (other, a))
    | inr f ↦ inr (rw (other, f) refl)
  ]
]

pub spend-is_for : (now net ip : ℕ) (e : Entry) → is_for net ip (spend now e).1 ≡ is_for net ip e
unfolding spend
spend-is_for now net ip e = refl

pub spend_in-IsTable :
    (now net ip : ℕ) (es : List Entry)
    → IsTable now es
    → now + token_max < 2 ^ 64
    → IsTable now (spend_in now net ip es)
spend_in-IsTable now net ip [] h lt = tt
spend_in-IsTable now net ip (e ∷ es) (v, t) lt = elim (Bool-cases (is_for net ip e)) [
  | inl this ↦ rw this ((spend_lem now e v lt).0, t)
  | inr other ↦ rw other (v, spend_in-IsTable now net ip es t lt)
]

-- The source pays for what it is allowed; nobody else does.
pub spend_in-credit :
    (now net ip : ℕ) (es : List Entry)
    → IsTable now es
    → now + token_max < 2 ^ 64
    → cost (decision now net ip es) + credit now net ip (spend_in now net ip es)
      ≡ credit now net ip es
spend_in-credit now net ip [] h lt = omega arith
spend_in-credit now net ip (e ∷ es) (v, t) lt = elim (Bool-cases (is_for net ip e)) [
  | inl this ↦
      let (n, i, l) = spend-source now e in
      let (v', paid) = spend_lem now e v lt in
      rw (this, spend-is_for now net ip e ∙ this, l) (omega (arith, paid, v'.capped))
  | inr other ↦ rw other (rw other (spend_in-credit now net ip es t lt))
]

pub spend_in-others :
    (now net ip net' ip' : ℕ) (es : List Entry)
    → (net' ≡ net → ip' ≡ ip → ⊥)
    → credit now net' ip' (spend_in now net ip es) ≡ credit now net' ip' es
spend_in-others now net ip net' ip' [] other = refl
spend_in-others now net ip net' ip' (e ∷ es) other = elim (Bool-cases (is_for net ip e)) [
  | inl this ↦
      let theirs : is_for net' ip' e ≡ false = ground (arith, this, other) in
      rw this (rw (theirs, spend-is_for now net' ip' e ∙ theirs) refl)
  | inr not_this ↦ rw not_this (rw (spend_in-others now net ip net' ip' es other) refl)
]
