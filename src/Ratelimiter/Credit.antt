-- ===== src/Ratelimiter/Credit.antt =====
-- What each event of kernel/ratelimiter.c does to the credit of a source.
use wgtcp.Base.{
  ℕ, zero, suc, ◌+◌, ◌-◌, ◌^◌, ◌≤◌, ◌<◌, ◌≡◌, inl, inr, refl, ◌∙◌, Bool, true, false, ◌&&◌, ◌==◌,
  ltb, if◌then◌else◌, List, [], ◌∷◌, Option, none, some, arith, Bool-cases,
}
use wgtcp.Ratelimiter.{
  Entry, Limiter, Source, v4, v6, other, allow_in, ratelimiter_allow, is_for, spend_at, new_entry,
  token_max, packet_cost,
}
use wgtcp.Ratelimiter.Bucket.{
  IsTable, credit, cost, spend_lem, spend-is_for, spend-source, find_entry-cases, spend_in-IsTable,
  spend_in-credit, spend_in-others, Absent-credit,
}
use wgtcp.Ratelimiter.Events.{same_source, has_entry, is_second}

-- One request at one table: the source's credit pays for the decision.
allow_in-credit :
    (max_entries : ℕ) (has_memory : Bool) (now net ip : ℕ) (es : List Entry) (total : ℕ)
    → IsTable now es
    → now + token_max < 2 ^ 64
    → let (ret, es', total') = allow_in max_entries has_memory now net ip es total in
      IsTable now es' × (cost ret + credit now net ip es' ≡ credit now net ip es)
unfolding allow_in
allow_in-credit max_entries has_memory now net ip es total h lt =
    elim (find_entry-cases now net ip es) [
      | inr found ↦
          rw found (spend_in-IsTable now net ip es h lt, spend_in-credit now net ip es h lt)
      | inl (missing, a) ↦ elim (Bool-cases (ltb max_entries (total + 1))) [
        | inl full ↦ rw (missing, full) (h, omega arith)
        | inr room ↦ elim (Bool-cases has_memory) [
          | inr fails ↦ rw (missing, room, fails) (h, omega arith)
          | inl memory ↦
              rw (missing, room, memory)
                (
                  (record { past = omega arith; capped = omega arith }, h),
                  ground (arith, Absent-credit now net ip es a),
                )
        ]
      ]
    ]

-- A request of another source costs nothing.
allow_in-others :
    (max_entries : ℕ) (has_memory : Bool) (now net ip net' ip' : ℕ) (es : List Entry) (total : ℕ)
    → (net' ≡ net → ip' ≡ ip → ⊥)
    → let (ret, es', total') = allow_in max_entries has_memory now net ip es total in
      credit now net' ip' es' ≡ credit now net' ip' es
unfolding allow_in
allow_in-others max_entries has_memory now net ip net' ip' es total apart =
    elim (find_entry-cases now net ip es) [
      | inr found ↦ rw found (spend_in-others now net ip net' ip' es apart)
      | inl (missing, a) ↦ elim (Bool-cases (ltb max_entries (total + 1))) [
        | inl full ↦ rw (missing, full) refl
        | inr room ↦ elim (Bool-cases has_memory) [
          | inr fails ↦ rw (missing, room, fails) refl
          | inl memory ↦
              let theirs : (net == net' && ip == ip') ≡ false = ground (arith, apart) in
              rw (missing, room, memory) (rw theirs refl)
        ]
      ]
    ]

-- The entry at a place pays, or is not the first one.
pub spend_at-credit :
    (now net ip i : ℕ) (es : List Entry)
    → IsTable now es
    → now + token_max < 2 ^ 64
    → IsTable now (spend_at now net ip i es).1
      × (cost (spend_at now net ip i es).0 + credit now net ip (spend_at now net ip i es).1
          ≤ credit now net ip es + (if is_second net ip i es then packet_cost else 0))
unfolding spend_at
spend_at-credit now net ip i [] h lt = (tt, omega arith)
spend_at-credit now net ip zero (e ∷ es) (v, t) lt = elim (Bool-cases (is_for net ip e)) [
  | inr apart ↦ rw apart ((v, t), rw apart (omega arith))
  | inl this ↦
      let (v', paid) = spend_lem now e v lt in
      let (n, p, last) = spend-source now e in
      rw this
        ((v', t), rw (spend-is_for now net ip e ∙ this, last) (omega (arith, paid, v'.capped)))
]
spend_at-credit now net ip (suc i) (e ∷ es) (v, t) lt =
    let (t', paid) = spend_at-credit now net ip i es t lt in
    (
      (v, t'),
      elim (Bool-cases (is_for net ip e)) [
        | inl this ↦ rw this (at_most _ (spend_at now net ip i es).0)
        | inr apart ↦ rw apart paid
      ],
    )
  where
    at_most : (c : ℕ) (b : Bool) → cost b + c ≤ c + packet_cost
    at_most c true = omega arith
    at_most c false = omega arith

pub spend_at-others :
    (now net ip net' ip' i : ℕ) (es : List Entry)
    → (net' ≡ net → ip' ≡ ip → ⊥)
    → credit now net' ip' (spend_at now net ip i es).1 ≡ credit now net' ip' es
unfolding spend_at
spend_at-others now net ip net' ip' i [] apart = refl
spend_at-others now net ip net' ip' zero (e ∷ es) apart = elim (Bool-cases (is_for net ip e)) [
  | inl this ↦
      let theirs : is_for net' ip' e ≡ false = ground (arith, this, apart) in
      rw this (rw (theirs, spend-is_for now net' ip' e ∙ theirs) refl)
  | inr not_this ↦ rw not_this refl
]
spend_at-others now net ip net' ip' (suc i) (e ∷ es) apart =
    rw (spend_at-others now net ip net' ip' i es apart) refl

no_entry-credit :
    (now net ip : ℕ) (es : List Entry)
    → has_entry net ip es ≡ false
    → credit now net ip es ≡ token_max
no_entry-credit now net ip [] h = refl
no_entry-credit now net ip (e ∷ es) h = ground (arith, h, no_entry-credit now net ip es)

-- A new entry gives a full bucket at most, and the time since its own was read.
pub insert-credit :
    (now delay net ip : ℕ) (es : List Entry)
    → packet_cost + credit now net ip (new_entry (now - delay) net ip ∷ es)
      ≤ credit now net ip es + (delay + (if has_entry net ip es then token_max else 0))
insert-credit now delay net ip es =
    let mine : (net == net && ip == ip) ≡ true = ground arith in
    rw mine (elim (Bool-cases (has_entry net ip es)) [
      | inl there ↦ rw there (omega arith)
      | inr nothing ↦ rw nothing (omega (arith, no_entry-credit now net ip es nothing))
    ])

pub insert-others :
    (now read net ip net' ip' : ℕ) (es : List Entry)
    → (net' ≡ net → ip' ≡ ip → ⊥)
    → credit now net' ip' (new_entry read net ip ∷ es) ≡ credit now net' ip' es
insert-others now read net ip net' ip' es apart =
    let theirs : (net == net' && ip == ip') ≡ false = ground (arith, apart) in rw theirs refl

-- What a running collection has read lies in the past.
abbrev pub IsBegun : ℕ → Option (ℕ × ℕ) → Type 0
IsBegun now none = Unit
IsBegun now (some (started, i)) = started ≤ now

-- Both tables in order.
pub record IsLimiter (now : ℕ) (l : Limiter) : Type 0 where
  pub in_v4 : IsTable now l.table_v4
  pub in_v6 : IsTable now l.table_v6
  pub begun : IsBegun now l.collector

-- What a source may still spend.
abbrev pub limit_of : ℕ → Source → Limiter → ℕ
limit_of now (v4 net ip) l = credit now net ip l.table_v4
limit_of now (v6 net ip) l = credit now net ip l.table_v6
limit_of now other l = token_max

-- At one table: a source pays for its own requests.
table-limit :
    (max_entries : ℕ) (has_memory : Bool) (now net ip net' ip' : ℕ) (es : List Entry) (total : ℕ)
    → IsTable now es
    → now + token_max < 2 ^ 64
    → let (ret, es', total') = allow_in max_entries has_memory now net' ip' es total in
      cost ((net == net' && ip == ip') && ret) + credit now net ip es' ≡ credit now net ip es
table-limit max_entries has_memory now net ip net' ip' es total h lt =
    elim (Bool-cases (net == net' && ip == ip')) [
      | inl this ↦
          let n : net ≡ net' = ground (arith, this) in
          let i : ip ≡ ip' = ground (arith, this) in
          rw (this, n, i) (allow_in-credit max_entries has_memory now net' ip' es total h lt).1
      | inr apart ↦ rw apart (
          omega (
            arith,
            allow_in-others max_entries has_memory now net' ip' net ip es total
                (λ n i. ground (arith, apart, n, i)),
          ))
    ]

pub allow-limit :
    (max_entries : ℕ) (has_memory : Bool) (now : ℕ) (s r : Source) (l : Limiter)
    → IsLimiter now l
    → now + token_max < 2 ^ 64
    → let (ret, l') = ratelimiter_allow max_entries has_memory now r l in
      cost (same_source s r && ret) + limit_of now s l' ≡ limit_of now s l
unfolding ratelimiter_allow
allow-limit max_entries has_memory now (v4 net ip) (v4 net' ip') l h lt =
    table-limit max_entries has_memory now net ip net' ip' l.table_v4 l.total_entries h.in_v4 lt
allow-limit max_entries has_memory now (v6 net ip) (v6 net' ip') l h lt =
    table-limit max_entries has_memory now net ip net' ip' l.table_v6 l.total_entries h.in_v6 lt
allow-limit max_entries has_memory now (v4 net ip) (v6 net' ip') l h lt = omega arith
allow-limit max_entries has_memory now (v6 net ip) (v4 net' ip') l h lt = omega arith
allow-limit max_entries has_memory now other (v4 net' ip') l h lt = omega arith
allow-limit max_entries has_memory now other (v6 net' ip') l h lt = omega arith
allow-limit max_entries has_memory now (v4 net ip) other l h lt = omega arith
allow-limit max_entries has_memory now (v6 net ip) other l h lt = omega arith
allow-limit max_entries has_memory now other other l h lt = omega arith

pub allow-IsLimiter :
    (max_entries : ℕ) (has_memory : Bool) (now : ℕ) (r : Source) (l : Limiter)
    → IsLimiter now l
    → now + token_max < 2 ^ 64
    → IsLimiter now (ratelimiter_allow max_entries has_memory now r l).1
unfolding ratelimiter_allow
allow-IsLimiter max_entries has_memory now other l h lt = h
allow-IsLimiter max_entries has_memory now (v4 net ip) l h lt = record {
  in_v4 =
      (allow_in-credit max_entries has_memory now net ip l.table_v4 l.total_entries h.in_v4 lt).0;
  in_v6 = h.in_v6;
  begun = h.begun;
}
allow-IsLimiter max_entries has_memory now (v6 net ip) l h lt = record {
  in_v4 = h.in_v4;
  in_v6 =
      (allow_in-credit max_entries has_memory now net ip l.table_v6 l.total_entries h.in_v6 lt).0;
  begun = h.begun;
}
