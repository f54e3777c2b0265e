-- ===== src/Ratelimiter/Rate.antt =====
-- How many packets a source gets through the limiter of kernel/ratelimiter.c over time.
use wgtcp.Base.{
  ℕ, ◌+◌, ◌-◌, ◌*◌, ◌/◌, ◌^◌, ◌≤◌, ◌<◌, ◌≡◌, refl, List, [], ◌∷◌, Option, none, some, arith,
}
use wgtcp.Ratelimiter.{
  Limiter, Buckets, Source, v4, v6, other, token_max, packet_cost, packets_burstable, new_limiter,
}
use wgtcp.Ratelimiter.Bucket.{IsTable-later, credit-later}
use wgtcp.Ratelimiter.Events.{Event, happen, passed, gifts}
use wgtcp.Ratelimiter.Credit.{IsLimiter, IsBegun, limit_of}
use wgtcp.Ratelimiter.Steps.{step-limit}

-- The times rise from `now` to at most `last`.
abbrev pub Rise : ℕ → ℕ → List (ℕ × Event) → Type 0
Rise now last [] = now ≤ last
Rise now last ((t, e) ∷ es) = (now ≤ t) × Rise t last es

Rise-le : (now last : ℕ) (es : List (ℕ × Event)) → Rise now last es → now ≤ last
Rise-le now last [] h = h
Rise-le now last ((t, e) ∷ es) (le, h) = omega (arith, Rise-le t last es h)

IsBegun-later : (now later : ℕ) (c : Option (ℕ × ℕ)) → now ≤ later → IsBegun now c → IsBegun later c
IsBegun-later now later none le h = tt
IsBegun-later now later (some (started, i)) le h = omega (arith, h)

IsLimiter-later : (now later : ℕ) (l : Limiter) → now ≤ later → IsLimiter now l → IsLimiter later l
IsLimiter-later now later l le h = record {
  in_v4 = IsTable-later now later l.table_v4 le h.in_v4;
  in_v6 = IsTable-later now later l.table_v6 le h.in_v6;
  begun = IsBegun-later now later l.collector le h.begun;
}

limit-later :
    (now later : ℕ) (s : Source) (l : Limiter)
    → now ≤ later
    → IsLimiter now l
    → limit_of later s l ≤ limit_of now s l + (later - now)
limit-later now later (v4 net ip) l le h = credit-later now later net ip l.table_v4 le h.in_v4
limit-later now later (v6 net ip) l le h = credit-later now later net ip l.table_v6 le h.in_v6
limit-later now later other l le h = omega arith

-- From any state in order, with requests and a collection running beside one another: the packets that a source
-- gets through cost no more than the credit it has, the time that passes (one packet for each 50 ms), and the
-- gifts of events that overtake others: a full bucket for each entry that is linked beside an old one of the
-- source and for each collection of its entry if that was used since the collection had read the time, the
-- delay of each entry that is linked after its time was read, and one packet for each decision by an entry that
-- is unlinked or not the source's first.
pub passed_bound :
    (bs : Buckets) (max_entries now last : ℕ) (s : Source) (es : List (ℕ × Event)) (l : Limiter)
    → IsLimiter now l
    → last + token_max < 2 ^ 64
    → Rise now last es
    → packet_cost * passed bs max_entries s es l
      ≤ limit_of now s l + (last - now) + gifts bs max_entries s es l
passed_bound bs max_entries now last s [] l h lt rise = omega arith
passed_bound bs max_entries now last s ((t, e) ∷ es) l h lt (le, rise) =
    let t_last : t ≤ last = Rise-le t last es rise in
    let (h', paid) =
      step-limit bs max_entries t s e l (IsLimiter-later now t l le h) (omega arith) in
    ground (
      arith,
      passed_bound bs max_entries t last s es (happen bs max_entries t e l) h' lt rise,
      limit-later now t s l le h,
      paid,
    )

-- A source gets at most five packets through at once, and then one for each 50 ms that pass, of events at
-- rising times after the limiter was set up, whatever the other sources send and however many entries there may
-- be, as long as nothing is given to it: no entry of it is linked beside another or later than its time was
-- read, none that is unlinked or not the first decides, and no collection takes one that was used since the
-- collection had read the time.
pub rate_limit :
    (bs : Buckets) (max_entries now last : ℕ) (s : Source) (es : List (ℕ × Event))
    → last + token_max < 2 ^ 64
    → Rise now last es
    → gifts bs max_entries s es new_limiter ≡ 0
    → passed bs max_entries s es new_limiter ≤ packets_burstable + (last - now) / packet_cost
rate_limit bs max_entries now last s es lt rise none_given =
    let bound : packet_cost * passed bs max_entries s es new_limiter
        ≤ limit_of now s new_limiter + (last - now) + gifts bs max_entries s es new_limiter =
      passed_bound bs max_entries now last s es new_limiter
        (record { in_v4 = tt; in_v6 = tt; begun = tt }) lt rise in
    omega (arith, bound, full s, none_given)
  where
    full : (s : Source) → limit_of now s new_limiter ≡ token_max
    full (v4 net ip) = refl
    full (v6 net ip) = refl
    full other = refl
