-- ===== src/Ratelimiter/Tests.antt =====
-- The rate limiter at concrete requests.
use wgtcp.Base.{ℕ, ◌+◌, ◌-◌, ◌*◌, ◌/◌, ◌≤◌, ◌≡◌, true, List, [], ◌∷◌, length, refl, arith}
use wgtcp.Ratelimiter.{
  Buckets, Limiter, gc_entries, Source, v4, packet_cost, packets_burstable, new_limiter,
  ratelimiter_allow, allow_in, find_entry, spend, spend_at, spend_found, count_entry, insert_entry,
  gc_begin, gc_next, gc_bucket, keep_entries,
}
use wgtcp.Ratelimiter.Events.{
  Event, packet, counts, inserts, decides, collect_begins, collect_next, passed, gifts, happen,
}
use wgtcp.Ratelimiter.Credit.{limit_of}
use wgtcp.Ratelimiter.Rate.{passed_bound, rate_limit}
use wgtcp.Ratelimiter.Uninit.{gc_entries-empty}

abbrev someone : Source
someone = v4 1 0x0A000001

abbrev one_bucket : Buckets
one_bucket = record { table_size = 1; hash4 = λ net ip. 0; hash6 = λ net ip. 0 }

-- The first request comes in its parts; a collection runs beside the others.
abbrev burst : List (ℕ × Event)
burst =
    (4, counts)
    ∷ (5, inserts someone 0)
    ∷ (6, decides someone 0)
    ∷ (7, collect_begins)
    ∷ (7, packet someone true)
    ∷ (8, packet someone true)
    ∷ (9, packet someone true)
    ∷ (10, packet someone true)
    ∷ (60000000, packet someone true)
    ∷ []

six_of_seven : passed one_bucket 128 someone burst new_limiter ≡ 6
unfolding ratelimiter_allow allow_in find_entry spend spend_at spend_found count_entry insert_entry
    gc_begin
six_of_seven = refl

nothing_given : gifts one_bucket 128 someone burst new_limiter ≡ 0
unfolding ratelimiter_allow allow_in find_entry spend spend_at spend_found count_entry insert_entry
    gc_begin
nothing_given = refl

rate_limit_example :
    passed one_bucket 128 someone burst new_limiter
    ≤ packets_burstable + (60000000 - 0) / packet_cost
rate_limit_example =
    rate_limit one_bucket 128 0 60000000 someone burst (omega arith) (omega arith) nothing_given

-- The collection reads the time, five packets of the source use up its bucket, and then the collection takes its
-- entry: five more packets pass at once.
abbrev overtaken : List (ℕ × Event)
overtaken =
    (5, collect_begins)
    ∷ (6, packet someone true)
    ∷ (7, packet someone true)
    ∷ (8, packet someone true)
    ∷ (9, packet someone true)
    ∷ (10, packet someone true)
    ∷ (11, collect_next)
    ∷ (12, packet someone true)
    ∷ (13, packet someone true)
    ∷ (14, packet someone true)
    ∷ (15, packet someone true)
    ∷ (16, packet someone true)
    ∷ []

ten_at_once : passed one_bucket 128 someone overtaken new_limiter ≡ 10
unfolding ratelimiter_allow allow_in find_entry spend gc_begin gc_next gc_bucket keep_entries
ten_at_once = refl

passed_bound_example :
    packet_cost * passed one_bucket 128 someone overtaken new_limiter
    ≤ limit_of 1 someone new_limiter + (16 - 1) + gifts one_bucket 128 someone overtaken new_limiter
passed_bound_example =
    passed_bound one_bucket 128 1 16 someone overtaken new_limiter
      (record { in_v4 = tt; in_v6 = tt; begun = tt }) (omega arith) (omega arith)

abbrev in_use : Limiter
in_use = happen one_bucket 128 5 (packet someone true) new_limiter

gc_entries-empty_example :
    ((gc_entries one_bucket true 6 in_use).table_v4 ≡ [])
    × ((gc_entries one_bucket true 6 in_use).table_v6 ≡ [])
    × ((gc_entries one_bucket true 6 in_use).unlinked
        ≡ in_use.unlinked + (length in_use.table_v4 + length in_use.table_v6))
gc_entries-empty_example =
    gc_entries-empty one_bucket 6 in_use (λ net ip. omega arith) (λ net ip. omega arith)
