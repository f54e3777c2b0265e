-- ===== src/Ratelimiter/Events.antt =====
-- What happens to the limiter of kernel/ratelimiter.c when requests and a collection run beside one another.
use wgtcp.Base.{
  ℕ, zero, suc, ◌+◌, ◌-◌, Bool, true, false, ◌&&◌, ◌==◌, if◌then◌else◌, List, [], ◌∷◌, Option, none,
  some,
}
use wgtcp.Ratelimiter.{
  Entry, Limiter, Buckets, Source, v4, v6, other, spend, is_for, ratelimiter_allow, spend_found,
  count_entry, uncount_entry, insert_entry, in_bucket, gc_begin, gc_next, entry_free, token_max,
  packet_cost,
}
use wgtcp.Ratelimiter.Bucket.{is_stale}

-- `packet` is a request that nothing interrupts, with the outcome of its allocation. The other requests come in
-- parts: `counts` and, with the delay since its time was read, `inserts` or `no_memory`, after a search that
-- has found nothing; `decides` at the place of the entry that the search has found, or `decides_unlinked`, with
-- that entry, if it was unlinked since.
pub data Event : Type 0 where
  packet : Source → Bool → Event
  counts no_memory : Event
  inserts : Source → ℕ → Event
  decides : Source → ℕ → Event
  decides_unlinked : Source → Entry → Event
  collect_begins collect_next free : Event

abbrev pub inserted : ℕ → ℕ → Source → Limiter → Bool × Limiter
inserted zero read r l = (false, l)
inserted (suc n) read r l = (true, insert_entry read r l)

-- Whether a packet passes, and the limiter after the event.
abbrev pub step : Buckets → ℕ → ℕ → Event → Limiter → Bool × Limiter
step bs max_entries now (packet r has_memory) l = ratelimiter_allow max_entries has_memory now r l
step bs max_entries now counts l = (false, count_entry max_entries l)
step bs max_entries now no_memory l = (false, uncount_entry l)
step bs max_entries now (inserts r delay) l = inserted l.counted (now - delay) r l
step bs max_entries now (decides r i) l = spend_found now r i l
step bs max_entries now (decides_unlinked r e) l = ((spend now e).0, l)
step bs max_entries now collect_begins l = (false, gc_begin now l)
step bs max_entries now collect_next l = (false, gc_next bs l)
step bs max_entries now free l = (false, entry_free l)

abbrev pub happen : Buckets → ℕ → ℕ → Event → Limiter → Limiter
happen bs max_entries now e l = (step bs max_entries now e l).1

abbrev pub same_source : Source → Source → Bool
same_source (v4 net ip) (v4 net' ip') = net == net' && ip == ip'
same_source (v6 net ip) (v6 net' ip') = net == net' && ip == ip'
same_source _ _ = false

abbrev pub is_of : Source → Event → Bool
is_of s (packet r has_memory) = same_source s r
is_of s (inserts r delay) = same_source s r
is_of s (decides r i) = same_source s r
is_of s (decides_unlinked r e) = same_source s r
is_of s _ = false

-- whether the event lets a packet of the source through
abbrev pub passes : Buckets → ℕ → ℕ → Source → Event → Limiter → Bool
passes bs max_entries now s e l = is_of s e && (step bs max_entries now e l).0

-- the packets of the source that events at these times let through
abbrev pub passed : Buckets → ℕ → Source → List (ℕ × Event) → Limiter → ℕ
passed bs max_entries s [] l = 0
passed bs max_entries s ((now, e) ∷ es) l =
    (if passes bs max_entries now s e l then 1 else 0)
    + passed bs max_entries s es (happen bs max_entries now e l)

abbrev pub has_entry : ℕ → ℕ → List Entry → Bool
has_entry net ip [] = false
has_entry net ip (e ∷ es) = if is_for net ip e then true else has_entry net ip es

-- Whether the entry at the place is the source's, but not its first.
abbrev pub is_second : ℕ → ℕ → ℕ → List Entry → Bool
is_second net ip i [] = false
is_second net ip zero (e ∷ es) = false
is_second net ip (suc i) (e ∷ es) = if is_for net ip e then true else is_second net ip i es

-- What is true of the source's table.
abbrev pub of_source : (ℕ → ℕ → List Entry → Bool) → Source → Limiter → Bool
of_source test (v4 net ip) l = test net ip l.table_v4
of_source test (v6 net ip) l = test net ip l.table_v6
of_source test other l = false

abbrev pub stale_at : Buckets → Option (ℕ × ℕ) → Source → Limiter → Bool
stale_at bs none s l = false
stale_at bs (some (started, i)) (v4 net ip) l =
    is_stale (in_bucket bs.hash4 i) started net ip l.table_v4
stale_at bs (some (started, i)) (v6 net ip) l =
    is_stale (in_bucket bs.hash6 i) started net ip l.table_v6
stale_at bs (some (started, i)) other l = false

-- What an event that overtakes another may give the source beyond its credit. A new entry beside an old one,
-- and a collection of an entry that was used since the collection began, give a full bucket; an entry whose
-- time was read before it was linked, this time; and a decision by an entry that is unlinked or not the
-- source's first, one packet.
abbrev pub gift : Buckets → ℕ → Source → Event → Limiter → ℕ
gift bs now s (inserts r delay) l =
    if same_source s r then delay + (if of_source has_entry s l then token_max else 0) else 0
gift bs now s (decides r i) l =
    if same_source s r && of_source (λ net ip es. is_second net ip i es) s l then packet_cost else 0
gift bs now s (decides_unlinked r e) l = if same_source s r then packet_cost else 0
gift bs now s collect_next l = if stale_at bs l.collector s l then token_max else 0
gift bs now s _ l = 0

abbrev pub gifts : Buckets → ℕ → Source → List (ℕ × Event) → Limiter → ℕ
gifts bs max_entries s [] l = 0
gifts bs max_entries s ((now, e) ∷ es) l =
    gift bs now s e l + gifts bs max_entries s es (happen bs max_entries now e l)
