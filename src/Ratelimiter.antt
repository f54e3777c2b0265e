-- ===== src/Ratelimiter.antt =====
-- kernel/ratelimiter.c: the token buckets per source of handshake messages. A hash table is the list of its
-- entries: a bucket is searched for the network and the address, which determine the bucket. Times are in
-- nanoseconds, as ktime_get_coarse_boottime_ns gives them. wg_ratelimiter_allow runs on many processors at
-- once, and the collection beside it, so each of the two is given in its parts, between which others come,
-- and as a whole, for a run that nothing interrupts.
pub mod Bucket
pub mod Events
pub mod Credit
pub mod Steps
pub mod Rate
pub mod Entries
pub mod Uninit
mod Tests
use wgtcp.Base.{
  ℕ, zero, suc, ◌+◌, ◌-◌, ◌*◌, ◌/◌, ◌^◌, Bool, true, false, not, ◌&&◌, ◌||◌, ◌==◌, ltb, leb, min,
  if◌then◌else◌, u64, List, [], ◌∷◌, Option, none, some, length,
}

abbrev pub nsec_per_sec : ℕ
nsec_per_sec = 1000000000

abbrev pub packets_per_second : ℕ
packets_per_second = 20

abbrev pub packets_burstable : ℕ
packets_burstable = 5

abbrev pub packet_cost : ℕ
packet_cost = nsec_per_sec / packets_per_second

abbrev pub token_max : ℕ
token_max = packet_cost * packets_burstable

-- struct ratelimiter_entry
pub record Entry : Type 0 where
  pub last_time_ns : ℕ
  pub tokens : ℕ
  pub ip : ℕ
  pub net : ℕ

-- The tables, the entries that are unlinked but not freed yet, and those that are counted but not linked yet;
-- `collector` is the time that a running collection has read, and its next bucket.
pub record Limiter : Type 0 where
  pub table_v4 : List Entry
  pub table_v6 : List Entry
  pub total_entries : ℕ
  pub unlinked : ℕ
  pub counted : ℕ
  pub collector : Option (ℕ × ℕ)

-- a - b on u64
abbrev pub minus64 : ℕ → ℕ → ℕ
minus64 a b = u64 (a + (2 ^ 64 - b))

-- the tokens at `now`
abbrev pub refill : ℕ → Entry → ℕ
refill now e = min token_max (minus64 (u64 (e.tokens + now)) e.last_time_ns)

-- under the entry's lock: take a packet's cost, if there is enough
pub spend : ℕ → Entry → Bool × Entry
spend now e =
    let tokens = refill now e in
    let ret = leb packet_cost tokens in
    (ret, record e { last_time_ns = now; tokens = if ret then tokens - packet_cost else tokens })

abbrev pub is_for : ℕ → ℕ → Entry → Bool
is_for net ip e = e.net == net && e.ip == ip

-- the search of the bucket: the decision, and the table with the entry brought up to date
pub find_entry : ℕ → ℕ → ℕ → List Entry → Option (Bool × List Entry)
find_entry now net ip [] = none
find_entry now net ip (e ∷ es) =
    let rest = find_entry now net ip es in
    let (ret, e') = spend now e in
    if is_for net ip e
    then some (ret, e' ∷ es)
    else elim rest [ none ↦ none | some r ↦ some (r.0, e ∷ r.1) ]

abbrev pub new_entry : ℕ → ℕ → ℕ → Entry
new_entry now net ip = record {
  last_time_ns = now;
  tokens = token_max - packet_cost;
  ip = ip;
  net = net;
}

-- What follows the search: the entry's decision, or a new entry if the limit and the memory allow one.
-- `total` is total_entries, `has_memory` the outcome of the allocation.
abbrev pub after_search :
    ℕ → Bool → ℕ → ℕ → ℕ → List Entry → ℕ → Option (Bool × List Entry) → Bool × List Entry × ℕ
after_search max_entries has_memory now net ip table total (some (ret, table')) =
    (ret, table', total)
after_search max_entries has_memory now net ip table total none =
    if ltb max_entries (total + 1)
    then (false, table, total)
    else if not has_memory
    then (false, table, total)
    else (true, new_entry now net ip ∷ table, total + 1)

-- wg_ratelimiter_allow on one table, without interruption
pub allow_in : ℕ → Bool → ℕ → ℕ → ℕ → List Entry → ℕ → Bool × List Entry × ℕ
allow_in max_entries has_memory now net ip table total =
    after_search max_entries has_memory now net ip table total (find_entry now net ip table)

-- The source of a packet, by its protocol; `address` is the IPv4 address, or the first half of the IPv6 one.
pub data Source : Type 0 where
  v4 v6 : (net address : ℕ) → Source
  other : Source

-- wg_ratelimiter_allow, without interruption
pub ratelimiter_allow : ℕ → Bool → ℕ → Source → Limiter → Bool × Limiter
ratelimiter_allow max_entries has_memory now (v4 net ip) l =
    let (ret, table, total) =
      allow_in max_entries has_memory now net ip l.table_v4 l.total_entries in
    (ret, record l { table_v4 = table; total_entries = total })
ratelimiter_allow max_entries has_memory now (v6 net ip) l =
    let (ret, table, total) =
      allow_in max_entries has_memory now net ip l.table_v6 l.total_entries in
    (ret, record l { table_v6 = table; total_entries = total })
ratelimiter_allow max_entries has_memory now other l = (false, l)

-- The parts of wg_ratelimiter_allow. After the search, the entry that it has found is the one at a place of
-- the table: under its lock, it takes the packet's cost.
unfoldable pub spend_at : ℕ → ℕ → ℕ → ℕ → List Entry → Bool × List Entry
spend_at now net ip i [] = (false, [])
spend_at now net ip zero (e ∷ es) =
    let (ret, e') = spend now e in if is_for net ip e then (ret, e' ∷ es) else (false, e ∷ es)
spend_at now net ip (suc i) (e ∷ es) = let (ret, es') = spend_at now net ip i es in (ret, e ∷ es')

pub spend_found : ℕ → Source → ℕ → Limiter → Bool × Limiter
unfolding spend_at
spend_found now (v4 net ip) i l =
    let (ret, table) = spend_at now net ip i l.table_v4 in (ret, record l { table_v4 = table })
spend_found now (v6 net ip) i l =
    let (ret, table) = spend_at now net ip i l.table_v6 in (ret, record l { table_v6 = table })
spend_found now other i l = (false, l)

-- After a search that has found nothing: the new entry is counted if the limit allows it; a count above the
-- limit is taken back at once.
pub count_entry : ℕ → Limiter → Limiter
count_entry max_entries l =
    if ltb max_entries (l.total_entries + 1)
    then l
    else record l { total_entries = l.total_entries + 1; counted = l.counted + 1 }

-- The allocation fails, and the count is taken back.
pub uncount_entry : Limiter → Limiter
uncount_entry l =
    if l.counted == 0
    then l
    else record l { total_entries = l.total_entries - 1; counted = l.counted - 1 }

-- The allocation succeeds: the new entry, with the time that was read for it, is linked at the head.
pub insert_entry : ℕ → Source → Limiter → Limiter
insert_entry read (v4 net ip) l = record l {
  table_v4 = new_entry read net ip ∷ l.table_v4;
  counted = l.counted - 1;
}
insert_entry read (v6 net ip) l = record l {
  table_v6 = new_entry read net ip ∷ l.table_v6;
  counted = l.counted - 1;
}
insert_entry read other l = l

-- table_size, and the bucket of a network and an address in each table: siphash with the key of the module
pub record Buckets : Type 0 where
  pub table_size : ℕ
  pub hash4 : ℕ → ℕ → ℕ
  pub hash6 : ℕ → ℕ → ℕ

abbrev pub in_bucket : (ℕ → ℕ → ℕ) → ℕ → Entry → Bool
in_bucket hash i e = hash e.net e.ip == i

-- The loop over one bucket, on the table that holds it: `all` is a NULL work, and `now` was read at the start
-- of the collection.
pub keep_entries : Bool → (Entry → Bool) → ℕ → List Entry → List Entry
keep_entries all here now [] = []
keep_entries all here now (e ∷ es) =
    let rest = keep_entries all here now es in
    if here e && (all || ltb nsec_per_sec (minus64 now e.last_time_ns)) then rest else e ∷ rest

-- the two loops under table_lock
pub gc_bucket : Buckets → Bool → ℕ → ℕ → Limiter → Limiter
unfolding keep_entries
gc_bucket bs all now i l =
    let kept4 = keep_entries all (in_bucket bs.hash4 i) now l.table_v4 in
    let kept6 = keep_entries all (in_bucket bs.hash6 i) now l.table_v6 in
    record l {
      table_v4 = kept4;
      table_v6 = kept6;
      unlinked =
          l.unlinked + (length l.table_v4 - length kept4) + (length l.table_v6 - length kept6);
    }

-- the start of the worker, which reads the time
pub gc_begin : ℕ → Limiter → Limiter
gc_begin now l = record l { collector = some (now, 0) }

-- its next bucket, or its end
abbrev pub gc_at : Buckets → Option (ℕ × ℕ) → Limiter → Limiter
gc_at bs none l = l
gc_at bs (some (now, i)) l =
    if ltb i bs.table_size
    then record (gc_bucket bs false now i l) { collector = some (now, i + 1) }
    else record l { collector = none }

pub gc_next : Buckets → Limiter → Limiter
gc_next bs l = gc_at bs l.collector l

-- wg_ratelimiter_gc_entries, without interruption: `n` buckets from bucket `i` on
pub gc_from : Buckets → Bool → ℕ → ℕ → ℕ → Limiter → Limiter
gc_from bs all now zero i l = l
gc_from bs all now (suc n) i l = gc_from bs all now n (i + 1) (gc_bucket bs all now i l)

pub gc_entries : Buckets → Bool → ℕ → Limiter → Limiter
gc_entries bs all now l = gc_from bs all now bs.table_size 0 l

-- entry_free, after the grace period
pub entry_free : Limiter → Limiter
entry_free l =
    if l.unlinked == 0
    then l
    else record l { total_entries = l.total_entries - 1; unlinked = l.unlinked - 1 }

-- wg_ratelimiter_init, as far as the tables are concerned
abbrev pub new_limiter : Limiter
new_limiter = record {
  table_v4 = [];
  table_v6 = [];
  total_entries = 0;
  unlinked = 0;
  counted = 0;
  collector = none;
}
