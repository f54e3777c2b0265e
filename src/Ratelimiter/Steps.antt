-- ===== src/Ratelimiter/Steps.antt =====
-- What each event of kernel/ratelimiter.c does to the tables and to the credit of a source.
use wgtcp.Base.{
  ℕ, zero, suc, ◌+◌, ◌-◌, ◌^◌, ◌≤◌, ◌<◌, ◌≡◌, inl, inr, refl, ap, Bool, true, false, ◌&&◌, ◌==◌,
  ltb, if◌then◌else◌, List, ◌∷◌, Option, none, some, arith, Bool-cases,
}
use wgtcp.Ratelimiter.{
  Entry, Limiter, Buckets, Source, v4, v6, other, spend_at, spend_found, count_entry, uncount_entry,
  insert_entry, in_bucket, gc_bucket, gc_begin, gc_at, gc_next, entry_free, new_entry, token_max,
  packet_cost,
}
use wgtcp.Ratelimiter.Bucket.{IsTable, credit, cost, keep-IsTable, keep-credit}
use wgtcp.Ratelimiter.Events.{
  Event, packet, counts, no_memory, inserts, decides, decides_unlinked, collect_begins,
  collect_next, free, inserted, happen, same_source, passes, has_entry, is_second, of_source,
  stale_at, gift,
}
use wgtcp.Ratelimiter.Credit.{
  IsLimiter, IsBegun, limit_of, spend_at-credit, spend_at-others, insert-credit, insert-others,
  allow-limit, allow-IsLimiter,
}

-- At one table: a decision by the entry at a place.
found-table :
    (now net ip net' ip' i : ℕ) (es : List Entry)
    → IsTable now es
    → now + token_max < 2 ^ 64
    → cost ((net == net' && ip == ip') && (spend_at now net' ip' i es).0)
        + credit now net ip (spend_at now net' ip' i es).1
      ≤ credit now net ip es
        + (if (net == net' && ip == ip') && is_second net ip i es then packet_cost else 0)
found-table now net ip net' ip' i es h lt = elim (Bool-cases (net == net' && ip == ip')) [
  | inl this ↦
      let n : net ≡ net' = ground (arith, this) in
      let p : ip ≡ ip' = ground (arith, this) in
      rw (this, n, p) (spend_at-credit now net' ip' i es h lt).1
  | inr apart ↦
      rw apart (
        omega
          (arith, spend_at-others now net' ip' net ip i es (λ n p. ground (arith, apart, n, p))))
]

found-limit :
    (now i : ℕ) (s r : Source) (l : Limiter)
    → IsLimiter now l
    → now + token_max < 2 ^ 64
    → cost (same_source s r && (spend_found now r i l).0) + limit_of now s (spend_found now r i l).1
      ≤ limit_of now s l
        + (if same_source s r && of_source (λ net ip es. is_second net ip i es) s l
            then packet_cost
            else 0)
unfolding spend_found
found-limit now i (v4 net ip) (v4 net' ip') l h lt =
    found-table now net ip net' ip' i l.table_v4 h.in_v4 lt
found-limit now i (v6 net ip) (v6 net' ip') l h lt =
    found-table now net ip net' ip' i l.table_v6 h.in_v6 lt
found-limit now i (v4 net ip) (v6 net' ip') l h lt = omega arith
found-limit now i (v6 net ip) (v4 net' ip') l h lt = omega arith
found-limit now i other (v4 net' ip') l h lt = omega arith
found-limit now i other (v6 net' ip') l h lt = omega arith
found-limit now i (v4 net ip) other l h lt = omega arith
found-limit now i (v6 net ip) other l h lt = omega arith
found-limit now i other other l h lt = omega arith

found-IsLimiter :
    (now i : ℕ) (r : Source) (l : Limiter)
    → IsLimiter now l
    → now + token_max < 2 ^ 64
    → IsLimiter now (spend_found now r i l).1
unfolding spend_found
found-IsLimiter now i (v4 net ip) l h lt = record {
  in_v4 = (spend_at-credit now net ip i l.table_v4 h.in_v4 lt).0;
  in_v6 = h.in_v6;
  begun = h.begun;
}
found-IsLimiter now i (v6 net ip) l h lt = record {
  in_v4 = h.in_v4;
  in_v6 = (spend_at-credit now net ip i l.table_v6 h.in_v6 lt).0;
  begun = h.begun;
}
found-IsLimiter now i other l h lt = h

-- At one table: a new entry.
insert-table :
    (now delay net ip net' ip' : ℕ) (es : List Entry)
    → cost ((net == net' && ip == ip') && true)
        + credit now net ip (new_entry (now - delay) net' ip' ∷ es)
      ≤ credit now net ip es
        + (if net == net' && ip == ip'
            then delay + (if has_entry net ip es then token_max else 0)
            else 0)
insert-table now delay net ip net' ip' es = elim (Bool-cases (net == net' && ip == ip')) [
  | inl this ↦
      let n : net ≡ net' = ground (arith, this) in
      let p : ip ≡ ip' = ground (arith, this) in
      rw (this, ← n, ← p) (insert-credit now delay net ip es)
  | inr apart ↦ rw apart (
      omega (
        arith,
        insert-others now (now - delay) net' ip' net ip es (λ n p. ground (arith, apart, n, p)),
      ))
]

insert-limit :
    (now delay : ℕ) (s r : Source) (l : Limiter)
    → cost (same_source s r && true) + limit_of now s (insert_entry (now - delay) r l)
      ≤ limit_of now s l
        + (if same_source s r
            then delay + (if of_source has_entry s l then token_max else 0)
            else 0)
unfolding insert_entry
insert-limit now delay (v4 net ip) (v4 net' ip') l =
    insert-table now delay net ip net' ip' l.table_v4
insert-limit now delay (v6 net ip) (v6 net' ip') l =
    insert-table now delay net ip net' ip' l.table_v6
insert-limit now delay (v4 net ip) (v6 net' ip') l = omega arith
insert-limit now delay (v6 net ip) (v4 net' ip') l = omega arith
insert-limit now delay other (v4 net' ip') l = omega arith
insert-limit now delay other (v6 net' ip') l = omega arith
insert-limit now delay (v4 net ip) other l = omega arith
insert-limit now delay (v6 net ip) other l = omega arith
insert-limit now delay other other l = omega arith

insert-IsLimiter :
    (now delay : ℕ) (r : Source) (l : Limiter)
    → IsLimiter now l
    → IsLimiter now (insert_entry (now - delay) r l)
unfolding insert_entry
insert-IsLimiter now delay (v4 net ip) l h = record {
  in_v4 = (record { past = omega arith; capped = omega arith }, h.in_v4);
  in_v6 = h.in_v6;
  begun = h.begun;
}
insert-IsLimiter now delay (v6 net ip) l h = record {
  in_v4 = h.in_v4;
  in_v6 = (record { past = omega arith; capped = omega arith }, h.in_v6);
  begun = h.begun;
}
insert-IsLimiter now delay other l h = h

-- Only an entry that is counted is linked.
inserted-limit :
    (n now delay : ℕ) (s r : Source) (l : Limiter)
    → cost (same_source s r && (inserted n (now - delay) r l).0)
        + limit_of now s (inserted n (now - delay) r l).1
      ≤ limit_of now s l
        + (if same_source s r
            then delay + (if of_source has_entry s l then token_max else 0)
            else 0)
inserted-limit zero now delay s r l = at_least _ _ (same_source s r)
  where
    at_least : (c g : ℕ) (b : Bool) → cost (b && false) + c ≤ c + g
    at_least c g true = omega arith
    at_least c g false = omega arith
inserted-limit (suc n) now delay s r l = insert-limit now delay s r l

inserted-IsLimiter :
    (n now delay : ℕ) (r : Source) (l : Limiter)
    → IsLimiter now l
    → IsLimiter now (inserted n (now - delay) r l).1
inserted-IsLimiter zero now delay r l h = h
inserted-IsLimiter (suc n) now delay r l h = insert-IsLimiter now delay r l h

-- The next bucket of a collection.
bucket-limit :
    (bs : Buckets) (now started i : ℕ) (s : Source) (l : Limiter)
    → IsLimiter now l
    → started ≤ now
    → now + token_max < 2 ^ 64
    → limit_of now s (gc_bucket bs false started i l)
      ≤ limit_of now s l + (if stale_at bs (some (started, i)) s l then token_max else 0)
unfolding gc_bucket
bucket-limit bs now started i (v4 net ip) l h le lt =
    keep-credit (in_bucket bs.hash4 i) started now net ip l.table_v4 h.in_v4 le lt
bucket-limit bs now started i (v6 net ip) l h le lt =
    keep-credit (in_bucket bs.hash6 i) started now net ip l.table_v6 h.in_v6 le lt
bucket-limit bs now started i other l h le lt = omega arith

bucket-IsLimiter :
    (bs : Buckets) (now started i : ℕ) (l : Limiter) (c : Option (ℕ × ℕ))
    → IsLimiter now l
    → IsBegun now c
    → IsLimiter now (record (gc_bucket bs false started i l) { collector = c })
unfolding gc_bucket
bucket-IsLimiter bs now started i l c h b = record {
  in_v4 = keep-IsTable (in_bucket bs.hash4 i) started now l.table_v4 h.in_v4;
  in_v6 = keep-IsTable (in_bucket bs.hash6 i) started now l.table_v6 h.in_v6;
  begun = b;
}

-- The collector's own field is nobody's credit.
limit-collector :
    (now : ℕ) (s : Source) (l : Limiter) (c : Option (ℕ × ℕ))
    → limit_of now s (record l { collector = c }) ≡ limit_of now s l
limit-collector now (v4 net ip) l c = refl
limit-collector now (v6 net ip) l c = refl
limit-collector now other l c = refl

abbrev Holds : ℕ → Source → ℕ → Limiter → Type 0
Holds now s most l = IsLimiter now l × (limit_of now s l ≤ most)

on_branches : (P : Limiter → Type 0) (b : Bool) (x y : Limiter) → P x → P y → P (if b then x else y)
on_branches P true x y p q = p
on_branches P false x y p q = q

collect-Holds :
    (bs : Buckets) (now : ℕ) (s : Source) (c : Option (ℕ × ℕ)) (l : Limiter)
    → IsLimiter now l
    → IsBegun now c
    → now + token_max < 2 ^ 64
    → Holds now s (limit_of now s l + (if stale_at bs c s l then token_max else 0)) (gc_at bs c l)
collect-Holds bs now s none l h b lt = (h, omega arith)
collect-Holds bs now s (some (started, i)) l h b lt =
    on_branches (Holds now s _) (ltb i bs.table_size) _ _
      (
        bucket-IsLimiter bs now started i l (some (started, i + 1)) h b,
        omega (
          arith,
          bucket-limit bs now started i s l h b lt,
          limit-collector now s (gc_bucket bs false started i l) (some (started, i + 1)),
        ),
      )
      (
        record { in_v4 = h.in_v4; in_v6 = h.in_v6; begun = tt },
        omega (arith, limit-collector now s l none),
      )

-- Events that only count.
record IsAlike (l k : Limiter) : Type 0 where
  table4 : k.table_v4 ≡ l.table_v4
  table6 : k.table_v6 ≡ l.table_v6
  collects : k.collector ≡ l.collector

alike-Holds :
    (now : ℕ) (s : Source) (l k : Limiter)
    → IsAlike l k
    → IsLimiter now l
    → IsLimiter now k × (limit_of now s k ≡ limit_of now s l)
alike-Holds now s l k a h = (
  record {
    in_v4 = rw (a.table4) h.in_v4;
    in_v6 = rw (a.table6) h.in_v6;
    begun = rw (a.collects) h.begun;
  },
  same s,
)
  where
    same : (s : Source) → limit_of now s k ≡ limit_of now s l
    same (v4 net ip) = ap (credit now net ip) a.table4
    same (v6 net ip) = ap (credit now net ip) a.table6
    same other = refl

free-IsAlike : (l : Limiter) → IsAlike l (entry_free l)
unfolding entry_free
free-IsAlike l = record { table4 = ground arith; table6 = ground arith; collects = ground arith }

count-IsAlike : (max_entries : ℕ) (l : Limiter) → IsAlike l (count_entry max_entries l)
unfolding count_entry
count-IsAlike max_entries l = record {
  table4 = ground arith;
  table6 = ground arith;
  collects = ground arith;
}

uncount-IsAlike : (l : Limiter) → IsAlike l (uncount_entry l)
unfolding uncount_entry
uncount-IsAlike l = record { table4 = ground arith; table6 = ground arith; collects = ground arith }

cost-le : (b : Bool) → cost b ≤ packet_cost
cost-le true = omega arith
cost-le false = omega arith

-- A decision by an entry that is unlinked.
unlinked-limit :
    (mine ret : Bool) (c : ℕ) → cost (mine && ret) + c ≤ c + (if mine then packet_cost else 0)
unlinked-limit true ret c = omega (arith, cost-le ret)
unlinked-limit false ret c = omega arith

begin-limit :
    (now : ℕ) (s : Source) (l : Limiter)
    → IsLimiter now l
    → IsLimiter now (gc_begin now l)
      × (cost false + limit_of now s (gc_begin now l) ≤ limit_of now s l + 0)
unfolding gc_begin
begin-limit now s l h = (
  record { in_v4 = h.in_v4; in_v6 = h.in_v6; begun = omega arith },
  omega (arith, limit-collector now s l (some (now, 0))),
)

next-limit :
    (bs : Buckets) (now : ℕ) (s : Source) (l : Limiter)
    → IsLimiter now l
    → now + token_max < 2 ^ 64
    → IsLimiter now (gc_next bs l)
      × (cost false + limit_of now s (gc_next bs l)
          ≤ limit_of now s l + (if stale_at bs l.collector s l then token_max else 0))
unfolding gc_next
next-limit bs now s l h lt =
    let (v, most) = collect-Holds bs now s l.collector l h h.begun lt in (v, omega (arith, most))

-- One event: a packet that passes is paid for, by the source's credit or by what the event gives it.
pub step-limit :
    (bs : Buckets) (max_entries now : ℕ) (s : Source) (e : Event) (l : Limiter)
    → IsLimiter now l
    → now + token_max < 2 ^ 64
    → IsLimiter now (happen bs max_entries now e l)
      × (cost (passes bs max_entries now s e l) + limit_of now s (happen bs max_entries now e l)
          ≤ limit_of now s l + gift bs now s e l)
step-limit bs max_entries now s (packet r has_memory) l h lt = (
  allow-IsLimiter max_entries has_memory now r l h lt,
  omega (arith, allow-limit max_entries has_memory now s r l h lt),
)
step-limit bs max_entries now s counts l h lt =
    let (v, same) = alike-Holds now s l _ (count-IsAlike max_entries l) h in
    (v, omega (arith, same))
step-limit bs max_entries now s no_memory l h lt =
    let (v, same) = alike-Holds now s l _ (uncount-IsAlike l) h in (v, omega (arith, same))
step-limit bs max_entries now s free l h lt =
    let (v, same) = alike-Holds now s l _ (free-IsAlike l) h in (v, omega (arith, same))
step-limit bs max_entries now s (inserts r delay) l h lt =
    (inserted-IsLimiter l.counted now delay r l h, inserted-limit l.counted now delay s r l)
step-limit bs max_entries now s (decides r i) l h lt =
    (found-IsLimiter now i r l h lt, found-limit now i s r l h lt)
step-limit bs max_entries now s (decides_unlinked r e) l h lt =
    (h, unlinked-limit (same_source s r) _ (limit_of now s l))
step-limit bs max_entries now s collect_begins l h lt = begin-limit now s l h
step-limit bs max_entries now s collect_next l h lt = next-limit bs now s l h lt
