-- ===== src/Ratelimiter/Uninit.antt =====
-- wg_ratelimiter_gc_entries of kernel/ratelimiter.c with a NULL work, as wg_ratelimiter_uninit calls it.
use wgtcp.Base.{
  ℕ, zero, suc, ◌+◌, ◌≤◌, ◌<◌, ◌≡◌, inl, inr, refl, ap, arith, true, ◌==◌, Bool-cases, List, [],
  ◌∷◌, length, All,
}
use wgtcp.Ratelimiter.{
  Entry, Limiter, Buckets, in_bucket, keep_entries, gc_bucket, gc_from, gc_entries,
}
use wgtcp.Ratelimiter.Entries.{length-keep_entries}

abbrev IsBeyond : (ℕ → ℕ → ℕ) → ℕ → List Entry → Type 0
IsBeyond hash i = All (λ (e : Entry). i ≤ hash e.net e.ip)

keep_entries-IsBeyond :
    (hash : ℕ → ℕ → ℕ) (now i : ℕ) (es : List Entry)
    → IsBeyond hash i es
    → IsBeyond hash (i + 1) (keep_entries true (in_bucket hash i) now es)
unfolding keep_entries
keep_entries-IsBeyond hash now i [] h = tt
keep_entries-IsBeyond hash now i (e ∷ es) h = elim (Bool-cases (hash e.net e.ip == i)) [
  | inl goes ↦ rw goes (keep_entries-IsBeyond hash now i es h.1)
  | inr stays ↦ rw stays (ground (arith, stays, h.0), keep_entries-IsBeyond hash now i es h.1)
]

-- The buckets before the next one are empty, and what left the tables waits to be freed.
record IsCleared (bs : Buckets) (i total : ℕ) (l : Limiter) : Type 0 where
  beyond4 : IsBeyond bs.hash4 i l.table_v4
  beyond6 : IsBeyond bs.hash6 i l.table_v6
  kept : length l.table_v4 + length l.table_v6 + l.unlinked ≡ total

bucket-IsCleared :
    (bs : Buckets) (now i total : ℕ) (l : Limiter)
    → IsCleared bs i total l
    → IsCleared bs (i + 1) total (gc_bucket bs true now i l)
unfolding gc_bucket
bucket-IsCleared bs now i total l h = record {
  beyond4 = keep_entries-IsBeyond bs.hash4 now i l.table_v4 h.beyond4;
  beyond6 = keep_entries-IsBeyond bs.hash6 now i l.table_v6 h.beyond6;
  kept = omega (
    arith,
    h.kept,
    length-keep_entries true (in_bucket bs.hash4 i) now l.table_v4,
    length-keep_entries true (in_bucket bs.hash6 i) now l.table_v6,
  );
}

from-IsCleared :
    (bs : Buckets) (now n i total : ℕ) (l : Limiter)
    → IsCleared bs i total l
    → IsCleared bs (i + n) total (gc_from bs true now n i l)
unfolding gc_from
from-IsCleared bs now zero i total l h = rw (i_zero i) h
  where
    i_zero : (i : ℕ) → i + 0 ≡ i
    i_zero i = omega arith
from-IsCleared bs now (suc n) i total l h =
    let rest = from-IsCleared bs now n (i + 1) total _ (bucket-IsCleared bs now i total l h) in
    rw (next i n) rest
  where
    next : (i n : ℕ) → i + suc n ≡ i + 1 + n
    next i n = omega arith

from_start : (hash : ℕ → ℕ → ℕ) (es : List Entry) → IsBeyond hash 0 es
from_start hash [] = tt
from_start hash (e ∷ es) = (omega arith, from_start hash es)

beyond_size :
    (hash : ℕ → ℕ → ℕ) (size : ℕ) (es : List Entry)
    → ((net ip : ℕ) → hash net ip < size)
    → IsBeyond hash size es
    → es ≡ []
beyond_size hash size [] masked h = refl
beyond_size hash size (e ∷ es) masked h = absurd (omega (arith, masked e.net e.ip, h.0))

-- With hashes that are masked to the size of the tables, the run for a NULL work goes over every bucket: it
-- leaves both tables empty, and each of their entries, however recently it was used, waits to be freed.
pub gc_entries-empty :
    (bs : Buckets) (now : ℕ) (l : Limiter)
    → ((net ip : ℕ) → bs.hash4 net ip < bs.table_size)
    → ((net ip : ℕ) → bs.hash6 net ip < bs.table_size)
    → ((gc_entries bs true now l).table_v4 ≡ [])
      × ((gc_entries bs true now l).table_v6 ≡ [])
      × ((gc_entries bs true now l).unlinked ≡ l.unlinked + (length l.table_v4 + length l.table_v6))
unfolding gc_entries
gc_entries-empty bs now l masked4 masked6 =
    let total = length l.table_v4 + length l.table_v6 + l.unlinked in
    let c = from-IsCleared bs now bs.table_size 0 total l (record {
      beyond4 = from_start bs.hash4 l.table_v4;
      beyond6 = from_start bs.hash6 l.table_v6;
      kept = refl;
    }) in
    let no_v4 : (gc_from bs true now bs.table_size 0 l).table_v4 ≡ [] =
      beyond_size bs.hash4 (0 + bs.table_size) _ (λ net ip. omega (arith, masked4 net ip))
        c.beyond4 in
    let no_v6 : (gc_from bs true now bs.table_size 0 l).table_v6 ≡ [] =
      beyond_size bs.hash6 (0 + bs.table_size) _ (λ net ip. omega (arith, masked6 net ip))
        c.beyond6 in
    (
      no_v4,
      no_v6,
      omega (
        arith,
        c.kept,
        ap (λ (es : List Entry). length es) no_v4,
        ap (λ (es : List Entry). length es) no_v6,
      ),
    )
