-- ===== src/Ratelimiter/Entries.antt =====
-- The number of entries that the limiter counts.
use wgtcp.Base.{ℕ, ◌+◌, ◌≤◌, ◌≡◌, Bool, List, [], ◌∷◌, length, arith}
use wgtcp.Ratelimiter.{Entry, Limiter, keep_entries}
use wgtcp.Ratelimiter.Events.{counts}

-- The counter is the number of entries that exist, linked, about to be linked or waiting to be freed, and stays
-- in its limit.
pub record IsCounted (max_entries : ℕ) (l : Limiter) : Type 0 where
  pub counts : l.total_entries ≡ length l.table_v4 + length l.table_v6 + l.unlinked + l.counted
  pub within : l.total_entries ≤ max_entries

pub length-keep_entries :
    (all : Bool) (here : Entry → Bool) (now : ℕ) (es : List Entry)
    → length (keep_entries all here now es) ≤ length es
unfolding keep_entries
length-keep_entries all here now [] = omega arith
length-keep_entries all here now (e ∷ es) = ground (arith, length-keep_entries all here now es)
