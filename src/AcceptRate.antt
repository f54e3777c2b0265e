-- ===== src/AcceptRate.antt =====
-- The rate of accepted connections per source in kernel/wg_tcp.c: wg_tcp_accept_source_matches,
-- wg_tcp_accept_source_set and wg_tcp_accept_rate_allow, on the table of struct wg_tcp_accept_source of
-- kernel/device.h. Times are jiffies on 64 bits, which wrap around.
pub mod Window
mod Tests
use wgtcp.Base.{
  ℕ, zero, suc, ◌+◌, ◌-◌, ◌^◌, Bool, true, false, not, ◌&&◌, ◌||◌, ◌==◌, leb, if◌then◌else◌, u64,
  List, [], ◌∷◌, Option, none, some, get_elem?, set,
}
use wgtcp.Net.{Family, unspec, inet, inet6, SockAddr, same_family, is_inet, is_inet6, is_unspec}

abbrev pub accept_burst : ℕ
accept_burst = 32

-- struct wg_tcp_accept_source; a slot whose family is AF_UNSPEC is free
pub record AcceptSource : Type 0 where
  pub family : Family
  pub address : ℕ
  pub scope_id : ℕ
  pub window_started : ℕ
  pub last_seen : ℕ
  pub accepts : ℕ

-- time_before(a, b): a - b is negative as a signed number
abbrev pub time_before : ℕ → ℕ → Bool
time_before a b = leb (2 ^ 63) (u64 (a + (2 ^ 64 - b)))

-- time_after_eq(a, b)
abbrev pub time_after_eq : ℕ → ℕ → Bool
time_after_eq a b = not (time_before a b)

-- What the search has met: a free slot, the slot seen longest ago with its time, and the source's slot.
pub record Scan : Type 0 where
  pub empty : Option ℕ
  pub oldest : Option (ℕ × ℕ)
  pub source : Option ℕ

abbrev first_empty : ℕ → Scan → Scan
first_empty i s = elim s.empty [ none ↦ record s { empty = some i } | some j ↦ s ]

abbrev older : ℕ → ℕ → Scan → Scan
older i seen s = elim s.oldest [
  | none ↦ record s { oldest = some (i, seen) }
  | some o ↦ if time_before seen o.1 then record s { oldest = some (i, seen) } else s
]

-- the slot that a new source gets: a free one, else the one seen longest ago
abbrev pub new_slot : Scan → Option ℕ
new_slot s = elim s.empty [
  | some i ↦ some i
  | none ↦ elim s.oldest [ none ↦ none | some o ↦ some o.0 ]
]

abbrev put : Option ℕ → AcceptSource → List AcceptSource → List AcceptSource
put none s table = table
put (some i) s table = set table i s

-- `hz` is HZ, the length of the window; `link_local` is the kernel's test of an IPv6 address.
module _ (hz : ℕ) (link_local : ℕ → Bool) where
  -- wg_tcp_accept_source_matches
  pub source_matches : AcceptSource → SockAddr → Bool
  source_matches s a =
      if not (same_family s.family a.family)
      then false
      else if is_inet a.family
      then s.address == a.address
      else if is_inet6 a.family
      then s.address == a.address && (not (link_local a.address) || s.scope_id == a.scope_id)
      else false

  -- wg_tcp_accept_source_set
  pub source_set : SockAddr → ℕ → AcceptSource
  source_set a now = record {
    family = a.family;
    address = a.address;
    scope_id = if is_inet6 a.family && link_local a.address then a.scope_id else 0;
    window_started = now;
    last_seen = now;
    accepts = 1;
  }

  -- the search of wg_tcp_accept_rate_allow, from slot `i` on
  pub scan : SockAddr → ℕ → List AcceptSource → Scan → Scan
  scan a i [] s = s
  scan a i (c ∷ cs) s =
      if is_unspec c.family
      then scan a (i + 1) cs (first_empty i s)
      else if source_matches c a
      then record s { source = some i }
      else scan a (i + 1) cs (older i c.last_seen s)

  -- the decision on a source that has a slot, and the slot
  pub count_accept : SockAddr → ℕ → AcceptSource → Bool × AcceptSource
  count_accept a now s =
      if time_after_eq now (u64 (s.window_started + hz))
      then (true, source_set a now)
      else if leb accept_burst s.accepts
      then (false, record s { last_seen = now })
      else (true, record s { accepts = s.accepts + 1; last_seen = now })

  -- the decision for the slot `i`; the search returns slots of the table only
  abbrev pub on_slot :
      SockAddr → ℕ → List AcceptSource → ℕ → Option AcceptSource → Bool × List AcceptSource
  on_slot a now table i none = (true, table)
  on_slot a now table i (some c) =
      let (allowed, c') = count_accept a now c in (allowed, set table i c')

  -- the decision, given where the search found the source
  pub decide : SockAddr → ℕ → List AcceptSource → Scan → Option ℕ → Bool × List AcceptSource
  decide a now table s none = (true, put (new_slot s) (source_set a now) table)
  decide a now table s (some i) = on_slot a now table i (get_elem? table i)

  -- wg_tcp_accept_rate_allow
  pub accept_rate_allow : SockAddr → ℕ → List AcceptSource → Bool × List AcceptSource
  accept_rate_allow a now table =
      if not (is_inet a.family || is_inet6 a.family)
      then (false, table)
      else let s = scan a 0 table (record { empty = none; oldest = none; source = none }) in
        decide a now table s s.source
