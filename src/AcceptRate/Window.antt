-- ===== src/AcceptRate/Window.antt =====
-- What wg_tcp_accept_rate_allow of kernel/wg_tcp.c does to its table, and to one slot over a window.
use wgtcp.Base.{
  ℕ, zero, suc, ◌+◌, ◌≤◌, ◌≡◌, refl, ap, Bool, false, ◌||◌, inl, inr, if◌then◌else◌, u64, List, [],
  ◌∷◌, Option, none, some, get_elem?, set, length, length-set, All, arith, Bool-cases, Option-cases,
}
use wgtcp.Net.{SockAddr, is_inet, is_inet6}
use wgtcp.AcceptRate.{
  AcceptSource, Scan, accept_burst, time_after_eq, source_set, count_accept, decide, new_slot,
  accept_rate_allow, put,
}

-- Every slot counts at most 32.
pub record IsAcceptTable (slots : ℕ) (table : List AcceptSource) : Type 0 where
  pub slots_kept : length table ≡ slots
  pub within_burst : All (λ (s : AcceptSource). s.accepts ≤ accept_burst) table

set-within :
    (table : List AcceptSource) (i : ℕ) (s : AcceptSource)
    → All (λ (c : AcceptSource). c.accepts ≤ accept_burst) table
    → s.accepts ≤ accept_burst
    → All (λ (c : AcceptSource). c.accepts ≤ accept_burst) (set table i s)
set-within [] i s h le = tt
set-within (c ∷ cs) zero s h le = (le, h.1)
set-within (c ∷ cs) (suc i) s h le = (h.0, set-within cs i s h.1 le)

abbrev from_some : AcceptSource → Option AcceptSource → AcceptSource
from_some c none = c
from_some c (some s) = s

get_elem?-within :
    (table : List AcceptSource) (i : ℕ) (s : AcceptSource)
    → All (λ (c : AcceptSource). c.accepts ≤ accept_burst) table
    → get_elem? table i ≡ some s
    → s.accepts ≤ accept_burst
get_elem?-within [] i s h e = absurd (ground (arith, e))
get_elem?-within (c ∷ cs) zero s h e = let same : c ≡ s = ap (from_some c) e in rw (← same) h.0
get_elem?-within (c ∷ cs) (suc i) s h e = get_elem?-within cs i s h.1 e

put-IsAcceptTable :
    (slots : ℕ) (i : Option ℕ) (s : AcceptSource) (table : List AcceptSource)
    → IsAcceptTable slots table
    → s.accepts ≤ accept_burst
    → IsAcceptTable slots (put i s table)
put-IsAcceptTable slots none s table h le = h
put-IsAcceptTable slots (some i) s table h le = record {
  slots_kept = omega (arith, length-set table i s, h.slots_kept);
  within_burst = set-within table i s h.within_burst le;
}

module _ (hz : ℕ) (link_local : ℕ → Bool) where
  source_set-accepts : (a : SockAddr) (now : ℕ) → (source_set hz link_local a now).accepts ≡ 1
  unfolding source_set
  source_set-accepts a now = refl

  count_accept-within :
      (a : SockAddr) (now : ℕ) (s : AcceptSource)
      → s.accepts ≤ accept_burst
      → (count_accept hz link_local a now s).1.accepts ≤ accept_burst
  unfolding count_accept source_set
  count_accept-within a now s le = ground arith

  decide-IsAcceptTable :
      (slots : ℕ) (a : SockAddr) (now : ℕ) (table : List AcceptSource) (s : Scan) (found : Option ℕ)
      → IsAcceptTable slots table
      → IsAcceptTable slots (decide hz link_local a now table s found).1
  unfolding decide
  decide-IsAcceptTable slots a now table s none h =
      put-IsAcceptTable slots (new_slot s) (source_set hz link_local a now) table h
        (omega (arith, source_set-accepts a now))
  decide-IsAcceptTable slots a now table s (some i) h = elim (Option-cases (get_elem? table i)) [
    | inl beyond ↦ rw beyond h
    | inr (c, there) ↦ rw there (
        put-IsAcceptTable slots (some i) (count_accept hz link_local a now c).1 table h
          (count_accept-within a now c (get_elem?-within table i c h.within_burst there)))
  ]

  -- Every attempt of any source leaves the table with as many slots as before, none of which counts more
  -- than 32 accepted connections.
  pub accept_rate_allow-IsAcceptTable :
      (slots : ℕ) (a : SockAddr) (now : ℕ) (table : List AcceptSource)
      → IsAcceptTable slots table
      → IsAcceptTable slots (accept_rate_allow hz link_local a now table).1
  unfolding accept_rate_allow
  accept_rate_allow-IsAcceptTable slots a now table h =
      elim (Bool-cases (is_inet a.family || is_inet6 a.family)) [
        | inr neither ↦ rw neither h
        | inl good ↦ rw good (decide-IsAcceptTable slots a now table _ _ h)
      ]

  -- the connections that attempts at these times get accepted, from the source's slot
  abbrev pub accepted : SockAddr → List ℕ → AcceptSource → ℕ
  accepted a [] s = 0
  accepted a (t ∷ ts) s =
      let (allowed, s') = count_accept hz link_local a t s in
      (if allowed then 1 else 0) + accepted a ts s'

  -- Times inside the window of a slot.
  abbrev pub InWindow : ℕ → List ℕ → Type 0
  InWindow started ts = All (λ (t : ℕ). time_after_eq t (u64 (started + hz)) ≡ false) ts
