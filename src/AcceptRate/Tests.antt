-- ===== src/AcceptRate/Tests.antt =====
-- The accept rate at a concrete source.
use wgtcp.Base.{List, ℕ, refl, false, [], ◌∷◌, arith, Bool}
use wgtcp.Net.{SockAddr, unspec, inet}
use wgtcp.AcceptRate.{AcceptSource, accept_rate_allow}
use wgtcp.AcceptRate.Window.{IsAcceptTable, accept_rate_allow-IsAcceptTable}

abbrev nobody_local : ℕ → Bool
nobody_local a = false

abbrev client : SockAddr
client = record { family = inet; address = 0x0A000001; port = 4711; scope_id = 0 }

abbrev free_slot : AcceptSource
free_slot = record {
  family = unspec;
  address = 0;
  scope_id = 0;
  window_started = 0;
  last_seen = 0;
  accepts = 0;
}

accept_rate_allow-IsAcceptTable_example :
    IsAcceptTable 2 (accept_rate_allow 250 nobody_local client 1000 (free_slot ∷ free_slot ∷ [])).1
accept_rate_allow-IsAcceptTable_example =
    accept_rate_allow-IsAcceptTable 250 nobody_local 2 client 1000 (free_slot ∷ free_slot ∷ [])
      (record { slots_kept = refl; within_burst = (omega arith, (omega arith, tt)) })

-- A slot whose window began at 500.
abbrev old_slot : AcceptSource
old_slot = record {
  family = inet;
  address = 0x0A000001;
  scope_id = 0;
  window_started = 500;
  last_seen = 510;
  accepts = 32;
}

abbrev times : List ℕ
times = 1001 ∷ 1100 ∷ 1249 ∷ []
