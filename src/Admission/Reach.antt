-- ===== src/Admission/Reach.antt =====
-- The device's connections over time: the operations in any order.
use wgtcp.Base.{ℕ, refl, Bool, true, Option, [], Result, arith}
use wgtcp.Net.{SockAddr}
use wgtcp.Admission.{
  Device, TempPeer, mark_connection_authenticated, finish_tcp_connection_init, touch_tcp_connection,
  claim_tcp_connection, cleanup_worker, add_tcp_socket_to_list, pending_from_source,
}
use wgtcp.Admission.Counts.{
  IsAdmitted, same-IsAdmitted, touch-IsSame, finish_init-IsSame, mark-IsAdmitted, add-IsAdmitted,
}
use wgtcp.Admission.Claim.{claim-IsAdmitted, cleanup_worker-IsAdmitted}

-- a device that has no connection yet
abbrev pub new_device : Device
new_device = record {
  connections = [];
  tcp_pending_connections = 0;
  tcp_tracked_connections = 0;
  tcp_connection_sequence = 0;
  up = true;
  cleanups = 0;
}

module _ (link_local : ℕ → Bool) where
  -- The states that the operations lead to, at any times and with any outcomes of what they call.
  pub data Reaches : Device → Type 0 where
    fresh : Reaches new_device
    added :
        {wg : Device}
        → Reaches wg
        → (now : ℕ) (has_memory owned : Bool) (name : Result (SockAddr × ℕ)) (socket : ℕ)
          (peer : TempPeer)
        → Reaches (add_tcp_socket_to_list link_local now has_memory owned name socket peer wg).1
    authenticated :
        {wg : Device}
        → Reaches wg
        → (now id : ℕ) → Reaches (mark_connection_authenticated now id wg)
    initialized :
        {wg : Device}
        → Reaches wg
        → (socket : ℕ) (established : Bool)
        → Reaches (finish_tcp_connection_init socket established wg)
    touched :
        {wg : Device} → Reaches wg → (now peer : ℕ) → Reaches (touch_tcp_connection now peer wg)
    claimed :
        {wg : Device}
        → Reaches wg
        → (now : ℕ) (socket : Option ℕ) (cleanup_only : Bool)
        → Reaches (claim_tcp_connection now socket cleanup_only wg).1
    cleaned : {wg : Device} → Reaches wg → (now : ℕ) → Reaches (cleanup_worker now wg)

  new-IsAdmitted : IsAdmitted link_local new_device
  unfolding pending_from_source
  new-IsAdmitted = record {
    pending_counts = refl;
    tracked_counts = refl;
    pending_within = omega arith;
    tracked_within = omega arith;
    source_within = λ a. omega arith;
  }

  finish-IsAdmitted :
      (socket : ℕ) (established : Bool) (wg : Device)
      → IsAdmitted link_local wg
      → IsAdmitted link_local (finish_tcp_connection_init socket established wg)
  unfolding finish_tcp_connection_init
  finish-IsAdmitted socket established wg h =
      same-IsAdmitted link_local wg _
        (finish_init-IsSame link_local socket established wg.connections) refl refl h

  touch-IsAdmitted :
      (now peer : ℕ) (wg : Device)
      → IsAdmitted link_local wg
      → IsAdmitted link_local (touch_tcp_connection now peer wg)
  unfolding touch_tcp_connection
  touch-IsAdmitted now peer wg h =
      same-IsAdmitted link_local wg _ (touch-IsSame link_local now peer wg.connections) refl refl h

  -- In every state that the operations can lead to, in whatever order and with whatever outcomes of the calls
  -- they make, the two counters of the device are the numbers of pending and of tracked connections, at most
  -- 128 are pending and 1024 tracked, and at most 8 are pending from any one host.
  pub Reaches-IsAdmitted : {wg : Device} → Reaches wg → IsAdmitted link_local wg
  Reaches-IsAdmitted fresh = new-IsAdmitted
  Reaches-IsAdmitted (added r now has_memory owned name socket peer) =
      add-IsAdmitted link_local now has_memory owned name socket peer _ (Reaches-IsAdmitted r)
  Reaches-IsAdmitted (authenticated r now id) =
      mark-IsAdmitted link_local now id _ (Reaches-IsAdmitted r)
  Reaches-IsAdmitted (initialized r socket established) =
      finish-IsAdmitted socket established _ (Reaches-IsAdmitted r)
  Reaches-IsAdmitted (touched r now peer) = touch-IsAdmitted now peer _ (Reaches-IsAdmitted r)
  Reaches-IsAdmitted (claimed r now socket cleanup_only) =
      claim-IsAdmitted link_local now socket cleanup_only _ (Reaches-IsAdmitted r)
  Reaches-IsAdmitted (cleaned r now) =
      let (ended, h, kept) = cleanup_worker-IsAdmitted link_local now _ (Reaches-IsAdmitted r) in h
