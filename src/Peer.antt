-- ===== src/Peer.antt =====
-- The TCP state of a peer (struct wg_peer of kernel/peer.h, as far as the stream's sender uses it) and the
-- functions of kernel/wg_tcp.c that claim its workers: wg_tcp_schedule_write_locked,
-- wg_tcp_peer_request_reconnect_after and wg_tcp_fail_exact_socket. Sockets are numbers. Each function runs
-- under the peer's tcp_lock, so it is one step.
use wgtcp.Base.{
  ℕ, Bool, true, false, not, ◌&&◌, ◌||◌, List, ◌∷◌, Option, none, some, ◌==◌, if◌then◌else◌,
}

-- The work items that the functions queue.
pub data Work : Type 0 where
  write_work retry_work temp_cleanup_work : Work
  outbound_remove_work : ℕ → Work

-- `device_up` is the device's tcp_cleanup_scheduled, `over_tcp` its transport, `running` netif_running.
-- `wire` is what the socket has taken so far, `nospace` its SOCK_NOSPACE bit and `sends` the number of
-- kernel_sendmsg calls; `works` holds the work queued, newest first.
pub record Peer : Type 0 where
  pub is_dead : Bool
  pub tcp_stopping : Bool
  pub temp_peer : Bool
  pub device_up : Bool
  pub over_tcp : Bool
  pub running : Bool
  pub peer_endpoint_set : Bool
  pub peer_socket : Option ℕ
  pub outbound_socket : Option ℕ
  pub inbound_socket : Option ℕ
  pub tcp_outbound_remove_socket : Option ℕ
  pub tcp_established : Bool
  pub tcp_pending : Bool
  pub tcp_connecting : Bool
  pub outbound_connected : Bool
  pub outbound_timestamp : ℕ
  pub tcp_reconnect_requested : Bool
  pub tcp_retry_scheduled : Bool
  pub tcp_outbound_remove_scheduled : Bool
  pub tcp_inbound_remove_scheduled : Bool
  pub tcp_write_wq : Bool
  pub tcp_write_worker_scheduled : Bool
  pub send_queue : List (List ℕ)
  pub tx_bytes : ℕ
  pub wire : List ℕ
  pub nospace : Bool
  pub sends : ℕ
  pub works : List Work

abbrev pub is_some {ℓ} : {A : Type ℓ} → Option A → Bool
is_some none = false
is_some (some a) = true

abbrev pub is_socket : Option ℕ → ℕ → Bool
is_socket none s = false
is_socket (some t) s = t == s

-- The condition that every part of the sender tests: a live peer of a live device, with an established
-- socket that nobody is removing.
abbrev pub may_send : Peer → Bool
may_send peer =
    not peer.is_dead
    && not peer.tcp_stopping
    && peer.device_up
    && not peer.tcp_outbound_remove_scheduled
    && not peer.tcp_inbound_remove_scheduled
    && is_some peer.peer_socket
    && peer.tcp_established

abbrev queue_work : Work → Peer → Peer
queue_work w peer = record peer { works = w ∷ peer.works }

-- wg_tcp_schedule_write_locked
unfoldable pub schedule_write : Peer → Peer
schedule_write peer =
    if may_send peer && peer.tcp_write_wq && not peer.tcp_write_worker_scheduled
    then queue_work write_work (record peer { tcp_write_worker_scheduled = true })
    else peer

-- The claim of the removal of an outbound socket, common to the two functions below.
abbrev claim_remove : Option ℕ → ℕ → Peer → Peer
claim_remove socket delay peer =
    if not peer.tcp_connecting && not peer.tcp_outbound_remove_scheduled
    then queue_work (outbound_remove_work delay)
        (record peer { tcp_outbound_remove_scheduled = true; tcp_outbound_remove_socket = socket })
    else peer

-- wg_tcp_peer_request_reconnect_after
pub request_reconnect_after : ℕ → Peer → Peer
request_reconnect_after delay peer =
    if peer.is_dead
      || peer.tcp_stopping
      || not peer.device_up
      || not peer.over_tcp
      || not peer.running
      || not peer.peer_endpoint_set
    then peer
    else claim_remove peer.outbound_socket delay (record peer { tcp_reconnect_requested = true })

-- wg_tcp_fail_exact_socket
unfoldable pub fail_exact_socket : ℕ → Peer → Peer
fail_exact_socket socket peer =
    if not (is_socket peer.peer_socket socket)
    then peer
    else if peer.temp_peer
    then if not (is_socket peer.inbound_socket socket)
      then peer
      else if peer.device_up
      then queue_work temp_cleanup_work (record peer { is_dead = true })
      else record peer { is_dead = true }
    else if peer.is_dead
        || peer.tcp_stopping
        || not peer.device_up
        || not peer.over_tcp
        || not (is_socket peer.outbound_socket socket)
    then peer
    else if peer.tcp_outbound_remove_scheduled
        && not (is_socket peer.tcp_outbound_remove_socket socket)
    then peer
    else claim_remove (some socket) 0 (record peer {
      outbound_timestamp = 0;
      outbound_connected = false;
      tcp_pending = false;
      tcp_established = false;
      tcp_reconnect_requested = true;
    })
