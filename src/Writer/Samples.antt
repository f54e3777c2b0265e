-- ===== src/Writer/Samples.antt =====
-- Sample data of the sender's tests: a connected peer, and a socket that takes thirty bytes at a time.
use wgtcp.Base.{ℕ, inr, refl, true, false, List, [], some, none, min, length, arith}
use wgtcp.Peer.{Peer}
use wgtcp.Writer.{Sent, taken}
use wgtcp.Writer.Stream.{IsSend, IsWired}

abbrev pub new_peer : Peer
new_peer = record {
  is_dead = false;
  tcp_stopping = false;
  temp_peer = false;
  device_up = true;
  over_tcp = true;
  running = true;
  peer_endpoint_set = true;
  peer_socket = some 7;
  outbound_socket = some 7;
  inbound_socket = none;
  tcp_outbound_remove_socket = none;
  tcp_established = true;
  tcp_pending = false;
  tcp_connecting = false;
  outbound_connected = true;
  outbound_timestamp = 1;
  tcp_reconnect_requested = false;
  tcp_retry_scheduled = false;
  tcp_outbound_remove_scheduled = false;
  tcp_inbound_remove_scheduled = false;
  tcp_write_wq = true;
  tcp_write_worker_scheduled = false;
  send_queue = [];
  tx_bytes = 0;
  wire = [];
  nospace = false;
  sends = 0;
  works = [];
}

abbrev pub slow : ℕ → List ℕ → Sent
slow i bytes = taken (min 30 (length bytes))

pub slow-IsSend : IsSend slow
slow-IsSend = record { within = λ i n bytes e. ground (arith, e) }

pub new_peer-IsWired : IsWired new_peer
new_peer-IsWired = record { own = λ s e. inr (refl, refl, e) }
