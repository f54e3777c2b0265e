-- ===== src/Writer.antt =====
-- The sender of kernel/wg_tcp.c: wg_socket_send_skb_to_peer (its TCP side), wg_tcp_enqueue_frame,
-- wg_tcp_send_frame and wg_tcp_write_worker. The send queue holds what is left of each frame.
pub mod Stream
pub mod Trace
pub mod Promoted
pub mod Samples
mod Tests
use wgtcp.Base.{
  ℕ, ◌+◌, Bool, true, false, not, ◌&&◌, ◌||◌, List, [], ◌∷◌, ◌++◌, Option, none, some, ◌==◌, leb,
  ltb, min, length, take, drop, max_queued_packets, if◌then◌else◌, Result, ok, err, enotconn,
  enobufs,
}
use wgtcp.Frame.{Packet, build_frame}
use wgtcp.Peer.{
  Peer, may_send, is_some, is_socket, retry_work, write_work, schedule_write, fail_exact_socket,
}

-- What kernel_sendmsg returns: a count, -EAGAIN, or another negative number.
pub data Sent : Type 0 where
  taken : ℕ → Sent
  again broken : Sent

-- wg_tcp_enqueue_frame
unfoldable pub enqueue_frame : List ℕ → Peer → Result {0} Unit × Peer
enqueue_frame frame peer =
    if not (may_send peer && peer.over_tcp)
    then (err enotconn, peer)
    else if leb max_queued_packets (length peer.send_queue)
    then (err enobufs, peer)
    else (ok tt, schedule_write (record peer { send_queue = peer.send_queue ++ frame ∷ [] }))

-- `ret == 0` adds the payload's length to the counter
abbrev pub count_sent : ℕ → Result {0} Unit × Peer → Result {0} Unit × Peer
count_sent n (ok u, peer) = (ok u, record peer { tx_bytes = peer.tx_bytes + n })
count_sent n (err e, peer) = (err e, peer)

-- a carrier that is not there: ask for it, unless somebody has
pub request_carrier : Peer → Peer
request_carrier peer =
    if not peer.is_dead
      && not peer.tcp_stopping
      && peer.device_up
      && peer.over_tcp
      && peer.peer_endpoint_set
      && not peer.tcp_retry_scheduled
      && not peer.tcp_outbound_remove_scheduled
    then record peer { tcp_retry_scheduled = true; works = retry_work ∷ peer.works }
    else peer

-- wg_socket_send_skb_to_peer on a TCP device: `has_memory` is the outcome of the frame's allocation
unfoldable pub send_skb_to_peer : Bool → Packet → Peer → Result {0} Unit × Peer
send_skb_to_peer has_memory p peer =
    if may_send peer
    then count_sent (length p.bytes) (elim (build_frame has_memory 0 p) [
      | err e ↦ (err e, peer)
      | ok frame ↦ enqueue_frame frame peer
    ])
    else (err enotconn, request_carrier peer)

-- wg_tcp_test_send_len, with a test limit of `max_send` (0 for none)
abbrev pub send_len : ℕ → ℕ → ℕ
send_len max_send frame_len = if max_send == 0 then frame_len else min max_send frame_len

-- the result of a call that was given `part`, and the bytes that the socket took
abbrev pub sent_part : List ℕ → Sent → Peer → Sent × Peer
sent_part part (taken n) peer =
    (taken n, record peer { sends = peer.sends + 1; wire = peer.wire ++ take n part })
sent_part part again peer = (again, record peer { sends = peer.sends + 1 })
sent_part part broken peer = (broken, record peer { sends = peer.sends + 1 })

-- what is left of the frame goes back to the head of the queue, and the socket will call back
abbrev pub put_back : List ℕ → List (List ℕ) → Peer → Peer
put_back frame rest peer = record peer { send_queue = frame ∷ rest; nospace = true }

-- The body of the worker's loop behind the call: `after` is the loop on the frames behind this one.
abbrev pub after_send : ℕ → List ℕ → List (List ℕ) → (Peer → Peer) → Sent × Peer → Peer
after_send socket frame rest after (again, peer) = put_back frame rest peer
after_send socket frame rest after (broken, peer) = fail_exact_socket socket peer
after_send socket frame rest after (taken n, peer) =
    if n == 0
    then fail_exact_socket socket peer
    else if ltb (length frame) n
    then fail_exact_socket socket peer
    else if ltb n (length frame)
    then put_back (drop n frame) rest peer
    else after peer

-- the end of the worker: `writeable` is sk_stream_is_writeable of the socket it used
unfoldable pub release_writer : Bool → Option ℕ → Peer → Peer
release_writer writeable socket peer =
    if may_send peer
      && still_it socket
      && peer.tcp_write_wq
      && ltb 0 (length peer.send_queue)
      && writeable
    then record peer { tcp_write_worker_scheduled = true; works = write_work ∷ peer.works }
    else record peer { tcp_write_worker_scheduled = false }
  where
    still_it : Option ℕ → Bool
    still_it none = false
    still_it (some s) = is_socket peer.peer_socket s

-- The network's answers, by the number of the call.
module _ (sendmsg : ℕ → List ℕ → Sent) (max_send : ℕ) where
  -- wg_tcp_send_frame
  unfoldable pub send_frame : List ℕ → Peer → Sent × Peer
  send_frame frame peer =
      let part = take (send_len max_send (length frame)) frame in
      sent_part part (sendmsg peer.sends part) peer

  -- the loop of wg_tcp_write_worker
  unfoldable pub write_loop : ℕ → List (List ℕ) → Peer → Peer
  unfolding send_frame
  write_loop socket [] peer = peer
  write_loop socket (frame ∷ rest) peer =
      after_send socket frame rest (write_loop socket rest)
        (send_frame frame (record peer { send_queue = rest }))

  -- wg_tcp_write_worker
  unfoldable pub write_worker : Bool → Peer → Peer
  unfolding write_loop release_writer
  write_worker writeable peer =
      if may_send peer
      then elim peer.peer_socket [
        | none ↦ release_writer writeable none peer
        | some socket ↦
            release_writer writeable (some socket) (write_loop socket peer.send_queue peer)
      ]
      else release_writer writeable none peer
