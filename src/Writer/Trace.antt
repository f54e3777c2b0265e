-- ===== src/Writer/Trace.antt =====
-- The sender over time: packets submitted and runs of the worker, in any order.
use wgtcp.Base.{
  ℕ, ◌<◌, ◌^◌, ◌≡◌, ◌⊎◌, inl, inr, refl, sym, ap, ◌∙◌, Bool, true, ◌&&◌, List, [], ◌∷◌, ◌++◌,
  Option, some, leb, length, Result, ok, err, arith, Bool-cases, flatten, flatten-append,
  append_assoc, append-nil, Option-cases, All,
}
use wgtcp.Frame.{Packet, build_frame, frame_bytes}
use wgtcp.Frame.Header.{IsSendable}
use wgtcp.Frame.Build.{build_frame-ok}
use wgtcp.Reader.Tracks.{wire}
use wgtcp.Peer.{Peer, may_send, schedule_write}
use wgtcp.Writer.{
  Sent, enqueue_frame, request_carrier, send_skb_to_peer, count_sent, release_writer, write_worker,
}
use wgtcp.Writer.Stream.{IsSend, IsWired, IsInStream, same-IsWired, write_loop-IsInStream}

-- `q` differs from `p` in nothing that the stream depends on.
record IsAlike (p q : Peer) : Type 0 where
  wire_same : q.wire ≡ p.wire
  queue_same : q.send_queue ≡ p.send_queue
  may_same : may_send q ≡ may_send p
  socket_same : q.peer_socket ≡ p.peer_socket
  temp_same : q.temp_peer ≡ p.temp_peer
  tcp_same : q.over_tcp ≡ p.over_tcp
  inbound_same : q.inbound_socket ≡ p.inbound_socket
  outbound_same : q.outbound_socket ≡ p.outbound_socket

alike-IsInStream :
    (stream : List ℕ) (p q : Peer) → IsAlike p q → IsInStream stream p → IsInStream stream q
alike-IsInStream stream p q a h = record {
  later = h.later;
  sent = rw a.wire_same h.sent;
  kept = λ able. rw a.queue_same (h.kept (sym a.may_same ∙ able));
  wired =
      same-IsWired p q a.socket_same a.temp_same a.tcp_same a.inbound_same a.outbound_same h.wired;
}

release_writer-IsAlike :
    (writeable : Bool) (s : Option ℕ) (p : Peer) → IsAlike p (release_writer writeable s p)
unfolding release_writer
release_writer-IsAlike writeable s p = record {
  wire_same = ground arith;
  queue_same = ground arith;
  may_same = ground arith;
  socket_same = ground arith;
  temp_same = ground arith;
  tcp_same = ground arith;
  inbound_same = ground arith;
  outbound_same = ground arith;
}

schedule_write-IsAlike : (p : Peer) → IsAlike p (schedule_write p)
unfolding schedule_write
schedule_write-IsAlike p = record {
  wire_same = ground arith;
  queue_same = ground arith;
  may_same = ground arith;
  socket_same = ground arith;
  temp_same = ground arith;
  tcp_same = ground arith;
  inbound_same = ground arith;
  outbound_same = ground arith;
}

request_carrier-IsAlike : (p : Peer) → IsAlike p (request_carrier p)
unfolding request_carrier
request_carrier-IsAlike p = record {
  wire_same = ground arith;
  queue_same = ground arith;
  may_same = ground arith;
  socket_same = ground arith;
  temp_same = ground arith;
  tcp_same = ground arith;
  inbound_same = ground arith;
  outbound_same = ground arith;
}

-- the packets accepted so far, and what the sender said to one more
abbrev pub accept : List Packet → Packet → Result {0} Unit → List Packet
accept ps p (ok u) = ps ++ p ∷ []
accept ps p (err e) = ps

wire-append : (ps qs : List Packet) → wire (ps ++ qs) ≡ wire ps ++ wire qs
wire-append [] qs = refl
wire-append (p ∷ ps) qs =
    ap (λ t. frame_bytes p ++ t) (wire-append ps qs)
    ∙ sym (append_assoc (frame_bytes p) (wire ps) (wire qs))

-- One more frame at the end of the queue is one more record at the end of the stream.
queued-IsInStream :
    (ps : List Packet) (p : Packet) (peer : Peer)
    → may_send peer ≡ true
    → IsInStream (wire ps) peer
    → IsInStream
        (wire (ps ++ p ∷ []))
        (record peer { send_queue = peer.send_queue ++ frame_bytes p ∷ [] })
queued-IsInStream ps p peer may h = record {
  later = h.later ++ frame_bytes p;
  sent =
      sym (append_assoc peer.wire h.later (frame_bytes p))
      ∙ ap (λ t. t ++ frame_bytes p) h.sent
      ∙ sym (wire-append ps (p ∷ []) ∙ ap (λ t. wire ps ++ t) (append-nil (frame_bytes p)));
  kept = λ able.
      ap (λ t. t ++ frame_bytes p) (h.kept may)
      ∙ sym (
          flatten-append peer.send_queue (frame_bytes p ∷ [])
          ∙ ap (λ t. flatten peer.send_queue ++ t) (append-nil (frame_bytes p)));
  wired = record { own = h.wired.own };
}

enqueue-IsInStream :
    (ps : List Packet) (p : Packet) (peer : Peer)
    → IsInStream (wire ps) peer
    → let (r, peer') = enqueue_frame (frame_bytes p) peer in IsInStream (wire (accept ps p r)) peer'
unfolding enqueue_frame
enqueue-IsInStream ps p peer h = elim (Bool-cases (may_send peer && peer.over_tcp)) [
  | inr closed ↦ rw closed h
  | inl able ↦ elim (Bool-cases (leb 1024 (length peer.send_queue))) [
    | inl full ↦ rw (able, full) h
    | inr room ↦
        rw (able, room)
          (alike-IsInStream (wire (ps ++ p ∷ [])) _ _ (schedule_write-IsAlike _)
            (queued-IsInStream ps p peer (ground (arith, able)) h))
  ]
]

counted-IsInStream :
    (ps : List Packet) (p : Packet) (n : ℕ) (r : Result {0} Unit) (peer : Peer)
    → IsInStream (wire (accept ps p r)) peer
    → IsInStream (wire (accept ps p (count_sent n (r, peer)).0)) (count_sent n (r, peer)).1
counted-IsInStream ps p n (err e) peer h = h
counted-IsInStream ps p n (ok u) peer h = record {
  later = h.later;
  sent = h.sent;
  kept = h.kept;
  wired = record { own = h.wired.own };
}

Result-cases : {A : Type 0} (r : Result A) → ((e : _) × (r ≡ err e)) ⊎ ((a : A) × (r ≡ ok a))
Result-cases (err e) = inl (e, refl)
Result-cases (ok a) = inr (a, refl)

-- A packet is accepted as one more record of the stream, or refused without a trace in it.
send-IsInStream :
    (ps : List Packet) (p : Packet) (has_memory : Bool) (peer : Peer)
    → p.frag_id < 2 ^ 16
    → p.frag_off < 2 ^ 16
    → IsInStream (wire ps) peer
    → let (r, peer') = send_skb_to_peer has_memory p peer in IsInStream (wire (accept ps p r)) peer'
unfolding send_skb_to_peer
send-IsInStream ps p has_memory peer i o h = elim (Bool-cases (may_send peer)) [
  | inr closed ↦ rw closed (alike-IsInStream (wire ps) peer _ (request_carrier-IsAlike peer) h)
  | inl able ↦ elim (Result-cases (build_frame has_memory 0 p)) [
    | inl (e, refused) ↦ rw (able, refused) h
    | inr (frame, built) ↦
        rw (able, built, (build_frame-ok has_memory p frame i o built).0)
          (counted-IsInStream ps p (length p.bytes) _ _ (enqueue-IsInStream ps p peer h))
  ]
]

accepted-IsSendable :
    (ps : List Packet) (p : Packet) (has_memory : Bool) (peer : Peer)
    → p.frag_id < 2 ^ 16
    → p.frag_off < 2 ^ 16
    → All IsSendable ps
    → All IsSendable (accept ps p (send_skb_to_peer has_memory p peer).0)
unfolding send_skb_to_peer
accepted-IsSendable ps p has_memory peer i o h = elim (Bool-cases (may_send peer)) [
  | inr closed ↦ rw closed h
  | inl able ↦ elim (Result-cases (build_frame has_memory 0 p)) [
    | inl (e, refused) ↦ rw (able, refused) h
    | inr (frame, built) ↦
        rw (able, built) (accept-All ps p _ h (build_frame-ok has_memory p frame i o built).1)
  ]
]
  where
    append-All :
        (qs : List Packet) (p : Packet)
        → All IsSendable qs
        → IsSendable p
        → All IsSendable (qs ++ p ∷ [])
    append-All [] p h v = (v, tt)
    append-All (q ∷ qs) p h v = (h.0, append-All qs p h.1 v)

    accept-All :
        (ps : List Packet) (p : Packet) (r : Result {0} Unit)
        → All IsSendable ps
        → IsSendable p
        → All IsSendable (accept ps p r)
    accept-All ps p (ok u) h v = append-All ps p h v
    accept-All ps p (err e) h v = h

module _ (sendmsg : ℕ → List ℕ → Sent) (max_send : ℕ) where
  -- From `start`, the sender has accepted the packets of the list and come to the peer.
  pub data Runs (start : Peer) : List Packet → Peer → Type 0 where
    fresh : Runs start [] start
    submitted :
        {ps : List Packet} {peer : Peer}
        → Runs start ps peer
        → (p : Packet) (has_memory : Bool) → p.frag_id < 2 ^ 16
        → p.frag_off < 2 ^ 16
        → Runs start
            (accept ps p (send_skb_to_peer has_memory p peer).0)
            (send_skb_to_peer has_memory p peer).1
    wrote :
        {ps : List Packet} {peer : Peer}
        → Runs start ps peer
        → (writeable : Bool) → Runs start ps (write_worker sendmsg max_send writeable peer)

module _ (sendmsg : ℕ → List ℕ → Sent) (max_send : ℕ) (kernel : IsSend sendmsg) where
  write_worker-IsInStream :
      (stream : List ℕ) (writeable : Bool) (peer : Peer)
      → IsInStream stream peer
      → IsInStream stream (write_worker sendmsg max_send writeable peer)
  unfolding write_worker
  write_worker-IsInStream stream writeable peer h = elim (Bool-cases (may_send peer)) [
    | inr closed ↦ rw closed (record {
      later = h.later;
      sent = h.sent;
      kept = λ able. h.kept able;
      wired = record { own = h.wired.own };
    })
    | inl able ↦ elim (Option-cases peer.peer_socket) [
      | inl nobody ↦ absurd (ground (arith, able, nobody))
      | inr (s, e) ↦
          rw (able, e)
            (alike-IsInStream stream _ _ (release_writer-IsAlike writeable (some s) _) (
              write_loop-IsInStream sendmsg max_send kernel s stream peer.send_queue peer refl
                (record {
                  sending = able;
                  holds = e;
                  wired = h.wired;
                  sent = rw (h.kept able) at h.sent;
                })))
    ]
  ]

  starts-IsInStream :
      {start : Peer} → IsWired start → start.wire ≡ [] → start.send_queue ≡ [] → IsInStream [] start
  starts-IsInStream {start} wired nothing_sent nothing_queued = record {
    later = [];
    sent = append-nil start.wire ∙ nothing_sent;
    kept = λ able. sym (ap flatten nothing_queued);
    wired = wired;
  }

  -- On a peer that starts with nothing sent and nothing queued, and whose socket is the accepted one of a
  -- provisional peer or the one that a configured peer opened (not an accepted one that a configured peer
  -- was given by promotion): whatever is submitted and however the socket takes the bytes, what has gone
  -- out is the beginning of the records of the accepted packets, in order, without a byte missing or
  -- doubled; as long as the peer may send, its queue holds exactly the rest.
  pub Runs-IsInStream :
      {start : Peer} {ps : List Packet} {peer : Peer}
      → IsWired start
      → start.wire ≡ []
      → start.send_queue ≡ []
      → Runs sendmsg max_send start ps peer
      → IsInStream (wire ps) peer × All IsSendable ps
  Runs-IsInStream wired w q fresh = (starts-IsInStream wired w q, tt)
  Runs-IsInStream wired w q (submitted r p has_memory i o) =
      let (s, v) = Runs-IsInStream wired w q r in
      (send-IsInStream _ p has_memory _ i o s, accepted-IsSendable _ p has_memory _ i o v)
  Runs-IsInStream wired w q (wrote r writeable) =
      let (s, v) = Runs-IsInStream wired w q r in (write_worker-IsInStream _ writeable _ s, v)
