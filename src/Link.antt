-- ===== src/Link.antt =====
-- Both ends of a stream: the sender's functions at one end (Writer.antt), the reader's at the other
-- (Reader.antt), and TCP between them, which delivers a prefix of what the socket has taken.
mod Tests
use wgtcp.Base.{
  ℕ, ◌+◌, ◌*◌, ◌<◌, ◌≡◌, sym, ap, ◌∙◌, List, [], ◌++◌, some, length, All, flatten, append_assoc, ok,
}
use wgtcp.Frame.{Packet}
use wgtcp.Tunnel.{Carrier, FakeHeaders, build_fake_headers}
use wgtcp.Reader.{Memory, Arrival, Rx}
use wgtcp.Reader.Worker.{start}
use wgtcp.Reader.Tracks.{wire, IsSegment, arrived, IsAmple}
use wgtcp.Reader.Body.{delivery}
use wgtcp.Reader.Order.{serve, IsServed, read_in_order}
use wgtcp.Peer.{Peer}
use wgtcp.Writer.{Sent}
use wgtcp.Writer.Stream.{IsSend, IsWired}
use wgtcp.Writer.Trace.{Runs, Runs-IsInStream}

module _ (sendmsg : ℕ → List ℕ → Sent) (max_send : ℕ) (kernel : IsSend sendmsg) where
  module _ (net_ip_align : ℕ) (memory : Memory) (carrier : Carrier) (ample : IsAmple memory) where
    module _ (headers : ℕ → FakeHeaders)
        (routable : (n : ℕ) → build_fake_headers (some carrier) n ≡ ok (headers n)) where
      -- The tunnel is in order and without loss up to what is under way: after any run of a sender that
      -- starts with nothing sent and nothing queued, on the accepted socket of a provisional peer or on the
      -- one that a configured peer opened (not on an accepted one that it was given by promotion), and that
      -- has accepted the packets `ps`, with the socket taking any part of what it is offered, and whatever
      -- prefix of that has arrived at the other end, in any segments and with the reader running after any
      -- batch of them, the reader (with enough memory, a routable carrier and fuel for its runs) has
      -- delivered a prefix of `ps`, each with its payload and its fragment fields, and holds no further
      -- complete record.
      pub end_to_end :
          (old sender : Peer) (ps : List Packet)
          → IsWired old
          → old.wire ≡ []
          → old.send_queue ≡ []
          → Runs sendmsg max_send old ps sender
          → (batches : List (List Arrival)) (under_way : List ℕ) → All (All IsSegment) batches
          → arrived (flatten batches) ++ under_way ≡ sender.wire
          → (fuel : ℕ) → 4 * length (wire ps) + 1 < fuel
          → (rx : Rx) × (later : List ℕ) × (serve net_ip_align memory carrier fuel
                (start [])
                batches
              ≡ some rx)
            × IsServed (delivery headers) (under_way ++ later) ps (start []) rx
      end_to_end old sender ps wired nothing_sent nothing_queued run batches under_way clean taken
            fuel enough =
          let (s, sendable) =
            Runs-IsInStream sendmsg max_send kernel wired nothing_sent nothing_queued run in
          let whole : arrived (flatten batches) ++ (under_way ++ s.later) ≡ wire ps =
            sym (append_assoc (arrived (flatten batches)) under_way s.later)
            ∙ ap (λ t. t ++ s.later) taken
            ∙ s.sent in
          let (rx, settled, served) =
            read_in_order net_ip_align memory carrier ample headers routable fuel batches
              (under_way ++ s.later) ps sendable clean whole enough in
          (rx, s.later, settled, served)
