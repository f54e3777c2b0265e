-- ===== src/Link/Tests.antt =====
-- Both ends at a stream of two records: the sender's socket takes thirty bytes at a time, and twenty of them
-- have arrived.
use wgtcp.Base.{ℕ, ◌≡◌, refl, true, List, [], ◌∷◌, ◌++◌, some, take, drop, arith}
use wgtcp.Samples.{
  carrier, exact_memory, exact_memory-IsAmple, headers, carrier_routable, whole, part,
}
use wgtcp.Frame.{build_frame, frame_bytes, build_header, header_checksum, encode, encode_frag}
use wgtcp.Reader.{Rx, segment}
use wgtcp.Reader.Worker.{start}
use wgtcp.Reader.Body.{delivery}
use wgtcp.Reader.Order.{serve, IsServed}
use wgtcp.Peer.{Peer, schedule_write}
use wgtcp.Writer.{
  send_skb_to_peer, enqueue_frame, write_worker, write_loop, send_frame, release_writer,
}
use wgtcp.Writer.Samples.{new_peer, slow, slow-IsSend, new_peer-IsWired}
use wgtcp.Writer.Trace.{fresh, submitted, wrote}
use wgtcp.Link.{end_to_end}

abbrev sender : Peer
sender =
    write_worker slow 0 true (send_skb_to_peer true part (send_skb_to_peer true whole new_peer).1).1

end_to_end_example :
    (rx : Rx) × (later : List ℕ) × (serve 2 exact_memory carrier 1000
        (start [])
        ((segment (take 20 sender.wire) ∷ []) ∷ [])
      ≡ some rx)
    × IsServed (delivery headers) (drop 20 sender.wire ++ later) (whole ∷ part ∷ []) (start []) rx
unfolding build_frame frame_bytes build_header header_checksum encode encode_frag send_skb_to_peer
    enqueue_frame schedule_write write_worker write_loop send_frame release_writer
end_to_end_example =
    end_to_end slow 0 slow-IsSend 2 exact_memory carrier exact_memory-IsAmple headers
      carrier_routable new_peer sender (whole ∷ part ∷ []) new_peer-IsWired refl refl
      (wrote
        (submitted (submitted fresh whole true (omega arith) (omega arith)) part true (omega arith)
          (omega arith))
        true)
      ((segment (take 20 sender.wire) ∷ []) ∷ []) (drop 20 sender.wire) ((tt, tt), tt) refl 1000
      (omega arith)
