-- ===== src/Reader/Tests.antt =====
-- The reader's theorems at the sample stream.
use wgtcp.Base.{
  ℕ, ◌+◌, ◌<◌, ◌≡◌, ◌↔◌, refl, List, [], ◌∷◌, ◌++◌, some, true, arith, take, drop, replicate, map,
}
use wgtcp.Samples.{
  carrier, exact_memory, exact_memory-IsAmple, headers, carrier_routable, whole, part,
  whole-IsSendable, part-IsSendable, stream, batches,
}
use wgtcp.Frame.{frame_bytes, build_header, header_checksum, encode, encode_frag}
use wgtcp.Reader.{Rx, Skb, segment, find_header, sync_header}
use wgtcp.Reader.Worker.{start}
use wgtcp.Reader.Tracks.{buffered}
use wgtcp.Reader.Body.{delivery}
use wgtcp.Reader.Order.{serve, IsServed, read_in_order, read_everything}
use wgtcp.Reader.Resync.{IsFirst, skipped, sync_header-prefix, find_header_iff}

read_everything_example :
    (rx : Rx) × (serve 2 exact_memory carrier 1000 (start []) batches ≡ some rx)
    × (rx.delivered ≡ map (delivery headers) (whole ∷ part ∷ []))
    × (buffered rx ≡ [])
unfolding frame_bytes build_header header_checksum encode encode_frag
read_everything_example =
    read_everything 2 exact_memory carrier exact_memory-IsAmple headers carrier_routable 1000
      batches (whole ∷ part ∷ []) (whole-IsSendable, (part-IsSendable, tt))
      ((tt, tt), ((tt, (tt, tt)), tt)) refl (omega arith)

-- the last ten bytes have not arrived
read_in_order_example :
    (rx : Rx) × (serve 2 exact_memory carrier 1000 (start []) ((segment (take 75 stream) ∷ []) ∷ [])
      ≡ some rx)
    × IsServed (delivery headers) (drop 75 stream) (whole ∷ part ∷ []) (start []) rx
unfolding frame_bytes build_header header_checksum encode encode_frag
read_in_order_example =
    read_in_order 2 exact_memory carrier exact_memory-IsAmple headers carrier_routable 1000
      ((segment (take 75 stream) ∷ []) ∷ []) (drop 75 stream) (whole ∷ part ∷ [])
      (whole-IsSendable, (part-IsSendable, tt)) ((tt, tt), tt) refl (omega arith)

-- three bytes of fault injection in front of the whole packet
abbrev noisy : List ℕ
noisy = replicate 3 0xa5 ++ (frame_bytes whole ++ [])

abbrev noisy_skb : Skb
noisy_skb = record { bytes = noisy; headroom = 130; tailroom = 1000 }

abbrev noisy_rx : Rx
noisy_rx = record (start []) { partial_skb = some noisy_skb; received_len = 43 }

sync_header-prefix_example :
    sync_header noisy_rx noisy_skb ≡ (true, skipped 3 whole noisy_rx noisy_skb)
sync_header-prefix_example =
    sync_header-prefix 3 whole [] noisy_rx noisy_skb whole-IsSendable refl (omega arith)

find_header_iff_example :
    (find_header 36 0 noisy 43 ≡ some 3) ↔ (IsFirst 0 noisy 43 3 × (3 < 0 + 36))
find_header_iff_example = find_header_iff 36 0 noisy 43 3
