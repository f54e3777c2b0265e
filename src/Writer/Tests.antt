-- ===== src/Writer/Tests.antt =====
-- The sender with a socket that takes thirty bytes at a time, and with one that fails.
use wgtcp.Base.{ℕ, ◌≡◌, refl, true, List, [], ◌∷◌, some, none, arith, All}
use wgtcp.Samples.{whole}
use wgtcp.Frame.Header.{IsSendable}
use wgtcp.Reader.Tracks.{wire}
use wgtcp.Peer.{Peer, may_send}
use wgtcp.Writer.{Sent, broken, send_skb_to_peer, write_worker}
use wgtcp.Writer.Stream.{IsInStream}
use wgtcp.Writer.Trace.{fresh, submitted, wrote, Runs-IsInStream, accept}
use wgtcp.Writer.Promoted.{lost_on_promoted}
use wgtcp.Writer.Samples.{new_peer, slow, slow-IsSend, new_peer-IsWired}

Runs-IsInStream_example :
    IsInStream
      (wire (accept [] whole (send_skb_to_peer true whole new_peer).0))
      (write_worker slow 0 true (send_skb_to_peer true whole new_peer).1)
    × All IsSendable (accept [] whole (send_skb_to_peer true whole new_peer).0)
Runs-IsInStream_example =
    Runs-IsInStream slow 0 slow-IsSend new_peer-IsWired refl refl
      (wrote (submitted fresh whole true (omega arith) (omega arith)) true)

abbrev fails : ℕ → List ℕ → Sent
fails i bytes = broken

-- a configured peer that an accepted carrier was promoted to, in the middle of a record
abbrev promoted : Peer
promoted = record new_peer {
  outbound_socket = none;
  inbound_socket = some 7;
  send_queue = (1 ∷ 2 ∷ []) ∷ (3 ∷ []) ∷ [];
}

lost_on_promoted_example :
    ((write_worker fails 0 true promoted).send_queue ≡ (3 ∷ []) ∷ [])
    × ((write_worker fails 0 true promoted).wire ≡ [])
    × (may_send (write_worker fails 0 true promoted) ≡ true)
lost_on_promoted_example =
    lost_on_promoted fails 0 promoted 7 (1 ∷ 2 ∷ []) ((3 ∷ []) ∷ []) true refl refl refl refl refl
      refl
