-- ===== src/Writer/Promoted.antt =====
-- A terminal send error on the carrier that wg_tcp_promote_authenticated_carrier gave a configured peer: the
-- peer then has an accepted socket and no outbound one, and wg_tcp_fail_exact_socket looks only at the latter.
use wgtcp.Base.{
  ℕ, ◌+◌, ◌≡◌, ◌∙◌, Bool, true, false, List, ◌∷◌, Option, none, some, arith, take, length, ==_refl,
}
use wgtcp.Peer.{Peer, may_send, fail_exact_socket}
use wgtcp.Writer.{Sent, broken, send_frame, send_len, write_loop, release_writer, write_worker}

release_writer-kept :
    (writeable : Bool) (s : Option ℕ) (p : Peer)
    → ((release_writer writeable s p).send_queue ≡ p.send_queue)
      × ((release_writer writeable s p).wire ≡ p.wire)
      × (may_send (release_writer writeable s p) ≡ may_send p)
unfolding release_writer
release_writer-kept writeable s p = (ground arith, ground arith, ground arith)

fail-ignored :
    (s : ℕ) (peer : Peer)
    → peer.temp_peer ≡ false
    → peer.peer_socket ≡ some s
    → peer.outbound_socket ≡ none
    → fail_exact_socket s peer ≡ peer
unfolding fail_exact_socket
fail-ignored s peer conf e none_out = ground (arith, ==_refl s)

module _ (sendmsg : ℕ → List ℕ → Sent) (max_send : ℕ) where
  -- What is left of a frame is dropped, perhaps in the middle of a record, and the peer may go on sending
  -- the frames behind it, on a configured peer whose carrier was accepted, at a send error that is not EAGAIN.
  pub lost_on_promoted :
      (peer : Peer) (s : ℕ) (frame : List ℕ) (rest : List (List ℕ)) (writeable : Bool)
      → may_send peer ≡ true
      → peer.temp_peer ≡ false
      → peer.peer_socket ≡ some s
      → peer.outbound_socket ≡ none
      → peer.send_queue ≡ frame ∷ rest
      → sendmsg peer.sends (take (send_len max_send (length frame)) frame) ≡ broken
      → let peer' = write_worker sendmsg max_send writeable peer in
        (peer'.send_queue ≡ rest) × (peer'.wire ≡ peer.wire) × (may_send peer' ≡ true)
  unfolding write_worker write_loop send_frame
  lost_on_promoted peer s frame rest writeable able conf e none_out q failed =
      let after : Peer = record peer { send_queue = rest; sends = peer.sends + 1 } in
      let (a, b, c) = release_writer-kept writeable (some s) after in
      rw (able, e, q) (rw failed (rw (fail-ignored s after conf e none_out) (a, b, c ∙ able)))
