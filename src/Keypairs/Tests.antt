-- ===== src/Keypairs/Tests.antt =====
-- Two handshakes in a row, with a packet in flight.
use wgtcp.Base.{[], ◌∷◌, ℕ, ◌≡◌, refl, arith, true, false, none, some}
use wgtcp.Keypairs.{
  Keypairs, created_response, consumed_response, update, begin_session, received_with_keypair,
  add_new_keypair, place_responder, place_initiator, keypair_put, keypair_get, refs_after,
  indexed_after,
}
use wgtcp.Keypairs.Reach.{receive_all, HasPointers}
use wgtcp.Keypairs.Counts.{IsCounted}
use wgtcp.Keypairs.Reach
use wgtcp.Keypairs.Reach.{
  Reaches, no_keypairs, created, handshake_moves, begins, receives, takes, gives_back, clears,
}

-- Answers a handshake, receives with it, and starts one of its own while a packet uses the first.
abbrev answered : Keypairs
answered =
    (begin_session (some 7) (record no_keypairs { handshake = created_response; hashed = true })).0

abbrev in_use : Keypairs
in_use = (keypair_get (some 7) (received_with_keypair 7 (some 7) answered).0).0

abbrev second : Keypairs
second = (begin_session (some 8) (record in_use { handshake = consumed_response; hashed = true })).0

second_current : second.current ≡ some 8
unfolding begin_session received_with_keypair add_new_keypair place_responder place_initiator
    keypair_put keypair_get refs_after indexed_after no_keypairs
second_current = refl

second_previous : second.previous ≡ some 7
unfolding begin_session received_with_keypair add_new_keypair place_responder place_initiator
    keypair_put keypair_get refs_after indexed_after no_keypairs
second_previous = refl

abbrev one_holder : ℕ → ℕ
one_holder = update (λ k. 0) 7 1

in_use-Reaches : Reaches one_holder in_use
unfolding begin_session received_with_keypair add_new_keypair place_responder place_initiator
    keypair_put keypair_get refs_after indexed_after no_keypairs
in_use-Reaches =
    takes 7 (omega arith)
      (receives 7 (some 7) (begins 7 refl (handshake_moves created_response true created)))

Reaches-IsCounted_example : IsCounted one_holder in_use
Reaches-IsCounted_example = Reach.Reaches-IsCounted one_holder in_use in_use-Reaches

responder_takeover_example :
    let start = record no_keypairs { handshake = created_response; is_dead = false } in
    let begun = (begin_session (some 7) start).0 in
    let waiting = receive_all ((3, some 7) ∷ []) begun in
    let confirmed = receive_all ((7, none) ∷ []) (received_with_keypair 7 (some 7) waiting).0 in
    HasPointers none no_keypairs.current (some 7) waiting
    × HasPointers no_keypairs.current (some 7) none confirmed
responder_takeover_example =
    Reach.responder_takeover 7 no_keypairs ((3, some 7) ∷ []) ((7, none) ∷ []) (omega arith, tt)
