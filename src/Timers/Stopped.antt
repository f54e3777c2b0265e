-- ===== src/Timers/Stopped.antt =====
-- What is called for a peer that is dead and whose timers are stopped.
use wgtcp.Base.{ℕ, ◌≡◌, refl, arith, Bool, true, List, [], ◌∷◌, Option, none, some}
use wgtcp.Timers.{
  Timers, expired_retransmit_handshake, expired_send_keepalive, expired_new_handshake,
  expired_zero_key_material, expired_send_persistent_keepalive, timers_data_sent,
  timers_data_received, timers_any_authenticated_packet_sent,
  timers_any_authenticated_packet_received, timers_handshake_initiated, timers_handshake_complete,
  timers_session_derived, timers_any_authenticated_packet_traversal, timers_stop,
  send_handshake_initiation, send_queued_handshake_initiation, Action,
}

-- A timer that fires, a call of the other components, or the interface going up or down. The numbers
-- are the jiffies, the time in nanoseconds and the jitter.
pub data Event : Type 0 where
  retransmit_fires keepalive_fires new_handshake_fires zero_key_fires persistent_fires :
      ℕ → ℕ → Event
  data_sent : ℕ → ℕ → Event
  data_received session_derived packet_traversal : ℕ → Event
  packet_sent packet_received : Event
  handshake_complete : ℕ → Event
  initiation : ℕ → ℕ → ℕ → Bool → Event
  initiation_wanted : Bool → ℕ → Event
  interface_set : Bool → Event

-- A function of a timer runs only if the timer was pending.
abbrev fires : Option ℕ → Timers → Timers × List Action → Timers
fires none t ran = t
fires (some e) t ran = ran.0

module _ (hz : ℕ) where
  pub happens : Event → Timers → Timers
  happens (retransmit_fires jiffies now) t =
      fires t.retransmit_handshake t
        (expired_retransmit_handshake hz jiffies now (record t { retransmit_handshake = none }))
  happens (keepalive_fires jiffies now) t =
      fires t.send_keepalive t
        (expired_send_keepalive hz jiffies (record t { send_keepalive = none }))
  happens (new_handshake_fires jiffies now) t =
      fires t.new_handshake t (expired_new_handshake hz now (record t { new_handshake = none }))
  happens (zero_key_fires jiffies now) t =
      fires t.zero_key_material t
        (expired_zero_key_material hz (record t { zero_key_material = none }))
  happens (persistent_fires jiffies now) t =
      fires t.persistent_keepalive t
        (expired_send_persistent_keepalive hz (record t { persistent_keepalive = none }))
  happens (data_sent jiffies jitter) t = timers_data_sent hz jiffies jitter t
  happens (data_received jiffies) t = timers_data_received hz jiffies t
  happens (session_derived jiffies) t = timers_session_derived hz jiffies t
  happens (packet_traversal jiffies) t = timers_any_authenticated_packet_traversal hz jiffies t
  happens packet_sent t = timers_any_authenticated_packet_sent hz t
  happens packet_received t = timers_any_authenticated_packet_received hz t
  happens (handshake_complete walltime) t = timers_handshake_complete hz walltime t
  happens (initiation jiffies now jitter made) t =
      (send_handshake_initiation hz jiffies now jitter made t).0
  happens (initiation_wanted is_retry now) t = (send_queued_handshake_initiation is_retry now t).0
  happens (interface_set up) t = record t { running = up }

  pub happen : List Event → Timers → Timers
  unfolding happens
  happen [] t = t
  happen (e ∷ es) t = happen es (happens e t)

-- No timer of a dead peer.
pub record IsQuiet (t : Timers) : Type 0 where
  pub dead : t.is_dead ≡ true
  pub no_retransmit : t.retransmit_handshake ≡ none
  pub no_keepalive : t.send_keepalive ≡ none
  pub no_new_handshake : t.new_handshake ≡ none
  pub no_zero_key : t.zero_key_material ≡ none
  pub no_persistent : t.persistent_keepalive ≡ none

module _ (hz : ℕ) where
  happens-IsQuiet : (e : Event) (t : Timers) → IsQuiet t → IsQuiet (happens hz e t)
  unfolding happens timers_data_sent timers_data_received timers_session_derived
      timers_any_authenticated_packet_traversal timers_any_authenticated_packet_sent
      timers_any_authenticated_packet_received timers_handshake_complete send_handshake_initiation
      timers_handshake_initiated send_queued_handshake_initiation
  happens-IsQuiet (retransmit_fires jiffies now) t q = ground arith
  happens-IsQuiet (keepalive_fires jiffies now) t q = ground arith
  happens-IsQuiet (new_handshake_fires jiffies now) t q = ground arith
  happens-IsQuiet (zero_key_fires jiffies now) t q = ground arith
  happens-IsQuiet (persistent_fires jiffies now) t q = ground arith
  happens-IsQuiet (data_sent jiffies jitter) t q = ground arith
  happens-IsQuiet (data_received jiffies) t q = ground arith
  happens-IsQuiet (session_derived jiffies) t q = ground arith
  happens-IsQuiet (packet_traversal jiffies) t q = ground arith
  happens-IsQuiet packet_sent t q = ground arith
  happens-IsQuiet packet_received t q = ground arith
  happens-IsQuiet (handshake_complete walltime) t q = ground arith
  happens-IsQuiet (initiation jiffies now jitter made) t q = ground arith
  happens-IsQuiet (initiation_wanted is_retry now) t q = ground arith
  happens-IsQuiet (interface_set up) t q = ground arith

  happen-IsQuiet : (es : List Event) (t : Timers) → IsQuiet t → IsQuiet (happen hz es t)
  unfolding happen
  happen-IsQuiet [] t q = q
  happen-IsQuiet (e ∷ es) t q = happen-IsQuiet es (happens hz e t) (happens-IsQuiet e t q)

  -- Once wg_timers_stop has run for a dead peer none of its five timers is pending again, whatever
  -- timers fire, packets pass, handshakes are sent and however the interface goes up and down.
  pub stopped_for_good :
      (es : List Event) (t : Timers) → t.is_dead ≡ true → IsQuiet (happen hz es (timers_stop hz t))
  unfolding timers_stop
  stopped_for_good es t dead = happen-IsQuiet es (timers_stop hz t) (record {
    dead = dead;
    no_retransmit = refl;
    no_keepalive = refl;
    no_new_handshake = refl;
    no_zero_key = refl;
    no_persistent = refl;
  })
