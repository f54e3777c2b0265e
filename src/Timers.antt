-- ===== src/Timers.antt =====
-- The timers of a peer: kernel/timers.c, and the handshake initiations of kernel/send.c that they
-- drive. A timer is the time in jiffies at which it fires, `none` when it is not pending; a timer
-- that fires is no longer pending when its function runs. Random jitter, times and whether the
-- handshake message can be made are arguments. What is asked of other components is a list.
pub mod Stopped
pub mod Attempts
mod Tests
use wgtcp.Base.{
  ℕ, ◌+◌, ◌-◌, ◌*◌, ◌^◌, Bool, true, false, not, ◌&&◌, ◌||◌, ltb, leb, ◌==◌, if◌then◌else◌, List,
  [], ◌∷◌, ◌++◌, Option, none, some, u32, u64,
}

-- In seconds: REKEY_TIMEOUT, KEEPALIVE_TIMEOUT and REJECT_AFTER_TIME; MAX_TIMER_HANDSHAKES.
abbrev pub rekey_timeout : ℕ
rekey_timeout = 5

abbrev pub keepalive_timeout : ℕ
keepalive_timeout = 10

abbrev pub reject_after_time : ℕ
reject_after_time = 180

abbrev pub max_timer_handshakes : ℕ
max_timer_handshakes = 18

abbrev pub nsec_per_sec : ℕ
nsec_per_sec = 1000000000

-- The fields of struct wg_peer that belong to the timers, whether the interface is up and whether
-- the peer is dead.
pub record Timers : Type 0 where
  pub running : Bool
  pub is_dead : Bool
  pub retransmit_handshake : Option ℕ
  pub send_keepalive : Option ℕ
  pub new_handshake : Option ℕ
  pub zero_key_material : Option ℕ
  pub persistent_keepalive : Option ℕ
  pub handshake_attempts : ℕ
  pub need_another_keepalive : Bool
  pub sent_lastminute_handshake : Bool
  pub walltime_last_handshake : ℕ
  pub last_sent_handshake : ℕ
  pub persistent_keepalive_interval : ℕ

pub data Action : Type 0 where
  purge_staged_packets clear_endpoint_src queue_handshake packet_keepalive queue_clear_peer
        clear_keys :
      Action

abbrev pub is_pending : Option ℕ → Bool
is_pending none = false
is_pending (some e) = true

-- mod_peer_timer, on one timer.
abbrev pub mod_peer_timer : Timers → Option ℕ → ℕ → Option ℕ
mod_peer_timer t timer expires = if t.running && not t.is_dead then some (u64 expires) else timer

-- `(s64)a <= (s64)b` on 64-bit patterns.
abbrev s64_leb : ℕ → ℕ → Bool
s64_leb a b = leb (u64 (a + 2 ^ 63)) (u64 (b + 2 ^ 63))

pub birthdate_has_expired : ℕ → ℕ → ℕ → Bool
birthdate_has_expired birthday seconds now = s64_leb (u64 (birthday + seconds * nsec_per_sec)) now

-- wg_packet_send_queued_handshake_initiation
pub send_queued_handshake_initiation : Bool → ℕ → Timers → Timers × List Action
send_queued_handshake_initiation is_retry now t =
    let t' = record t { handshake_attempts = if is_retry then t.handshake_attempts else 0 } in
    if not (birthdate_has_expired t.last_sent_handshake rekey_timeout now) || t.is_dead
    then (t', [])
    else (t', queue_handshake ∷ [])

module _ (hz : ℕ) where
  pub expired_retransmit_handshake : ℕ → ℕ → Timers → Timers × List Action
  expired_retransmit_handshake jiffies now t =
      if ltb max_timer_handshakes t.handshake_attempts
      then (
        record t {
          send_keepalive = none;
          zero_key_material =
              if is_pending t.zero_key_material
              then t.zero_key_material
              else mod_peer_timer t t.zero_key_material (jiffies + reject_after_time * 3 * hz);
        },
        purge_staged_packets ∷ [],
      )
      else (let t1 = record t { handshake_attempts = u32 (t.handshake_attempts + 1) } in
          let (t2, actions) = send_queued_handshake_initiation true now t1 in
          (t2, clear_endpoint_src ∷ actions))

  pub expired_send_keepalive : ℕ → Timers → Timers × List Action
  expired_send_keepalive jiffies t = (
    if t.need_another_keepalive
        then record t {
          need_another_keepalive = false;
          send_keepalive = mod_peer_timer t t.send_keepalive (jiffies + keepalive_timeout * hz);
        }
        else t,
    packet_keepalive ∷ [],
  )

  pub expired_new_handshake : ℕ → Timers → Timers × List Action
  expired_new_handshake now t =
      let (t', actions) = send_queued_handshake_initiation false now t in
      (t', clear_endpoint_src ∷ actions)

  pub expired_zero_key_material : Timers → Timers × List Action
  expired_zero_key_material t = (t, if t.is_dead then [] else queue_clear_peer ∷ [])

  pub queued_expired_zero_key_material : Timers → Timers × List Action
  queued_expired_zero_key_material t = (t, clear_keys ∷ [])

  pub expired_send_persistent_keepalive : Timers → Timers × List Action
  expired_send_persistent_keepalive t =
      (t, if t.persistent_keepalive_interval == 0 then [] else packet_keepalive ∷ [])

  pub timers_data_sent : ℕ → ℕ → Timers → Timers
  timers_data_sent jiffies jitter t = if is_pending t.new_handshake then t else record t {
    new_handshake =
        mod_peer_timer t t.new_handshake
          (jiffies + (keepalive_timeout + rekey_timeout) * hz + jitter);
  }

  pub timers_data_received : ℕ → Timers → Timers
  timers_data_received jiffies t =
      if not t.running
      then t
      else if is_pending t.send_keepalive
      then record t { need_another_keepalive = true }
      else record t {
        send_keepalive = mod_peer_timer t t.send_keepalive (jiffies + keepalive_timeout * hz);
      }

  pub timers_any_authenticated_packet_sent : Timers → Timers
  timers_any_authenticated_packet_sent t = record t { send_keepalive = none }

  pub timers_any_authenticated_packet_received : Timers → Timers
  timers_any_authenticated_packet_received t = record t { new_handshake = none }

  pub timers_handshake_initiated : ℕ → ℕ → Timers → Timers
  timers_handshake_initiated jiffies jitter t = record t {
    retransmit_handshake =
        mod_peer_timer t t.retransmit_handshake (jiffies + rekey_timeout * hz + jitter);
  }

  pub timers_handshake_complete : ℕ → Timers → Timers
  timers_handshake_complete walltime t = record t {
    retransmit_handshake = none;
    handshake_attempts = 0;
    sent_lastminute_handshake = false;
    walltime_last_handshake = walltime;
  }

  pub timers_session_derived : ℕ → Timers → Timers
  timers_session_derived jiffies t = record t {
    zero_key_material = mod_peer_timer t t.zero_key_material (jiffies + reject_after_time * 3 * hz);
  }

  pub timers_any_authenticated_packet_traversal : ℕ → Timers → Timers
  timers_any_authenticated_packet_traversal jiffies t =
      if t.persistent_keepalive_interval == 0 then t else record t {
        persistent_keepalive =
            mod_peer_timer t t.persistent_keepalive
              (jiffies + t.persistent_keepalive_interval * hz);
      }

  pub timers_init : Timers → Timers
  timers_init t = record t {
    retransmit_handshake = none;
    send_keepalive = none;
    new_handshake = none;
    zero_key_material = none;
    persistent_keepalive = none;
    handshake_attempts = 0;
    sent_lastminute_handshake = false;
    need_another_keepalive = false;
  }

  pub timers_stop : Timers → Timers
  timers_stop t = record t {
    retransmit_handshake = none;
    send_keepalive = none;
    new_handshake = none;
    zero_key_material = none;
    persistent_keepalive = none;
  }

  -- wg_packet_send_handshake_initiation: `sent` says that the message was sent.
  pub send_handshake_initiation : ℕ → ℕ → ℕ → Bool → Timers → Timers × Bool
  unfolding timers_any_authenticated_packet_traversal timers_any_authenticated_packet_sent
      timers_handshake_initiated
  send_handshake_initiation jiffies now jitter made t =
      if not (birthdate_has_expired t.last_sent_handshake rekey_timeout now)
      then (t, false)
      else if made
      then (
        timers_handshake_initiated jiffies jitter
            (record (timers_any_authenticated_packet_sent (
              timers_any_authenticated_packet_traversal jiffies
                (record t { last_sent_handshake = now }))) { last_sent_handshake = now }),
        true,
      )
      else (record t { last_sent_handshake = now }, false)
