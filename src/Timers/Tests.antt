-- ===== src/Timers/Tests.antt =====
-- A handshake that is not answered, and a peer that is removed.
use wgtcp.Base.{ℕ, zero, suc, ◌+◌, ◌*◌, ◌≡◌, refl, arith, true, false, List, [], ◌∷◌, none, some}
use wgtcp.Timers.{Timers, is_pending, timers_data_received, expired_send_keepalive, timers_stop}
use wgtcp.Timers.Attempts
use wgtcp.Timers.Attempts.{Tick, rounds}
use wgtcp.Timers.Stopped
use wgtcp.Timers.Stopped.{
  Event, IsQuiet, happen, data_received, initiation, interface_set, session_derived,
  retransmit_fires,
}

abbrev quiet : Timers
quiet = record {
  running = true;
  is_dead = false;
  retransmit_handshake = none;
  send_keepalive = none;
  new_handshake = none;
  zero_key_material = none;
  persistent_keepalive = none;
  handshake_attempts = 0;
  need_another_keepalive = false;
  sent_lastminute_handshake = false;
  walltime_last_handshake = 0;
  last_sent_handshake = 0;
  persistent_keepalive_interval = 25;
}

abbrev waiting : Timers
waiting = record quiet { retransmit_handshake = some 500 }

-- One expiry each six seconds.
abbrev ticks : ℕ → ℕ → List Tick
ticks zero s = []
ticks (suc n) s = record { jiffies = s * 100; now = s * 1000000000; jitter = 7 } ∷ ticks n (s + 6)

attempts_end_example :
    ((rounds 100 (ticks 20 6) waiting).1 ≡ 19)
    × ((rounds 100 (ticks 20 6) waiting).2 ≡ true)
    × ((rounds 100 (ticks 20 6) waiting).0.retransmit_handshake ≡ none)
    × ((rounds 100 (ticks 20 6) waiting).0.send_keepalive ≡ none)
    × (is_pending (rounds 100 (ticks 20 6) waiting).0.zero_key_material ≡ true)
attempts_end_example =
    Attempts.attempts_end 100 (ticks 20 6) waiting refl
      (record { running = refl; alive = refl; attempts = refl; armed = refl }) (omega arith)

abbrev late : List Event
late =
    interface_set false
    ∷ interface_set true
    ∷ data_received 5
    ∷ initiation 6 9000000000 3 true
    ∷ session_derived 7
    ∷ retransmit_fires 8 9000000000
    ∷ []

stopped_for_good_example :
    IsQuiet (happen 100 late (timers_stop 100 (record waiting { is_dead = true })))
stopped_for_good_example =
    Stopped.stopped_for_good 100 late (record waiting { is_dead = true }) refl

-- A second data packet before the keepalive makes one more keepalive follow.
another_keepalive :
    (expired_send_keepalive 100 1500
      (record (timers_data_received 100 7 (timers_data_received 100 5 quiet)) {
        send_keepalive = none;
      })).0.send_keepalive
    ≡ some 2500
unfolding expired_send_keepalive timers_data_received
another_keepalive = refl
