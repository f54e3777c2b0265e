-- ===== src/Timers/Attempts.antt =====
-- How long a peer goes on with a handshake that is not answered.
use wgtcp.Base.{
  ℕ, suc, ◌+◌, ◌*◌, ◌^◌, ◌≤◌, ◌<◌, ◌≡◌, refl, sym, arith, Bool, true, false, ◌||◌, le→leb,
  if◌then◌else◌, List, [], ◌∷◌, Option, none, some, length,
}
use wgtcp.Timers.{
  Timers, Action, purge_staged_packets, queue_handshake, is_pending, expired_retransmit_handshake,
  send_handshake_initiation, birthdate_has_expired, nsec_per_sec, rekey_timeout,
  max_timer_handshakes, send_queued_handshake_initiation,
}

-- The moment at which the retransmission timer fires and the worker runs: in jiffies, in
-- nanoseconds since boot, and the jitter of the next timer.
pub record Tick : Type 0 where
  pub jiffies : ℕ
  pub now : ℕ
  pub jitter : ℕ

abbrev asks_handshake : List Action → Bool
asks_handshake [] = false
asks_handshake (queue_handshake ∷ actions) = true
asks_handshake (other ∷ actions) = asks_handshake actions

abbrev asks_purge : List Action → Bool
asks_purge [] = false
asks_purge (purge_staged_packets ∷ actions) = true
asks_purge (other ∷ actions) = asks_purge actions

module _ (hz : ℕ) where
  -- wg_packet_handshake_send_worker, if it was queued.
  abbrev pub worker : Tick → Timers × List Action → Timers × Bool × Bool
  worker x (t, actions) =
      let (t', sent) =
        (if asks_handshake actions
          then send_handshake_initiation hz x.jiffies x.now x.jitter true t
          else (t, false)) in
      (t', sent, asks_purge actions)

  abbrev pub fire : Tick → Option ℕ → Timers → Timers × Bool × Bool
  fire x none t = (t, false, false)
  fire x (some e) t =
      worker x
        (expired_retransmit_handshake hz x.jiffies x.now (record t { retransmit_handshake = none }))

  -- The state, whether an initiation was sent, and whether the staged packets were dropped.
  pub round : Tick → Timers → Timers × Bool × Bool
  round x t = fire x t.retransmit_handshake t

  -- The initiations that are sent in some rounds, and whether packets were dropped in one of them.
  pub rounds : List Tick → Timers → Timers × ℕ × Bool
  unfolding round
  rounds [] t = (t, 0, false)
  rounds (x ∷ xs) t =
      let (t1, sent, purged) = round x t in
      let (t2, n, purged') = rounds xs t1 in (t2, (if sent then 1 else 0) + n, purged || purged')

-- Waiting for an answer, after `n` retries.
pub record IsWaiting (n : ℕ) (t : Timers) : Type 0 where
  pub running : t.running ≡ true
  pub alive : t.is_dead ≡ false
  pub attempts : t.handshake_attempts ≡ n
  pub armed : is_pending t.retransmit_handshake ≡ true

-- REKEY_TIMEOUT or more between the initiations, as the timer is set; times within 2^62 ns.
abbrev pub IsPaced : ℕ → List Tick → Type 0
IsPaced last [] = Unit
IsPaced last (x ∷ xs) =
    (last + rekey_timeout * nsec_per_sec ≤ x.now) × (x.now < 2 ^ 62) × IsPaced x.now xs

expired_lem :
    (last now : ℕ)
    → last + rekey_timeout * nsec_per_sec ≤ now
    → now < 2 ^ 62
    → birthdate_has_expired last rekey_timeout now ≡ true
unfolding birthdate_has_expired
expired_lem last now le lt = le→leb _ _ (omega arith)

module _ (hz : ℕ) where
  retry :
      (n : ℕ) (x : Tick) (t : Timers)
      → IsWaiting n t
      → n ≤ max_timer_handshakes
      → birthdate_has_expired t.last_sent_handshake rekey_timeout x.now ≡ true
      → let (t', sent, purged) = round hz x t in
        (sent ≡ true) × (purged ≡ false) × IsWaiting (suc n) t' × (t'.last_sent_handshake ≡ x.now)
  unfolding round expired_retransmit_handshake send_queued_handshake_initiation
      send_handshake_initiation
  retry n x t w few aged = ground arith

  gives_up :
      (x : Tick) (t : Timers)
      → IsWaiting (suc max_timer_handshakes) t
      → let (t', sent, purged) = round hz x t in
        (sent ≡ false)
        × (purged ≡ true)
        × (t'.retransmit_handshake ≡ none)
        × (t'.send_keepalive ≡ none)
        × (is_pending t'.zero_key_material ≡ true)
  unfolding round expired_retransmit_handshake
  gives_up x t w = ground arith

  rest_of_attempts :
      (xs : List Tick) (n : ℕ) (t : Timers)
      → n + length xs ≡ max_timer_handshakes + 2
      → 0 < length xs
      → IsWaiting n t
      → IsPaced t.last_sent_handshake xs
      → let (t', sent, purged) = rounds hz xs t in
        (sent + n ≡ max_timer_handshakes + 1)
        × (purged ≡ true)
        × (t'.retransmit_handshake ≡ none)
        × (t'.send_keepalive ≡ none)
        × (is_pending t'.zero_key_material ≡ true)
  unfolding rounds
  rest_of_attempts [] n t many some_left w paced = absurd (omega arith)
  rest_of_attempts (x ∷ []) n t many some_left w paced =
      let last : n ≡ suc max_timer_handshakes = omega arith in
      let (quiet, dropped, off, no_keepalive, zeroing) = gives_up x t (rw last at w) in
      rw (quiet, dropped) (omega arith, refl, off, no_keepalive, zeroing)
  rest_of_attempts (x ∷ y ∷ xs) n t many some_left w (due, small, paced) =
      let (sent, kept, w', last) =
        retry n x t w (omega arith) (expired_lem t.last_sent_handshake x.now due small) in
      let (count, purged, off, no_keepalive, zeroing) =
        rest_of_attempts (y ∷ xs) (suc n) (round hz x t).0 (omega arith) (omega arith) w'
          (rw (sym last) at paced) in
      rw (sent, kept) (omega (arith, count), purged, off, no_keepalive, zeroing)

  -- A handshake that is never answered ends: 20 expiries of the retransmission timer after the first
  -- initiation, at least REKEY_TIMEOUT after one another, 19 more initiations have been sent, the
  -- staged packets are dropped, neither that timer nor the keepalive timer is pending, and the one
  -- that destroys the keys is.
  pub attempts_end :
      (xs : List Tick) (t : Timers)
      → length xs ≡ 20
      → IsWaiting 0 t
      → IsPaced t.last_sent_handshake xs
      → let (t', sent, purged) = rounds hz xs t in
        (sent ≡ 19)
        × (purged ≡ true)
        × (t'.retransmit_handshake ≡ none)
        × (t'.send_keepalive ≡ none)
        × (is_pending t'.zero_key_material ≡ true)
  attempts_end xs t many w paced =
      let (sent, purged, off, no_keepalive, zeroing) =
        rest_of_attempts xs 0 t (omega arith) (omega arith) w paced in
      (omega arith, purged, off, no_keepalive, zeroing)
