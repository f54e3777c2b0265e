-- ===== src/Keypairs/Reach.antt =====
-- The states that a peer's key pairs reach, and the way of a new one to the current place.
use wgtcp.Base.{
  All, List, [], ◌∷◌, ◌≢◌, ℕ, ◌+◌, ◌-◌, ◌<◌, ◌≡◌, refl, ap, ◌∙◌, arith, Bool, true, false, not,
  ◌&&◌, ==_refl, if◌then◌else◌, Option, none, some,
}
use wgtcp.Keypairs.{
  Keypairs, HandshakeState, zeroed, created_response, update, keypair_put, keypair_get,
  keypairs_clear, expire_current_peer_keypairs, begin_session, received_with_keypair,
  add_new_keypair, place_responder, hashtable_replace, is_some,
}
use wgtcp.Keypairs.Begin.{begin-IsCounted}
use wgtcp.Keypairs.Counts.{
  IsCounted, received-IsCounted, clear-IsCounted, expire-IsCounted, get-IsCounted, put-IsCounted,
}

-- The peer of wg_peer_create.
unfoldable pub no_keypairs : Keypairs
no_keypairs = record {
  previous = none;
  current = none;
  next = none;
  refs = λ k. 0;
  indexed = λ k. false;
  initiator = λ k. false;
  is_valid = λ k. false;
  handshake = zeroed;
  hashed = false;
  is_dead = false;
}

-- The states that a peer reaches, with the packets that hold a reference to each key pair. A new key
-- pair is one without references; a packet takes a reference to one that has some, and gives back
-- only its own.
pub data Reaches : (ℕ → ℕ) → Keypairs → Type 0 where
  created : Reaches (λ k. 0) no_keypairs
  handshake_moves :
      {held : ℕ → ℕ} {ks : Keypairs} (state : HandshakeState) (hashed : Bool)
      → Reaches held ks
      → Reaches held (record ks { handshake = state; hashed = hashed })
  dies :
      {held : ℕ → ℕ} {ks : Keypairs} → Reaches held ks → Reaches held (record ks { is_dead = true })
  begins :
      {held : ℕ → ℕ} {ks : Keypairs} (new : ℕ)
      → ks.refs new ≡ 0
      → Reaches held ks
      → Reaches held (begin_session (some new) ks).0
  receives :
      {held : ℕ → ℕ} {ks : Keypairs} (received : ℕ) (seen : Option ℕ)
      → Reaches held ks
      → Reaches held (received_with_keypair received seen ks).0
  clears : {held : ℕ → ℕ} {ks : Keypairs} → Reaches held ks → Reaches held (keypairs_clear ks)
  expires :
      {held : ℕ → ℕ} {ks : Keypairs}
      → Reaches held ks
      → Reaches held (expire_current_peer_keypairs ks)
  takes :
      {held : ℕ → ℕ} {ks : Keypairs} (k : ℕ)
      → 0 < ks.refs k
      → Reaches held ks
      → Reaches (update held k (held k + 1)) (keypair_get (some k) ks).0
  gives_back :
      {held : ℕ → ℕ} {ks : Keypairs} (k : ℕ)
      → 0 < held k
      → Reaches held ks
      → Reaches (update held k (held k - 1)) (keypair_put (some k) false ks)

-- In every reachable state each key pair has exactly one reference for its place among the previous,
-- the current and the next one and one for each packet that uses it, no key pair has two places, and
-- the index table finds only key pairs that have a place.
pub Reaches-IsCounted : (held : ℕ → ℕ) (ks : Keypairs) → Reaches held ks → IsCounted held ks
unfolding no_keypairs
Reaches-IsCounted held ks created = record {
  counted = λ k. omega arith;
  distinct = λ k. omega arith;
  reachable = λ k h. absurd (cc h);
}
Reaches-IsCounted held ks (handshake_moves state hashed r) =
    let v = Reaches-IsCounted held _ r in
    record { counted = v.counted; distinct = v.distinct; reachable = v.reachable }
Reaches-IsCounted held ks (dies r) =
    let v = Reaches-IsCounted held _ r in
    record { counted = v.counted; distinct = v.distinct; reachable = v.reachable }
Reaches-IsCounted held ks (begins {ks = old} new unused r) =
    begin-IsCounted held new old unused (Reaches-IsCounted held old r)
Reaches-IsCounted held ks (receives {ks = old} received seen r) =
    received-IsCounted held received seen old (Reaches-IsCounted held old r)
Reaches-IsCounted held ks (clears {ks = old} r) =
    clear-IsCounted held old (Reaches-IsCounted held old r)
Reaches-IsCounted held ks (expires {ks = old} r) =
    expire-IsCounted held old (Reaches-IsCounted held old r)
Reaches-IsCounted held ks (takes {held = before} {ks = old} k live r) =
    get-IsCounted before k old live (Reaches-IsCounted before old r)
Reaches-IsCounted held ks (gives_back {held = before} {ks = old} k has r) =
    put-IsCounted before k old has (Reaches-IsCounted before old r)

on_branches :
    (P : Keypairs → Type 0) (b : Bool) (x y : Keypairs × Bool)
    → (b ≡ true → P x.0)
    → (b ≡ false → P y.0)
    → P (if b then x else y).0
on_branches P true x y p q = p refl
on_branches P false x y p q = q refl

abbrev pub HasPointers : Option ℕ → Option ℕ → Option ℕ → Keypairs → Type 0
HasPointers previous current next ks =
    (ks.previous ≡ previous) × (ks.current ≡ current) × (ks.next ≡ next)

replaced_lem :
    (new : ℕ) (ks : Keypairs)
    → HasPointers ks.previous ks.current ks.next (hashtable_replace new ks).0
replaced_lem new ks =
    on_branches (HasPointers ks.previous ks.current ks.next) ks.hashed _ _ (λ e. (refl, refl, refl))
      (λ e. (refl, refl, refl))

-- A key pair that is received with for the first time becomes the current one.
received_lem :
    (received : ℕ) (ks : Keypairs)
    → ks.next ≡ some received
    → HasPointers ks.current
        (some received)
        none
        (received_with_keypair received (some received) ks).0
unfolding received_with_keypair keypair_put
received_lem received ks e =
    let same : is_some received ks.next ≡ true = ap (is_some received) e ∙ ==_refl received in
    on_branches (HasPointers ks.current (some received) none)
      (not (is_some received (some received) && is_some received ks.next)) _ _
      (λ other. absurd (ground (arith, other, same))) (λ both. (refl, refl, refl))

-- What a session does to the pointers of a live peer that has answered a handshake.
answered_lem :
    (new : ℕ) (ks : Keypairs)
    → let begun =
        (begin_session
          (some new)
          (record ks { handshake = created_response; is_dead = false })).0 in
      (begun.previous ≡ none) × (begun.current ≡ ks.current) × (begun.next ≡ some new)
unfolding begin_session add_new_keypair place_responder keypair_put
answered_lem new ks = rw (==_refl new) (replaced_lem new _)

-- A packet under a key pair that is not the next one changes nothing.
unmoved_lem :
    (received : ℕ) (seen : Option ℕ) (ks : Keypairs)
    → is_some received ks.next ≡ false
    → (received_with_keypair received seen ks).0 ≡ ks
unfolding received_with_keypair
unmoved_lem received seen ks e =
    on_branches (λ (k : Keypairs). k ≡ ks) (not (is_some received seen && is_some received ks.next))
      _ _ (λ other. refl) (λ both. absurd (ground (arith, e, both)))

-- Packets in the order of their arrival, each with the key pair that it was received with and the next
-- key pair as it was seen without the lock.
abbrev pub receive_all : List (ℕ × Option ℕ) → Keypairs → Keypairs
receive_all [] ks = ks
receive_all ((received, seen) ∷ packets) ks =
    receive_all packets (received_with_keypair received seen ks).0

abbrev pub IsUnderOther : ℕ → List (ℕ × Option ℕ) → Type 0
IsUnderOther new packets = All (λ (p : ℕ × Option ℕ). p.0 ≢ new) packets

others_lem :
    (new : ℕ) (packets : List (ℕ × Option ℕ)) (ks : Keypairs)
    → IsUnderOther new packets
    → ks.next ≡ some new
    → receive_all packets ks ≡ ks
others_lem new [] ks other e = refl
others_lem new ((received, seen) ∷ packets) ks other e =
    let apart : is_some received ks.next ≡ false =
      ap (is_some received) e ∙ ground (arith, other.0) in
    ap (receive_all packets) (unmoved_lem received seen ks apart)
    ∙ others_lem new packets ks other.1 e

settled_lem :
    (packets : List (ℕ × Option ℕ)) (ks : Keypairs) → ks.next ≡ none → receive_all packets ks ≡ ks
settled_lem [] ks e = refl
settled_lem ((received, seen) ∷ packets) ks e =
    ap (receive_all packets) (unmoved_lem received seen ks (ap (is_some received) e))
    ∙ settled_lem packets ks e

-- After a live peer has answered a handshake, packets under any other key pairs, whatever was seen of the
-- next one before the lock, leave the new key pair the next one and the current one current. The first
-- packet under the new key pair, seen as the next one, makes it the current one and the old current one the
-- previous one, and no packet after that changes the three.
pub responder_takeover :
    (new : ℕ) (ks : Keypairs) (before after : List (ℕ × Option ℕ))
    → IsUnderOther new before
    → let begun =
        (begin_session
          (some new)
          (record ks { handshake = created_response; is_dead = false })).0 in
      let waiting = receive_all before begun in
      let confirmed = receive_all after (received_with_keypair new (some new) waiting).0 in
      HasPointers none ks.current (some new) waiting
      × HasPointers ks.current (some new) none confirmed
responder_takeover new ks before after other =
    let begun =
      (begin_session (some new) (record ks { handshake = created_response; is_dead = false })).0 in
    let (previous, current, next) = answered_lem new ks in
    let same = others_lem new before begun other next in
    let waits : HasPointers none ks.current (some new) (receive_all before begun) =
      rw (same) (previous, current, next) in
    let (previous', current', next') = received_lem new _ waits.2 in
    let confirmed = (received_with_keypair new (some new) (receive_all before begun)).0 in
    let stays = settled_lem after confirmed next' in
    let ends : HasPointers (receive_all before begun).current (some new) none
        (receive_all after confirmed) =
      rw (stays) (previous', current', next') in
    (waits, (ends.0 ∙ waits.1, ends.1, ends.2))
