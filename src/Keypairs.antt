-- ===== src/Keypairs.antt =====
-- The key pairs of a peer in kernel/noise.c: which of them are kept, counted and found by index.
-- A key pair is a number, `none` the null pointer. Every critical section is one step.
pub mod Counts
pub mod Begin
pub mod Reach
mod Tests
use wgtcp.Base.{
  ℕ, ◌+◌, ◌-◌, Bool, true, false, not, ◌&&◌, ◌||◌, ltb, ◌==◌, if◌then◌else◌, Option, none, some,
}

-- enum noise_handshake_state
pub data HandshakeState : Type 0 where
  zeroed created_initiation consumed_initiation created_response consumed_response : HandshakeState

-- struct noise_keypairs, with what the key pairs' own structures and the index table hold of each:
-- its reference count, whether the table finds it, whether this side began the handshake, and
-- whether it may be sent with. The handshake's state, and whether its entry is in the table.
pub record Keypairs : Type 0 where
  pub previous : Option ℕ
  pub current : Option ℕ
  pub next : Option ℕ
  pub refs : ℕ → ℕ
  pub indexed : ℕ → Bool
  pub initiator : ℕ → Bool
  pub is_valid : ℕ → Bool
  pub handshake : HandshakeState
  pub hashed : Bool
  pub is_dead : Bool

abbrev pub update {ℓ} : {A : Type ℓ} → (ℕ → A) → ℕ → A → ℕ → A
update f k v j = if k == j then v else f j

abbrev pub is_some : ℕ → Option ℕ → Bool
is_some k none = false
is_some k (some a) = a == k

pub refs_after : Option ℕ → (ℕ → ℕ) → ℕ → ℕ
refs_after none refs = refs
refs_after (some k) refs = update refs k (refs k - 1)

pub indexed_after : Option ℕ → Bool → (ℕ → ℕ) → (ℕ → Bool) → ℕ → Bool
indexed_after none unreference_now refs indexed = indexed
indexed_after (some k) unreference_now refs indexed =
    update indexed k (if unreference_now || refs k == 1 then false else indexed k)

-- wg_noise_keypair_put; the last reference frees the key pair, out of the table too.
pub keypair_put : Option ℕ → Bool → Keypairs → Keypairs
keypair_put o unreference_now ks = record ks {
  refs = refs_after o ks.refs;
  indexed = indexed_after o unreference_now ks.refs ks.indexed;
}

-- wg_noise_keypair_get gives a reference to a key pair that has one.
pub keypair_get : Option ℕ → Keypairs → Keypairs × Option ℕ
keypair_get none ks = (ks, none)
keypair_get (some k) ks =
    if ks.refs k == 0
    then (ks, none)
    else (record ks { refs = update ks.refs k (ks.refs k + 1) }, some k)

pub handshake_clear : Keypairs → Keypairs
handshake_clear ks = record ks { hashed = false; handshake = zeroed }

pub keypairs_clear : Keypairs → Keypairs
unfolding keypair_put
keypairs_clear ks =
    let ks1 = keypair_put ks.next true (record ks { next = none }) in
    let ks2 = keypair_put ks.previous true (record ks1 { previous = none }) in
    keypair_put ks.current true (record ks2 { current = none })

abbrev pub invalidated : Option ℕ → (ℕ → Bool) → ℕ → Bool
invalidated none valid = valid
invalidated (some k) valid = update valid k false

pub expire_current_peer_keypairs : Keypairs → Keypairs
unfolding handshake_clear
expire_current_peer_keypairs ks =
    let ks1 = handshake_clear ks in
    record ks1 { is_valid = invalidated ks.current (invalidated ks.next ks.is_valid) }

-- add_new_keypair, on the three pointers as they were read.
pub place_initiator : ℕ → Option ℕ → Option ℕ → Option ℕ → Keypairs → Keypairs
unfolding keypair_put
place_initiator new previous current none ks =
    let ks1 = keypair_put previous true (record ks { previous = current }) in
    record ks1 { current = some new }
place_initiator new previous current (some n) ks =
    let ks1 = keypair_put current true (record ks { next = none; previous = some n }) in
    let ks2 = keypair_put previous true ks1 in record ks2 { current = some new }

pub place_responder : ℕ → Option ℕ → Option ℕ → Keypairs → Keypairs
unfolding keypair_put
place_responder new previous next ks =
    let ks1 = keypair_put next true (record ks { next = some new }) in
    keypair_put previous true (record ks1 { previous = none })

pub add_new_keypair : ℕ → Keypairs → Keypairs
unfolding place_initiator place_responder
add_new_keypair new ks =
    if ks.initiator new
    then place_initiator new ks.previous ks.current ks.next ks
    else place_responder new ks.previous ks.next ks

abbrev pub may_begin : HandshakeState → Bool
may_begin created_response = true
may_begin consumed_response = true
may_begin other = false

abbrev pub is_initiator : HandshakeState → Bool
is_initiator consumed_response = true
is_initiator other = false

-- wg_index_hashtable_replace: the key pair takes the place of the handshake's entry, if that is in
-- the table.
abbrev pub hashtable_replace : ℕ → Keypairs → Keypairs × Bool
hashtable_replace new ks =
    if ks.hashed
    then (record ks { hashed = false; indexed = update ks.indexed new true }, true)
    else (ks, false)

-- keypair_create gives a key pair with one reference, or fails.
abbrev pub keypair_create : ℕ → Bool → Keypairs → Keypairs
keypair_create new began ks = record ks {
  refs = update ks.refs new 1;
  indexed = update ks.indexed new false;
  initiator = update ks.initiator new began;
  is_valid = update ks.is_valid new true;
}

pub begin_session : Option ℕ → Keypairs → Keypairs × Bool
unfolding add_new_keypair
begin_session none ks = (ks, false)
begin_session (some new) ks =
    let created = keypair_create new (is_initiator ks.handshake) ks in
    if not (may_begin ks.handshake)
    then (ks, false)
    else if ks.is_dead
    then (record ks { handshake = zeroed }, false)
    else hashtable_replace new (add_new_keypair new (record created { handshake = zeroed }))

-- `seen` is the next key pair at the first look, without the lock.
pub received_with_keypair : ℕ → Option ℕ → Keypairs → Keypairs × Bool
unfolding keypair_put
received_with_keypair received seen ks =
    if not (is_some received seen && is_some received ks.next)
    then (ks, false)
    else (let ks1 = keypair_put ks.previous true (record ks { previous = ks.current }) in
        (record ks1 { current = some received; next = none }, true))
