-- ===== src/Admission.antt =====
-- The admission of accepted connections in kernel/wg_tcp.c: the list of struct wg_tcp_socket_list_entry of
-- kernel/device.h with the device's counters, under tcp_connection_list_lock. Sockets and peers are numbers,
-- times milliseconds since boot, which do not fall.
pub mod Counts
pub mod Claim
pub mod Reach
mod Tests
use wgtcp.Base.{
  ℕ, zero, suc, ◌+◌, ◌-◌, Bool, true, false, not, ◌&&◌, ◌||◌, ◌==◌, ltb, leb, if◌then◌else◌, List,
  [], ◌∷◌, ◌++◌, Option, none, some, length, Result, ok, err, Errno, einval, enomem, enospc,
  eshutdown,
}
use wgtcp.Net.{SockAddr, sockaddr_length_valid, sockaddrs_same_host}

abbrev pub max_pending_connections : ℕ
max_pending_connections = 128

abbrev pub max_tracked_connections : ℕ
max_tracked_connections = 1024

abbrev pub auth_idle_timeout_ms : ℕ
auth_idle_timeout_ms = 5000

abbrev pub auth_max_lifetime_ms : ℕ
auth_max_lifetime_ms = 30000

abbrev pub max_pending_per_source : ℕ
max_pending_per_source = 8

-- A provisional peer, and its is_dead flag.
pub record TempPeer : Type 0 where
  pub id : ℕ
  pub is_dead : Bool

-- struct wg_tcp_socket_list_entry
pub record Connection : Type 0 where
  pub tcp_socket : ℕ
  pub temp_peer : Option TempPeer
  pub src_addr : SockAddr
  pub created_at : ℕ
  pub timestamp : ℕ
  pub connection_id : ℕ
  pub admission_counted : Bool
  pub initializing : Bool
  pub authenticated : Bool

-- What struct wg_device keeps of the connections; `up` is tcp_cleanup_scheduled, and `cleanups` counts the
-- times that tcp_cleanup_work was queued.
pub record Device : Type 0 where
  pub connections : List Connection
  pub tcp_pending_connections : ℕ
  pub tcp_tracked_connections : ℕ
  pub tcp_connection_sequence : ℕ
  pub up : Bool
  pub cleanups : ℕ

-- the count after wg_tcp_release_admission_locked, whose warning leaves a zero alone
abbrev pub released : Connection → ℕ → ℕ
released e pending = if e.admission_counted then pending - 1 else pending

-- the entry after wg_tcp_release_admission_locked
abbrev pub uncounted : Connection → Connection
uncounted e = record e { admission_counted = false }

-- wg_tcp_mark_connection_authenticated on the list: the entries, and the count of pending ones
pub authenticate : ℕ → ℕ → List Connection → ℕ → List Connection × ℕ
authenticate now id [] pending = ([], pending)
authenticate now id (e ∷ es) pending =
    let (es', pending') = authenticate now id es pending in
    if e.connection_id == id
    then (record (uncounted e) { authenticated = true; timestamp = now } ∷ es, released e pending)
    else (e ∷ es', pending')

-- wg_tcp_mark_connection_authenticated
pub mark_connection_authenticated : ℕ → ℕ → Device → Device
mark_connection_authenticated now id wg =
    if id == 0
    then wg
    else let (es, pending) = authenticate now id wg.connections wg.tcp_pending_connections in
      record wg { connections = es; tcp_pending_connections = pending }

-- The socket of an entry is still good: it is established, and its peer there and alive.
abbrev pub kill : Option TempPeer → Option TempPeer
kill none = none
kill (some p) = some (record p { is_dead = true })

abbrev pub is_alive : Option TempPeer → Bool
is_alive none = false
is_alive (some p) = not p.is_dead

-- wg_finish_tcp_connection_init on the list; `established` is the state of the socket
pub finish_init : ℕ → Bool → List Connection → List Connection × Bool
finish_init socket established [] = ([], false)
finish_init socket established (e ∷ es) =
    let (es', cleanup) = finish_init socket established es in
    if not (e.tcp_socket == socket)
    then (e ∷ es', cleanup)
    else if established && is_alive e.temp_peer
    then (record e { initializing = false } ∷ es, false)
    else (record e { initializing = false; temp_peer = kill e.temp_peer } ∷ es, true)

-- wg_finish_tcp_connection_init
pub finish_tcp_connection_init : ℕ → Bool → Device → Device
finish_tcp_connection_init socket established wg =
    let (es, cleanup) = finish_init socket established wg.connections in
    record wg {
      connections = es;
      cleanups = if cleanup && wg.up then wg.cleanups + 1 else wg.cleanups;
    }

abbrev pub is_peer : ℕ → Option TempPeer → Bool
is_peer id none = false
is_peer id (some p) = p.id == id

-- wg_touch_tcp_connection on the list
pub touch : ℕ → ℕ → List Connection → List Connection
touch now peer [] = []
touch now peer (e ∷ es) =
    let es' = touch now peer es in
    if is_peer peer e.temp_peer then record e { timestamp = now } ∷ es else e ∷ es'

-- wg_touch_tcp_connection
pub touch_tcp_connection : ℕ → ℕ → Device → Device
unfolding touch
touch_tcp_connection now peer wg = record wg { connections = touch now peer wg.connections }

-- The entries that wg_claim_tcp_connection passes over.
abbrev pub other_socket : Option ℕ → Connection → Bool
other_socket none e = false
other_socket (some s) e = not (e.tcp_socket == s)

abbrev pub has_time : ℕ → Connection → Bool
has_time now e =
    e.authenticated
    || (ltb (now - e.timestamp) auth_idle_timeout_ms
        && ltb (now - e.created_at) auth_max_lifetime_ms)

abbrev pub stays : ℕ → Option ℕ → Bool → Connection → Bool
stays now pending_socket cleanup_only e =
    other_socket pending_socket e
    || (cleanup_only && e.initializing)
    || (cleanup_only && is_alive e.temp_peer && has_time now e)

-- the search of wg_claim_tcp_connection: the entry, and the list without it
pub take_connection : (Connection → Bool) → List Connection → Option (Connection × List Connection)
take_connection passed [] = none
take_connection passed (e ∷ es) =
    let rest = take_connection passed es in
    if passed e then elim rest [ none ↦ none | some r ↦ some (r.0, e ∷ r.1) ] else some (e, es)

-- the counters and the list after the search
abbrev pub claimed_from :
    Device → Option (Connection × List Connection) → Option Connection × Device
claimed_from wg none = (none, wg)
claimed_from wg (some (e, es)) = (
  some (uncounted e),
  record wg {
    connections = es;
    tcp_pending_connections = released e wg.tcp_pending_connections;
    tcp_tracked_connections = wg.tcp_tracked_connections - 1;
  },
)

-- wg_claim_tcp_connection
pub claim_tcp_connection : ℕ → Option ℕ → Bool → Device → Option Connection × Device
claim_tcp_connection now pending_socket cleanup_only wg =
    claimed_from wg (take_connection (stays now pending_socket cleanup_only) wg.connections)

-- The loop of wg_tcp_cleanup_worker and of wg_destruct_tcp_connection_list, at most `fuel` claims: what it
-- leaves, and whether it ended.
pub claim_all : ℕ → ℕ → Bool → Device → Device × Bool
claim_all zero now cleanup_only wg = (wg, false)
claim_all (suc fuel) now cleanup_only wg =
    let (claimed, wg') = claim_tcp_connection now none cleanup_only wg in
    let rest = claim_all fuel now cleanup_only wg' in
    elim claimed [ none ↦ (wg', true) | some e ↦ rest ]

-- the end of the cleanup: as long as there are connections, it is queued again
abbrev pub queue_cleanup : Device → Device
queue_cleanup wg =
    if ltb 0 (length wg.connections) && wg.up then record wg { cleanups = wg.cleanups + 1 } else wg

-- wg_tcp_cleanup_worker; each claim shortens the list, which gives the fuel
pub cleanup_worker : ℕ → Device → Device
cleanup_worker now wg =
    let (wg', ended) = claim_all (length wg.connections + 1) now true wg in queue_cleanup wg'

-- `link_local` is the kernel's ipv6_addr_type(…) & IPV6_ADDR_LINKLOCAL.
module _ (link_local : ℕ → Bool) where
  -- wg_tcp_pending_from_source_locked
  pub pending_from_source : SockAddr → List Connection → ℕ
  pending_from_source addr [] = 0
  pending_from_source addr (e ∷ es) =
      (if e.admission_counted && sockaddrs_same_host link_local addr e.src_addr then 1 else 0)
      + pending_from_source addr es

  -- wg_tcp_source_at_capacity
  pub source_at_capacity : SockAddr → Device → Bool
  source_at_capacity addr wg = leb max_pending_per_source (pending_from_source addr wg.connections)

  -- wg_add_tcp_socket_to_list. `owned` is the test of the socket's owner, `name` the result of getname: an
  -- error, or the address and its length.
  pub add_tcp_socket_to_list :
      ℕ → Bool → Bool → Result (SockAddr × ℕ) → ℕ → TempPeer → Device → Result {0} Unit × Device
  add_tcp_socket_to_list now has_memory owned name socket temp_peer wg =
      let id = wg.tcp_connection_sequence + 1 in
      let counted = record wg { tcp_connection_sequence = id } in
      if not has_memory
      then (err enomem, wg)
      else if not owned
      then (err einval, wg)
      else elim name [
        | err e ↦ (err e, counted)
        | ok a ↦
            if not (sockaddr_length_valid a.0 a.1)
            then (err einval, counted)
            else if not wg.up
            then (err eshutdown, counted)
            else if leb max_tracked_connections wg.tcp_tracked_connections
                || leb max_pending_connections wg.tcp_pending_connections
                || leb max_pending_per_source (pending_from_source a.0 wg.connections)
            then (err enospc, counted)
            else (
              ok tt,
              record counted {
                connections =
                    wg.connections
                    ++ record {
                      tcp_socket = socket;
                      temp_peer = some temp_peer;
                      src_addr = a.0;
                      created_at = now;
                      timestamp = now;
                      connection_id = id;
                      admission_counted = true;
                      initializing = true;
                      authenticated = false;
                    }
                      ∷ [];
                tcp_pending_connections = wg.tcp_pending_connections + 1;
                tcp_tracked_connections = wg.tcp_tracked_connections + 1;
                cleanups = wg.cleanups + 1;
              },
            )
      ]
