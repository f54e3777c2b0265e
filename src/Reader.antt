-- ===== src/Reader.antt =====
-- The stream reader of kernel/wg_tcp.c: wg_peer_discard_partial_read, wg_sync_header, and recvmsg as the
-- worker uses it; the worker itself is in Reader/Worker.antt. The socket is a queue of arrivals, as
-- kernel_recvmsg gives them; the buffers' bytes are lists of numbers.
pub mod Worker
pub mod Tracks
pub mod Fill
pub mod Body
pub mod Pass
pub mod Run
pub mod Order
mod Tests
pub mod Resync
use wgtcp.Base.{
  ℕ, zero, suc, ◌+◌, ◌*◌, ◌-◌, ◌≤◌, ◌≡◌, Bool, true, false, ◌&&◌, ◌||◌, not, List, [], ◌∷◌, ◌++◌,
  Option, none, some, Result, ok, err, length, take, drop, ltb, leb, ◌==◌, if◌then◌else◌, min,
  bit_and,
}
use wgtcp.Frame.{
  EncapHeader, FragHeader, decode, decode_frag, encap_hdr_len, frag_hdr_len, frag_flag,
  check_potential_header_validity,
}
use wgtcp.Tunnel.{Carrier, FakeHeaders, build_fake_headers}

-- struct sk_buff as far as the reader uses it: the data, and the room before and behind it.
pub record Skb : Type 0 where
  pub bytes : List ℕ
  pub headroom : ℕ
  pub tailroom : ℕ

-- alloc_skb by the number of the call: `none` is NULL, and a buffer has at least the size asked for.
pub record Memory : Type 0 where
  pub alloc : ℕ → ℕ → Option ℕ
  pub alloc_room : (call size room : ℕ) → alloc call size ≡ some room → size ≤ room

-- What the socket's receive queue holds. `segment []` is the end of the stream, where kernel_recvmsg
-- returns 0; `failure` is any negative result but -EAGAIN.
pub data Arrival : Type 0 where
  segment : List ℕ → Arrival
  failure : Arrival

-- A record handed to wg_receive: its headers, fragment fields and payload.
pub record Delivery : Type 0 where
  pub headers : FakeHeaders
  pub frag_id : ℕ
  pub frag_off : ℕ
  pub payload : List ℕ

-- The reader's state: the fields of the peer, the socket's receive queue, the number of allocations made
-- and the records delivered, oldest first.
pub record Rx : Type 0 where
  pub partial_skb : Option Skb
  pub expected_len : ℕ
  pub received_len : ℕ
  pub arrivals : List Arrival
  pub allocs : ℕ
  pub delivered : List Delivery

-- A stage ends with `break`, or hands its result on.
pub data Flow {ℓ} (A : Type ℓ) : Type ℓ where
  stop : Rx → Flow A
  go : A → Flow A

infixl 5 ◌>>=◌
abbrev pub ◌>>=◌ {ℓ κ} : {A : Type ℓ} {B : Type κ} → Flow A → (A → Flow B) → Flow B
stop rx >>= f = stop rx
go a >>= f = f a

abbrev pub read_alloc_size : ℕ
read_alloc_size = 8192 * 3

abbrev pub reserved_header_size : ℕ
reserved_header_size = 128

abbrev pub packet_budget : ℕ
packet_budget = 64

-- wg_peer_discard_partial_read
pub discard_partial_read : Rx → Rx
discard_partial_read rx = record rx { partial_skb = none; expected_len = 0; received_len = 0 }

-- skb_pull: the caller has checked that there are `n` bytes
abbrev pub skb_pull : ℕ → Skb → Skb
skb_pull n skb = record skb { bytes = drop n skb.bytes; headroom = skb.headroom + n }

-- The search of wg_sync_header: the offset of the first acceptable header among the `n` positions from
-- `i` on, where `received_len` bytes are at hand.
pub find_header : ℕ → ℕ → List ℕ → ℕ → Option ℕ
find_header zero i bytes received_len = none
find_header (suc n) i bytes received_len =
    let rest = find_header n (i + 1) bytes received_len in
    if check_potential_header_validity (drop i bytes) (received_len - i) then some i else rest

-- The length field at the front of the buffer.
abbrev pub front_length : List ℕ → ℕ
front_length bytes = elim (decode bytes) [ none ↦ 0 | some h ↦ h.length ]

-- wg_sync_header, with its Boolean result. Its socket test is the worker's.
pub sync_header : Rx → Skb → Bool × Rx
sync_header rx skb =
    if ltb rx.received_len encap_hdr_len
    then (false, rx)
    else elim (find_header (rx.received_len - encap_hdr_len + 1) 0 skb.bytes rx.received_len) [
      | some i ↦ (
        true,
        record rx {
          partial_skb = some (skb_pull i skb);
          received_len = rx.received_len - i;
          expected_len = front_length (drop i skb.bytes);
        },
      )
      | none ↦ (
        false,
        record rx {
          partial_skb = some (record skb {
            bytes = drop (rx.received_len - suffix_len) skb.bytes;
            tailroom = skb.tailroom + (rx.received_len - suffix_len);
          });
          received_len = suffix_len;
          expected_len = 0;
        },
      )
    ]
  where
    suffix_len : ℕ
    suffix_len = min rx.received_len (encap_hdr_len - 1)

-- kernel_recvmsg with MSG_DONTWAIT into `room` bytes: what it returns and what stays queued. A segment
-- that does not fit is cut.
pub data Received : Type 0 where
  would_block closed failed : Received
  read : List ℕ → Received

pub recvmsg : ℕ → List Arrival → Received × List Arrival
recvmsg room [] = (would_block, [])
recvmsg room (failure ∷ rest) = (failed, rest)
recvmsg room (segment [] ∷ rest) = (closed, segment [] ∷ rest)
recvmsg room (segment (b ∷ bs) ∷ rest) = (
  read (take room (b ∷ bs)),
  (if leb (length (b ∷ bs)) room then rest else segment (drop room (b ∷ bs)) ∷ rest),
)
