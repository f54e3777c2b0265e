-- ===== src/Reader/Worker.antt =====
-- The loop of wg_tcp_read_worker, as stages that either go on or break.
use wgtcp.Base.{
  ℕ, zero, suc, ◌+◌, ◌-◌, Bool, true, false, ◌&&◌, ◌||◌, not, List, [], ◌∷◌, ◌++◌, Option, none,
  some, ok, err, length, take, drop, ltb, leb, ◌==◌, if◌then◌else◌, bit_and,
}
use wgtcp.Frame.{
  EncapHeader, FragHeader, decode, decode_frag, encap_hdr_len, frag_hdr_len, frag_flag,
  check_potential_header_validity,
}
use wgtcp.Tunnel.{Carrier, build_fake_headers}
use wgtcp.Reader.{
  Skb, Memory, Arrival, Received, would_block, closed, failed, read, Rx, Flow, stop, go, ◌>>=◌,
  read_alloc_size, reserved_header_size, packet_budget, discard_partial_read, skb_pull, sync_header,
  recvmsg,
}

abbrev pub with_skb : Rx → Skb → Rx
with_skb rx skb = record rx { partial_skb = some skb }

abbrev pub counted : Rx → Rx
counted rx = record rx { allocs = rx.allocs + 1 }

-- what the buffers keep free in front
abbrev pub reserve : ℕ → ℕ
reserve net_ip_align = reserved_header_size + net_ip_align

-- skb_copy_expand(skb, skb_headroom(skb), n)
abbrev pub expand : Memory → ℕ → Skb → Rx → Option Skb
expand memory n skb rx = elim (memory.alloc rx.allocs (skb.headroom + length skb.bytes + n)) [
  | none ↦ none
  | some room ↦ some (record skb { tailroom = room - (skb.headroom + length skb.bytes) })
]

abbrev pub record_ready : Rx → Bool
record_ready rx =
    if rx.expected_len == 0
    then leb encap_hdr_len rx.received_len
    else leb rx.expected_len rx.received_len

-- `net_ip_align` is the architecture's NET_IP_ALIGN; the carrier is the socket that the worker pinned.
module _ (net_ip_align : ℕ) (memory : Memory) (carrier : Carrier) where
  -- the allocation at the top of the loop
  unfoldable pub ensure_partial : Rx → Flow (Skb × Rx)
  ensure_partial rx = elim rx.partial_skb [
    | some skb ↦ go (skb, rx)
    | none ↦ elim (memory.alloc rx.allocs (read_alloc_size + reserved_header_size + net_ip_align)) [
      | none ↦ stop (counted rx)
      | some room ↦
          let skb : Skb = record {
            bytes = [];
            headroom = reserve net_ip_align;
            tailroom = room - reserve net_ip_align;
          } in
          go (skb, record (counted rx) { partial_skb = some skb; expected_len = 0 })
    ]
  ]

  -- room for at least a header
  unfoldable pub grow : Skb × Rx → Flow (Skb × Rx)
  grow (skb, rx) =
      if ltb skb.tailroom encap_hdr_len
      then elim (expand memory (read_alloc_size + reserved_header_size + net_ip_align) skb rx) [
        | none ↦ stop (discard_partial_read (counted rx))
        | some skb' ↦ go (skb', with_skb (counted rx) skb')
      ]
      else go (skb, rx)

  pub take_arrival : Skb → Rx → Received × List Arrival → Flow (Skb × Rx)
  take_arrival skb rx (would_block, queue) = stop (record rx { arrivals = queue })
  take_arrival skb rx (closed, queue) = stop (discard_partial_read (record rx { arrivals = queue }))
  take_arrival skb rx (failed, queue) = stop (discard_partial_read (record rx { arrivals = queue }))
  take_arrival skb rx (read bs, queue) =
      let skb' = record skb { bytes = skb.bytes ++ bs; tailroom = skb.tailroom - length bs } in
      go (
        skb',
        record (with_skb rx skb') { received_len = rx.received_len + length bs; arrivals = queue },
      )

  -- one nonblocking read behind the bytes at hand
  unfoldable pub receive : Skb × Rx → Flow (Skb × Rx)
  unfolding take_arrival recvmsg
  receive (skb, rx) =
      if skb.tailroom == 0 then stop rx else take_arrival skb rx (recvmsg skb.tailroom rx.arrivals)

  -- read unless the buffer already holds what the loop needs
  unfoldable pub fill : Skb × Rx → Flow (Skb × Rx)
  unfolding grow receive
  fill (skb, rx) = if record_ready rx then go (skb, rx) else (grow (skb, rx) >>= receive)

  -- the second look at the header, after a resynchronisation
  pub recheck : Rx → Flow (EncapHeader × Skb × Rx)
  recheck rx = elim rx.partial_skb [
    | none ↦ stop (discard_partial_read rx)
    | some skb ↦ elim (decode skb.bytes) [
      | none ↦ stop (discard_partial_read rx)
      | some header ↦
          if ltb rx.received_len encap_hdr_len
          then stop (discard_partial_read rx)
          else if check_potential_header_validity skb.bytes rx.received_len
          then go (header, skb, record rx { expected_len = header.length })
          else stop (discard_partial_read rx)
    ]
  ]

  pub resync : Skb → Rx → Flow (EncapHeader × Skb × Rx)
  unfolding recheck
  resync skb rx =
      let (found, rx') = sync_header rx skb in
      if found
      then recheck rx'
      else if ltb rx'.received_len encap_hdr_len
      then stop rx'
      else stop (discard_partial_read rx')

  -- validate the header at the front of the buffer
  unfoldable pub check_header : Skb × Rx → Flow (EncapHeader × Skb × Rx)
  unfolding resync
  check_header (skb, rx) =
      if ltb rx.received_len encap_hdr_len then stop rx else elim (decode skb.bytes) [
        | none ↦ stop rx
        | some header ↦
            if check_potential_header_validity skb.bytes rx.received_len
            then go (header, skb, record rx { expected_len = header.length })
            else resync skb rx
      ]

  -- room for the rest of an incomplete record
  unfoldable pub make_room : EncapHeader × Skb × Rx → Flow (EncapHeader × Skb × Rx)
  make_room (header, skb, rx) =
      let needed = rx.expected_len - rx.received_len in
      if ltb rx.received_len rx.expected_len && ltb skb.tailroom needed
      then elim (expand memory needed skb rx) [
        | none ↦ stop (discard_partial_read (counted rx))
        | some skb' ↦ go (header, skb', with_skb (counted rx) skb')
      ]
      else go (header, skb, rx)

  -- the synthetic headers and wg_receive, with the buffer that takes the current one's place
  unfoldable pub hand_over : FragHeader → List ℕ → Option Skb → ℕ → Rx → Flow Rx
  hand_over frag payload leftover leftover_len rx =
      elim (build_fake_headers (some carrier) (length payload)) [
        | err e ↦ stop (discard_partial_read rx)
        | ok headers ↦ go (record rx {
          partial_skb = leftover;
          received_len = leftover_len;
          expected_len = 0;
          delivered =
              rx.delivered
              ++ record {
                headers = headers;
                frag_id = frag.id;
                frag_off = frag.frag_off;
                payload = payload;
              }
                ∷ [];
        })
      ]

  -- behind the headers: split off what follows the record, and deliver
  unfoldable pub split_off : FragHeader → Skb → Rx → Flow Rx
  unfolding hand_over
  split_off frag skb rx =
      let leftover_len = rx.received_len - rx.expected_len in
      if length skb.bytes == 0
      then stop (discard_partial_read rx)
      else if leftover_len == 0
      then hand_over frag (take rx.expected_len skb.bytes) none 0 rx
      else elim (memory.alloc rx.allocs (leftover_len + reserved_header_size + net_ip_align)) [
        | none ↦ stop (counted rx)
        | some room ↦
            hand_over frag (take rx.expected_len skb.bytes)
              (some (record {
                bytes = drop rx.expected_len skb.bytes;
                headroom = reserve net_ip_align;
                tailroom = room - reserve net_ip_align - leftover_len;
              }))
              leftover_len (counted rx)
      ]

  -- take the headers off
  unfoldable pub extract : ℕ → FragHeader → Skb → Rx → Flow Rx
  unfolding split_off
  extract header_length frag skb rx =
      split_off frag (skb_pull header_length skb)
        (record (with_skb rx (skb_pull header_length skb)) {
          received_len = rx.received_len - header_length;
          expected_len = rx.expected_len - header_length;
        })

  -- deliver the record at the front, if all of it is there
  unfoldable pub deliver : EncapHeader × Skb × Rx → Flow Rx
  unfolding extract
  deliver (header, skb, rx) =
      if not (leb rx.expected_len rx.received_len && ltb encap_hdr_len rx.received_len)
      then go rx
      else if bit_and header.flags frag_flag == 0
      then extract encap_hdr_len (record { id = 0; frag_off = 0 }) skb rx
      else if ltb rx.received_len (encap_hdr_len + frag_hdr_len)
      then stop rx
      else elim (decode_frag (drop encap_hdr_len skb.bytes)) [
        | none ↦ stop rx
        | some frag ↦ extract (encap_hdr_len + frag_hdr_len) frag skb rx
      ]

  -- one pass of the worker's `while (true)`
  unfoldable pub pass : Rx → Flow Rx
  unfolding ensure_partial fill check_header make_room deliver
  pass rx = do
    held ← ensure_partial rx
    filled ← fill held
    checked ← check_header filled
    roomy ← make_room checked
    deliver roomy

  -- The loop with `n` passes left of its budget, and whether the budget ended it.
  unfoldable pub read_loop : ℕ → Rx → Rx × Bool
  read_loop zero rx = (rx, true)
  read_loop (suc n) rx = elim (pass rx) [ stop rx' ↦ (rx', false) | go rx' ↦ read_loop n rx' ]

  -- the loop of wg_tcp_read_worker
  unfoldable pub read_worker : Rx → Rx × Bool
  unfolding read_loop
  read_worker rx = read_loop packet_budget rx

abbrev pub has_partial : Rx → Bool
has_partial rx = elim rx.partial_skb [ none ↦ false | some skb ↦ true ]

abbrev pub is_empty : List Arrival → Bool
is_empty [] = true
is_empty (a ∷ q) = false

-- The end of wg_tcp_read_worker: whether the worker queues itself again, on a peer that lets it
-- (`usable`), after a run that its budget ended or did not.
unfoldable pub reads_again : Bool → Rx → Bool → Bool
reads_again usable rx budget_exhausted =
    usable
    && (not (is_empty rx.arrivals)
        || (budget_exhausted
            && has_partial rx
            && rx.expected_len == 0
            && leb encap_hdr_len rx.received_len))

-- The runs of the worker until it does not queue itself again, at most `fuel` of them.
module _ (net_ip_align : ℕ) (memory : Memory) (carrier : Carrier) where
  unfoldable pub settle : ℕ → Rx → Option Rx
  settle zero rx = none
  settle (suc fuel) rx =
      let (rx', budget_exhausted) = read_worker net_ip_align memory carrier rx in
      let more = settle fuel rx' in if reads_again true rx' budget_exhausted then more else some rx'

-- A new stream: nothing read, and `queue` in the socket.
unfoldable pub start : List Arrival → Rx
start queue = record {
  partial_skb = none;
  expected_len = 0;
  received_len = 0;
  arrivals = queue;
  allocs = 0;
  delivered = [];
}
