-- ===== src/Reader/Fill.antt =====
-- The stages of the worker that allocate and read.
use wgtcp.Base.{
  ℕ, ◌+◌, ◌-◌, ◌≤◌, ◌<◌, ◌≡◌, ◌⊎◌, inl, inr, refl, sym, ap, ◌∙◌, List, [], ◌∷◌, ◌++◌, some, none,
  false, arith, length, take, drop, All, length-append, append_assoc, take-append-drop, take-all,
  leb→le, length-take, length-drop, Bool-cases, ltb, leb, ◌==◌, Option-cases,
}
use wgtcp.Frame.{Packet, encap_hdr_len}
use wgtcp.Tunnel.{Carrier}
use wgtcp.Reader.{
  Skb, Memory, Delivery, Arrival, segment, failure, would_block, read, Rx, go, recvmsg,
  reserved_header_size, read_alloc_size,
}
use wgtcp.Reader.Worker.{
  with_skb, counted, reserve, ensure_partial, grow, receive, fill, record_ready,
}
use wgtcp.Reader.Tracks.{
  IsSegment, arrived, buffered, IsAmple, Tracks, Holds, pending, Ensures, IsDry, IsFilled, IsOpened,
  Expects-short, Expects-zero, Expects-more,
}

IsOpened-empty :
    (later : List ℕ) (ps : List Packet) (rx : Rx) (skb : Skb)
    → Tracks later ps rx
    → rx.partial_skb ≡ none
    → skb.bytes ≡ []
    → IsOpened later ps rx.delivered
        (pending rx)
        skb
        (record (counted rx) { partial_skb = some skb; expected_len = 0 })
IsOpened-empty later ps rx skb t e nil = record {
  holds = record {
    own = refl;
    tracks = record {
      received = ground (arith, t.received);
      stream = rw nil (rw e at t.stream);
      clean = t.clean;
      sendable = t.sendable;
      expects = Expects-zero ps rx.received_len;
    };
  };
  unchanged = refl;
  same_pending = ground (arith, Expects-short ps rx.expected_len rx.received_len t.expects);
}

module _ (net_ip_align : ℕ) (memory : Memory) (carrier : Carrier) (ample : IsAmple memory) where
  pub ensure_partial-IsOpened :
      (later : List ℕ) (ps : List Packet) (rx : Rx)
      → Tracks later ps rx
      → Ensures
          (λ _. ⊥)
          (λ (skb, rx'). IsOpened later ps rx.delivered (pending rx) skb rx')
          (ensure_partial net_ip_align memory carrier rx)
  unfolding ensure_partial
  ensure_partial-IsOpened later ps rx t = elim (Option-cases rx.partial_skb) [
    | inl e ↦
        let (room, got) = ample rx.allocs (read_alloc_size + reserved_header_size + net_ip_align) in
        let skb : Skb = record {
          bytes = [];
          headroom = reserve net_ip_align;
          tailroom = room - reserve net_ip_align;
        } in
        rw (e, ensure_partial, got) (rw e at (IsOpened-empty later ps rx skb t e refl))
    | inr (skb, e) ↦
        rw (e, ensure_partial)
          (record {
            holds = record { own = e; tracks = t };
            unchanged = refl;
            same_pending = ground arith;
          })
  ]

  -- The buffer has room for a header, and is otherwise as it was.
  pub grow_lem :
      (skb : Skb) (rx : Rx)
      → rx.partial_skb ≡ some skb
      → (skb' : Skb) × (rx' : Rx) × (grow net_ip_align memory carrier (skb, rx) ≡ go (skb', rx'))
        × (rx'.partial_skb ≡ some skb')
        × (skb'.bytes ≡ skb.bytes)
        × (encap_hdr_len ≤ skb'.tailroom)
        × (rx'.received_len ≡ rx.received_len)
        × (rx'.expected_len ≡ rx.expected_len)
        × (rx'.arrivals ≡ rx.arrivals)
        × (rx'.delivered ≡ rx.delivered)
  unfolding grow
  grow_lem skb rx own = elim (Bool-cases (ltb skb.tailroom encap_hdr_len)) [
    | inl e ↦
        let size : ℕ =
          skb.headroom
          + length skb.bytes
          + (read_alloc_size + reserved_header_size + net_ip_align) in
        let (room, got) = ample rx.allocs size in
        let wide : size ≤ room = memory.alloc_room rx.allocs size room got in
        let skb' : Skb = record skb { tailroom = room - (skb.headroom + length skb.bytes) } in
        (
          skb',
          with_skb (counted rx) skb',
          rw (e, got),
          refl,
          refl,
          omega arith,
          refl,
          refl,
          refl,
          refl,
        )
    | inr e ↦ (skb, rx, rw e, own, refl, ground arith, refl, refl, refl, refl)
  ]

IsSegment-of_pos : (xs : List ℕ) → 0 < length xs → IsSegment (segment xs)
IsSegment-of_pos [] h = elim h [ ]
IsSegment-of_pos (x ∷ xs) h = tt

-- What a read takes from the queue is exactly what was at its front, and is not empty.
recvmsg_lem :
    (room : ℕ) (queue : List Arrival)
    → 0 < room
    → All IsSegment queue
    → ((queue ≡ []) × (recvmsg room queue ≡ (would_block, [])))
      ⊎ ((bs : List ℕ) × (rest : List Arrival) × (recvmsg room queue ≡ (read bs, rest))
          × (0 < length bs)
          × (length bs ≤ room)
          × (arrived queue ≡ bs ++ arrived rest)
          × All IsSegment rest)
unfolding recvmsg
recvmsg_lem room [] h clean = inl (refl, refl)
recvmsg_lem room (failure ∷ rest) h clean = absurd clean.0
recvmsg_lem room (segment [] ∷ rest) h clean = absurd clean.0
recvmsg_lem room (segment (b ∷ bs) ∷ rest) h clean =
    elim (Bool-cases (leb (length (b ∷ bs)) room)) [
      | inl e ↦ inr (
        b ∷ bs,
        rest,
        rw (e, take-all room (b ∷ bs) (leb→le _ _ e)),
        omega arith,
        leb→le _ _ e,
        refl,
        clean.1,
      )
      | inr e ↦ inr (
        take room (b ∷ bs),
        segment (drop room (b ∷ bs)) ∷ rest,
        rw e,
        omega (arith, length-take room (b ∷ bs)),
        omega (arith, length-take room (b ∷ bs)),
        sym (ap (λ t. t ++ arrived rest) (take-append-drop room (b ∷ bs)))
            ∙ append_assoc (take room (b ∷ bs)) (drop room (b ∷ bs)) (arrived rest),
        (IsSegment-of_pos _ (ground (arith, length-drop room (b ∷ bs))), clean.1),
      )
    ]

-- A read moves bytes from the queue into the buffer.
read-IsFilled :
    (later : List ℕ) (ps : List Packet) (old rx : Rx) (skb : Skb) (bs : List ℕ)
    (rest : List Arrival)
    → Tracks later ps old
    → buffered old ≡ skb.bytes
    → rx.delivered ≡ old.delivered
    → rx.received_len ≡ old.received_len
    → rx.expected_len ≡ old.expected_len
    → 0 < length bs
    → arrived old.arrivals ≡ bs ++ arrived rest
    → All IsSegment rest
    → let skb' : Skb = record skb {
      bytes = skb.bytes ++ bs;
      tailroom = skb.tailroom - length bs;
    } in
      IsFilled later ps old.delivered
        (pending old)
        skb'
        (record (with_skb rx skb') { received_len = rx.received_len + length bs; arrivals = rest })
read-IsFilled later ps old rx skb bs rest t same d r x pos a clean = record {
  holds = record {
    own = refl;
    tracks = record {
      received = omega (arith, length-append skb.bytes bs, t.received, ap length same);
      stream =
          rw
            (
              append_assoc skb.bytes bs (arrived rest ++ later),
              ← append_assoc bs (arrived rest) later,
            )
            (rw (same, a) at t.stream);
      clean = clean;
      sendable = t.sendable;
      expects = rw (x, r) (Expects-more ps old.expected_len _ _ t.expects (omega arith));
    };
  };
  unchanged = d;
  moved = inr ground (
    arith,
    length-append skb.bytes bs,
    ap length same,
    ap length a,
    length-append bs (arrived rest),
  );
}

-- Nothing was there to read.
blocked-IsDry :
    (later : List ℕ) (ps : List Packet) (old rx : Rx) (skb : Skb)
    → Tracks later ps old
    → rx.partial_skb ≡ some skb
    → buffered old ≡ skb.bytes
    → rx.delivered ≡ old.delivered
    → rx.received_len ≡ old.received_len
    → rx.expected_len ≡ old.expected_len
    → old.arrivals ≡ []
    → record_ready old ≡ false
    → IsDry later ps old.delivered (pending old) (record rx { arrivals = [] })
blocked-IsDry later ps old rx skb t own same d r x a n = record {
  tracks = record {
    received = rw (own, r, ← same) t.received;
    stream = rw (own, ← same) (rw a at t.stream);
    clean = tt;
    sendable = t.sendable;
    expects = rw (x, r) t.expects;
  };
  unchanged = d;
  not_ready = rw (x, r) n;
  used_up = inl refl;
}

module _ (net_ip_align : ℕ) (memory : Memory) (carrier : Carrier) (ample : IsAmple memory) where
  receive-IsFilled :
      (later : List ℕ) (ps : List Packet) (old rx : Rx) (skb : Skb)
      → Tracks later ps old
      → rx.partial_skb ≡ some skb
      → buffered old ≡ skb.bytes
      → rx.delivered ≡ old.delivered
      → rx.received_len ≡ old.received_len
      → rx.expected_len ≡ old.expected_len
      → rx.arrivals ≡ old.arrivals
      → record_ready old ≡ false
      → 0 < skb.tailroom
      → Ensures
          (λ rx'. IsDry later ps old.delivered (pending old) rx')
          (λ (skb', rx'). IsFilled later ps old.delivered (pending old) skb' rx')
          (receive net_ip_align memory carrier (skb, rx))
  unfolding receive
  receive-IsFilled later ps old rx skb t own same d r x a n room =
      elim (recvmsg_lem skb.tailroom old.arrivals room t.clean) [
        | inl (nil, e) ↦
            let some_room : (skb.tailroom == 0) ≡ false = ground arith in
            rw (some_room, a, e) (blocked-IsDry later ps old rx skb t own same d r x nil n)
        | inr (bs, rest, e, pos, fits, front, clean) ↦
            let some_room : (skb.tailroom == 0) ≡ false = ground arith in
            rw (some_room, a, e)
              (read-IsFilled later ps old rx skb bs rest t same d r x pos front clean)
      ]

  fill_opened :
      (later : List ℕ) (ps : List Packet) (rx : Rx) (skb : Skb)
      → Holds later ps skb rx
      → Ensures
          (λ rx'. IsDry later ps rx.delivered (pending rx) rx')
          (λ (skb', rx'). IsFilled later ps rx.delivered (pending rx) skb' rx')
          (fill net_ip_align memory carrier (skb, rx))
  unfolding fill
  fill_opened later ps rx skb h = elim (Bool-cases (record_ready rx)) [
    | inl e ↦ rw (e, fill) (record { holds = h; unchanged = refl; moved = inl (refl, e) })
    | inr e ↦
        let (skb', rx', grown, own, same, room, r, x, a, d) =
          grow_lem net_ip_align memory carrier ample skb rx h.own in
        rw (e, fill, grown)
          (receive-IsFilled later ps rx rx' skb' h.tracks own (ground (arith, h.own)) d r x a e
            (omega arith))
  ]

  -- The reading stages keep the reader in step, and either fill the buffer or leave nothing to read.
  pub fill-IsFilled :
      (later : List ℕ) (ps : List Packet) (log : List Delivery) (before : ℕ) (rx : Rx) (skb : Skb)
      → IsOpened later ps log before skb rx
      → Ensures
          (λ rx'. IsDry later ps log before rx')
          (λ (skb', rx'). IsFilled later ps log before skb' rx')
          (fill net_ip_align memory carrier (skb, rx))
  fill-IsFilled later ps log before rx skb o =
      rw (← o.unchanged, ← o.same_pending) (fill_opened later ps rx skb o.holds)
