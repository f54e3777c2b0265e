-- ===== src/Reader/Body.antt =====
-- The stages of the worker that look at the record at the front of the buffer.
use wgtcp.Base.{
  ℕ, ◌+◌, ◌-◌, ◌≤◌, ◌<◌, ◌≡◌, ◌⊎◌, inl, inr, refl, sym, ap, ◌∙◌, List, [], ◌∷◌, ◌++◌, Option, some,
  true, false, arith, length, take, drop, length-append, Bool-cases, ltb, ◌==◌, if◌then◌else◌, ok,
  take-append-drop, take-append_self, drop-append_self, drop-append, take-append, lt→ltb,
}
use wgtcp.Tunnel.{Carrier, FakeHeaders, build_fake_headers}
use wgtcp.Frame.{
  EncapHeader, FragHeader, Packet, frame_bytes, encap_hdr_len, decode, build_header, is_fragmented,
  check_potential_header_validity,
}
use wgtcp.Frame.Build.{
  decode-append, decode-frame_bytes, length-frame_bytes, length-build_header, check_of_decode,
}
use wgtcp.Frame.Header.{check_candidate-build_header}
use wgtcp.Reader.{Skb, Memory, Delivery, Arrival, Rx, go, reserved_header_size}
use wgtcp.Reader.Worker.{record_ready, check_header, hand_over, split_off}
use wgtcp.Reader.Tracks.{
  wire, arrived, buffered, IsAmple, Tracks, Holds, pending, Ensures, IsDry, IsFilled, Expects-short,
  Expects-zero,
}

-- The header at the front is that of the next record, and the record is complete or the pass has made
-- progress.
pub record IsChecked (later : List ℕ) (p : Packet) (ps : List Packet) (log : List Delivery)
    (before : ℕ) (header : EncapHeader) (skb : Skb) (rx : Rx) : Type 0 where
  pub holds : Holds later (p ∷ ps) skb rx
  pub unchanged : rx.delivered ≡ log
  pub header_is : header ≡ build_header p
  pub expected : rx.expected_len ≡ length (frame_bytes p)
  pub present : encap_hdr_len ≤ rx.received_len
  pub moved : (pending rx < before) ⊎ ((pending rx ≤ before) × (rx.expected_len ≤ rx.received_len))

abbrev pub Checked : List ℕ → List Packet → List Delivery → ℕ → EncapHeader × Skb × Rx → Type 0
Checked later [] log before c = ⊥
Checked later (p ∷ ps) log before (header, skb, rx) = IsChecked later p ps log before header skb rx

pub own_stream :
    (later : List ℕ) (ps : List Packet) (skb : Skb) (rx : Rx)
    → Holds later ps skb rx
    → (skb.bytes ++ (arrived rx.arrivals ++ later) ≡ wire ps) × (rx.received_len ≡ length skb.bytes)
own_stream later ps skb rx h = (rw h.own at h.tracks.stream, rw h.own at h.tracks.received)

decode_front :
    (later : List ℕ) (p : Packet) (ps : List Packet) (skb : Skb) (rx : Rx)
    → Holds later (p ∷ ps) skb rx
    → encap_hdr_len ≤ rx.received_len
    → decode skb.bytes ≡ some (build_header p)
decode_front later p ps skb rx h le =
    let (stream, received) = own_stream later (p ∷ ps) skb rx h in
    sym (decode-append skb.bytes (arrived rx.arrivals ++ later) (omega arith))
    ∙ ap decode stream
    ∙ decode-frame_bytes p (wire ps)

-- Too few bytes for a header: the reader waits for more.
short-IsDry :
    (later : List ℕ) (ps : List Packet) (log : List Delivery) (before : ℕ) (skb : Skb) (rx : Rx)
    → IsFilled later ps log before skb rx
    → rx.received_len < encap_hdr_len
    → IsDry later ps log before rx
short-IsDry later ps log before skb rx f lt =
    let idle : rx.expected_len ≡ 0 =
      Expects-short ps rx.expected_len rx.received_len f.holds.tracks.expects lt in
    record {
      tracks = f.holds.tracks;
      unchanged = f.unchanged;
      not_ready = ground arith;
      used_up = ground (arith, f.moved);
    }

checked_moved :
    (p : Packet) (rx : Rx) (before n : ℕ)
    → ((pending rx ≡ before) × (record_ready rx ≡ true)) ⊎ (pending rx + 2 ≤ before)
    → (rx.expected_len ≡ 0)
      ⊎ ((rx.expected_len ≡ length (frame_bytes p)) × (encap_hdr_len ≤ rx.received_len))
    → n ≡ length (frame_bytes p)
    → let rx' : Rx = record rx { expected_len = n } in
      (pending rx' < before) ⊎ ((pending rx' ≤ before) × (n ≤ rx.received_len))
checked_moved p rx before n moved expects e = ground (arith, length-frame_bytes p)

module _ (net_ip_align : ℕ) (memory : Memory) (carrier : Carrier) where
  pub check_header-Checked :
      (later : List ℕ) (ps : List Packet) (log : List Delivery) (before : ℕ) (skb : Skb) (rx : Rx)
      → IsFilled later ps log before skb rx
      → Ensures
          (λ rx'. IsDry later ps log before rx')
          (λ c. Checked later ps log before c)
          (check_header net_ip_align memory carrier (skb, rx))
  unfolding check_header
  check_header-Checked later [] log before skb rx f =
      let (stream, received) = own_stream later [] skb rx f.holds in
      let short : rx.received_len < encap_hdr_len =
        omega (arith, ap length stream, length-append skb.bytes (arrived rx.arrivals ++ later)) in
      let test : ltb rx.received_len encap_hdr_len ≡ true = lt→ltb _ _ short in
      rw test (short-IsDry later [] log before skb rx f short)
  check_header-Checked later (p ∷ ps) log before skb rx f =
      elim (Bool-cases (ltb rx.received_len encap_hdr_len)) [
        | inl short ↦ rw short (short-IsDry later (p ∷ ps) log before skb rx f (ground arith))
        | inr long ↦
            let le : encap_hdr_len ≤ rx.received_len = ground arith in
            let front : decode skb.bytes ≡ some (build_header p) =
              decode_front later p ps skb rx f.holds le in
            let valid : check_potential_header_validity skb.bytes rx.received_len ≡ true =
              check_of_decode skb.bytes rx.received_len (build_header p) front
                (check_candidate-build_header p f.holds.tracks.sendable.0) le in
            rw (long, front, valid, check_header)
              (record {
                holds = record {
                  own = f.holds.own;
                  tracks = record {
                    received = f.holds.tracks.received;
                    stream = f.holds.tracks.stream;
                    clean = f.holds.tracks.clean;
                    sendable = f.holds.tracks.sendable;
                    expects = inr (length-build_header p f.holds.tracks.sendable.0, le);
                  };
                };
                unchanged = f.unchanged;
                header_is = refl;
                expected = length-build_header p f.holds.tracks.sendable.0;
                present = le;
                moved =
                    checked_moved p rx before (build_header p).length f.moved f.holds.tracks.expects
                      (length-build_header p f.holds.tracks.sendable.0);
              })
      ]

-- What extract leaves behind.
pub record IsExtracted (left : List ℕ) (log : List Delivery) (queue : List Arrival) (d : Delivery)
    (rx : Rx) : Type 0 where
  pub bytes : buffered rx ≡ left
  pub received : rx.received_len ≡ length left
  pub expected : rx.expected_len ≡ 0
  pub arrivals : rx.arrivals ≡ queue
  pub delivered : rx.delivered ≡ log ++ d ∷ []

module _ (net_ip_align : ℕ) (memory : Memory) (carrier : Carrier) (ample : IsAmple memory) where
  hand_over_built :
      (frag : FragHeader) (payload : List ℕ) (leftover : Option Skb) (n : ℕ) (rx : Rx)
      (headers : FakeHeaders)
      → build_fake_headers (some carrier) (length payload) ≡ ok headers
      → hand_over net_ip_align memory carrier frag payload leftover n rx
        ≡ go (record rx {
          partial_skb = leftover;
          received_len = n;
          expected_len = 0;
          delivered =
              rx.delivered
              ++ record {
                headers = headers;
                frag_id = frag.id;
                frag_off = frag.frag_off;
                payload = payload;
              }
                ∷ [];
        })
  unfolding hand_over
  hand_over_built frag payload leftover n rx headers built = rw (built, hand_over)

  pub split_off_lem :
      (frag : FragHeader) (skb : Skb) (rx : Rx) (payload left : List ℕ) (headers : FakeHeaders)
      → skb.bytes ≡ payload ++ left
      → rx.received_len ≡ length payload + length left
      → rx.expected_len ≡ length payload
      → 0 < length payload
      → build_fake_headers (some carrier) (length payload) ≡ ok headers
      → Ensures
          (λ _. ⊥)
          (λ rx'.
            IsExtracted left rx.delivered rx.arrivals
              (record {
                headers = headers;
                frag_id = frag.id;
                frag_off = frag.frag_off;
                payload = payload;
              })
              rx')
          (split_off net_ip_align memory carrier frag skb rx)
  unfolding split_off
  split_off_lem frag skb rx payload [] headers cut received expected pos built =
      let filled : (length (payload ++ []) == 0) ≡ false =
        ground (arith, length-append payload []) in
      let gap : length payload + length {A = ℕ} [] - length payload ≡ 0 = omega arith in
      rw (cut, received, expected, filled)
        (rw gap (
          rw (take-append_self payload [], hand_over_built frag payload _ _ _ headers built)
            (record {
              bytes = refl;
              received = refl;
              expected = refl;
              arrivals = refl;
              delivered = refl;
            })))
  split_off_lem frag skb rx payload (b ∷ left) headers cut received expected pos built =
      let filled : (length (payload ++ b ∷ left) == 0) ≡ false =
        ground (arith, length-append payload (b ∷ left)) in
      let gap : length payload + length (b ∷ left) - length payload ≡ length (b ∷ left) =
        omega arith in
      let more : (length (b ∷ left) == 0) ≡ false = ground arith in
      let (room, got) = ample rx.allocs (length (b ∷ left) + reserved_header_size + net_ip_align) in
      rw (cut, received, expected, filled)
        (rw (gap, more)
          (rw got (
            rw (cut, received, expected)
              (rw gap (
                rw
                  (
                    take-append_self payload (b ∷ left),
                    drop-append_self payload (b ∷ left),
                    hand_over_built frag payload _ _ _ headers built,
                  )
                  (record {
                    bytes = refl;
                    received = refl;
                    expected = refl;
                    arrivals = refl;
                    delivered = refl;
                  }))))))

-- A prefix of a list that begins with `f`.
pub split_front :
    (xs m f r : List ℕ)
    → xs ++ m ≡ f ++ r
    → length f ≤ length xs
    → (left : List ℕ) × (xs ≡ f ++ left) × (left ++ m ≡ r)
split_front xs m f r e le = (
  drop (length f) xs,
  sym (take-append-drop (length f) xs) ∙ ap (λ t. t ++ drop (length f) xs) front,
  sym (drop-append (length f) xs m le) ∙ ap (drop (length f)) e ∙ drop-append_self f r,
)
  where
    front : take (length f) xs ≡ f
    front = sym (take-append (length f) xs m le) ∙ ap (take (length f)) e ∙ take-append_self f r

-- A record whose header has been read is not complete.
abbrev pub Waits : Rx → Type 0
Waits rx = (rx.expected_len ≡ 0) ⊎ (rx.received_len < rx.expected_len)

-- One pass has brought the reader forward.
pub record IsAdvanced (later : List ℕ) (ps : List Packet) (log : List Delivery) (before : ℕ)
    (rx : Rx) : Type 0 where
  pub tracks : Tracks later ps rx
  pub delivered : rx.delivered ≡ log
  pub less : pending rx < before
  pub waits : Waits rx

-- The records still to come are the same, or one fewer, which has been delivered.
abbrev pub Advanced : (Packet → Delivery) → List ℕ → List Packet → List Delivery → ℕ → Rx → Type 0
Advanced d later [] log before rx = ⊥
Advanced d later (p ∷ ps) log before rx =
    IsAdvanced later (p ∷ ps) log before rx ⊎ IsAdvanced later ps (log ++ d p ∷ []) before rx

-- What the tunnel gets for a record, over a carrier whose synthetic headers are `headers`.
abbrev pub delivery : (ℕ → FakeHeaders) → Packet → Delivery
delivery headers p = record {
  headers = headers (length p.bytes);
  frag_id = if is_fragmented p then p.frag_id else 0;
  frag_off = p.frag_off;
  payload = p.bytes;
}

pub extracted-Advanced :
    (later : List ℕ) (p : Packet) (ps : List Packet) (old rx : Rx) (left : List ℕ) (before : ℕ)
    (d : Delivery)
    → Tracks later (p ∷ ps) old
    → IsExtracted left old.delivered old.arrivals d rx
    → left ++ (arrived old.arrivals ++ later) ≡ wire ps
    → length left + length (frame_bytes p) ≡ length (buffered old)
    → pending old ≤ before
    → IsAdvanced later ps (old.delivered ++ d ∷ []) before rx
extracted-Advanced later p ps old rx left before d t x stream size le = record {
  tracks = record {
    received = x.received ∙ ap length (sym x.bytes);
    stream = rw (x.bytes, x.arrivals) stream;
    clean = rw x.arrivals t.clean;
    sendable = t.sendable.1;
    expects = rw x.expected (Expects-zero ps rx.received_len);
  };
  delivered = x.delivered;
  less =
      ground
        (arith, length-frame_bytes p, ap length x.bytes, ap (λ q. length (arrived q)) x.arrivals);
  waits = inl x.expected;
}
