-- ===== src/Reader/Pass.antt =====
-- One pass of the worker's loop on a reader in step with the records.
use wgtcp.Base.{
  ℕ, ◌+◌, ◌-◌, ◌<◌, ◌≡◌, ◌⊎◌, inl, inr, refl, ap, ◌∙◌, List, [], ◌∷◌, ◌++◌, some, true, false,
  arith, length, drop, length-append, Bool-cases, ltb, leb, ◌==◌, ok, ◌&&◌,
}
use wgtcp.Tunnel.{Carrier, FakeHeaders, build_fake_headers}
use wgtcp.Frame.{
  EncapHeader, FragHeader, Packet, frame_bytes, encap_hdr_len, frag_hdr_len, decode_frag,
  header_len,
}
use wgtcp.Frame.Header.{build_header_flags}
use wgtcp.Frame.Build.{length-frame_bytes, drop-frame_bytes, frag_header-frame_bytes}
use wgtcp.Reader.{Skb, Memory, Delivery, Rx, skb_pull, Flow, stop, go, ◌>>=◌}
use wgtcp.Reader.Worker.{
  with_skb, counted, make_room, extract, deliver, pass, ensure_partial, fill, check_header,
}
use wgtcp.Reader.Tracks.{
  wire, arrived, IsAmple, Tracks, pending, Ensures, Ensures-bind, IsDry, IsFilled, IsOpened,
}
use wgtcp.Reader.Fill.{ensure_partial-IsOpened, fill-IsFilled}
use wgtcp.Reader.Body.{
  IsChecked, Checked, own_stream, check_header-Checked, IsExtracted, split_off_lem, split_front,
  IsAdvanced, Advanced, delivery, extracted-Advanced,
}

Ensures-map :
    {A : Type 0} (P : Rx → Type 0) (Q R : A → Type 0) (m : Flow A)
    → Ensures P Q m
    → ((a : A) → Q a → R a)
    → Ensures P R m
Ensures-map P Q R (stop rx) h k = h
Ensures-map P Q R (go a) h k = k a h

Ensures-weaken :
    {A : Type 0} (P : Rx → Type 0) (Q : A → Type 0) (m : Flow A)
    → Ensures (λ _. ⊥) Q m
    → Ensures P Q m
Ensures-weaken P Q (stop rx) h = absurd h
Ensures-weaken P Q (go a) h = h

-- A stage that cannot stop, and one of two ways forward.
Ensures-lift :
    {A : Type 0} (P : Rx → Type 0) (Q R : A → Type 0) (m : Flow A)
    → Ensures (λ _. ⊥) R m
    → Ensures P (λ a. Q a ⊎ R a) m
Ensures-lift P Q R (stop rx) h = absurd h
Ensures-lift P Q R (go a) h = inr h

delivered_as : FakeHeaders → FragHeader → List ℕ → Delivery
delivered_as h f payload = record {
  headers = h;
  frag_id = f.id;
  frag_off = f.frag_off;
  payload = payload;
}

-- A new buffer with the same bytes changes nothing else.
rebuffered-IsChecked :
    (later : List ℕ) (p : Packet) (ps : List Packet) (log : List Delivery) (before : ℕ)
    (header : EncapHeader) (skb skb' : Skb) (rx : Rx)
    → IsChecked later p ps log before header skb rx
    → skb'.bytes ≡ skb.bytes
    → IsChecked later p ps log before header skb' (with_skb (counted rx) skb')
rebuffered-IsChecked later p ps log before header skb skb' rx c same =
    let (stream, received) = own_stream later (p ∷ ps) skb rx c.holds in
    record {
      holds = record {
        own = refl;
        tracks = record {
          received = rw same received;
          stream = rw same stream;
          clean = c.holds.tracks.clean;
          sendable = c.holds.tracks.sendable;
          expects = c.holds.tracks.expects;
        };
      };
      unchanged = c.unchanged;
      header_is = c.header_is;
      expected = c.expected;
      present = c.present;
      moved = ground (arith, c.moved, c.holds.own, ap length same);
    }

module _ (net_ip_align : ℕ) (memory : Memory) (carrier : Carrier) (ample : IsAmple memory) where
  make_room-IsChecked :
      (later : List ℕ) (p : Packet) (ps : List Packet) (log : List Delivery) (before : ℕ)
      (header : EncapHeader) (skb : Skb) (rx : Rx)
      → IsChecked later p ps log before header skb rx
      → Ensures
          (λ rx'. IsDry later (p ∷ ps) log before rx')
          (λ c. Checked later (p ∷ ps) log before c)
          (make_room net_ip_align memory carrier (header, skb, rx))
  unfolding make_room
  make_room-IsChecked later p ps log before header skb rx c =
      let needed : ℕ = rx.expected_len - rx.received_len in
      elim (Bool-cases (ltb rx.received_len rx.expected_len && ltb skb.tailroom needed)) [
        | inl e ↦
            let (room, got) = ample rx.allocs (skb.headroom + length skb.bytes + needed) in
            rw (e, got)
              (rebuffered-IsChecked later p ps log before header skb
                (record skb { tailroom = room - (skb.headroom + length skb.bytes) }) rx c refl)
        | inr e ↦ rw e c
      ]

  module _ (headers : ℕ → FakeHeaders)
      (routable : (n : ℕ) → build_fake_headers (some carrier) n ≡ ok (headers n)) where
    -- `left` is what follows the record in the buffer.
    extract_front :
        (later : List ℕ) (p : Packet) (ps : List Packet) (log : List Delivery) (before : ℕ)
        (header : EncapHeader) (skb : Skb) (rx : Rx) (n : ℕ) (frag : FragHeader) (left : List ℕ)
        → IsChecked later p ps log before header skb rx
        → skb.bytes ≡ frame_bytes p ++ left
        → left ++ (arrived rx.arrivals ++ later) ≡ wire ps
        → n ≡ header_len p
        → frag ≡ record { id = (delivery headers p).frag_id; frag_off = p.frag_off }
        → 0 < length p.bytes
        → Ensures
            (λ _. ⊥)
            (λ rx'. IsAdvanced later ps (log ++ delivery headers p ∷ []) before rx')
            (extract net_ip_align memory carrier n frag skb rx)
    unfolding extract delivered_as
    extract_front later p ps log before header skb rx n frag left c bytes rest en ef pos =
        let (stream, received) = own_stream later (p ∷ ps) skb rx c.holds in
        let cut : drop n skb.bytes ≡ p.bytes ++ left = rw (bytes, en) (drop-frame_bytes p left) in
        let total : rx.received_len ≡ header_len p + length p.bytes + length left =
          omega
            (arith, ap length bytes, length-append (frame_bytes p) left, length-frame_bytes p) in
        let same : delivered_as (headers (length p.bytes)) frag p.bytes ≡ delivery headers p =
          ap (λ (f : FragHeader). delivered_as (headers (length p.bytes)) f p.bytes) ef in
        let pulled : Rx = record (with_skb rx (skb_pull n skb)) {
          received_len = rx.received_len - n;
          expected_len = rx.expected_len - n;
        } in
        Ensures-map (λ _. ⊥)
          (λ rx'.
            IsExtracted left rx.delivered rx.arrivals
              (delivered_as (headers (length p.bytes)) frag p.bytes) rx')
          (λ rx'. IsAdvanced later ps (log ++ delivery headers p ∷ []) before rx')
          (extract net_ip_align memory carrier n frag skb rx)
          (split_off_lem net_ip_align memory carrier ample frag (skb_pull n skb) pulled p.bytes left
            (headers (length p.bytes)) cut (omega arith)
            (omega (arith, c.expected, length-frame_bytes p)) pos (routable (length p.bytes)))
          (λ rx' x. rw (← c.unchanged) (
            extracted-Advanced later p ps rx rx' left before (delivery headers p) c.holds.tracks
              (rw same at x) rest
              (omega (
                arith,
                ap length bytes,
                length-append (frame_bytes p) left,
                received,
                c.holds.tracks.received,
              ))
              (ground (arith, c.moved))))

    -- A record that is all there is delivered.
    deliver_complete :
        (later : List ℕ) (p : Packet) (ps : List Packet) (log : List Delivery) (before : ℕ)
        (header : EncapHeader) (skb : Skb) (rx : Rx) (left : List ℕ)
        → IsChecked later p ps log before header skb rx
        → (leb rx.expected_len rx.received_len && ltb encap_hdr_len rx.received_len) ≡ true
        → skb.bytes ≡ frame_bytes p ++ left
        → left ++ (arrived rx.arrivals ++ later) ≡ wire ps
        → Ensures
            (λ rx'. IsDry later (p ∷ ps) log before rx')
            (λ rx'. Advanced (delivery headers) later (p ∷ ps) log before rx')
            (deliver net_ip_align memory carrier (header, skb, rx))
    unfolding deliver
    deliver_complete later p ps log before header skb rx left c e bytes rest =
        elim (Bool-cases (p.frag_off == 0)) [
          | inl whole ↦
              let flags : header.flags ≡ 0 =
                ap (λ (h : EncapHeader). h.flags) c.header_is ∙ build_header_flags p ∙ rw whole in
              rw (e, flags)
                (Ensures-lift (λ rx'. IsDry later (p ∷ ps) log before rx')
                  (λ rx'. IsAdvanced later (p ∷ ps) log before rx')
                  (λ rx'. IsAdvanced later ps (log ++ delivery headers p ∷ []) before rx')
                  (extract net_ip_align memory carrier encap_hdr_len
                    (record { id = 0; frag_off = 0 }) skb rx)
                  (extract_front later p ps log before header skb rx encap_hdr_len
                    (record { id = 0; frag_off = 0 }) left c bytes rest (ground arith)
                    (ground arith) (omega (arith, c.holds.tracks.sendable.0))))
          | inr part ↦
              let flags : header.flags ≡ 1 =
                ap (λ (h : EncapHeader). h.flags) c.header_is ∙ build_header_flags p ∙ rw part in
              let room : ltb rx.received_len (encap_hdr_len + frag_hdr_len) ≡ false =
                ground (arith, c.expected, length-frame_bytes p, c.holds.tracks.sendable.0) in
              let found : decode_frag (drop encap_hdr_len skb.bytes)
                  ≡ some (record { id = p.frag_id; frag_off = p.frag_off }) =
                rw bytes (frag_header-frame_bytes p left c.holds.tracks.sendable.0 (rw part)) in
              rw (e, flags)
                (rw (room, found)
                  (Ensures-lift (λ rx'. IsDry later (p ∷ ps) log before rx')
                    (λ rx'. IsAdvanced later (p ∷ ps) log before rx')
                    (λ rx'. IsAdvanced later ps (log ++ delivery headers p ∷ []) before rx')
                    (extract net_ip_align memory carrier (encap_hdr_len + frag_hdr_len)
                      (record { id = p.frag_id; frag_off = p.frag_off }) skb rx)
                    (extract_front later p ps log before header skb rx
                      (encap_hdr_len + frag_hdr_len)
                      (record { id = p.frag_id; frag_off = p.frag_off }) left c bytes rest
                      (ground arith) (ground arith) (omega (arith, c.holds.tracks.sendable.0)))))
        ]

    -- A complete record is delivered, an incomplete one stays.
    deliver-Advanced :
        (later : List ℕ) (p : Packet) (ps : List Packet) (log : List Delivery) (before : ℕ)
        (header : EncapHeader) (skb : Skb) (rx : Rx)
        → IsChecked later p ps log before header skb rx
        → Ensures
            (λ rx'. IsDry later (p ∷ ps) log before rx')
            (λ rx'. Advanced (delivery headers) later (p ∷ ps) log before rx')
            (deliver net_ip_align memory carrier (header, skb, rx))
    unfolding deliver
    deliver-Advanced later p ps log before header skb rx c =
        let (stream, received) = own_stream later (p ∷ ps) skb rx c.holds in
        let long : encap_hdr_len < length (frame_bytes p) =
          omega (arith, length-frame_bytes p, c.holds.tracks.sendable.0) in
        elim (Bool-cases
          (leb rx.expected_len rx.received_len && ltb encap_hdr_len rx.received_len)) [
            | inr e ↦ rw e (
                inl (record {
                  tracks = c.holds.tracks;
                  delivered = c.unchanged;
                  less = ground (arith, c.moved, c.expected);
                  waits = ground (arith, c.expected);
                }))
            | inl e ↦
                let (left, bytes, rest) =
                  split_front skb.bytes (arrived rx.arrivals ++ later) (frame_bytes p) (wire ps)
                    stream (ground (arith, c.expected)) in
                deliver_complete later p ps log before header skb rx left c e bytes rest
          ]

    -- The two stages behind the header test.
    behind_header :
        (later : List ℕ) (ps : List Packet) (log : List Delivery) (before : ℕ)
        (c : EncapHeader × Skb × Rx)
        → Checked later ps log before c
        → Ensures
            (λ rx'. IsDry later ps log before rx')
            (λ rx'. Advanced (delivery headers) later ps log before rx')
            (make_room net_ip_align memory carrier c >>= deliver net_ip_align memory carrier)
    behind_header later [] log before c h = absurd h
    behind_header later (p ∷ ps) log before (header, skb, rx) h =
        Ensures-bind (λ rx'. IsDry later (p ∷ ps) log before rx')
          (λ c. Checked later (p ∷ ps) log before c)
          (λ rx'. Advanced (delivery headers) later (p ∷ ps) log before rx')
          (make_room net_ip_align memory carrier (header, skb, rx))
          (deliver net_ip_align memory carrier)
          (make_room-IsChecked later p ps log before header skb rx h)
          (λ (header', skb', rx') h'. deliver-Advanced later p ps log before header' skb' rx' h')

    -- One pass from a reader in step: either there is nothing left to read, or the reader has come forward
    -- and is in step with what remains.
    pub pass-Advanced :
        (later : List ℕ) (ps : List Packet) (rx : Rx)
        → Tracks later ps rx
        → Ensures
            (λ rx'. IsDry later ps rx.delivered (pending rx) rx')
            (λ rx'. Advanced (delivery headers) later ps rx.delivered (pending rx) rx')
            (pass net_ip_align memory carrier rx)
    unfolding pass
    pass-Advanced later ps rx t =
        Ensures-bind (Dry rx) (λ (skb, rx'). IsOpened later ps rx.delivered (pending rx) skb rx')
          (Forward rx) (ensure_partial net_ip_align memory carrier rx) _
          (Ensures-weaken (Dry rx) _ (ensure_partial net_ip_align memory carrier rx)
            (ensure_partial-IsOpened net_ip_align memory carrier ample later ps rx t))
          λ (skb, rx₁) opened.
            Ensures-bind (Dry rx)
              (λ (skb', rx'). IsFilled later ps rx.delivered (pending rx) skb' rx') (Forward rx)
              (fill net_ip_align memory carrier (skb, rx₁)) _
              (fill-IsFilled net_ip_align memory carrier ample later ps rx.delivered (pending rx)
                rx₁ skb opened)
              λ (skb', rx₂) filled.
                Ensures-bind (Dry rx) (λ c. Checked later ps rx.delivered (pending rx) c)
                  (Forward rx) (check_header net_ip_align memory carrier (skb', rx₂)) _
                  (check_header-Checked net_ip_align memory carrier later ps rx.delivered
                    (pending rx) skb' rx₂ filled)
                  λ c checked. behind_header later ps rx.delivered (pending rx) c checked
      where
        Dry : Rx → Rx → Type 0
        Dry old rx' = IsDry later ps old.delivered (pending old) rx'

        Forward : Rx → Rx → Type 0
        Forward old rx' = Advanced (delivery headers) later ps old.delivered (pending old) rx'
