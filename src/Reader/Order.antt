-- ===== src/Reader/Order.antt =====
-- The reader over the whole life of a stream: data arrives in batches, and the worker runs after each.
use wgtcp.Base.{
  ℕ, ◌+◌, ◌*◌, ◌≤◌, ◌<◌, ◌≡◌, refl, sym, ap, ◌∙◌, List, [], ◌∷◌, ◌++◌, Option, some, none, false,
  arith, length, length-eq-zero, All, length-append, append_assoc, append-nil, map, ok, flatten,
}
use mathlib.Core.List.{map-append}
use wgtcp.Tunnel.{Carrier, FakeHeaders, build_fake_headers}
use wgtcp.Frame.{Packet, frame_bytes}
use wgtcp.Frame.Header.{IsSendable}
use wgtcp.Frame.Build.{length-frame_bytes}
use wgtcp.Reader.{Memory, Delivery, Arrival, segment, failure, Rx}
use wgtcp.Reader.Worker.{settle, start, record_ready}
use wgtcp.Reader.Tracks.{wire, IsSegment, arrived, buffered, IsAmple, Expects-zero, Tracks, pending}
use wgtcp.Reader.Body.{delivery}
use wgtcp.Reader.Run.{IsSettled, settle-IsSettled}

-- TCP puts more data behind what the socket holds.
pub feed : List Arrival → Rx → Rx
feed batch rx = record rx { arrivals = rx.arrivals ++ batch }

module _ (net_ip_align : ℕ) (memory : Memory) (carrier : Carrier) where
  -- Each batch of data wakes the worker, which runs until it has nothing left to do.
  pub serve : ℕ → Rx → List (List Arrival) → Option Rx
  serve fuel rx [] = some rx
  serve fuel rx (batch ∷ batches) = elim (settle net_ip_align memory carrier fuel (feed batch rx)) [
    | none ↦ none
    | some rx' ↦ serve fuel rx' batches
  ]

module _ (net_ip_align : ℕ) (memory : Memory) (carrier : Carrier) where
  serve-nil : (fuel : ℕ) (rx : Rx) → serve net_ip_align memory carrier fuel rx [] ≡ some rx
  unfolding serve
  serve-nil fuel rx = refl

  serve-cons :
      (fuel : ℕ) (batch : List Arrival) (batches : List (List Arrival)) (rx mid rx' : Rx)
      → settle net_ip_align memory carrier fuel (feed batch rx) ≡ some mid
      → serve net_ip_align memory carrier fuel mid batches ≡ some rx'
      → serve net_ip_align memory carrier fuel rx (batch ∷ batches) ≡ some rx'
  unfolding serve
  serve-cons fuel batch batches rx mid rx' run runs = rw (run, serve) runs

-- The bytes at hand are less than the next record.
abbrev pub IsIncomplete : List ℕ → List Packet → Type 0
IsIncomplete bytes [] = bytes ≡ []
IsIncomplete bytes (p ∷ ps) = length bytes < length (frame_bytes p)

-- The records `done` have been delivered, in order and once each; the buffer holds the beginning of what
-- remains, and no complete record.
pub record IsServed (d : Packet → Delivery) (later : List ℕ) (ps : List Packet) (old rx : Rx)
    : Type 0 where
  pub done : List Packet
  pub rest : List Packet
  pub split : ps ≡ done ++ rest
  pub delivered : rx.delivered ≡ old.delivered ++ map d done
  pub held : buffered rx ++ later ≡ wire rest
  pub incomplete : IsIncomplete (buffered rx) rest

arrived-append :
    (xs ys : List Arrival) → All IsSegment xs → arrived (xs ++ ys) ≡ arrived xs ++ arrived ys
arrived-append [] ys h = refl
arrived-append (segment bs ∷ xs) ys h =
    ap (λ t. bs ++ t) (arrived-append xs ys h.1) ∙ sym (append_assoc bs (arrived xs) (arrived ys))
arrived-append (failure ∷ xs) ys h = absurd h.0

-- A quiet reader: nothing in the socket, and no complete record.
record IsQuiet (later : List ℕ) (ps : List Packet) (rx : Rx) : Type 0 where
  tracks : Tracks later ps rx
  drained : rx.arrivals ≡ []
  not_ready : record_ready rx ≡ false

fed-Tracks :
    (batch : List Arrival) (later : List ℕ) (ps : List Packet) (rx : Rx)
    → All IsSegment batch
    → IsQuiet (arrived batch ++ later) ps rx
    → Tracks later ps (feed batch rx)
unfolding feed
fed-Tracks batch later ps rx clean q = record {
  received = q.tracks.received;
  stream = rw q.drained (rw q.drained at q.tracks.stream);
  clean = rw q.drained clean;
  sendable = q.tracks.sendable;
  expects = q.tracks.expects;
}

pending-le :
    (later : List ℕ) (ps : List Packet) (rx : Rx)
    → Tracks later ps rx
    → pending rx ≤ 4 * length (wire ps) + 1
pending-le later ps rx t = ground (
  arith,
  ap length t.stream,
  length-append (buffered rx) (arrived rx.arrivals ++ later),
  length-append (arrived rx.arrivals) later,
)

quiet-IsIncomplete :
    (later : List ℕ) (ps : List Packet) (rx : Rx)
    → IsQuiet later ps rx
    → IsIncomplete (buffered rx) ps
quiet-IsIncomplete later [] rx q = length-eq-zero (buffered rx) (
    omega (
      arith,
      ap length q.tracks.stream,
      length-append (buffered rx) (arrived rx.arrivals ++ later),
    ))
quiet-IsIncomplete later (p ∷ ps) rx q = ground (
  arith,
  q.not_ready,
  q.tracks.received,
  q.tracks.expects,
  length-frame_bytes p,
  q.tracks.sendable.0.long_enough,
)

quiet-IsServed :
    (d : Packet → Delivery) (later : List ℕ) (ps : List Packet) (rx : Rx)
    → IsQuiet later ps rx
    → IsServed d later ps rx rx
quiet-IsServed d later ps rx q = record {
  done = [];
  rest = ps;
  split = refl;
  delivered = sym (append-nil rx.delivered);
  held = rw q.drained at q.tracks.stream;
  incomplete = quiet-IsIncomplete later ps rx q;
}

-- What was delivered before a batch, and what the batches behind it deliver.
IsServed-after :
    (d : Packet → Delivery) (middle later : List ℕ) (ps : List Packet) (batch : List Arrival)
    (old mid rx : Rx) (r : IsSettled d middle ps (feed batch old) mid)
    → IsServed d later r.rest mid rx
    → IsServed d later ps old rx
unfolding feed
IsServed-after d middle later ps batch old mid rx r s = record {
  done = r.done ++ s.done;
  rest = s.rest;
  split = r.split ∙ ap (λ t. r.done ++ t) s.split ∙ sym (append_assoc r.done s.done s.rest);
  delivered =
      s.delivered
      ∙ ap (λ t. t ++ map d s.done) r.delivered
      ∙ append_assoc old.delivered (map d r.done) (map d s.done)
      ∙ ap (λ t. old.delivered ++ t) (sym (map-append d r.done s.done));
  held = s.held;
  incomplete = s.incomplete;
}

-- An incomplete record with nothing to come is none.
no_rest :
    (rx : Rx) (rest : List Packet)
    → buffered rx ++ [] ≡ wire rest
    → IsIncomplete (buffered rx) rest
    → (rest ≡ []) × (buffered rx ≡ [])
no_rest rx [] e h = (refl, h)
no_rest rx (p ∷ ps) e h = absurd (
    omega
      (arith, ap length e, length-append (buffered rx) [], length-append (frame_bytes p) (wire ps)))

length-wire-append : (ps qs : List Packet) → length (wire qs) ≤ length (wire (ps ++ qs))
length-wire-append [] qs = omega arith
length-wire-append (p ∷ ps) qs =
    omega (arith, length-append (frame_bytes p) (wire (ps ++ qs)), length-wire-append ps qs)

module _ (net_ip_align : ℕ) (memory : Memory) (carrier : Carrier) (ample : IsAmple memory) where
  module _ (headers : ℕ → FakeHeaders)
      (routable : (n : ℕ) → build_fake_headers (some carrier) n ≡ ok (headers n)) where
    serve-IsServed :
        (fuel : ℕ) (batches : List (List Arrival)) (later : List ℕ) (ps : List Packet) (rx : Rx)
        → All (All IsSegment) batches
        → IsQuiet (arrived (flatten batches) ++ later) ps rx
        → 4 * length (wire ps) + 1 < fuel
        → (rx' : Rx) × (serve net_ip_align memory carrier fuel rx batches ≡ some rx')
          × IsServed (delivery headers) later ps rx rx'
    serve-IsServed fuel [] later ps rx clean q lt = (
      rx,
      serve-nil net_ip_align memory carrier fuel rx,
      quiet-IsServed (delivery headers) later ps rx q,
    )
    serve-IsServed fuel (batch ∷ batches) later ps rx clean q lt =
        let middle : List ℕ = arrived (flatten batches) ++ later in
        let cut : arrived (batch ++ flatten batches) ++ later ≡ arrived batch ++ middle =
          ap (λ t. t ++ later) (arrived-append batch (flatten batches) clean.0)
          ∙ append_assoc (arrived batch) (arrived (flatten batches)) later in
        let t : Tracks middle ps (feed batch rx) =
          fed-Tracks batch middle ps rx clean.0 (rw cut at q) in
        let (mid, run, r) =
          settle-IsSettled net_ip_align memory carrier ample headers routable fuel middle ps
            (feed batch rx) t (omega (arith, pending-le middle ps (feed batch rx) t)) in
        let (rx', runs, s) =
          serve-IsServed fuel batches later r.rest mid clean.1
            (record { tracks = r.tracks; drained = r.drained; not_ready = r.not_ready })
            (omega (arith, ap (λ t. length (wire t)) r.split, length-wire-append r.done r.rest)) in
        (
          rx',
          serve-cons net_ip_align memory carrier fuel batch batches rx mid rx' run runs,
          IsServed-after (delivery headers) middle later ps batch rx mid rx' r s,
        )

    -- However TCP cuts the stream of the records `ps` into segments, and whenever the worker runs in
    -- between, with enough memory and a routable carrier it comes to rest after each batch of data (the fuel
    -- bounds its runs), and has then delivered exactly the records that are there in full: in order, once
    -- each, with their fragment fields and their payload. What is left in the buffer is the beginning of the
    -- next record. `later` is the part of the stream that has not arrived.
    pub read_in_order :
        (fuel : ℕ) (batches : List (List Arrival)) (later : List ℕ) (ps : List Packet)
        → All IsSendable ps
        → All (All IsSegment) batches
        → arrived (flatten batches) ++ later ≡ wire ps
        → 4 * length (wire ps) + 1 < fuel
        → (rx : Rx) × (serve net_ip_align memory carrier fuel (start []) batches ≡ some rx)
          × IsServed (delivery headers) later ps (start []) rx
    unfolding start
    read_in_order fuel batches later ps sendable clean stream lt =
        serve-IsServed fuel batches later ps (start []) clean
          (record {
            tracks = record {
              received = refl;
              stream = stream;
              clean = tt;
              sendable = sendable;
              expects = Expects-zero ps 0;
            };
            drained = refl;
            not_ready = refl;
          })
          lt

    -- When all of the stream has arrived, everything sent is delivered and nothing is left over.
    pub read_everything :
        (fuel : ℕ) (batches : List (List Arrival)) (ps : List Packet)
        → All IsSendable ps
        → All (All IsSegment) batches
        → arrived (flatten batches) ≡ wire ps
        → 4 * length (wire ps) + 1 < fuel
        → (rx : Rx) × (serve net_ip_align memory carrier fuel (start []) batches ≡ some rx)
          × (rx.delivered ≡ map (delivery headers) ps)
          × (buffered rx ≡ [])
    unfolding start
    read_everything fuel batches ps sendable clean stream lt =
        let (rx, run, s) =
          read_in_order fuel batches [] ps sendable clean (append-nil _ ∙ stream) lt in
        let (over, empty) = no_rest rx s.rest s.held s.incomplete in
        (
          rx,
          run,
          s.delivered
              ∙ ap (map (delivery headers))
                  (sym (append-nil s.done) ∙ ap (λ t. s.done ++ t) (sym over) ∙ sym s.split),
          empty,
        )
