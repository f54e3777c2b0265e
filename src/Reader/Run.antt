-- ===== src/Reader/Run.antt =====
-- Runs of the stream reader on a stream of records that TCP has cut into segments.
use wgtcp.Base.{
  ℕ, zero, suc, ◌≤◌, ◌<◌, ◌≡◌, ◌⊎◌, inl, inr, refl, sym, ap, ◌∙◌, List, [], ◌∷◌, ◌++◌, some, true,
  false, Bool, arith, append_assoc, append-nil, Bool-cases, map, ok,
}
use mathlib.Core.List.{map-append}
use native.Mathlib.Nat.{le_refl}
use wgtcp.Tunnel.{Carrier, FakeHeaders, build_fake_headers}
use wgtcp.Frame.{Packet}
use wgtcp.Reader.{Memory, Delivery, Rx, Flow, stop, go}
use wgtcp.Reader.Worker.{pass, read_loop, read_worker, record_ready, reads_again, settle}
use wgtcp.Reader.Tracks.{IsAmple, Tracks, pending, Ensures, IsDry}
use wgtcp.Reader.Body.{Advanced, Waits, delivery}
use wgtcp.Reader.Pass.{pass-Advanced}

-- A reader that nothing is left for: no bytes in the socket, and no complete record in the buffer.
pub record IsSettled (d : Packet → Delivery) (later : List ℕ) (ps : List Packet) (old rx : Rx)
    : Type 0 where
  pub done : List Packet
  pub rest : List Packet
  pub split : ps ≡ done ++ rest
  pub tracks : Tracks later rest rx
  pub delivered : rx.delivered ≡ old.delivered ++ map d done
  pub drained : rx.arrivals ≡ []
  pub not_ready : record_ready rx ≡ false

-- A run has delivered the records `done`, and the reader is in step with the others.
record IsRead (d : Packet → Delivery) (later : List ℕ) (ps : List Packet) (old : Rx) (least : ℕ)
    (rx : Rx) (budget : Bool) : Type 0 where
  done : List Packet
  rest : List Packet
  split : ps ≡ done ++ rest
  tracks : Tracks later rest rx
  delivered : rx.delivered ≡ old.delivered ++ map d done
  waits : Waits rx
  ended :
      ((budget ≡ false) × (record_ready rx ≡ false) × ((rx.arrivals ≡ []) ⊎ (pending rx < least)))
      ⊎ ((budget ≡ true) × (pending rx < least))

Waits-of_not_ready : (rx : Rx) → record_ready rx ≡ false → Waits rx
Waits-of_not_ready rx h = ground arith

dry-IsRead :
    (d : Packet → Delivery) (later : List ℕ) (ps : List Packet) (old rx : Rx) (least : ℕ)
    → IsDry later ps old.delivered (pending old) rx
    → pending old ≤ least
    → IsRead d later ps old least rx false
dry-IsRead d later ps old rx least h le = record {
  done = [];
  rest = ps;
  split = refl;
  tracks = h.tracks;
  delivered = h.unchanged ∙ sym (append-nil old.delivered);
  waits = Waits-of_not_ready rx h.not_ready;
  ended = ground (arith, h.not_ready, h.used_up);
}

-- A pass that has delivered `now`, then a run.
after-IsRead :
    (d : Packet → Delivery) (later : List ℕ) (now ps : List Packet) (old mid rx : Rx) (least : ℕ)
    (b : Bool)
    → mid.delivered ≡ old.delivered ++ map d now
    → IsRead d later ps mid least rx b
    → IsRead d later (now ++ ps) old least rx b
after-IsRead d later now ps old mid rx least b log r = record {
  done = now ++ r.done;
  rest = r.rest;
  split = ap (λ t. now ++ t) r.split ∙ sym (append_assoc now r.done r.rest);
  tracks = r.tracks;
  delivered =
      r.delivered
      ∙ ap (λ t. t ++ map d r.done) log
      ∙ append_assoc old.delivered (map d now) (map d r.done)
      ∙ ap (λ t. old.delivered ++ t) (sym (map-append d now r.done));
  waits = r.waits;
  ended = r.ended;
}

-- One pass forward, then a run from where it led.
forward-IsRead :
    (d : Packet → Delivery) (later : List ℕ) (ps : List Packet) (old mid : Rx) (least : ℕ)
    (loop : Rx → Rx × Bool)
    → ((qs : List Packet) (m : Rx)
        → Tracks later qs m
        → Waits m
        → pending m < least
        → IsRead d later qs m least (loop m).0 (loop m).1)
    → pending old ≤ least
    → Advanced d later ps old.delivered (pending old) mid
    → IsRead d later ps old least (loop mid).0 (loop mid).1
forward-IsRead d later [] old mid least loop ih lt h = absurd h
forward-IsRead d later (p ∷ ps) old mid least loop ih lt (inl a) =
    after-IsRead d later [] (p ∷ ps) old mid _ least _
      (a.delivered ∙ sym (append-nil old.delivered))
      (ih (p ∷ ps) mid a.tracks a.waits (omega (arith, a.less)))
forward-IsRead d later (p ∷ ps) old mid least loop ih lt (inr a) =
    after-IsRead d later (p ∷ []) ps old mid _ least _ a.delivered
      (ih ps mid a.tracks a.waits (omega (arith, a.less)))

-- What one pass led to, and the run behind it.
run_flow : (Rx → Rx × Bool) → Flow Rx → Rx × Bool
run_flow loop (stop rx) = (rx, false)
run_flow loop (go rx) = loop rx

flow-IsRead :
    (d : Packet → Delivery) (later : List ℕ) (ps : List Packet) (old : Rx) (least : ℕ)
    (loop : Rx → Rx × Bool) (m : Flow Rx)
    → ((qs : List Packet) (m : Rx)
        → Tracks later qs m
        → Waits m
        → pending m < least
        → IsRead d later qs m least (loop m).0 (loop m).1)
    → pending old ≤ least
    → Ensures
        (λ rx. IsDry later ps old.delivered (pending old) rx)
        (λ rx. Advanced d later ps old.delivered (pending old) rx)
        m
    → IsRead d later ps old least (run_flow loop m).0 (run_flow loop m).1
unfolding run_flow
flow-IsRead d later ps old least loop (stop rx) ih lt h =
    dry-IsRead d later ps old rx least h (omega arith)
flow-IsRead d later ps old least loop (go mid) ih lt h =
    forward-IsRead d later ps old mid least loop ih lt h

-- A run after which the worker does not queue itself again.
finished :
    (d : Packet → Delivery) (later : List ℕ) (ps : List Packet) (old rx : Rx) (least : ℕ) (b : Bool)
    → IsRead d later ps old least rx b
    → reads_again true rx b ≡ false
    → IsSettled d later ps old rx
unfolding reads_again
finished d later ps old rx least b r e = record {
  done = r.done;
  rest = r.rest;
  split = r.split;
  tracks = r.tracks;
  delivered = r.delivered;
  drained = ground arith;
  not_ready = ground (arith, r.ended, r.waits, r.tracks.received);
}

resumed :
    (d : Packet → Delivery) (later : List ℕ) (ps : List Packet) (old mid rx : Rx) (least : ℕ)
    (b : Bool) (r : IsRead d later ps old least mid b)
    → IsSettled d later r.rest mid rx
    → IsSettled d later ps old rx
resumed d later ps old mid rx least b r s = record {
  done = r.done ++ s.done;
  rest = s.rest;
  split = r.split ∙ ap (λ t. r.done ++ t) s.split ∙ sym (append_assoc r.done s.done s.rest);
  tracks = s.tracks;
  delivered =
      s.delivered
      ∙ ap (λ t. t ++ map d s.done) r.delivered
      ∙ append_assoc old.delivered (map d r.done) (map d s.done)
      ∙ ap (λ t. old.delivered ++ t) (sym (map-append d r.done s.done));
  drained = s.drained;
  not_ready = s.not_ready;
}

-- A run after which it does has brought the reader forward.
rerun_less :
    (d : Packet → Delivery) (later : List ℕ) (ps : List Packet) (old rx : Rx) (least : ℕ) (b : Bool)
    → IsRead d later ps old least rx b
    → reads_again true rx b ≡ true
    → pending rx < least
unfolding reads_again
rerun_less d later ps old rx least b r e = ground (arith, r.ended)

module _ (net_ip_align : ℕ) (memory : Memory) (carrier : Carrier) (ample : IsAmple memory) where
  module _ (headers : ℕ → FakeHeaders)
      (routable : (n : ℕ) → build_fake_headers (some carrier) n ≡ ok (headers n)) where
    read_loop-suc :
        (n : ℕ) (rx : Rx)
        → read_loop net_ip_align memory carrier (suc n) rx
          ≡ run_flow (read_loop net_ip_align memory carrier n) (pass net_ip_align memory carrier rx)
    unfolding read_loop run_flow
    read_loop-suc n rx = ground arith

    -- the run from a state, and the rest of a run after one pass forward
    read_loop-IsRead :
        (n : ℕ) (later : List ℕ) (ps : List Packet) (rx : Rx) (least : ℕ)
        → Tracks later ps rx
        → Waits rx
        → pending rx < least
        → IsRead
            (delivery headers)
            later
            ps
            rx
            least
            (read_loop net_ip_align memory carrier n rx).0
            (read_loop net_ip_align memory carrier n rx).1
    unfolding read_loop
    read_loop-IsRead zero later ps rx least t w lt = record {
      done = [];
      rest = ps;
      split = refl;
      tracks = t;
      delivered = sym (append-nil rx.delivered);
      waits = w;
      ended = inr (refl, lt);
    }
    read_loop-IsRead (suc n) later ps rx least t w lt = rw read_loop-suc (
        flow-IsRead (delivery headers) later ps rx least (read_loop net_ip_align memory carrier n)
          (pass net_ip_align memory carrier rx)
          (λ qs m tracks waits bound. read_loop-IsRead n later qs m least tracks waits bound)
          (omega arith)
          (pass-Advanced net_ip_align memory carrier ample headers routable later ps rx t))

    -- A run of the worker, with the budget of the source.
    worker-IsRead :
        (later : List ℕ) (ps : List Packet) (rx : Rx)
        → Tracks later ps rx
        → IsRead
            (delivery headers)
            later
            ps
            rx
            (pending rx)
            (read_worker net_ip_align memory carrier rx).0
            (read_worker net_ip_align memory carrier rx).1
    unfolding read_worker
    worker-IsRead later ps rx t = rw read_loop-suc (
        flow-IsRead (delivery headers) later ps rx (pending rx)
          (read_loop net_ip_align memory carrier 63) (pass net_ip_align memory carrier rx)
          (λ qs m tracks waits bound.
            read_loop-IsRead 63 later qs m (pending rx) tracks waits bound)
          (le_refl _)
          (pass-Advanced net_ip_align memory carrier ample headers routable later ps rx t))

    pub settle-IsSettled :
        (fuel : ℕ) (later : List ℕ) (ps : List Packet) (rx : Rx)
        → Tracks later ps rx
        → pending rx < fuel
        → (rx' : Rx) × (settle net_ip_align memory carrier fuel rx ≡ some rx')
          × IsSettled (delivery headers) later ps rx rx'
    unfolding settle
    settle-IsSettled zero later ps rx t lt = elim lt [ ]
    settle-IsSettled (suc fuel) later ps rx t lt =
        let (rx', b) = read_worker net_ip_align memory carrier rx in
        let r : IsRead (delivery headers) later ps rx (pending rx) rx' b =
          worker-IsRead later ps rx t in
        elim (Bool-cases (reads_again true rx' b)) [
          | inr e ↦ (rx', rw e, finished (delivery headers) later ps rx rx' (pending rx) b r e)
          | inl e ↦
              let (rx'', run, done) =
                settle-IsSettled fuel later r.rest rx' r.tracks (
                  omega
                    (arith, rerun_less (delivery headers) later ps rx rx' (pending rx) b r e)) in
              (
                rx'',
                rw e run,
                resumed (delivery headers) later ps rx rx' rx'' (pending rx) b r done,
              )
        ]
