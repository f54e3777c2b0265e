-- ===== src/Reader/Tracks.antt =====
-- What it means that a reader is in step with a stream of records, and the stages that read.
use wgtcp.Base.{
  ℕ, ◌+◌, ◌*◌, ◌≤◌, ◌<◌, ◌≡◌, ◌⊎◌, inl, refl, List, [], ◌∷◌, ◌++◌, some, none, true, false, arith,
  length, All, ◌==◌, if◌then◌else◌,
}
use wgtcp.Frame.{Packet, frame_bytes, encap_hdr_len}
use wgtcp.Frame.Header.{IsSendable}
use wgtcp.Reader.{Skb, Memory, Delivery, Arrival, segment, failure, Rx, Flow, stop, go, ◌>>=◌}
use wgtcp.Reader.Worker.{record_ready}

-- the bytes of a sequence of records
abbrev pub wire : List Packet → List ℕ
wire [] = []
wire (p ∷ ps) = frame_bytes p ++ wire ps

-- Data has arrived, and neither an error nor the end of the stream.
abbrev pub IsSegment : Arrival → Type 0
IsSegment (segment []) = ⊥
IsSegment (segment (b ∷ bs)) = Unit
IsSegment failure = ⊥

abbrev pub arrived : List Arrival → List ℕ
arrived [] = []
arrived (segment bs ∷ rest) = bs ++ arrived rest
arrived (failure ∷ rest) = []

abbrev pub buffered : Rx → List ℕ
buffered rx = elim rx.partial_skb [ none ↦ [] | some skb ↦ skb.bytes ]

-- Every allocation succeeds.
abbrev pub IsAmple : Memory → Type 0
IsAmple memory = (call size : ℕ) → (room : ℕ) × (memory.alloc call size ≡ some room)

-- `expected_len` is zero, or the length of the record whose header is at the front.
abbrev pub Expects : List Packet → ℕ → ℕ → Type 0
Expects [] expected received = expected ≡ 0
Expects (p ∷ ps) expected received =
    (expected ≡ 0) ⊎ ((expected ≡ length (frame_bytes p)) × (encap_hdr_len ≤ received))

-- The reader's buffer, what waits in the socket and what is still under way (`later`) make up exactly the
-- records `ps`, of which none has been delivered yet.
pub record Tracks (later : List ℕ) (ps : List Packet) (rx : Rx) : Type 0 where
  pub received : rx.received_len ≡ length (buffered rx)
  pub stream : buffered rx ++ (arrived rx.arrivals ++ later) ≡ wire ps
  pub clean : All IsSegment rx.arrivals
  pub sendable : All IsSendable ps
  pub expects : Expects ps rx.expected_len rx.received_len

-- A buffer in the worker's hand is the reader's own.
pub record Holds (later : List ℕ) (ps : List Packet) (skb : Skb) (rx : Rx) : Type 0 where
  pub own : rx.partial_skb ≡ some skb
  pub tracks : Tracks later ps rx

-- What is still to do: it falls with every pass.
abbrev pub pending : Rx → ℕ
pending rx =
    2 * length (buffered rx)
    + 4 * length (arrived rx.arrivals)
    + (if rx.expected_len == 0 then 1 else 0)

-- What holds of the two ways out of a stage.
abbrev pub Ensures : {A : Type 0} → (Rx → Type 0) → (A → Type 0) → Flow A → Type 0
Ensures P Q (stop rx) = P rx
Ensures P Q (go a) = Q a

pub Ensures-bind :
    {A B : Type 0} (P : Rx → Type 0) (Q : A → Type 0) (R : B → Type 0) (m : Flow A) (f : A → Flow B)
    → Ensures P Q m
    → ((a : A) → Q a → Ensures P R (f a))
    → Ensures P R (m >>= f)
Ensures-bind P Q R (stop rx) f h k = h
Ensures-bind P Q R (go a) f h k = k a h

-- The worker has nothing to do before more data arrives.
pub record IsDry (later : List ℕ) (ps : List Packet) (log : List Delivery) (before : ℕ) (rx : Rx)
    : Type 0 where
  pub tracks : Tracks later ps rx
  pub unchanged : rx.delivered ≡ log
  pub not_ready : record_ready rx ≡ false
  pub used_up : (rx.arrivals ≡ []) ⊎ (pending rx < before)

-- After the reading stages: the buffer holds what the loop needs, or something was read.
pub record IsFilled (later : List ℕ) (ps : List Packet) (log : List Delivery) (before : ℕ)
    (skb : Skb) (rx : Rx) : Type 0 where
  pub holds : Holds later ps skb rx
  pub unchanged : rx.delivered ≡ log
  pub moved : ((pending rx ≡ before) × (record_ready rx ≡ true)) ⊎ (pending rx + 2 ≤ before)

-- After the allocation at the top of the loop.
pub record IsOpened (later : List ℕ) (ps : List Packet) (log : List Delivery) (before : ℕ)
    (skb : Skb) (rx : Rx) : Type 0 where
  pub holds : Holds later ps skb rx
  pub unchanged : rx.delivered ≡ log
  pub same_pending : pending rx ≡ before

pub Expects-short :
    (ps : List Packet) (expected received : ℕ)
    → Expects ps expected received
    → received < encap_hdr_len
    → expected ≡ 0
Expects-short [] expected received h lt = h
Expects-short (p ∷ ps) expected received h lt = ground arith

pub Expects-zero : (ps : List Packet) (received : ℕ) → Expects ps 0 received
Expects-zero [] received = refl
Expects-zero (p ∷ ps) received = inl refl

pub Expects-more :
    (ps : List Packet) (expected m n : ℕ) → Expects ps expected m → m ≤ n → Expects ps expected n
Expects-more [] expected m n h le = h
Expects-more (p ∷ ps) expected m n h le = ground arith
