-- ===== src/PacketQueue.antt =====
-- The queue of kernel/queueing.c from many producers to one consumer: wg_prev_queue_enqueue and
-- wg_prev_queue_dequeue, cut where another thread can come between: at the count, the exchange of
-- the head, the writing of a next pointer, and each reading of one, which the consumer's decrement of
-- the count belongs to. A packet is a positive number, and 0 is the queue's own stub.
pub mod Chain
pub mod Fifo
pub mod Order
pub mod Calls
mod Tests
use wgtcp.Base.{
  ℕ, ◌+◌, ◌-◌, Bool, true, false, ltb, ◌==◌, if◌then◌else◌, Option, none, some, max_queued_packets,
}

-- STUB(queue)
abbrev pub stub : ℕ
stub = 0

-- Where the consumer is in wg_prev_queue_dequeue: outside, or about to read the next pointer of the
-- tail that is no stub, to compare the tail with the head, to exchange the head for the stub, to
-- link the stub behind the old head, or to read the next pointer again.
pub data Consumer : Type 0 where
  outside reads_next compares_head exchanges reads_again : Consumer
  links : ℕ → Consumer

-- struct prev_queue with the packets' next pointers. `waiting old` is what a producer, or the
-- consumer, has put behind `old` by exchanging the head, and not yet linked.
pub record Queue : Type 0 where
  pub next : ℕ → Option ℕ
  pub head : ℕ
  pub tail : ℕ
  pub count : ℕ
  pub waiting : ℕ → Option ℕ
  pub consumer : Consumer

abbrev pub update {ℓ} : {A : Type ℓ} → (ℕ → A) → ℕ → A → ℕ → A
update f k v j = if k == j then v else f j

unfoldable pub prev_queue_init : Queue
prev_queue_init = record {
  next = λ k. none;
  head = stub;
  tail = stub;
  count = 0;
  waiting = λ k. none;
  consumer = outside;
}

-- The first half of __wg_prev_queue_enqueue: the new node's pointer, and the exchange of the head.
unfoldable pub exchange_head : ℕ → Queue → Queue
exchange_head skb q = record q {
  next = update q.next skb none;
  head = skb;
  waiting = update (update q.waiting skb none) q.head (some skb);
}

-- atomic_add_unless on the count
abbrev pub add_unless : Bool → Queue → Queue × Bool
add_unless true q = (q, false)
add_unless false q = (record q { count = q.count + 1 }, true)

-- The start of wg_prev_queue_enqueue, which counts the packet; `false` when the queue is full.
unfoldable pub enqueue_count : Queue → Queue × Bool
enqueue_count q = add_unless (q.count == max_queued_packets) q

-- The second half: the old head gets its next pointer.
abbrev pub link : ℕ → Option ℕ → Queue → Queue
link old none q = q
link old (some skb) q = record q {
  next = update q.next old (some skb);
  waiting = update q.waiting old none;
}

unfoldable pub enqueue_end : ℕ → Queue → Queue
enqueue_end old q = link old (q.waiting old) q

-- The consumer's steps, with the packet that it returns.
abbrev pub take_or : Consumer → Option ℕ → Queue → Queue × Option ℕ
take_or other none q = (record q { consumer = other }, none)
take_or other (some n) q =
    (record q { tail = n; count = q.count - 1; consumer = outside }, some q.tail)

abbrev pub pass_stub : Option ℕ → Queue → Queue × Option ℕ
pass_stub none q = (q, none)
pass_stub (some n) q = (record q { tail = n; consumer = reads_next }, none)

unfoldable pub dequeue_at : Consumer → Queue → Queue × Option ℕ
dequeue_at outside q =
    if q.tail == stub then pass_stub (q.next q.tail) q else take_or compares_head (q.next q.tail) q
dequeue_at reads_next q = take_or compares_head (q.next q.tail) q
dequeue_at compares_head q =
    (record q { consumer = if q.tail == q.head then exchanges else outside }, none)
dequeue_at exchanges q = (record (exchange_head stub q) { consumer = links q.head }, none)
dequeue_at (links old) q = (record (link old (some stub) q) { consumer = reads_again }, none)
dequeue_at reads_again q = take_or outside (q.next q.tail) q

unfoldable pub dequeue_step : Queue → Queue × Option ℕ
dequeue_step q = dequeue_at q.consumer q
