-- ===== src/PacketQueue/Tests.antt =====
-- Runs of the queue of kernel/queueing.c.
use wgtcp.Base.{
  max_queued_packets, ℕ, ◌+◌, ◌≤◌, ◌≡◌, refl, arith, [], ◌∷◌, none, some, length, take,
}
use wgtcp.PacketQueue.{
  outside, stub, Queue, prev_queue_init, exchange_head, enqueue_count, enqueue_end, dequeue_step,
  dequeue_at,
}
use wgtcp.PacketQueue.Fifo.{Reaches, starts, counts, enters, links_packet, consumes}
use wgtcp.PacketQueue.Calls.{prev_queue_dequeue, first, dequeue-first}
use wgtcp.PacketQueue.Order.{entered_first}

-- Two producers enter 7 and 9, in this order; the second one links its packet first.
abbrev two_entered : Queue
two_entered = exchange_head 9 (exchange_head 7 (enqueue_count (enqueue_count prev_queue_init).0).0)

abbrev both_linked : Queue
both_linked = enqueue_end stub (enqueue_end 7 two_entered)

abbrev stub_passed : Queue
stub_passed = (dequeue_step both_linked).0

abbrev seven_taken : Queue
seven_taken = (dequeue_step stub_passed).0

-- The packet of the second producer waits for the first one's link.
unlinked_waits : (dequeue_step (enqueue_end 7 two_entered)).1 ≡ none
unfolding prev_queue_init enqueue_count exchange_head enqueue_end dequeue_step dequeue_at
unlinked_waits = refl

seven_first : (dequeue_step stub_passed).1 ≡ some 7
unfolding prev_queue_init enqueue_count exchange_head enqueue_end dequeue_step dequeue_at
seven_first = refl

entered-Reaches : Reaches 0 (7 ∷ 9 ∷ []) [] two_entered
unfolding prev_queue_init enqueue_count
entered-Reaches =
    enters 9 (omega arith) (omega arith) (omega arith, tt)
      (enters 7 (omega arith) (omega arith) tt (counts refl (counts refl starts)))

linked-Reaches : Reaches 0 (7 ∷ 9 ∷ []) [] both_linked
unfolding prev_queue_init enqueue_count exchange_head enqueue_end
linked-Reaches =
    links_packet stub 7 (omega arith) refl (links_packet 7 9 (omega arith) refl entered-Reaches)

taken-Reaches : Reaches 0 (7 ∷ 9 ∷ []) (7 ∷ []) seven_taken
unfolding prev_queue_init enqueue_count exchange_head enqueue_end dequeue_step dequeue_at
taken-Reaches = consumes (consumes linked-Reaches)

entered_first_example :
    (take {A = ℕ} (length {A = ℕ} (7 ∷ [])) (7 ∷ 9 ∷ []) ≡ 7 ∷ [])
    × (length {A = ℕ} (7 ∷ 9 ∷ []) + 0 ≡ length {A = ℕ} (7 ∷ []) + seven_taken.count)
    × (seven_taken.count ≤ max_queued_packets)
entered_first_example = entered_first 0 (7 ∷ 9 ∷ []) (7 ∷ []) seven_taken taken-Reaches

linked_outside : both_linked.consumer ≡ outside
unfolding prev_queue_init enqueue_count exchange_head enqueue_end
linked_outside = refl

linked_idle : (x : ℕ) → both_linked.waiting x ≡ none
unfolding prev_queue_init enqueue_count exchange_head enqueue_end
linked_idle x = ground arith

dequeue-first_example : prev_queue_dequeue both_linked ≡ first (7 ∷ 9 ∷ [])
dequeue-first_example =
    dequeue-first 0 [] (7 ∷ 9 ∷ []) both_linked linked-Reaches linked_outside linked_idle
