-- ===== src/PacketQueue/Calls.antt =====
-- Whole calls of wg_prev_queue_dequeue in kernel/queueing.c, when no producer is in the middle of its
-- own call.
use wgtcp.Base.{
  ℕ, zero, suc, subst, ◌≡◌, ◌≢◌, inl, inr, refl, sym, ap, ◌∙◌, Bool, true, false, ◌==◌, ==_iff,
  if◌then◌else◌, List, [], ◌∷◌, ◌++◌, Option, none, some,
}
use wgtcp.PacketQueue.{
  stub, update, Consumer, outside, reads_next, compares_head, exchanges, reads_again, links, Queue,
  exchange_head, take_or, pass_stub, dequeue_at, dequeue_step,
}
use wgtcp.PacketQueue.Chain.{IsLinked, packets, unless, update_self, packets-cons, none-some}
use wgtcp.PacketQueue.Fifo.{Reaches, IsAt}
use wgtcp.PacketQueue.Order.{Reaches-IsQueue}

abbrev pub is_outside : Consumer → Bool
is_outside outside = true
is_outside reads_next = false
is_outside compares_head = false
is_outside exchanges = false
is_outside reads_again = false
is_outside (links old) = false

-- What is left of a call after a step, by its steps alone.
pub rest_of_call : ℕ → Queue × Option ℕ → Option ℕ
rest_of_call zero (q, x) = x
rest_of_call (suc n) (q, some x) = some x
rest_of_call (suc n) (q, none) =
    if is_outside q.consumer then none else rest_of_call n (dequeue_step q)

unfoldable pub prev_queue_dequeue : Queue → Option ℕ
prev_queue_dequeue q = rest_of_call 6 (dequeue_step q)

-- The tail is the head, so the stub goes behind it, and it can leave.
stub_follows :
    (n : ℕ) (q : Queue)
    → q.head ≡ q.tail
    → rest_of_call (suc (suc (suc (suc n)))) (record q { consumer = exchanges }, none) ≡ some q.tail
unfolding rest_of_call dequeue_step dequeue_at exchange_head
stub_follows n q e =
    let before = update q.next stub none in
    let due = update (update q.waiting stub none) q.head (some stub) in
    let linked : update before q.head (some stub) q.tail ≡ some stub =
      ap (λ h. update before q.head (some stub) h) (sym e)
      ∙ update_self before q.head (some stub) in
    subst
      (λ (x : Option ℕ).
        rest_of_call (suc n) (
          take_or outside x (record q {
            next = update before q.head (some stub);
            head = stub;
            waiting = update due q.head none;
            consumer = reads_again;
          }))
        ≡ some q.tail)
      (sym linked) refl

alone_leaves :
    (n : ℕ) (q : Queue)
    → q.head ≡ q.tail
    → rest_of_call (suc (suc (suc (suc (suc n))))) (record q { consumer = compares_head }, none)
      ≡ some q.tail
unfolding rest_of_call dequeue_step dequeue_at
alone_leaves n q e =
    subst
      (λ (b : Bool).
        rest_of_call (suc (suc (suc (suc n))))
          (record q { consumer = if b then exchanges else outside }, none)
        ≡ some q.tail)
      (sym ((==_iff q.tail q.head).1 (sym e))) (stub_follows n q e)

-- The tail is a packet, and its next pointer is there when a node is behind it.
packet_leaves :
    (n : ℕ) (q : Queue) (rest : List ℕ)
    → q.waiting q.tail ≡ none
    → IsLinked q.next q.waiting q.head q.tail rest
    → rest_of_call (suc (suc (suc (suc (suc n))))) (take_or compares_head (q.next q.tail) q)
      ≡ some q.tail
unfolding rest_of_call
packet_leaves n q [] idle l =
    subst
      (λ (x : Option ℕ).
        rest_of_call (suc (suc (suc (suc (suc n))))) (take_or compares_head x q) ≡ some q.tail)
      (sym l.0) (alone_leaves n q l.2)
packet_leaves n q (b ∷ ns) idle (inl (x, w), l) =
    subst
      (λ (x : Option ℕ).
        rest_of_call (suc (suc (suc (suc (suc n))))) (take_or compares_head x q) ≡ some q.tail)
      (sym x) refl
packet_leaves n q (b ∷ ns) idle (inr (x, w), l) = absurd (none-some (sym idle ∙ w))

abbrev pub first : List ℕ → Option ℕ
first [] = none
first (x ∷ xs) = some x

-- A call returns the first packet among the nodes.
call-first :
    {k : ℕ} {order out : List ℕ} (q : Queue) (rest : List ℕ)
    → q.consumer ≡ outside
    → ((x : ℕ) → q.waiting x ≡ none)
    → IsAt k order out q rest
    → (b : Bool) → (q.tail == stub) ≡ b
    → rest_of_call 6
        (if b then pass_stub (q.next q.tail) q else take_or compares_head (q.next q.tail) q)
      ≡ first (packets (q.tail ∷ rest))
unfolding rest_of_call dequeue_step dequeue_at
call-first q rest c idle at false b =
    packet_leaves 1 q rest (idle q.tail) at.linked
    ∙ ap (λ is. first (unless is q.tail (packets rest))) (sym b)
call-first q [] c idle at true b =
    subst
      (λ (x : Option ℕ). rest_of_call 6 (pass_stub x q) ≡ first (unless (q.tail == stub) q.tail []))
      (sym at.linked.0)
      (ap (λ (there : Consumer). if is_outside there then none else rest_of_call 5 (dequeue_step q))
          c
        ∙ ap (λ is. first (unless is q.tail [])) (sym b))
call-first q (n ∷ ns) c idle at true b =
    let is : q.tail ≡ stub = (==_iff q.tail stub).0 b in
    let ne : n ≢ stub = λ e. at.distinct.0.0 (e ∙ sym is) in
    let linked : q.next q.tail ≡ some n = elim at.linked.0 [
      | inl (x, w) ↦ x
      | inr (x, w) ↦ absurd (none-some (sym (idle q.tail) ∙ w))
    ] in
    subst (λ (x : Option ℕ). rest_of_call 6 (pass_stub x q) ≡ first (packets (q.tail ∷ n ∷ ns)))
      (sym linked)
      (packet_leaves 0 (record q { tail = n; consumer = reads_next }) ns (idle n) at.linked.1
        ∙ ap first (sym (packets-cons n ns ne))
        ∙ ap (λ is. first (unless is q.tail (packets (n ∷ ns)))) (sym b))

append-cancel : (out xs ys : List ℕ) → out ++ xs ≡ out ++ ys → first xs ≡ first ys
append-cancel [] xs ys e = ap first e
append-cancel (x ∷ out) xs ys e = append-cancel out xs ys (ap tail_of e)
  where
    tail_of : List ℕ → List ℕ
    tail_of [] = []
    tail_of (x ∷ xs) = xs

-- When no producer is between its exchange and its link, a call of the consumer returns the packet
-- that entered first among those that it has not returned, and nothing only if it has returned all.
pub dequeue-first :
    (k : ℕ) (out left : List ℕ) (q : Queue)
    → Reaches k (out ++ left) out q
    → q.consumer ≡ outside
    → ((x : ℕ) → q.waiting x ≡ none)
    → prev_queue_dequeue q ≡ first left
unfolding prev_queue_dequeue dequeue_step dequeue_at
dequeue-first k out left q r c idle =
    let v = Reaches-IsQueue r in
    ap (λ (there : Consumer). rest_of_call 6 (dequeue_at there q)) c
    ∙ call-first q v.rest c idle v.at (q.tail == stub) refl
    ∙ sym (append-cancel out left (packets (q.tail ∷ v.rest)) v.at.in_order)
