-- ===== src/PacketQueue/Order.antt =====
-- What the queue of kernel/queueing.c returns, whatever the order of its producers' and its
-- consumer's steps.
use wgtcp.Base.{
  max_queued_packets, ℕ, subst, ◌+◌, ◌-◌, ◌≤◌, ◌<◌, ◌≡◌, ◌≢◌, refl, sym, ap, ◌∙◌, arith, Bool, true,
  false, ◌==◌, ==_iff, if◌then◌else◌, List, [], ◌∷◌, ◌++◌, append-nil, append_assoc, Option, none,
  some, length, length-append, take, take-append_self,
}
use wgtcp.PacketQueue.{
  stub, update, Consumer, outside, reads_next, compares_head, exchanges, reads_again, links, Queue,
  prev_queue_init, exchange_head, add_unless, enqueue_count, enqueue_end, link, take_or, pass_stub,
  dequeue_at, dequeue_step,
}
use wgtcp.PacketQueue.Chain.{
  NotIn, IsDistinct, IsLinked, update_self, head_in, link-IsLinked, IsDistinct-append, packets,
  packets-append, packets-append_stub, NotIn-packets,
}
use wgtcp.PacketQueue.Fifo.{
  returned, Reaches, starts, counts, enters, links_packet, consumes, Knows, IsAt, IsQueue,
  take-IsQueue, pass-IsQueue, moves-IsQueue, exchange_head-IsLinked, exchange-idle, exchange-Knows,
  link-idle, link-Knows,
}

module _ {k : ℕ} {order out : List ℕ} (q : Queue) (rest : List ℕ)
    (at : IsAt k order out q rest) where
  enter-IsQueue :
      (skb : ℕ)
      → 0 < k
      → skb ≢ stub
      → NotIn skb (q.tail ∷ rest)
      → IsQueue (k - 1) (order ++ skb ∷ []) out (exchange_head skb q)
  unfolding exchange_head
  enter-IsQueue skb some_counted ne fresh =
      let nodes = q.tail ∷ rest in
      let more = packets-append nodes skb ne in
      let longer : length (packets (nodes ++ skb ∷ [])) ≡ length (packets nodes) + 1 =
        ap (λ (xs : List ℕ). length xs) more ∙ length-append (packets nodes) (skb ∷ []) in
      record {
        rest = rest ++ skb ∷ [];
        at = record {
          linked = exchange_head-IsLinked q rest at skb fresh;
          distinct = IsDistinct-append nodes skb at.distinct fresh;
          idle = exchange-idle q rest at skb;
          in_order =
              ap (λ (xs : List ℕ). xs ++ skb ∷ []) at.in_order
              ∙ append_assoc out (packets nodes) (skb ∷ [])
              ∙ ap (λ (xs : List ℕ). out ++ xs) (sym more);
          counted = omega (arith, at.counted, longer, some_counted);
          bounded = at.bounded;
          knows = exchange-Knows q rest at skb q.consumer ne fresh at.knows;
        };
      }

  -- The consumer puts the stub behind the last packet.
  stub-IsQueue :
      NotIn stub (q.tail ∷ rest)
      → IsQueue k order out (record (exchange_head stub q) { consumer = links q.head })
  unfolding exchange_head
  stub-IsQueue fresh =
      let nodes = q.tail ∷ rest in
      let same = packets-append_stub nodes in
      record {
        rest = rest ++ stub ∷ [];
        at = record {
          linked = exchange_head-IsLinked q rest at stub fresh;
          distinct = IsDistinct-append nodes stub at.distinct fresh;
          idle = exchange-idle q rest at stub;
          in_order = at.in_order ∙ ap (λ (xs : List ℕ). out ++ xs) (sym same);
          counted = at.counted ∙ ap (λ (xs : List ℕ). length xs + k) (sym same);
          bounded = at.bounded;
          knows = (fresh.0, update_self (update q.waiting stub none) q.head (some stub));
        };
      }

  link-IsQueue :
      (old new : ℕ) (c : Consumer)
      → q.waiting old ≡ some new
      → Knows c (link old (some new) q).waiting q.tail rest
      → IsQueue k order out (record (link old (some new) q) { consumer = c })
  link-IsQueue old new c due knows = record {
    rest = rest;
    at = record {
      linked = link-IsLinked q.next q.waiting q.head old new q.tail rest due at.linked;
      distinct = at.distinct;
      idle = link-idle q rest at old new;
      in_order = at.in_order;
      counted = at.counted;
      bounded = at.bounded;
      knows = knows;
    };
  }

  as_before :
      (c : Consumer)
      → Knows c q.waiting q.tail rest
      → IsQueue k (order) (out ++ []) (record q { consumer = c })
  as_before c h =
      subst (λ (xs : List ℕ). IsQueue k order xs (record q { consumer = c })) (sym (append-nil out))
        (moves-IsQueue q rest c h at)

  take_or-IsQueue :
      (c : Consumer) (n : Option ℕ)
      → Knows c q.waiting q.tail rest
      → q.tail ≢ stub
      → q.next q.tail ≡ n
      → IsQueue k order (out ++ returned (take_or c n q).1) (take_or c n q).0
  take_or-IsQueue c none h ne e = as_before c h
  take_or-IsQueue c (some n) h ne e = take-IsQueue q rest n ne e at

  pass_stub-IsQueue :
      (n : Option ℕ)
      → q.consumer ≡ outside
      → q.tail ≡ stub
      → q.next q.tail ≡ n
      → IsQueue k order (out ++ returned (pass_stub n q).1) (pass_stub n q).0
  pass_stub-IsQueue none c is e =
      subst (λ (xs : List ℕ). IsQueue k order xs q) (sym (append-nil out))
        (record { rest = rest; at = at })
  pass_stub-IsQueue (some n) c is e =
      subst (λ (xs : List ℕ). IsQueue k order xs (pass_stub (some n) q).0) (sym (append-nil out))
        (pass-IsQueue q rest n is e at)

  outside-IsQueue :
      (b : Bool)
      → q.consumer ≡ outside
      → (b ≡ true → q.tail ≡ stub)
      → (b ≡ false → q.tail ≢ stub)
      → let step =
          if b then pass_stub (q.next q.tail) q else take_or compares_head (q.next q.tail) q in
        IsQueue k order (out ++ returned step.1) step.0
  outside-IsQueue true c is_stub is_packet = pass_stub-IsQueue (q.next q.tail) c (is_stub refl) refl
  outside-IsQueue false c is_stub is_packet =
      take_or-IsQueue compares_head (q.next q.tail) (is_packet refl) (is_packet refl) refl

  -- When the tail is the head, it is the only node.
  head-Knows :
      (b : Bool)
      → (b ≡ true → q.tail ≡ q.head)
      → q.tail ≢ stub
      → Knows (if b then exchanges else outside) q.waiting q.tail rest
  head-Knows false same ne = tt
  head-Knows true same ne = (ne, alone rest at.linked at.distinct (sym (same refl)))
    where
      alone :
          (ns : List ℕ)
          → IsLinked q.next q.waiting q.head q.tail ns
          → IsDistinct (q.tail ∷ ns)
          → q.head ≡ q.tail
          → NotIn stub ns
      alone [] l d e = tt
      alone (b ∷ ns) l d e = absurd (head_in q.next q.waiting q.head q.tail b ns l.1 d.0 e)

  dequeue_at-IsQueue :
      (c : Consumer)
      → q.consumer ≡ c
      → Knows c q.waiting q.tail rest
      → IsQueue k order (out ++ returned (dequeue_at c q).1) (dequeue_at c q).0
  unfolding dequeue_at
  dequeue_at-IsQueue outside e h =
      outside-IsQueue (q.tail == stub) e ((==_iff q.tail stub).0)
        (λ no is. absurd (cc (no, (==_iff q.tail stub).1 is)))
  dequeue_at-IsQueue reads_next e h = take_or-IsQueue compares_head (q.next q.tail) h h refl
  dequeue_at-IsQueue compares_head e h =
      as_before (if q.tail == q.head then exchanges else outside)
        (head-Knows (q.tail == q.head) ((==_iff q.tail q.head).0) h)
  dequeue_at-IsQueue exchanges e h = more (stub-IsQueue h)
    where
      more : {r : Queue} → IsQueue k order out r → IsQueue k order (out ++ []) r
      more {r} v = subst (λ (xs : List ℕ). IsQueue k order xs r) (sym (append-nil out)) v
  dequeue_at-IsQueue (links old) e h =
      subst
        (λ (xs : List ℕ).
          IsQueue k order xs (record (link old (some stub) q) { consumer = reads_again }))
        (sym (append-nil out)) (link-IsQueue old stub reads_again h.1 h.0)
  dequeue_at-IsQueue reads_again e h = take_or-IsQueue outside (q.next q.tail) tt h refl

NotIn-back : (x : ℕ) (out xs : List ℕ) → NotIn x (out ++ xs) → NotIn x xs
NotIn-back x [] xs h = h
NotIn-back x (y ∷ out) xs h = NotIn-back x out xs h.1

count-IsQueue :
    {k : ℕ} {order out : List ℕ} (q : Queue) (rest : List ℕ) (full : Bool)
    → (full ≡ false → q.count ≢ max_queued_packets)
    → (add_unless full q).1 ≡ true
    → IsAt k order out q rest
    → IsQueue (k + 1) order out (add_unless full q).0
count-IsQueue q rest true room counted at = absurd (cc counted)
count-IsQueue q rest false room counted at = record {
  rest = rest;
  at = record {
    linked = at.linked;
    distinct = at.distinct;
    idle = at.idle;
    in_order = at.in_order;
    counted = omega (arith, at.counted);
    bounded = below (room refl) at.bounded;
    knows = at.knows;
  };
}
  where
    below : {a b : ℕ} → a ≢ b → a ≤ b → a + 1 ≤ b
    below ne h = omega (arith, ne, h)

count_step :
    {k : ℕ} {order out : List ℕ} {q : Queue}
    → (enqueue_count q).1 ≡ true
    → IsQueue k order out q
    → IsQueue (k + 1) order out (enqueue_count q).0
unfolding enqueue_count
count_step {q} counted v =
    count-IsQueue q v.rest (q.count == max_queued_packets)
      (λ no e. absurd (cc (no, (==_iff q.count max_queued_packets).1 e))) counted v.at

link_step :
    {k : ℕ} {order out : List ℕ} {q : Queue} (old skb : ℕ)
    → skb ≢ stub
    → q.waiting old ≡ some skb
    → IsQueue k order out q
    → IsQueue k order out (enqueue_end old q)
unfolding enqueue_end
link_step {k} {order} {out} {q} old skb ne due v =
    subst (λ (w : Option ℕ). IsQueue k order out (link old w q)) (sym due)
      (link-IsQueue q v.rest v.at old skb q.consumer due
        (link-Knows q v.rest v.at old skb q.consumer ne due v.at.knows))

consume_step :
    {k : ℕ} {order out : List ℕ} (q : Queue) (rest : List ℕ)
    → IsAt k order out q rest
    → IsQueue k order (out ++ returned (dequeue_step q).1) (dequeue_step q).0
unfolding dequeue_step
consume_step q rest at = dequeue_at-IsQueue q rest at q.consumer refl at.knows

-- Every state that the steps reach is a well-formed queue.
pub Reaches-IsQueue :
    {k : ℕ} {order out : List ℕ} {q : Queue} → Reaches k order out q → IsQueue k order out q
unfolding prev_queue_init
Reaches-IsQueue starts = record {
  rest = [];
  at = record {
    linked = (refl, refl, refl);
    distinct = (tt, tt);
    idle = λ x h. refl;
    in_order = refl;
    counted = refl;
    bounded = omega arith;
    knows = tt;
  };
}
Reaches-IsQueue (counts e r) = count_step e (Reaches-IsQueue r)
Reaches-IsQueue (enters {q} skb some_counted ne new r) =
    let v = Reaches-IsQueue r in
    let nodes = q.tail ∷ v.rest in
    let fresh = NotIn-packets skb nodes ne (
      NotIn-back skb _ (packets nodes) (subst (λ (xs : List ℕ). NotIn skb xs) v.at.in_order new)) in
    enter-IsQueue q v.rest v.at skb some_counted ne fresh
Reaches-IsQueue (links_packet old skb ne due r) = link_step old skb ne due (Reaches-IsQueue r)
Reaches-IsQueue (consumes {q} r) = let v = Reaches-IsQueue r in consume_step q v.rest v.at

-- However the steps of the producers and of the consumer interleave, the packets that the consumer
-- returned are the first ones that entered, in the order in which they entered; the count is that of
-- the packets that entered and were not returned with the producers that are about to enter one; and
-- it stays within the limit.
pub entered_first :
    (k : ℕ) (order out : List ℕ) (q : Queue)
    → Reaches k order out q
    → (take (length out) order ≡ out)
      × (length order + k ≡ length out + q.count)
      × (q.count ≤ max_queued_packets)
entered_first k order out q r =
    let v = Reaches-IsQueue r in
    let left = packets (q.tail ∷ v.rest) in
    let total : length order ≡ length out + length left =
      ap (λ (xs : List ℕ). length xs) v.at.in_order ∙ length-append out left in
    (
      ap (λ (xs : List ℕ). take (length out) xs) v.at.in_order ∙ take-append_self out left,
      omega (arith, total, v.at.counted),
      v.at.bounded,
    )
