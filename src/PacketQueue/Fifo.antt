-- ===== src/PacketQueue/Fifo.antt =====
-- The steps of the queue of kernel/queueing.c in any order, and what holds of it between them.
use wgtcp.Base.{
  max_queued_packets, ℕ, suc, subst, ◌+◌, ◌-◌, ◌≤◌, ◌<◌, ◌≡◌, ◌≢◌, inl, inr, refl, sym, ap, ◌∙◌,
  arith, true, ◌==◌, ==_iff, Bool-cases, List, [], ◌∷◌, ◌++◌, append_assoc, Option, none, some,
  length,
}
use wgtcp.PacketQueue.{
  stub, update, Consumer, outside, reads_next, compares_head, exchanges, reads_again, links, Queue,
  prev_queue_init, exchange_head, enqueue_count, enqueue_end, link, dequeue_step,
}
use wgtcp.PacketQueue.Chain.{
  NotIn, IsDistinct, IsLinked, update_ne, some_inj, none-some, head_in, head_idle,
  exchange-IsLinked, NotIn-append, NotIn-of_append, packets, unless, packets-cons,
}

abbrev pub returned : Option ℕ → List ℕ
returned none = []
returned (some x) = x ∷ []

-- What the queue reaches, with the number of producers between their count and their exchange, the
-- packets in the order in which the producers exchanged them for the head, and the packets that the
-- consumer returned. The producers' and the consumer's steps come in any order; a packet is given to
-- the queue once.
pub data Reaches : ℕ → List ℕ → List ℕ → Queue → Type 0 where
  starts : Reaches 0 [] [] prev_queue_init
  counts :
      {k : ℕ} {order out : List ℕ} {q : Queue}
      → (enqueue_count q).1 ≡ true
      → Reaches k order out q
      → Reaches (k + 1) order out (enqueue_count q).0
  enters :
      {k : ℕ} {order out : List ℕ} {q : Queue} (skb : ℕ)
      → 0 < k
      → skb ≢ stub
      → NotIn skb order
      → Reaches k order out q
      → Reaches (k - 1) (order ++ skb ∷ []) out (exchange_head skb q)
  links_packet :
      {k : ℕ} {order out : List ℕ} {q : Queue} (old skb : ℕ)
      → skb ≢ stub
      → q.waiting old ≡ some skb
      → Reaches k order out q
      → Reaches k order out (enqueue_end old q)
  consumes :
      {k : ℕ} {order out : List ℕ} {q : Queue}
      → Reaches k order out q
      → Reaches k order (out ++ returned (dequeue_step q).1) (dequeue_step q).0

-- What the consumer knows at its step.
abbrev pub Knows : Consumer → (ℕ → Option ℕ) → ℕ → List ℕ → Type 0
Knows outside waiting tail rest = Unit
Knows reads_next waiting tail rest = tail ≢ stub
Knows compares_head waiting tail rest = tail ≢ stub
Knows exchanges waiting tail rest = NotIn stub (tail ∷ rest)
Knows (links old) waiting tail rest = (tail ≢ stub) × (waiting old ≡ some stub)
Knows reads_again waiting tail rest = tail ≢ stub

-- The nodes behind the tail are `rest`.
pub record IsAt (k : ℕ) (order out : List ℕ) (q : Queue) (rest : List ℕ) : Type 0 where
  pub linked : IsLinked q.next q.waiting q.head q.tail rest
  pub distinct : IsDistinct (q.tail ∷ rest)
  pub idle : (x : ℕ) → NotIn x (q.tail ∷ rest) → q.waiting x ≡ none
  pub in_order : order ≡ out ++ packets (q.tail ∷ rest)
  pub counted : q.count ≡ length (packets (q.tail ∷ rest)) + k
  pub bounded : q.count ≤ max_queued_packets
  pub knows : Knows q.consumer q.waiting q.tail rest

pub record IsQueue (k : ℕ) (order out : List ℕ) (q : Queue) : Type 0 where
  pub rest : List ℕ
  pub at : IsAt k order out q rest

-- The pointer behind the tail is the next node's.
tail-next :
    (q : Queue) (b n : ℕ) (ns : List ℕ)
    → q.next q.tail ≡ some n
    → IsLinked q.next q.waiting q.head q.tail (b ∷ ns)
    → (b ≡ n) × (q.waiting q.tail ≡ none)
tail-next q b n ns e (inl (x, w), l) = (some_inj (sym x ∙ e), w)
tail-next q b n ns e (inr (x, w), l) = absurd (none-some (sym x ∙ e))

-- No pointer is due at a node that the tail has left.
left-idle :
    {k : ℕ} {order out : List ℕ} (q : Queue) (b : ℕ) (ns : List ℕ)
    → q.waiting q.tail ≡ none
    → IsAt k order out q (b ∷ ns)
    → (x : ℕ) → NotIn x (b ∷ ns)
    → q.waiting x ≡ none
left-idle q b ns w at x other = elim (Bool-cases (q.tail == x)) [
  | inl e ↦ sym (ap q.waiting ((==_iff q.tail x).0 e)) ∙ w
  | inr e ↦ at.idle x ((λ same. absurd (cc (e, (==_iff q.tail x).1 same))), other)
]

pub take-IsQueue :
    {k : ℕ} {order out : List ℕ} (q : Queue) (rest : List ℕ) (n : ℕ)
    → q.tail ≢ stub
    → q.next q.tail ≡ some n
    → IsAt k order out q rest
    → IsQueue k order
        (out ++ q.tail ∷ [])
        (record q { tail = n; count = q.count - 1; consumer = outside })
take-IsQueue q [] n ne e at = absurd (none-some (sym at.linked.0 ∙ e))
take-IsQueue {k} {order} {out} q (b ∷ ns) n ne e at =
    let (same, w) = tail-next q b n ns e at.linked in
    let split = packets-cons q.tail (b ∷ ns) ne in
    let fewer : q.count ≡ suc (length (packets (b ∷ ns))) + k =
      at.counted ∙ ap (λ (xs : List ℕ). length xs + k) split in
    subst
      (λ m.
        IsQueue k order (out ++ q.tail ∷ [])
          (record q { tail = m; count = q.count - 1; consumer = outside }))
      same
      (record {
        rest = ns;
        at = record {
          linked = at.linked.1;
          distinct = at.distinct.1;
          idle = left-idle q b ns w at;
          in_order =
              at.in_order
              ∙ ap (λ (xs : List ℕ). out ++ xs) split
              ∙ sym (append_assoc out (q.tail ∷ []) (packets (b ∷ ns)));
          counted = omega (arith, fewer);
          bounded = omega (arith, at.bounded);
          knows = tt;
        };
      })

pub pass-IsQueue :
    {k : ℕ} {order out : List ℕ} (q : Queue) (rest : List ℕ) (n : ℕ)
    → q.tail ≡ stub
    → q.next q.tail ≡ some n
    → IsAt k order out q rest
    → IsQueue k order out (record q { tail = n; consumer = reads_next })
pass-IsQueue q [] n is e at = absurd (none-some (sym at.linked.0 ∙ e))
pass-IsQueue {k} {order} {out} q (b ∷ ns) n is e at =
    let (same, w) = tail-next q b n ns e at.linked in
    let skip : packets (q.tail ∷ b ∷ ns) ≡ packets (b ∷ ns) =
      ap (λ x. unless (x == stub) x (packets (b ∷ ns))) is in
    subst (λ m. IsQueue k order out (record q { tail = m; consumer = reads_next })) same
      (record {
        rest = ns;
        at = record {
          linked = at.linked.1;
          distinct = at.distinct.1;
          idle = left-idle q b ns w at;
          in_order = at.in_order ∙ ap (λ (xs : List ℕ). out ++ xs) skip;
          counted = at.counted ∙ ap (λ (xs : List ℕ). length xs + k) skip;
          bounded = at.bounded;
          knows = λ x. at.distinct.0.0 (x ∙ sym is);
        };
      })

-- The consumer only changes its place.
pub moves-IsQueue :
    {k : ℕ} {order out : List ℕ} (q : Queue) (rest : List ℕ) (c : Consumer)
    → Knows c q.waiting q.tail rest
    → IsAt k order out q rest
    → IsQueue k order out (record q { consumer = c })
moves-IsQueue q rest c h at = record {
  rest = rest;
  at = record {
    linked = at.linked;
    distinct = at.distinct;
    idle = at.idle;
    in_order = at.in_order;
    counted = at.counted;
    bounded = at.bounded;
    knows = h;
  };
}

module _ {k : ℕ} {order out : List ℕ} (q : Queue) (rest : List ℕ)
    (at : IsAt k order out q rest) where
  -- Whatever is new at the head, the nodes stay linked.
  pub exchange_head-IsLinked :
      (skb : ℕ)
      → NotIn skb (q.tail ∷ rest)
      → IsLinked
          (exchange_head skb q).next
          (exchange_head skb q).waiting
          skb
          q.tail
          (rest ++ skb ∷ [])
  unfolding exchange_head
  exchange_head-IsLinked skb fresh =
      exchange-IsLinked q.next q.waiting q.head skb q.tail rest at.linked at.distinct fresh

  pub exchange-idle :
      (skb x : ℕ) → NotIn x (q.tail ∷ rest ++ skb ∷ []) → (exchange_head skb q).waiting x ≡ none
  unfolding exchange_head
  exchange-idle skb x other =
      let (others, last) = NotIn-of_append x (q.tail ∷ rest) skb other in
      let behind = head_in q.next q.waiting q.head x q.tail rest at.linked others in
      update_ne (update q.waiting skb none) q.head x (some skb) behind
      ∙ update_ne q.waiting skb x none last
      ∙ at.idle x others

  -- What is due stays due.
  exchange-waiting :
      (skb old new : ℕ)
      → NotIn skb (q.tail ∷ rest)
      → q.waiting old ≡ some new
      → (exchange_head skb q).waiting old ≡ some new
  unfolding exchange_head
  exchange-waiting skb old new fresh due =
      let idle_head = head_idle q.next q.waiting q.head q.tail rest at.linked in
      update_ne (update q.waiting skb none) q.head old (some skb)
        (λ e. none-some (sym idle_head ∙ ap q.waiting e ∙ due))
      ∙ update_ne q.waiting skb old none
          (λ e. none-some (sym (at.idle skb fresh) ∙ ap q.waiting e ∙ due))
      ∙ due

  pub exchange-Knows :
      (skb : ℕ) (c : Consumer)
      → skb ≢ stub
      → NotIn skb (q.tail ∷ rest)
      → Knows c q.waiting q.tail rest
      → Knows c (exchange_head skb q).waiting q.tail (rest ++ skb ∷ [])
  exchange-Knows skb outside ne fresh h = tt
  exchange-Knows skb reads_next ne fresh h = h
  exchange-Knows skb compares_head ne fresh h = h
  exchange-Knows skb exchanges ne fresh h = NotIn-append stub (q.tail ∷ rest) skb h ne
  exchange-Knows skb (links old) ne fresh h = (h.0, exchange-waiting skb old stub fresh h.1)
  exchange-Knows skb reads_again ne fresh h = h

  pub link-idle :
      (old new x : ℕ) → NotIn x (q.tail ∷ rest) → (link old (some new) q).waiting x ≡ none
  link-idle old new x other = elim (Bool-cases (old == x)) [
    | inl e ↦ rw e refl
    | inr e ↦ rw e (at.idle x other)
  ]

  pub link-Knows :
      (old skb : ℕ) (c : Consumer)
      → skb ≢ stub
      → q.waiting old ≡ some skb
      → Knows c q.waiting q.tail rest
      → Knows c (link old (some skb) q).waiting q.tail rest
  link-Knows old skb outside ne due h = tt
  link-Knows old skb reads_next ne due h = h
  link-Knows old skb compares_head ne due h = h
  link-Knows old skb exchanges ne due h = h
  link-Knows old skb (links mine) ne due h = (
    h.0,
    update_ne q.waiting old mine none (λ e. ne (some_inj (sym due ∙ ap q.waiting e ∙ h.1))) ∙ h.1,
  )
  link-Knows old skb reads_again ne due h = h
