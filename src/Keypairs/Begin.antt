-- ===== src/Keypairs/Begin.antt =====
-- The references to the key pairs when a session begins: keypair_create, add_new_keypair and
-- wg_noise_handshake_begin_session of kernel/noise.c.
use wgtcp.Base.{
  ℕ, ◌+◌, ◌≤◌, ◌≡◌, inl, inr, refl, ap, arith, Bool, true, false, not, ◌==◌, ==_iff, Bool-cases,
  if◌then◌else◌, Option, none, some,
}
use wgtcp.Keypairs.{
  Keypairs, zeroed, refs_after, place_initiator, place_responder, add_new_keypair, keypair_create,
  hashtable_replace, begin_session, may_begin, is_initiator,
}
use wgtcp.Keypairs.Counts.{
  one, places, IsCounted, refs_after_lem, indexed_after_lem, initiator_places, responder_places,
}

module _ (held : ℕ → ℕ) where
  -- A key pair that is not among the three yet, with the one reference of its creator.
  record IsCreated (new : ℕ) (ks : Keypairs) : Type 0 where
    counted : (k : ℕ) → ks.refs k ≡ places ks k + held k + one (some new) k
    distinct : (k : ℕ) → places ks k + one (some new) k ≤ 1
    reachable : (k : ℕ) → ks.indexed k ≡ true → (places ks k ≡ 1) × (one (some new) k ≡ 0)

  create-IsCreated :
      (new : ℕ) (began : Bool) (ks : Keypairs)
      → ks.refs new ≡ 0
      → IsCounted held ks
      → IsCreated new (keypair_create new began ks)
  create-IsCreated new began ks unused v = record {
    counted = λ k. elim (Bool-cases (new == k)) [
      | inl e ↦
          let same : new ≡ k = (==_iff new k).0 e in
          let none_yet : ks.refs k ≡ 0 = rw same at unused in
          rw e (omega (arith, v.counted k, none_yet))
      | inr e ↦ rw e (omega (arith, v.counted k))
    ];
    distinct = λ k. elim (Bool-cases (new == k)) [
      | inl e ↦
          let same : new ≡ k = (==_iff new k).0 e in
          let none_yet : ks.refs k ≡ 0 = rw same at unused in
          rw e (omega (arith, v.counted k, none_yet))
      | inr e ↦ rw e (omega (arith, v.distinct k))
    ];
    reachable = λ k h. elim (Bool-cases (new == k)) [
      | inl e ↦ absurd (cc (rw e at h))
      | inr e ↦ rw e (v.reachable k (rw e at h), refl)
    ];
  }

  initiator-IsCounted :
      (new : ℕ) (next : Option ℕ) (ks : Keypairs)
      → ks.next ≡ next
      → IsCreated new ks
      → IsCounted held (place_initiator new ks.previous ks.current next ks)
  unfolding place_initiator
  initiator-IsCounted new none ks e v =
      let nothing = λ (k : ℕ). ap (λ o. one o k) e in
      record {
        counted =
            λ k. rw e (omega (arith, v.counted k, nothing k, refs_after_lem ks.previous ks.refs k));
        distinct = λ k. rw e (omega (arith, v.distinct k, nothing k));
        reachable = λ k h.
            let (h1, a, x) = indexed_after_lem ks.previous true _ _ k h in
            let zero_p = a refl in
            let before = v.reachable k h1 in rw e (omega (arith, before, nothing k));
      }
  initiator-IsCounted new (some n) ks e v =
      let pending = λ (k : ℕ). ap (λ o. one o k) e in
      record {
        counted = λ k. omega (
          arith,
          v.counted k,
          pending k,
          refs_after_lem ks.previous (refs_after ks.current ks.refs) k,
          refs_after_lem ks.current ks.refs k,
        );
        distinct = λ k. omega (arith, v.distinct k, pending k);
        reachable = λ k h.
            let (h1, a, x) = indexed_after_lem ks.previous true _ _ k h in
            let (h2, b, y) = indexed_after_lem ks.current true _ _ k h1 in
            let zero_p = a refl in
            let zero_c = b refl in
            let before = v.reachable k h2 in omega (arith, before, pending k);
      }

  responder-IsCounted :
      (new : ℕ) (ks : Keypairs)
      → IsCreated new ks
      → IsCounted held (place_responder new ks.previous ks.next ks)
  unfolding place_responder
  responder-IsCounted new ks v = record {
    counted = λ k. omega (
      arith,
      v.counted k,
      refs_after_lem ks.previous (refs_after ks.next ks.refs) k,
      refs_after_lem ks.next ks.refs k,
    );
    distinct = λ k. omega (arith, v.distinct k);
    reachable = λ k h.
        let (h1, a, x) = indexed_after_lem ks.previous true _ _ k h in
        let (h2, b, y) = indexed_after_lem ks.next true _ _ k h1 in
        let zero_p = a refl in
        let zero_n = b refl in let before = v.reachable k h2 in omega (arith, before);
  }

  -- The new key pair has taken one of the places.
  add_new_keypair-IsCounted :
      (new : ℕ) (ks : Keypairs)
      → IsCreated new ks
      → IsCounted held (add_new_keypair new ks) × (places (add_new_keypair new ks) new ≡ 1)
  unfolding add_new_keypair
  add_new_keypair-IsCounted new ks v = elim (Bool-cases (ks.initiator new)) [
    | inl began ↦
        let done = initiator-IsCounted new ks.next ks refl v in
        rw began (
          done,
          placed (done.distinct new) (initiator_places new ks.previous ks.current ks.next ks),
        )
    | inr answered ↦
        let done = responder-IsCounted new ks v in
        rw answered (done, placed (done.distinct new) (responder_places new ks.previous ks.next ks))
  ]
    where
      placed : {n : ℕ} → n ≤ 1 → 1 ≤ n → n ≡ 1
      placed p q = omega arith

  -- Both branches of a test keep the counts.
  if-IsCounted :
      (b : Bool) (x y : Keypairs × Bool)
      → (b ≡ true → IsCounted held x.0)
      → (b ≡ false → IsCounted held y.0)
      → IsCounted held (if b then x else y).0
  if-IsCounted true x y p q = p refl
  if-IsCounted false x y p q = q refl

  index-IsCounted :
      (new : ℕ) (ks : Keypairs)
      → IsCounted held ks
      → places ks new ≡ 1
      → IsCounted held (hashtable_replace new ks).0
  index-IsCounted new ks v here =
      if-IsCounted ks.hashed _ _
        (λ entry. record {
          counted = v.counted;
          distinct = v.distinct;
          reachable = λ k h. elim (Bool-cases (new == k)) [
            | inl e ↦ let same : new ≡ k = (==_iff new k).0 e in rw same at here
            | inr e ↦ v.reachable k (rw e at h)
          ];
        })
        (λ no_entry. v)

  pub begin-IsCounted :
      (new : ℕ) (ks : Keypairs)
      → ks.refs new ≡ 0
      → IsCounted held ks
      → IsCounted held (begin_session (some new) ks).0
  unfolding begin_session
  begin-IsCounted new ks unused v =
      let created = keypair_create new (is_initiator ks.handshake) ks in
      let c = create-IsCreated new (is_initiator ks.handshake) ks unused v in
      let fresh : IsCreated new (record created { handshake = zeroed }) = record {
        counted = c.counted;
        distinct = c.distinct;
        reachable = c.reachable;
      } in
      let added = add_new_keypair-IsCounted new (record created { handshake = zeroed }) fresh in
      if-IsCounted (not (may_begin ks.handshake)) _ _ (λ not_yet. v)
        (λ may.
          if-IsCounted ks.is_dead _ _
            (λ dead. record { counted = v.counted; distinct = v.distinct; reachable = v.reachable })
            (λ alive. index-IsCounted new _ added.0 added.1))
