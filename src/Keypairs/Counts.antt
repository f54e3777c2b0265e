-- ===== src/Keypairs/Counts.antt =====
-- The references to the key pairs of a peer: one for each place in struct noise_keypairs and one
-- for each packet that is being worked on with the key pair.
use wgtcp.Base.{
  ℕ, ◌+◌, ◌-◌, ◌≤◌, ◌<◌, ◌≡◌, ◌≢◌, ◌⊎◌, inl, inr, refl, ap, arith, Bool, true, false, ◌&&◌, ◌||◌,
  ◌==◌, ==_iff, ==_refl, Bool-cases, if◌then◌else◌, Option, none, some,
}
use wgtcp.Keypairs.{
  Keypairs, update, is_some, refs_after, indexed_after, keypair_put, keypair_get, keypairs_clear,
  expire_current_peer_keypairs, place_initiator, place_responder, received_with_keypair,
}

-- One if the pointer is to this key pair.
abbrev pub one : Option ℕ → ℕ → ℕ
one o k = if is_some k o then 1 else 0

-- How many of the three places hold a key pair.
abbrev pub places : Keypairs → ℕ → ℕ
places ks k = one ks.previous k + one ks.current k + one ks.next k

-- `held k` packets are being worked on with key pair `k`.
pub record IsCounted (held : ℕ → ℕ) (ks : Keypairs) : Type 0 where
  pub counted : (k : ℕ) → ks.refs k ≡ places ks k + held k
  pub distinct : (k : ℕ) → places ks k ≤ 1
  pub reachable : (k : ℕ) → ks.indexed k ≡ true → places ks k ≡ 1

-- What keypair_put does to one key pair.
pub refs_after_lem : (o : Option ℕ) (refs : ℕ → ℕ) (j : ℕ) → refs_after o refs j ≡ refs j - one o j
unfolding refs_after
refs_after_lem none refs j = omega arith
refs_after_lem (some k) refs j = elim (Bool-cases (k == j)) [
  | inl e ↦ let same : k ≡ j = (==_iff k j).0 e in rw (e, same) refl
  | inr e ↦ rw e (omega arith)
]

pub indexed_after_lem :
    (o : Option ℕ) (now : Bool) (refs : ℕ → ℕ) (indexed : ℕ → Bool) (j : ℕ)
    → indexed_after o now refs indexed j ≡ true
    → (indexed j ≡ true) × (now ≡ true → one o j ≡ 0) × (one o j ≡ 0 ⊎ (refs j ≢ 1))
unfolding indexed_after
indexed_after_lem none now refs indexed j h = (h, λ e. refl, inl refl)
indexed_after_lem (some k) now refs indexed j h = elim (Bool-cases (k == j)) [
  | inr e ↦ (rw e at h, λ n. rw e refl, inl (rw e refl))
  | inl e ↦
      let same : k ≡ j = (==_iff k j).0 e in
      let at : (if now || refs k == 1 then false else indexed k) ≡ true = rw e at h in
      let fact = kept now (refs k == 1) (indexed k) at in
      (
        rw same at fact.2,
        λ n. absurd (not_both now fact.0 n),
        inr (λ r. not_both (refs k == 1) fact.1 ((==_iff _ _).1 (rw same r))),
      )
]
  where
    not_both : (b : Bool) → b ≡ false → b ≡ true → ⊥
    not_both b p q = cc

    kept :
        (a b c : Bool)
        → (if a || b then false else c) ≡ true
        → (a ≡ false) × (b ≡ false) × (c ≡ true)
    kept true b c h = absurd (cc)
    kept false true c h = absurd (cc)
    kept false false c h = (refl, refl, h)

one-eq : (k j : ℕ) → one (some k) j ≢ 0 → k ≡ j
one-eq k j h = ground arith

one_self : (j : ℕ) → one (some j) j ≡ 1
one_self j = rw (==_refl j) refl

one_other : (k j : ℕ) → (k == j) ≡ false → one (some k) j ≡ 0
one_other k j e = rw e refl

pub initiator_places :
    (new : ℕ) (previous current next : Option ℕ) (ks : Keypairs)
    → 1 ≤ places (place_initiator new previous current next ks) new
unfolding place_initiator
initiator_places new previous current none ks = omega (arith, one_self new)
initiator_places new previous current (some n) ks = omega (arith, one_self new)

pub responder_places :
    (new : ℕ) (previous next : Option ℕ) (ks : Keypairs)
    → 1 ≤ places (place_responder new previous next ks) new
unfolding place_responder
responder_places new previous next ks = omega (arith, one_self new)

module _ (held : ℕ → ℕ) where
  -- Forgetting all three.
  pub clear-IsCounted : (ks : Keypairs) → IsCounted held ks → IsCounted held (keypairs_clear ks)
  unfolding keypairs_clear
  clear-IsCounted ks v = record {
    counted = λ k. omega (
      arith,
      v.counted k,
      refs_after_lem ks.current (refs_after ks.previous (refs_after ks.next ks.refs)) k,
      refs_after_lem ks.previous (refs_after ks.next ks.refs) k,
      refs_after_lem ks.next ks.refs k,
    );
    distinct = λ k. omega arith;
    reachable = λ k h.
        let (h1, a, x) = indexed_after_lem ks.current true _ _ k h in
        let (h2, b, y) = indexed_after_lem ks.previous true _ _ k h1 in
        let (h3, c, z) = indexed_after_lem ks.next true _ _ k h2 in
        let zero_c = a refl in
        let zero_p = b refl in let zero_n = c refl in omega (arith, v.reachable k h3);
  }

  pub expire-IsCounted :
      (ks : Keypairs) → IsCounted held ks → IsCounted held (expire_current_peer_keypairs ks)
  unfolding expire_current_peer_keypairs
  expire-IsCounted ks v = record {
    counted = v.counted;
    distinct = v.distinct;
    reachable = v.reachable;
  }

  some_of : (k : ℕ) (o : Option ℕ) → is_some k o ≡ true → o ≡ some k
  some_of k none e = cc
  some_of k (some a) e = ap some ((==_iff a k).0 e)

  pub received-IsCounted :
      (received : ℕ) (seen : Option ℕ) (ks : Keypairs)
      → IsCounted held ks
      → IsCounted held (received_with_keypair received seen ks).0
  unfolding received_with_keypair
  received-IsCounted received seen ks v =
      elim (Bool-cases (is_some received seen && is_some received ks.next)) [
        | inr other ↦ rw other v
        | inl same ↦
            let next_is : ks.next ≡ some received = some_of received ks.next (ground arith) in
            let pending = λ (k : ℕ). ap (λ o. one o k) next_is in
            rw same (record {
              counted =
                  λ k. omega (arith, v.counted k, pending k, refs_after_lem ks.previous ks.refs k);
              distinct = λ k. omega (arith, v.distinct k, pending k);
              reachable = λ k h.
                  let (h1, a, x) = indexed_after_lem ks.previous true _ _ k h in
                  let zero_p = a refl in
                  let before = v.reachable k h1 in omega (arith, before, pending k);
            })
      ]

-- A packet takes a reference, and gives it back.
pub get-IsCounted :
    (held : ℕ → ℕ) (k : ℕ) (ks : Keypairs)
    → 0 < ks.refs k
    → IsCounted held ks
    → IsCounted (update held k (held k + 1)) (keypair_get (some k) ks).0
unfolding keypair_get
get-IsCounted held k ks live v =
    let more : (ks.refs k == 0) ≡ false = ground arith in
    rw more (record {
      counted = λ j. elim (Bool-cases (k == j)) [
        | inl e ↦ let same : k ≡ j = (==_iff k j).0 e in rw (e, same) (omega (arith, v.counted j))
        | inr e ↦ rw e (v.counted j)
      ];
      distinct = v.distinct;
      reachable = v.reachable;
    })

pub put-IsCounted :
    (held : ℕ → ℕ) (k : ℕ) (ks : Keypairs)
    → 0 < held k
    → IsCounted held ks
    → IsCounted (update held k (held k - 1)) (keypair_put (some k) false ks)
unfolding keypair_put
put-IsCounted held k ks has v = record {
  counted = λ j. elim (Bool-cases (k == j)) [
    | inl e ↦
        let same : k ≡ j = (==_iff k j).0 e in
        let holds : 0 < held j = rw same at has in
        rw (e, same) (omega (arith, v.counted j, refs_after_lem (some j) ks.refs j, one_self j))
    | inr e ↦ rw e (omega (arith, v.counted j, refs_after_lem (some k) ks.refs j, one_other k j e))
  ];
  distinct = v.distinct;
  reachable = λ j h. v.reachable j (indexed_after_lem (some k) false _ _ j h).0;
}
