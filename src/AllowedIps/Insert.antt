-- ===== src/AllowedIps/Insert.antt =====
-- add of kernel/allowedips.c as a change of one entry of the table.
use wgtcp.Base.{
  ℕ, ◌≤◌, ◌<◌, ◌≡◌, inl, inr, refl, arith, min, ◌==◌, ==_iff, ==_refl, leb, ◌&&◌, Bool, Bool-cases,
  if◌then◌else◌, Option, none, some, true, false, Result, ok, err, enomem, le→ltb,
}
use wgtcp.AllowedIps.{
  Bitops, Trie, null, node, common_bits, choose, found_at, connect_node, reconnect, split, place,
  add, prefix_matches,
}
use wgtcp.AllowedIps.Words.{IsPrefixOrder}
use wgtcp.AllowedIps.Routes.{IsTrie, route, route-none, route-node, is_entry, entry_lem}
use wgtcp.AllowedIps.Placed.{IsPlaced, Places, fresh, exact, above, forked}

module _ (ops : Bitops) (bits : ℕ)
    (order : IsPrefixOrder bits (common_bits ops bits) (choose bits)) where
  open order use {triangle, next, symmetric, self, within, binary}

  module _ (key cidr peer : ℕ) where
    descend_left :
        (c k : ℕ) (p : Option ℕ) (l r l' : Trie)
        → IsTrie ops bits (node c k p l r)
        → c < cidr
        → c ≤ common_bits ops bits k key
        → choose bits c key ≡ 0
        → IsPlaced ops bits order key cidr peer l l'
        → IsPlaced ops bits order key cidr peer (node c k p l r) (node c k p l' r)
    descend_left c k p l r l' v lt agrees side placed = record {
      trie = (v.0, placed.hangs c k 0 v.1 (lt, agrees, side), v.2, placed.trie, v.4);
      routed = λ x k'.
          rw
            (
              route-node ops bits c k p l' r x k',
              route-node ops bits c k p l r x k',
              placed.routed x k',
            )
            (in_left (is_entry ops bits c k x k') (is_entry ops bits cidr key x k') p _ _ (λ h g.
              let a = entry_lem ops bits c k x k' h in
              let b = entry_lem ops bits cidr key x k' g in omega arith));
      hangs = λ x k' bit h new. h;
    }
      where
        in_left :
            (here asked : Bool) (p a b : Option ℕ)
            → (here ≡ true → asked ≡ true → ⊥)
            → (if here then p else found_at (if asked then some peer else a) b)
              ≡ (if asked then some peer else (if here then p else found_at a b))
        in_left true true p a b ex = absurd (ex refl refl)
        in_left true false p a b ex = refl
        in_left false true p a b ex = refl
        in_left false false p a b ex = refl

    descend_right :
        (c k : ℕ) (p : Option ℕ) (l r r' : Trie)
        → IsTrie ops bits (node c k p l r)
        → cidr ≤ bits
        → c < cidr
        → c ≤ common_bits ops bits k key
        → choose bits c key ≡ 1
        → IsPlaced ops bits order key cidr peer r r'
        → IsPlaced ops bits order key cidr peer (node c k p l r) (node c k p l r')
    descend_right c k p l r r' v le lt agrees side placed = record {
      trie = (v.0, v.1, placed.hangs c k 1 v.2 (lt, agrees, side), v.3, placed.trie);
      routed = λ x k'.
          rw
            (
              route-node ops bits c k p l r' x k',
              route-node ops bits c k p l r x k',
              placed.routed x k',
            )
            (in_right (is_entry ops bits c k x k') (is_entry ops bits cidr key x k') p _ _
              (λ h g.
                let a = entry_lem ops bits c k x k' h in
                let b = entry_lem ops bits cidr key x k' g in omega arith)
              (λ g. other_side x k' (entry_lem ops bits cidr key x k' g).1));
      hangs = λ x k' bit h new. h;
    }
      where
        other_side : (x k' : ℕ) → cidr ≤ common_bits ops bits key k' → route ops bits l x k' ≡ none
        other_side x k' asked = route-none ops bits order c k 0 l x k' v.1 v.3 (λ b.
            let same = (next c key k' (omega arith) (omega arith)).0 (omega arith) in
            omega (arith, same, side, b))

        in_right :
            (here asked : Bool) (p a b : Option ℕ)
            → (here ≡ true → asked ≡ true → ⊥)
            → (asked ≡ true → a ≡ none)
            → (if here then p else found_at a (if asked then some peer else b))
              ≡ (if asked then some peer else (if here then p else found_at a b))
        in_right true true p a b ex no_a = absurd (ex refl refl)
        in_right true false p a b ex no_a = refl
        in_right false true p a b ex no_a = rw (no_a refl) refl
        in_right false false p a b ex no_a = refl

    reconnect-Places :
        (memory : Bool) (t child : Trie) (bit : ℕ) (result : Result Trie)
        → ((child' : Trie)
            → IsPlaced ops bits order key cidr peer child child'
            → IsPlaced ops bits order key cidr peer t (connect_node bit child' t))
        → Places ops bits order key cidr peer memory child result
        → Places ops bits order key cidr peer memory t (reconnect bit t result)
    reconnect-Places memory t child bit (ok child') up placed = up child' placed
    reconnect-Places memory t child bit (err e) up failed = failed

    split-Places :
        (first second : Bool) (c k : ℕ) (p : Option ℕ) (l r : Trie)
        → IsTrie ops bits (node c k p l r)
        → cidr ≤ bits
        → (leb c cidr && prefix_matches ops bits c k key) ≡ false
        → Places ops bits order key cidr peer
            (first && second)
            (node c k p l r)
            (if first then split ops bits key cidr peer second (node c k p l r) k else err enomem)
    unfolding split
    split-Places false second c k p l r v le other = (refl, refl)
    split-Places true second c k p l r v le other =
        let d = common_bits ops bits k key in
        elim (Bool-cases (leb cidr d)) [
          | inl covers ↦
              let e : min cidr d ≡ cidr = ground arith in
              rw (e, ==_refl cidr)
                (above ops bits order key cidr peer c k p l r v (ground arith) (ground arith))
          | inr parts ↦
              let e : min cidr d ≡ d = ground arith in
              let ne : (cidr == d) ≡ false = ground arith in
              rw (e, ne) (on_memory second (ground arith) (ground arith))
        ]
      where
        on_memory :
            (second : Bool)
            → common_bits ops bits k key < c
            → common_bits ops bits k key < cidr
            → Places ops bits order key cidr peer second (node c k p l r) (
                if second
                then ok (
                    connect_node
                      (choose bits (common_bits ops bits k key) key)
                      (node cidr key (some peer) null null)
                      (connect_node
                        (choose bits (common_bits ops bits k key) k)
                        (node c k p l r)
                        (node (common_bits ops bits k key) key none null null)))
                else err enomem)
        on_memory true apart_c apart =
            forked ops bits order key cidr peer (common_bits ops bits k key) c k p l r v le refl
              apart_c apart
        on_memory false apart_c apart = (refl, refl)

    -- With memory the entry is set; without it the trie is as it was.
    place-Places :
        (first second : Bool) (t : Trie)
        → IsTrie ops bits t
        → cidr ≤ bits
        → Places ops bits order key cidr peer
            (first && second)
            t
            (place ops bits key cidr peer first second t)
    unfolding place
    place-Places true second null v le = fresh ops bits order key cidr peer tt le
    place-Places false second null v le = (refl, refl)
    place-Places first second (node c k p l r) v le =
        elim (Bool-cases (leb c cidr && prefix_matches ops bits c k key)) [
          | inr other ↦ rw other (split-Places first second c k p l r v le other)
          | inl on ↦ elim (Bool-cases (c == cidr)) [
            | inl here ↦
                rw (on, here)
                  (exact ops bits order key cidr peer c k p l r v ((==_iff _ _).0 here)
                    (ground arith))
            | inr deeper ↦ elim (Bool-cases (choose bits c key == 0)) [
              | inl zero_side ↦
                  rw (on, deeper, zero_side)
                    (reconnect-Places (first && second) (node c k p l r) l 0 _
                      (λ l' placed.
                        descend_left c k p l r l' v (ground arith) (ground arith) (ground arith)
                          placed)
                      (place-Places first second l v.3 le))
              | inr one_side ↦
                  rw (on, deeper, one_side)
                    (reconnect-Places (first && second) (node c k p l r) r 1 _
                      (λ r' placed.
                        descend_right c k p l r r' v le (ground arith) (ground arith)
                          (ground (arith, binary c key)) placed)
                      (place-Places first second r v.4 le))
            ]
          ]
        ]

    pub add-ok :
        (t : Trie)
        → IsTrie ops bits t
        → cidr ≤ bits
        → (first second : Bool)
        → Places ops bits order key cidr peer
            (first && second)
            t
            (add ops bits key cidr peer first second t)
    unfolding add
    add-ok t v le first second = rw (le→ltb bits cidr le) (place-Places first second t v le)
