-- ===== src/AllowedIps/Unlink.antt =====
-- One node taken out by remove_node, and what becomes of the node above it.
use wgtcp.Base.{ℕ, ◌≤◌, ◌<◌, ◌≡◌, refl, sym, ap, ◌∙◌, arith, Bool, Option, none, true, false}
use wgtcp.AllowedIps.{Bitops, Trie, null, node, common_bits, choose, found_at, remove_node}
use wgtcp.AllowedIps.Words.{IsPrefixOrder}
use wgtcp.AllowedIps.Routes.{
  HangsAt, IsTrie, route, route-node, route-none, found_at-none, is_entry, entry_lem,
}
use wgtcp.AllowedIps.Cut.{
  cut, cut_here, cut_bare, cut_left, cut_right, cut_collapse_left, cut_collapse_right,
}

module _ (ops : Bitops) (bits : ℕ)
    (order : IsPrefixOrder bits (common_bits ops bits) (choose bits)) where
  open order use {triangle, next, symmetric, self, within, binary}

  HangsAt-trans :
      (c k bit c' k' bit' : ℕ) (t : Trie)
      → c' ≤ bits
      → HangsAt ops bits c k bit (node c' k' none null null)
      → HangsAt ops bits c' k' bit' t
      → HangsAt ops bits c k bit t
  HangsAt-trans c k bit c' k' bit' null le up below = tt
  HangsAt-trans c k bit c' k' bit' (node d e p l r) le (lt, agrees, side) (deep, same, other) =
      let on = (next c k' e (omega arith) (omega arith)).0 (omega arith) in
      (omega arith, omega (arith, triangle k k' e), sym on ∙ side)

  module _ (key cidr : ℕ) (wanted : Option ℕ → Bool) where
    -- `t'` is `t` without the entry, if that is wanted.
    pub record IsRemoved (t : Trie) (result : Trie × Bool) : Type 0 where
      pub trie : IsTrie ops bits result.0
      pub routed :
          (c k : ℕ)
          → route ops bits result.0 c k
            ≡ cut wanted (is_entry ops bits cidr key c k) (route ops bits t c k)
      pub hangs : (c k bit : ℕ) → HangsAt ops bits c k bit t → HangsAt ops bits c k bit result.0
      pub emptied : result.1 ≡ true → result.0 ≡ null

    Asks : ℕ → ℕ → Type 0
    Asks c k = is_entry ops bits cidr key c k ≡ true

    -- Below and beside the exact node nothing is asked for.
    module _ (c k : ℕ) (p : Option ℕ) (l r : Trie) (v : IsTrie ops bits (node c k p l r))
        (le : cidr ≤ bits) (agrees : c ≤ common_bits ops bits k key) where
      none_deep_left : (x k' : ℕ) → is_entry ops bits c k x k' ≡ true → route ops bits l x k' ≡ none
      none_deep_left x k' here =
          let e = entry_lem ops bits c k x k' here in
          route-none ops bits order c k 0 l x k' v.1 v.3 (λ b. omega arith)

      none_deep_right :
          (x k' : ℕ) → is_entry ops bits c k x k' ≡ true → route ops bits r x k' ≡ none
      none_deep_right x k' here =
          let e = entry_lem ops bits c k x k' here in
          route-none ops bits order c k 1 r x k' v.2 v.4 (λ b. omega arith)

      side_of :
          (x k' : ℕ)
          → c < cidr
          → is_entry ops bits cidr key x k' ≡ true
          → choose bits c k' ≡ choose bits c key
      side_of x k' lt asked =
          let e = entry_lem ops bits cidr key x k' asked in
          sym ((next c key k' (omega arith) (omega arith)).0 (omega arith))

      none_left :
          (x k' : ℕ)
          → c < cidr
          → choose bits c key ≡ 1
          → is_entry ops bits cidr key x k' ≡ true
          → route ops bits l x k' ≡ none
      none_left x k' lt side asked =
          let same = side_of x k' lt asked in
          route-none ops bits order c k 0 l x k' v.1 v.3 (λ b. omega arith)

      none_right :
          (x k' : ℕ)
          → c < cidr
          → choose bits c key ≡ 0
          → is_entry ops bits cidr key x k' ≡ true
          → route ops bits r x k' ≡ none
      none_right x k' lt side asked =
          let same = side_of x k' lt asked in
          route-none ops bits order c k 1 r x k' v.2 v.4 (λ b. omega arith)

      apart :
          (x k' : ℕ)
          → c < cidr
          → is_entry ops bits c k x k' ≡ true
          → is_entry ops bits cidr key x k' ≡ true
          → ⊥
      apart x k' lt here asked =
          let a = entry_lem ops bits c k x k' here in
          let b = entry_lem ops bits cidr key x k' asked in omega arith

      pub same_entry :
          (x k' : ℕ) → c ≡ cidr → is_entry ops bits c k x k' ≡ is_entry ops bits cidr key x k'
      same_entry x k' e = ground (arith, triangle k key k', triangle key k k', symmetric k key)

      -- The exact node, replaced by its only child or left without a peer.
      module _ (exact : c ≡ cidr) (goes : wanted p ≡ true) where
        by_child :
            (t : Trie) (gone : Bool)
            → IsTrie ops bits t
            → ((x k' bit : ℕ)
                → HangsAt ops bits x k' bit (node c k p l r)
                → HangsAt ops bits x k' bit t)
            → ((x k' : ℕ)
                → route ops bits t x k' ≡ found_at (route ops bits l x k') (route ops bits r x k'))
            → (gone ≡ true → t ≡ null)
            → IsRemoved (node c k p l r) (t, gone)
        by_child t gone vt up same empty = record {
          trie = vt;
          routed = λ x k'.
              same x k'
              ∙ rw (route-node ops bits c k p l r x k') (
                  cut_here wanted (is_entry ops bits c k x k') (is_entry ops bits cidr key x k') p
                    (found_at (route ops bits l x k') (route ops bits r x k'))
                    (same_entry x k' exact) goes
                    (λ here. rw (none_deep_left x k' here, none_deep_right x k' here) refl));
          hangs = up;
          emptied = empty;
        }

        bare_node : IsRemoved (node c k p l r) (node c k none l r, false)
        bare_node = record {
          trie = v;
          routed = λ x k'.
              rw (route-node ops bits c k none l r x k', route-node ops bits c k p l r x k')
                (cut_bare wanted (is_entry ops bits c k x k') (is_entry ops bits cidr key x k') p _
                  (same_entry x k' exact) goes);
          hangs = λ x k' bit h. h;
          emptied = λ e. absurd (cc);
        }

        pub remove_node-IsRemoved : IsRemoved (node c k p l r) (remove_node c k l r)
        unfolding route
        remove_node-IsRemoved = of_children l r v bare_node by_child
          where
            of_children :
                (l r : Trie)
                → IsTrie ops bits (node c k p l r)
                → IsRemoved (node c k p l r) (node c k none l r, false)
                → ((t : Trie) (gone : Bool)
                    → IsTrie ops bits t
                    → ((x k' bit : ℕ)
                        → HangsAt ops bits x k' bit (node c k p l r)
                        → HangsAt ops bits x k' bit t)
                    → ((x k' : ℕ)
                        → route ops bits t x k'
                          ≡ found_at (route ops bits l x k') (route ops bits r x k'))
                    → (gone ≡ true → t ≡ null)
                    → IsRemoved (node c k p l r) (t, gone))
                → IsRemoved (node c k p l r) (remove_node c k l r)
            of_children null null v bare child =
                child null true tt (λ x k' bit h. tt) (λ x k'. refl) (λ e. refl)
            of_children null (node d e q a b) v bare child =
                child (node d e q a b) false v.4
                  (λ x k' bit h. HangsAt-trans x k' bit c k 1 (node d e q a b) v.0 h v.2)
                  (λ x k'. refl) (λ e. absurd (cc))
            of_children (node d e q a b) null v bare child =
                child (node d e q a b) false v.3
                  (λ x k' bit h. HangsAt-trans x k' bit c k 0 (node d e q a b) v.0 h v.1)
                  (λ x k'. sym (found_at-none _)) (λ e. absurd (cc))
            of_children (node d e q a b) (node d' e' q' a' b') v bare child = bare

      module _ (lt : c < cidr) where
        pub keeps_left :
            (l' : Trie) (gone : Bool)
            → choose bits c key ≡ 0
            → IsRemoved l (l', gone)
            → IsRemoved (node c k p l r) (node c k p l' r, false)
        keeps_left l' gone side done = record {
          trie = (v.0, done.hangs c k 0 v.1, v.2, done.trie, v.4);
          routed = λ x k'.
              rw
                (
                  route-node ops bits c k p l' r x k',
                  route-node ops bits c k p l r x k',
                  done.routed x k',
                )
                (cut_left wanted (is_entry ops bits c k x k') (is_entry ops bits cidr key x k') p _
                  _ (apart x k' lt) (none_right x k' lt side));
          hangs = λ x k' bit h. h;
          emptied = λ e. absurd (cc);
        }

        pub keeps_right :
            (r' : Trie) (gone : Bool)
            → choose bits c key ≡ 1
            → IsRemoved r (r', gone)
            → IsRemoved (node c k p l r) (node c k p l r', false)
        keeps_right r' gone side done = record {
          trie = (v.0, v.1, done.hangs c k 1 v.2, v.3, done.trie);
          routed = λ x k'.
              rw
                (
                  route-node ops bits c k p l r' x k',
                  route-node ops bits c k p l r x k',
                  done.routed x k',
                )
                (cut_right wanted (is_entry ops bits c k x k') (is_entry ops bits cidr key x k') p _
                  _ (apart x k' lt) (none_left x k' lt side));
          hangs = λ x k' bit h. h;
          emptied = λ e. absurd (cc);
        }

        pub collapses_left :
            (l' : Trie)
            → p ≡ none
            → choose bits c key ≡ 0
            → IsRemoved l (l', true)
            → IsRemoved (node c k p l r) (r, false)
        unfolding route
        collapses_left l' bare side done = record {
          trie = v.4;
          routed = λ x k'.
              rw (route-node ops bits c k p l r x k', bare)
                (cut_collapse_left wanted (is_entry ops bits c k x k')
                  (is_entry ops bits cidr key x k') _ _ (went x k') (none_deep_right x k')
                  (none_right x k' lt side));
          hangs = λ x k' bit h. HangsAt-trans x k' bit c k 1 r v.0 h v.2;
          emptied = λ e. absurd (cc);
        }
          where
            went :
                (x k' : ℕ)
                → none ≡ cut wanted (is_entry ops bits cidr key x k') (route ops bits l x k')
            went x k' = sym (ap (λ t. route ops bits t x k') (done.emptied refl)) ∙ done.routed x k'

        pub collapses_right :
            (r' : Trie)
            → p ≡ none
            → choose bits c key ≡ 1
            → IsRemoved r (r', true)
            → IsRemoved (node c k p l r) (l, false)
        unfolding route
        collapses_right r' bare side done = record {
          trie = v.3;
          routed = λ x k'.
              rw (route-node ops bits c k p l r x k', bare)
                (cut_collapse_right wanted (is_entry ops bits c k x k')
                  (is_entry ops bits cidr key x k') _ _ (went x k') (none_deep_left x k')
                  (none_left x k' lt side));
          hangs = λ x k' bit h. HangsAt-trans x k' bit c k 0 l v.0 h v.1;
          emptied = λ e. absurd (cc);
        }
          where
            went :
                (x k' : ℕ)
                → none ≡ cut wanted (is_entry ops bits cidr key x k') (route ops bits r x k')
            went x k' = sym (ap (λ t. route ops bits t x k') (done.emptied refl)) ∙ done.routed x k'
