-- ===== src/AllowedIps/Placed.antt =====
-- One node added to a trie by add of kernel/allowedips.c, at the place that the walk has found.
use wgtcp.Base.{
  ℕ, ◌≤◌, ◌<◌, ◌≡◌, ◌≢◌, inl, inr, refl, sym, ◌∙◌, arith, ◌==◌, Bool, Bool-cases, Option-cases,
  if◌then◌else◌, Option, none, some, true, false, Result, ok, err, enomem,
}
use wgtcp.AllowedIps.{Bitops, Trie, null, node, common_bits, choose, found_at, connect_node}
use wgtcp.AllowedIps.Words.{IsPrefixOrder}
use wgtcp.AllowedIps.Routes.{
  HangsAt, IsTrie, route, route-root, found_at-none, route-node, is_entry, entry_lem,
}

module _ (ops : Bitops) (bits : ℕ)
    (order : IsPrefixOrder bits (common_bits ops bits) (choose bits)) where
  open order use {triangle, next, symmetric, self, within, binary}

  module _ (key cidr peer : ℕ) where
    -- Of the two children of a branching node at most one has what is asked for.
    only_one :
        (here asked : Bool) (old : Option ℕ)
        → (here ≡ true → old ≡ none)
        → (asked ≡ true → old ≡ none)
        → (here ≡ true → asked ≡ true → ⊥)
        → (if here then none else found_at old (if asked then some peer else none))
          ≡ (if asked then some peer else old)
    only_one true true old a b c = absurd (c refl refl)
    only_one true false old a b c = sym (a refl)
    only_one false true old a b c = rw (b refl) refl
    only_one false false old a b c = found_at-none old

    new_first :
        (here asked : Bool) (old : Option ℕ)
        → (here ≡ true → old ≡ none)
        → (here ≡ true → asked ≡ true → ⊥)
        → (if here then none else found_at (if asked then some peer else none) old)
          ≡ (if asked then some peer else old)
    new_first true true old a c = absurd (c refl refl)
    new_first true false old a c = sym (a refl)
    new_first false true old a c = refl
    new_first false false old a c = refl

    -- `t'` is `t` with one entry set.
    pub record IsPlaced (t t' : Trie) : Type 0 where
      pub trie : IsTrie ops bits t'
      pub routed :
          (c k : ℕ)
          → route ops bits t' c k
            ≡ (if is_entry ops bits cidr key c k then some peer else route ops bits t c k)
      pub hangs :
          (c k bit : ℕ)
          → HangsAt ops bits c k bit t
          → HangsAt ops bits c k bit (node cidr key none null null)
          → HangsAt ops bits c k bit t'

    abbrev pub Places : Bool → Trie → Result Trie → Type 0
    Places memory t (ok t') = IsPlaced t t'
    Places memory t (err e) = (e ≡ enomem) × (memory ≡ false)

    -- A node replaces a subtree that lies apart.
    pub fresh :
        IsTrie ops bits null → cidr ≤ bits → IsPlaced null (node cidr key (some peer) null null)
    unfolding route
    fresh v le = record {
      trie = (le, tt, tt, tt, tt);
      routed = λ c k. refl;
      hangs = λ c k bit h new. new;
    }

    pub exact :
        (c k : ℕ) (p : Option ℕ) (l r : Trie)
        → IsTrie ops bits (node c k p l r)
        → c ≡ cidr
        → cidr ≤ common_bits ops bits k key
        → IsPlaced (node c k p l r) (node c k (some peer) l r)
    unfolding route
    exact c k p l r v same agrees = record {
      trie = v;
      routed = λ x k'. ground (arith, triangle k key k', triangle key k k', symmetric k key);
      hangs = λ x k' bit h new. h;
    }

    -- The new node above a longer prefix.
    pub above :
        (c k : ℕ) (p : Option ℕ) (l r : Trie)
        → IsTrie ops bits (node c k p l r)
        → cidr < c
        → cidr ≤ common_bits ops bits k key
        → IsPlaced (node c k p l r) (
            connect_node
              (choose bits cidr k)
              (node c k p l r)
              (node cidr key (some peer) null null))
    unfolding route
    above c k p l r v lt agrees = elim (Bool-cases (choose bits cidr k == 0)) [
      | inl zero_side ↦ rw zero_side (record {
        trie = (omega (arith, v.0), (lt, omega (arith, symmetric k key), ground arith), tt, v, tt);
        routed = λ c' k'. ground (arith, found_at-none (route ops bits (node c k p l r) c' k'));
        hangs = λ c' k' bit h new. new;
      })
      | inr one_side ↦ rw one_side (record {
        trie = (
          omega (arith, v.0),
          tt,
          (lt, omega (arith, symmetric k key), ground (arith, binary cidr k)),
          tt,
          v,
        );
        routed = λ c' k'. refl;
        hangs = λ c' k' bit h new. new;
      })
    ]

    -- A new branching node above two prefixes that part: the old one and the new one.
    module _ (d c k : ℕ) (p : Option ℕ) (l r : Trie) (v : IsTrie ops bits (node c k p l r))
        (le : cidr ≤ bits) (parts : d ≡ common_bits ops bits k key) (apart_c : d < c)
        (apart : d < cidr) where
      abbrev old_node : Trie
      old_node = node c k p l r

      abbrev new_node : Trie
      new_node = node cidr key (some peer) null null

      -- Where the new prefix is asked for there was no entry, nor where the two part.
      not_new :
          (x k' : ℕ) → is_entry ops bits cidr key x k' ≡ true → route ops bits old_node x k' ≡ none
      not_new x k' asked = elim (Option-cases (route ops bits old_node x k')) [
        | inl e ↦ e
        | inr (q, e) ↦
            let root = route-root ops bits order c k p l r x k' q v e in
            let it = entry_lem ops bits cidr key x k' asked in
            absurd (omega (arith, triangle k k' key, symmetric key k'))
      ]

      not_short : (x k' : ℕ) → x ≡ d → route ops bits old_node x k' ≡ none
      not_short x k' short = elim (Option-cases (route ops bits old_node x k')) [
        | inl e ↦ e
        | inr (q, e) ↦
            let root = route-root ops bits order c k p l r x k' q v e in absurd (omega arith)
      ]

      asked_lem :
          (x k' : ℕ)
          → route ops bits new_node x k'
            ≡ (if is_entry ops bits cidr key x k' then some peer else none)
      unfolding route
      asked_lem x k' = refl

      fork_hangs :
          (x k' bit : ℕ)
          → HangsAt ops bits x k' bit old_node
          → HangsAt ops bits x k' bit new_node
          → HangsAt ops bits x k' bit (node d key none null null)
      fork_hangs x k' bit (lt, agrees, side) (lt_new, agrees_new, side_new) =
          let common = triangle k k' key in
          let more =
            (next x k key (omega (arith, v.0)) (omega (arith, symmetric k k', symmetric k' key))).1
              (side ∙ sym side_new) in
          (omega arith, agrees_new, side_new)

      old_left :
          choose bits d k ≡ 0
          → choose bits d key ≡ 1
          → IsPlaced old_node (node d key none old_node new_node)
      old_left old_side new_side = record {
        trie = (
          omega (arith, v.0),
          (apart_c, omega (arith, symmetric k key), old_side),
          (apart, omega (arith, self key), new_side),
          v,
          (le, tt, tt, tt, tt),
        );
        routed = λ x k'.
            route-node ops bits d key none old_node new_node x k'
            ∙ rw (asked_lem x k') (
                only_one (is_entry ops bits d key x k') (is_entry ops bits cidr key x k')
                  (route ops bits old_node x k')
                  (λ h. not_short x k' (entry_lem ops bits d key x k' h).0) (not_new x k')
                  (λ h g.
                    let a = entry_lem ops bits d key x k' h in
                    let b = entry_lem ops bits cidr key x k' g in omega arith));
        hangs = fork_hangs;
      }

      old_right :
          choose bits d k ≡ 1
          → choose bits d key ≡ 0
          → IsPlaced old_node (node d key none new_node old_node)
      old_right old_side new_side = record {
        trie = (
          omega (arith, v.0),
          (apart, omega (arith, self key), new_side),
          (apart_c, omega (arith, symmetric k key), old_side),
          (le, tt, tt, tt, tt),
          v,
        );
        routed = λ x k'.
            route-node ops bits d key none new_node old_node x k'
            ∙ rw (asked_lem x k') (
                new_first (is_entry ops bits d key x k') (is_entry ops bits cidr key x k')
                  (route ops bits old_node x k')
                  (λ h. not_short x k' (entry_lem ops bits d key x k' h).0)
                  (λ h g.
                    let a = entry_lem ops bits d key x k' h in
                    let b = entry_lem ops bits cidr key x k' g in omega arith));
        hangs = fork_hangs;
      }

      pub forked : IsPlaced old_node (
          connect_node
            (choose bits d key)
            new_node
            (connect_node (choose bits d k) old_node (node d key none null null)))
      forked =
          let part = next d k key (omega (arith, v.0)) (omega arith) in
          let bk = binary d k in
          let bn = binary d key in
          let differ : choose bits d k ≢ choose bits d key =
            λ e. let more = part.1 e in omega arith in
          elim (Bool-cases (choose bits d k == 0)) [
            | inl zero_side ↦
                let one : choose bits d key ≡ 1 = ground arith in
                rw (zero_side, one) (old_left (ground arith) one)
            | inr one_side ↦
                let zero_bit : choose bits d key ≡ 0 = ground arith in
                rw (one_side, zero_bit) (old_right (ground arith) zero_bit)
          ]
