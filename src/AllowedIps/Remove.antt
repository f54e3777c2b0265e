-- ===== src/AllowedIps/Remove.antt =====
-- remove and remove_node of kernel/allowedips.c as a change of one entry of the table.
use wgtcp.Base.{
  ℕ, ◌≤◌, ◌<◌, ◌≡◌, ◌⊎◌, inl, inr, refl, arith, ◌==◌, ==_iff, leb, ◌&&◌, Bool, Bool-cases,
  Option-cases, Option, none, some, true, false, le→leb,
}
use wgtcp.AllowedIps.{
  Bitops, Trie, null, node, common_bits, choose, after_remove, take_out, prefix_matches,
}
use wgtcp.AllowedIps.Words.{IsPrefixOrder}
use wgtcp.AllowedIps.Routes.{IsTrie, route, route-node, is_entry, entry_lem, route-root}
use wgtcp.AllowedIps.Cut.{true_ne, cut_not}
use wgtcp.AllowedIps.Unlink.{
  IsRemoved, remove_node-IsRemoved, keeps_left, keeps_right, collapses_left, collapses_right,
  same_entry,
}

module _ (ops : Bitops) (bits : ℕ)
    (order : IsPrefixOrder bits (common_bits ops bits) (choose bits)) where
  open order use {triangle, next, symmetric, self, within, binary}

  module _ (key cidr : ℕ) (wanted : Option ℕ → Bool) where
    after_left :
        (c k : ℕ) (p : Option ℕ) (l r : Trie) (v : IsTrie ops bits (node c k p l r))
        (le : cidr ≤ bits) (agrees : c ≤ common_bits ops bits k key) (lt : c < cidr)
        (result : Trie × Bool)
        → choose bits c key ≡ 0
        → IsRemoved ops bits order key cidr wanted l result
        → IsRemoved ops bits order key cidr wanted
            (node c k p l r)
            (after_remove 0 c k p l r result)
    after_left c k none l r v le agrees lt (l', true) side done =
        collapses_left ops bits order key cidr wanted c k none l r v le agrees lt l' refl side done
    after_left c k none l r v le agrees lt (l', false) side done =
        keeps_left ops bits order key cidr wanted c k none l r v le agrees lt l' false side done
    after_left c k (some q) l r v le agrees lt (l', gone) side done =
        keeps_left ops bits order key cidr wanted c k (some q) l r v le agrees lt l' gone side done

    after_right :
        (c k : ℕ) (p : Option ℕ) (l r : Trie) (v : IsTrie ops bits (node c k p l r))
        (le : cidr ≤ bits) (agrees : c ≤ common_bits ops bits k key) (lt : c < cidr)
        (result : Trie × Bool)
        → choose bits c key ≡ 1
        → IsRemoved ops bits order key cidr wanted r result
        → IsRemoved ops bits order key cidr wanted
            (node c k p l r)
            (after_remove 1 c k p l r result)
    after_right c k none l r v le agrees lt (r', true) side done =
        collapses_right ops bits order key cidr wanted c k none l r v le agrees lt r' refl side done
    after_right c k none l r v le agrees lt (r', false) side done =
        keeps_right ops bits order key cidr wanted c k none l r v le agrees lt r' false side done
    after_right c k (some q) l r v le agrees lt (r', gone) side done =
        keeps_right ops bits order key cidr wanted c k (some q) l r v le agrees lt r' gone side done

    kept :
        (c k : ℕ) (p : Option ℕ) (l r : Trie)
        → IsTrie ops bits (node c k p l r)
        → cidr ≤ bits
        → c ≤ common_bits ops bits k key
        → c ≡ cidr
        → wanted p ≡ false
        → (x k' : ℕ) → is_entry ops bits cidr key x k' ≡ true
        → wanted (route ops bits (node c k p l r) x k') ≡ false
    kept c k p l r v le agrees exact stays x k' asked =
        rw
          (
            route-node ops bits c k p l r x k',
            same_entry ops bits order key cidr wanted c k p l r v le agrees x k' exact,
            asked,
          )
          stays

    untouched :
        (t : Trie)
        → IsTrie ops bits t
        → ((x k' : ℕ)
            → is_entry ops bits cidr key x k' ≡ true
            → route ops bits t x k' ≡ none ⊎ (wanted (route ops bits t x k') ≡ false))
        → IsRemoved ops bits order key cidr wanted t (t, false)
    untouched t v nothing = record {
      trie = v;
      routed = λ x k'.
          cut_not wanted (is_entry ops bits cidr key x k') (route ops bits t x k') (nothing x k');
      hangs = λ x k' bit h. h;
      emptied = λ e. absurd (cc);
    }

    -- The walk ends above a prefix that the key does not have, or beyond the length.
    off_path :
        (c k : ℕ) (p : Option ℕ) (l r : Trie)
        → IsTrie ops bits (node c k p l r)
        → (leb c cidr && prefix_matches ops bits c k key) ≡ false
        → (x k' : ℕ) → is_entry ops bits cidr key x k' ≡ true
        → route ops bits (node c k p l r) x k' ≡ none
    off_path c k p l r v off x k' asked =
        elim (Option-cases (route ops bits (node c k p l r) x k')) [
          | inl e ↦ e
          | inr (q, e) ↦
              let root = route-root ops bits order c k p l r x k' q v e in
              let it = entry_lem ops bits cidr key x k' asked in
              let agrees : c ≤ common_bits ops bits k key =
                omega (arith, triangle k k' key, symmetric key k', it, root) in
              let matches : leb c (common_bits ops bits k key) ≡ true = le→leb _ _ agrees in
              let short : leb c cidr ≡ true = le→leb _ _ (omega arith) in
              absurd (true_ne (rw (short, matches) at off))
        ]

    -- The trie after a removal is in order and has no entry for the prefix, if that was wanted.
    pub take_out-IsRemoved :
        (t : Trie)
        → IsTrie ops bits t
        → cidr ≤ bits
        → IsRemoved ops bits order key cidr wanted t (take_out ops bits key cidr wanted t)
    unfolding take_out route
    take_out-IsRemoved null v le = untouched null v (λ x k' asked. inl refl)
    take_out-IsRemoved (node c k p l r) v le =
        elim (Bool-cases (leb c cidr && prefix_matches ops bits c k key)) [
          | inr off ↦ rw off (
              untouched (node c k p l r) v
                (λ x k' asked. inl (off_path c k p l r v off x k' asked)))
          | inl on ↦
              let agrees : c ≤ common_bits ops bits k key = ground arith in
              elim (Bool-cases (c == cidr)) [
                | inl here ↦ elim (Bool-cases (wanted p)) [
                  | inl goes ↦
                      rw (on, here, goes)
                        (remove_node-IsRemoved ops bits order key cidr wanted c k p l r v le agrees
                          ((==_iff _ _).0 here) goes)
                  | inr stays ↦
                      rw (on, here, stays)
                        (untouched (node c k p l r) v (λ x k' asked.
                          inr (kept c k p l r v le agrees ((==_iff _ _).0 here) stays x k' asked)))
                ]
                | inr deeper ↦ elim (Bool-cases (choose bits c key == 0)) [
                  | inl zero_side ↦
                      rw (on, deeper, zero_side)
                        (after_left c k p l r v le agrees (ground arith) _ (ground arith)
                          (take_out-IsRemoved l v.3 le))
                  | inr one_side ↦
                      rw (on, deeper, one_side)
                        (after_right c k p l r v le agrees (ground arith) _
                          (ground (arith, binary c key)) (take_out-IsRemoved r v.4 le))
                ]
              ]
        ]
