-- ===== src/AllowedIps/Table/Removal.antt =====
-- Removals from struct allowedips: one prefix of a peer, and all of a peer's.
use wgtcp.Base.{
  ℕ, ◌+◌, ◌≤◌, ◌≡◌, inl, inr, refl, sym, ap, ◌∙◌, arith, Bool, true, false, not, ◌&&◌, ◌||◌, ◌==◌,
  ==_iff, ==_refl, List, [], ◌∷◌, Option, none, some, All, Any, filter, Bool-cases, ok, le→ltb, u64,
}
use wgtcp.AllowedIps.{Bitops, take_out, remove, is_peer}
use wgtcp.AllowedIps.Words.{IsBitops}
use wgtcp.AllowedIps.Routes.{route-within}
use wgtcp.AllowedIps.Cut.{cut, true_ne}
use wgtcp.AllowedIps.Unlink.{IsRemoved}
use wgtcp.AllowedIps.Remove.{take_out-IsRemoved}
use wgtcp.AllowedIps.Table.{
  width, Listed, Table, root_of, with_root, is_node, allowedips_remove, unlink, unlink_all, list_of,
  any_peer, remove_listed, allowedips_remove_by_peer,
}
use wgtcp.AllowedIps.Table.Nodes.{
  named, entry, is_same, IsTable, tries-with_root, orders, node_sym, node_back, entry-node,
  All-filter,
}
use wgtcp.AllowedIps.Table.Laws.{keeps-IsTable, change_lem}

module _ (wanted : Option ℕ → Bool) where
  cut-some :
      (asked : Bool) (old : Option ℕ) (p : ℕ)
      → cut wanted asked old ≡ some p
      → (old ≡ some p) × (asked ≡ true → wanted (some p) ≡ false)
  cut-some asked none p e = absurd (none_ne asked p e)
    where
      none_ne : (asked : Bool) (p : ℕ) → cut wanted asked none ≡ some p → ⊥
      none_ne asked p e = ground arith
  cut-some false (some q) p e = (e, λ h. absurd (true_ne (sym h)))
  cut-some true (some q) p e = elim (Bool-cases (wanted (some q))) [
    | inl w ↦ absurd (gone (rw w at e))
    | inr w ↦ let same : some q ≡ some p = rw w at e in (same, λ h. sym (ap wanted same) ∙ w)
  ]
    where
      gone : none ≡ some p → ⊥
      gone e = cc

  cut_stays :
      (asked : Bool) (p : ℕ)
      → (asked ≡ true → wanted (some p) ≡ false)
      → cut wanted asked (some p) ≡ some p
  cut_stays false p h = refl
  cut_stays true p h = rw (h refl) refl

module _ (ops : Bitops) (laws : IsBitops ops) (v6 : Bool) (cidr key : ℕ) (fits : cidr ≤ width v6)
    (wanted : Option ℕ → Bool) (keep : Listed → Bool)
    (spares : (n : Listed)
      → keep n ≡ true
      → is_node ops v6 cidr key n ≡ true
      → wanted (some n.owner) ≡ false)
    (keeps : (n : Listed)
      → (is_node ops v6 cidr key n ≡ true → wanted (some n.owner) ≡ false)
      → keep n ≡ true) where
  abbrev gone : Listed
  gone = named 0 v6 cidr key

  -- The table after a removal from one trie, with the nodes that `keep` leaves on the lists.
  abbrev pub removed : ℕ → Table → Table
  removed seq t =
      record (with_root v6 (take_out ops (width v6) key cidr wanted (root_of v6 t)).0 t) {
        seq = seq;
        listed = filter keep t.listed;
      }

  module _ (seq : ℕ) (t : Table) (v : IsTable ops laws t) where
    abbrev done :
        IsRemoved ops
          (width v6)
          (orders ops laws v6)
          key
          cidr
          wanted
          (root_of v6 t)
          (take_out ops (width v6) key cidr wanted (root_of v6 t))
    done =
        take_out-IsRemoved ops (width v6) (orders ops laws v6) key cidr wanted (root_of v6 t)
          (v.tries v6) fits

    entry-removed :
        (f : Bool) (c k : ℕ)
        → entry ops (removed seq t) f c k ≡ cut wanted (is_node ops f c k gone) (entry ops t f c k)
    entry-removed f c k =
        change_lem ops laws (cut wanted) 0 cidr key v6 f _ t c k (λ old. refl) done.routed

    removed-IsTable : IsTable ops laws (removed seq t)
    removed-IsTable =
        keeps-IsTable ops laws t (removed seq t) keep
          (λ f. tries-with_root ops v6 f _ t done.trie (v.tries f)) refl
          (λ n kept old.
            entry-removed n.v6 n.cidr n.key
            ∙ rw old (
                cut_stays wanted (is_same ops n gone) n.owner
                  (λ e. spares n kept (node_sym ops laws n gone e))))
          (λ f c k p e.
            let (old, other) =
              cut-some wanted (is_node ops f c k gone) (entry ops t f c k) p
                (sym (entry-removed f c k) ∙ e) in
            (
              old,
              λ n owner names. keeps n (λ here.
                  ap (λ (x : ℕ). wanted (some x)) owner
                  ∙ other (node_back ops laws f c k n gone names (node_sym ops laws gone n here))),
            ))
          v

module _ (ops : Bitops) (laws : IsBitops ops) where
  abbrev pub Fits : Listed → Type 0
  Fits n = n.cidr ≤ width n.v6

  unlink-IsTable :
      (n : Listed) (t : Table)
      → Fits n
      → IsTable ops laws t
      → IsTable ops laws (unlink ops n t)
        × ((f : Bool) (c k : ℕ)
            → entry ops (unlink ops n t) f c k
              ≡ cut any_peer (is_node ops f c k n) (entry ops t f c k))
  unfolding unlink
  unlink-IsTable n t fits v =
      let trie = (take_out ops (width n.v6) n.key n.cidr any_peer (root_of n.v6 t)).0 in
      let keep = λ (m : Listed). not (is_node ops n.v6 n.cidr n.key m) in
      let spares : (m : Listed)
          → keep m ≡ true
          → is_node ops n.v6 n.cidr n.key m ≡ true
          → true ≡ false =
        λ m kept here. absurd (true_ne (sym kept ∙ ap not here)) in
      let keeps : (m : Listed)
          → (is_node ops n.v6 n.cidr n.key m ≡ true → true ≡ false)
          → keep m ≡ true =
        λ m other. ground (arith, Bool-cases (is_node ops n.v6 n.cidr n.key m), other) in
      let seq = (with_root n.v6 trie t).seq in
      (
        removed-IsTable ops laws n.v6 n.cidr n.key fits any_peer keep spares keeps seq t v,
        entry-removed ops laws n.v6 n.cidr n.key fits any_peer keep spares keeps seq t v,
      )

  -- Whether one of some nodes fits a name.
  any_node : List Listed → Bool → ℕ → ℕ → Bool
  any_node [] f c k = false
  any_node (n ∷ ns) f c k = is_node ops f c k n || any_node ns f c k

  any_cut :
      (here there : Bool) (old : Option ℕ)
      → cut any_peer there (cut any_peer here old) ≡ cut any_peer (here || there) old
  any_cut true true old = refl
  any_cut true false old = refl
  any_cut false there old = refl

  unlink_all-IsTable :
      (ns : List Listed) (t : Table)
      → All Fits ns
      → IsTable ops laws t
      → IsTable ops laws (unlink_all ops ns t)
        × ((f : Bool) (c k : ℕ)
            → entry ops (unlink_all ops ns t) f c k
              ≡ cut any_peer (any_node ns f c k) (entry ops t f c k))
  unfolding unlink_all any_node
  unlink_all-IsTable [] t fits v = (v, λ f c k. refl)
  unlink_all-IsTable (n ∷ ns) t fits v =
      let (one, changed) = unlink-IsTable n t fits.0 v in
      let (all, rest) = unlink_all-IsTable ns (unlink ops n t) fits.1 one in
      (
        all,
        λ f c k.
            rest f c k
            ∙ ap (cut any_peer (any_node ns f c k)) (changed f c k)
            ∙ any_cut (is_node ops f c k n) (any_node ns f c k) (entry ops t f c k),
      )

  -- The peer's own nodes are those whose entry is the peer.
  names_own :
      (t : Table) (peer : ℕ) (f : Bool) (c k : ℕ) (ns : List Listed)
      → All (λ n. entry ops t n.v6 n.cidr n.key ≡ some n.owner) ns
      → any_node (filter (λ n. n.owner == peer) ns) f c k ≡ true
      → entry ops t f c k ≡ some peer
  unfolding any_node
  names_own t peer f c k [] sound e = absurd (true_ne (sym e))
  names_own t peer f c k (n ∷ ns) sound e = elim (Bool-cases (n.owner == peer)) [
    | inr other ↦ names_own t peer f c k ns sound.1 (rw other at e)
    | inl own ↦ elim (Bool-cases (is_node ops f c k n)) [
      | inl here ↦ entry-node ops laws t f c k n here ∙ sound.0 ∙ ap some ((==_iff _ _).0 own)
      | inr there ↦ names_own t peer f c k ns sound.1 (rw (own, there) at e)
    ]
  ]

  own_named :
      (peer : ℕ) (f : Bool) (c k : ℕ) (ns : List Listed)
      → Any (λ n. (n.owner ≡ peer) × (is_node ops f c k n ≡ true)) ns
      → any_node (filter (λ n. n.owner == peer) ns) f c k ≡ true
  unfolding any_node
  own_named peer f c k [] any = absurd any
  own_named peer f c k (n ∷ ns) (inl (own, here)) = rw (own, ==_refl peer, here) refl
  own_named peer f c k (n ∷ ns) (inr there) = elim (Bool-cases (n.owner == peer)) [
    | inr other ↦ rw other (own_named peer f c k ns there)
    | inl own ↦ rw own (or_true (is_node ops f c k n) _ (own_named peer f c k ns there))
  ]
    where
      or_true : (a b : Bool) → b ≡ true → (a || b) ≡ true
      or_true true b e = refl
      or_true false b e = e

  seq-IsTable :
      (t : Table) (seq : ℕ) → IsTable ops laws t → IsTable ops laws (record t { seq = seq })
  seq-IsTable t seq v = record { tries = v.tries; sound = v.sound; complete = v.complete }

  remove_listed-IsTable :
      (ns : List Listed) (t : Table)
      → All Fits ns
      → IsTable ops laws t
      → IsTable ops laws (remove_listed ops ns t)
        × ((f : Bool) (c k : ℕ)
            → entry ops (remove_listed ops ns t) f c k
              ≡ cut any_peer (any_node ns f c k) (entry ops t f c k))
  unfolding any_node
  remove_listed-IsTable [] t fits v = (v, λ f c k. refl)
  remove_listed-IsTable (n ∷ ns) t fits v =
      unlink_all-IsTable (n ∷ ns) (record t { seq = u64 (t.seq + 1) }) fits
        (seq-IsTable t (u64 (t.seq + 1)) v)

  same_cut :
      (peer : ℕ) (named : Bool) (old : Option ℕ)
      → (named ≡ true → old ≡ some peer)
      → (old ≡ some peer → named ≡ true)
      → cut any_peer named old ≡ cut (is_peer peer) true old
  same_cut peer true old own back = rw (own refl, ==_refl peer) refl
  same_cut peer false none own back = refl
  same_cut peer false (some p) own back = elim (Bool-cases (p == peer)) [
    | inl same ↦ absurd (true_ne (sym (back (ap some ((==_iff _ _).0 same)))))
    | inr other ↦ rw other refl
  ]

  -- All of a peer's entries go, and no other.
  pub remove_by_peer-IsTable :
      (peer : ℕ) (t : Table)
      → IsTable ops laws t
      → IsTable ops laws (allowedips_remove_by_peer ops peer t)
        × ((f : Bool) (c k : ℕ)
            → entry ops (allowedips_remove_by_peer ops peer t) f c k
              ≡ cut (is_peer peer) true (entry ops t f c k))
  unfolding allowedips_remove_by_peer
  remove_by_peer-IsTable peer t v =
      let fits : All Fits (list_of peer t) =
        All-filter _ _ (λ n. n.owner == peer) t.listed
          (λ n own e.
            route-within ops (width n.v6) (root_of n.v6 t) n.cidr n.key n.owner (v.tries n.v6) e)
          v.sound in
      let (all, changed) = remove_listed-IsTable (list_of peer t) t fits v in
      (
        all,
        λ f c k.
            changed f c k
            ∙ same_cut peer (any_node (list_of peer t) f c k) (entry ops t f c k)
                (names_own t peer f c k t.listed v.sound)
                (λ e. own_named peer f c k t.listed (v.complete f c k peer e)),
      )

  -- wg_allowedips_remove_v4 and its IPv6 twin take the entry out if it is the peer's.
  pub remove-IsTable :
      (v6 : Bool) (key cidr peer : ℕ) (t : Table)
      → cidr ≤ width v6
      → IsTable ops laws t
      → let (t', result) = allowedips_remove ops v6 key cidr peer t in
        (result ≡ ok tt)
        × IsTable ops laws t'
        × ((f : Bool) (c k : ℕ)
            → entry ops t' f c k
              ≡ cut (is_peer peer) (is_node ops f c k (named peer v6 cidr key)) (entry ops t f c k))
  unfolding allowedips_remove remove
  remove-IsTable v6 key cidr peer t fits v =
      let keep = λ (m : Listed). not (is_node ops v6 cidr key m && m.owner == peer) in
      let spares : (m : Listed)
          → keep m ≡ true
          → is_node ops v6 cidr key m ≡ true
          → (m.owner == peer) ≡ false =
        λ m kept here. ground arith in
      let keeps : (m : Listed)
          → (is_node ops v6 cidr key m ≡ true → (m.owner == peer) ≡ false)
          → keep m ≡ true =
        λ m other. ground (arith, Bool-cases (is_node ops v6 cidr key m), other) in
      rw (le→ltb (width v6) cidr fits) (
        refl,
        removed-IsTable ops laws v6 cidr key fits (is_peer peer) keep spares keeps (u64 (t.seq + 1))
            t v,
        entry-removed ops laws v6 cidr key fits (is_peer peer) keep spares keeps (u64 (t.seq + 1)) t
            v,
      )
