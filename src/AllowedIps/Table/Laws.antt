-- ===== src/AllowedIps/Table/Laws.antt =====
-- The operations of struct allowedips as changes of the table from prefixes to peers.
use wgtcp.Base.{
  ℕ, ◌+◌, ◌≤◌, ◌≡◌, inl, inr, refl, sym, ap, ◌∙◌, Bool, true, false, not, if◌then◌else◌, [], ◌∷◌,
  ◌++◌, Option, some, filter, Bool-cases, u64,
}
use wgtcp.AllowedIps.{Bitops, Trie}
use wgtcp.AllowedIps.Words.{IsBitops}
use wgtcp.AllowedIps.Routes.{IsTrie, route, is_entry}
use wgtcp.AllowedIps.Cut.{true_ne}
use wgtcp.AllowedIps.Placed.{IsPlaced}
use wgtcp.AllowedIps.Table.{width, Listed, Table, root_of, with_root, is_node, unlisted}
use wgtcp.AllowedIps.Table.Nodes.{
  named, entry, is_same, IsTable, tries-with_root, orders, node_sym, node_self, node_back,
  All-filter, Any-filter, All-append_one, Any-append_one, Any-append_last,
}

pub some_inj : {a b : ℕ} → some a ≡ some b → a ≡ b
some_inj e = cc

module _ (ops : Bitops) (laws : IsBitops ops) where
  -- A table after nodes have left: the entries of those that stay are as they were.
  pub keeps-IsTable :
      (t t' : Table) (keep : Listed → Bool)
      → ((v6 : Bool) → IsTrie ops (width v6) (root_of v6 t'))
      → t'.listed ≡ filter keep t.listed
      → ((n : Listed)
          → keep n ≡ true
          → entry ops t n.v6 n.cidr n.key ≡ some n.owner
          → entry ops t' n.v6 n.cidr n.key ≡ some n.owner)
      → ((f : Bool) (c k p : ℕ)
          → entry ops t' f c k ≡ some p
          → (entry ops t f c k ≡ some p)
            × ((n : Listed) → n.owner ≡ p → is_node ops f c k n ≡ true → keep n ≡ true))
      → IsTable ops laws t
      → IsTable ops laws t'
  keeps-IsTable t t' keep tries same stays found v = record {
    tries = tries;
    sound = rw same (All-filter _ _ keep t.listed stays v.sound);
    complete = λ f c k p e.
        let (old, kept) = found f c k p e in
        rw same
          (Any-filter _ keep t.listed (λ n names. kept n names.0 names.1) (v.complete f c k p old));
  }

  -- A change of one trie at one prefix is that change of the table.
  pub change_lem :
      (g : Bool → Option ℕ → Option ℕ) (peer cidr key : ℕ) (v6 f : Bool) (trie : Trie) (t : Table)
      (c k : ℕ)
      → ((old : Option ℕ) → g false old ≡ old)
      → ((c k : ℕ)
          → route ops (width v6) trie c k
            ≡ g (is_entry ops (width v6) cidr key c k) (entry ops t v6 c k))
      → entry ops (with_root v6 trie t) f c k
        ≡ g (is_node ops f c k (named peer v6 cidr key)) (entry ops t f c k)
  change_lem g peer cidr key true true trie t c k idle h = h c k
  change_lem g peer cidr key false false trie t c k idle h = h c k
  change_lem g peer cidr key true false trie t c k idle h = sym (idle _)
  change_lem g peer cidr key false true trie t c k idle h = sym (idle _)

  -- The entry of a node that a change does not concern.
  not-named :
      (v6 : Bool) (cidr key peer : ℕ) (n : Listed)
      → not (is_node ops v6 cidr key n) ≡ true
      → is_same ops n (named peer v6 cidr key) ≡ false
  not-named v6 cidr key peer n other = elim (Bool-cases (is_same ops n (named peer v6 cidr key))) [
    | inr e ↦ e
    | inl e ↦ absurd (true_ne (sym other ∙ ap not (node_sym ops laws n (named peer v6 cidr key) e)))
  ]

  stays_named :
      (peer : ℕ) (v6 : Bool) (cidr key : ℕ) (f : Bool) (c k : ℕ) (n : Listed)
      → is_node ops f c k (named peer v6 cidr key) ≡ false
      → is_node ops f c k n ≡ true
      → not (is_node ops v6 cidr key n) ≡ true
  stays_named peer v6 cidr key f c k n other names = elim (Bool-cases (is_node ops v6 cidr key n)) [
    | inr e ↦ ap not e
    | inl e ↦ absurd (true_ne (sym (back e) ∙ other))
  ]
    where
      back : is_node ops v6 cidr key n ≡ true → is_node ops f c k (named peer v6 cidr key) ≡ true
      back e =
          node_back ops laws f c k n (named peer v6 cidr key) names
            (node_sym ops laws (named peer v6 cidr key) n e)

  module _ (peer : ℕ) (v6 : Bool) (cidr key : ℕ) (fits : cidr ≤ width v6) where
    abbrev new : Listed
    new = named peer v6 cidr key

    abbrev inserted : Table → Trie → Table
    inserted t trie = record (with_root v6 trie t) {
      seq = u64 (t.seq + 1);
      listed = unlisted ops v6 cidr key t.listed ++ new ∷ [];
    }

    module _ (t : Table) (trie : Trie)
        (placed : IsPlaced ops (width v6) (orders ops laws v6) key cidr peer (root_of v6 t) trie)
        (v : IsTable ops laws t) where
      pub entry-inserted :
          (f : Bool) (c k : ℕ)
          → entry ops (inserted t trie) f c k
            ≡ (if is_node ops f c k new then some peer else entry ops t f c k)
      entry-inserted f c k =
          change_lem (λ b old. if b then some peer else old) peer cidr key v6 f trie t c k
            (λ old. refl) placed.routed

      pub inserted-IsTable : IsTable ops laws (inserted t trie)
      inserted-IsTable = record {
        tries = λ f. tries-with_root ops v6 f trie t placed.trie (v.tries f);
        sound =
            All-append_one _ _ new
              (All-filter _ _ (λ n. not (is_node ops v6 cidr key n)) t.listed
                (λ n other old.
                  entry-inserted n.v6 n.cidr n.key ∙ rw (not-named v6 cidr key peer n other) old)
                v.sound)
              (entry-inserted v6 cidr key ∙ rw (node_self ops laws v6 cidr key peer fits) refl);
        complete = λ f c k p e. elim (Bool-cases (is_node ops f c k new)) [
          | inl asked ↦
              let owner : some peer ≡ some p = sym (rw asked at (entry-inserted f c k)) ∙ e in
              Any-append_last _ (unlisted ops v6 cidr key t.listed) new (some_inj owner, asked)
          | inr other ↦
              let old : entry ops t f c k ≡ some p = sym (rw other at (entry-inserted f c k)) ∙ e in
              Any-append_one _ (unlisted ops v6 cidr key t.listed) new (
                Any-filter _ (λ n. not (is_node ops v6 cidr key n)) t.listed
                  (λ n names. stays_named peer v6 cidr key f c k n other names.1)
                  (v.complete f c k p old))
        ];
      }
