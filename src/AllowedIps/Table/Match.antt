-- ===== src/AllowedIps/Table/Match.antt =====
-- find_node after calls on struct allowedips, against a table from prefixes to peers that knows
-- nothing of tries and lists.
use wgtcp.Base.{
  ℕ, ◌+◌, ◌≤◌, ◌≡◌, inl, inr, refl, sym, ap, ◌∙◌, arith, Bool, true, false, ◌&&◌, ltb, Bool-cases,
  if◌then◌else◌, List, [], ◌∷◌, Option, none, some, Result, ok, err, einval, u64,
}
use mathlib.Core.Path.{fun_ext}
use wgtcp.AllowedIps.{Bitops, Trie, null, add, remove, is_peer, find_node}
use wgtcp.AllowedIps.Words.{IsBitops}
use wgtcp.AllowedIps.Routes.{route, IsTrie}
use wgtcp.AllowedIps.Cut.{cut, true_ne}
use wgtcp.AllowedIps.Lookup.{longest, find_node-longest}
use wgtcp.AllowedIps.Placed.{Places}
use wgtcp.AllowedIps.Insert.{add-ok}
use wgtcp.AllowedIps.Table.{
  width, Table, root_of, is_node, allowedips_init, allowedips_free, allowedips_insert,
  allowedips_remove, allowedips_remove_by_peer, after_add,
}
use wgtcp.AllowedIps.Table.Nodes.{named, entry, IsTable, orders}
use wgtcp.AllowedIps.Table.Laws.{inserted-IsTable, entry-inserted}
use wgtcp.AllowedIps.Table.Removal.{remove-IsTable, remove_by_peer-IsTable}

-- The peer of each prefix: of a family, a number of bits and an address that begins with them.
abbrev pub Rules : Type 0
Rules = Bool → ℕ → ℕ → Option ℕ

-- A call of allowedips.c; an insertion comes with what the two allocations give.
pub data Call : Type 0 where
  insert : (v6 : Bool) (key cidr peer : ℕ) (first second : Bool) → Call
  delete : (v6 : Bool) (key cidr peer : ℕ) → Call
  delete_peer : (peer : ℕ) → Call
  clear : Call

module _ (ops : Bitops) where
  unfoldable pub run : Call → Table → Table × Result {0} Unit
  unfolding allowedips_free
  run (insert v6 key cidr peer first second) t =
      allowedips_insert ops v6 key cidr peer first second t
  run (delete v6 key cidr peer) t = allowedips_remove ops v6 key cidr peer t
  run (delete_peer peer) t = (allowedips_remove_by_peer ops peer t, ok tt)
  run clear t = (allowedips_free t, ok tt)

  unfoldable pub run_all : List Call → Table → Table
  unfolding run
  run_all [] t = t
  run_all (call ∷ calls) t = run_all calls (run call t).0

  -- What a call does to the rules when it reports success.
  pub change : Call → Rules → Rules
  change (insert v6 key cidr peer first second) rules f c k =
      if is_node ops f c k (named peer v6 cidr key) then some peer else rules f c k
  change (delete v6 key cidr peer) rules f c k =
      cut (is_peer peer) (is_node ops f c k (named peer v6 cidr key)) (rules f c k)
  change (delete_peer peer) rules f c k = cut (is_peer peer) true (rules f c k)
  change clear rules f c k = none

  abbrev reported : Call → Result {0} Unit → Rules → Rules
  reported call (ok done) rules = change call rules
  reported call (err e) rules = rules

  -- The rules after some calls, of which those that fail change nothing.
  pub rules_after : List Call → Table → Rules → Rules
  unfolding run change
  rules_after [] t rules = rules
  rules_after (call ∷ calls) t rules =
      rules_after calls (run call t).0 (reported call (run call t).1 rules)

module _ (ops : Bitops) (laws : IsBitops ops) where
  abbrev Implements : Table → Rules → Type 0
  Implements t rules = (f : Bool) (c k : ℕ) → entry ops t f c k ≡ rules f c k

  same_table :
      (t : Table) (seq : ℕ) → IsTable ops laws t → IsTable ops laws (record t { seq = seq })
  same_table t seq v = record { tries = v.tries; sound = v.sound; complete = v.complete }

  insert_step :
      (v6 : Bool) (key cidr peer : ℕ) (first second : Bool) (t : Table) (rules : Rules)
      (result : Result Trie)
      → cidr ≤ width v6
      → Places ops
          (width v6)
          (orders ops laws v6)
          key
          cidr
          peer
          (first && second)
          (root_of v6 t)
          result
      → IsTable ops laws t
      → Implements t rules
      → let (t', r) = after_add ops v6 key cidr peer t result in
        IsTable ops laws t'
        × Implements t' (reported ops (insert v6 key cidr peer first second) r rules)
  unfolding change
  insert_step v6 key cidr peer first second t rules (ok trie) fits placed v same = (
    inserted-IsTable ops laws peer v6 cidr key fits t trie placed v,
    λ f c k.
        entry-inserted ops laws peer v6 cidr key fits t trie placed v f c k
        ∙ ap (λ o. if is_node ops f c k (named peer v6 cidr key) then some peer else o)
            (same f c k),
  )
  insert_step v6 key cidr peer first second t rules (err e) fits placed v same =
      (same_table t (u64 (t.seq + 1)) v, same)

  insert-IsTable :
      (v6 : Bool) (key cidr peer : ℕ) (first second : Bool) (t : Table) (rules : Rules)
      → IsTable ops laws t
      → Implements t rules
      → let (t', r) = allowedips_insert ops v6 key cidr peer first second t in
        IsTable ops laws t'
        × Implements t' (reported ops (insert v6 key cidr peer first second) r rules)
  unfolding allowedips_insert add
  insert-IsTable v6 key cidr peer first second t rules v same =
      elim (Bool-cases (ltb (width v6) cidr)) [
        | inl long ↦ rw long (same_table t (u64 (t.seq + 1)) v, same)
        | inr fits ↦
            let le : cidr ≤ width v6 = ground arith in
            insert_step v6 key cidr peer first second t rules _ le
              (add-ok ops (width v6) (orders ops laws v6) key cidr peer (root_of v6 t) (v.tries v6)
                le first second)
              v same
      ]

  too_long :
      (v6 : Bool) (key cidr peer : ℕ) (t : Table)
      → ltb (width v6) cidr ≡ true
      → allowedips_remove ops v6 key cidr peer t ≡ (record t { seq = u64 (t.seq + 1) }, err einval)
  unfolding allowedips_remove remove
  too_long v6 key cidr peer t long = rw long refl

  delete-IsTable :
      (v6 : Bool) (key cidr peer : ℕ) (t : Table) (rules : Rules)
      → IsTable ops laws t
      → Implements t rules
      → let (t', r) = allowedips_remove ops v6 key cidr peer t in
        IsTable ops laws t' × Implements t' (reported ops (delete v6 key cidr peer) r rules)
  unfolding change
  delete-IsTable v6 key cidr peer t rules v same = elim (Bool-cases (ltb (width v6) cidr)) [
    | inl long ↦
        let refused = too_long v6 key cidr peer t long in
        rw refused (same_table t (u64 (t.seq + 1)) v, same)
    | inr fits ↦
        let (done, all, changed) = remove-IsTable ops laws v6 key cidr peer t (ground arith) v in
        (
          all,
          rw done (λ f c k.
              changed f c k
              ∙ ap (cut (is_peer peer) (is_node ops f c k (named peer v6 cidr key))) (same f c k)),
        )
  ]

  abbrev empty : ℕ → Table
  empty seq = record { root4 = null; root6 = null; seq = seq; listed = [] }

  nowhere : (seq : ℕ) (f : Bool) (c k : ℕ) → entry ops (empty seq) f c k ≡ none
  unfolding route
  nowhere seq true c k = refl
  nowhere seq false c k = refl

  no-IsTrie : (seq : ℕ) (v6 : Bool) → IsTrie ops (width v6) (root_of v6 (empty seq))
  no-IsTrie seq true = tt
  no-IsTrie seq false = tt

  empty-IsTable : (seq : ℕ) → IsTable ops laws (empty seq) × Implements (empty seq) (λ f c k. none)
  empty-IsTable seq = (
    record {
      tries = no-IsTrie seq;
      sound = tt;
      complete = λ f c k p e. absurd (none_some (sym (nowhere seq f c k) ∙ e));
    },
    nowhere seq,
  )
    where
      none_some : {p : ℕ} → none ≡ some p → ⊥
      none_some e = cc

  run-IsTable :
      (call : Call) (t : Table) (rules : Rules)
      → IsTable ops laws t
      → Implements t rules
      → let (t', r) = run ops call t in
        IsTable ops laws t' × Implements t' (reported ops call r rules)
  unfolding run change
  run-IsTable (insert v6 key cidr peer first second) t rules v same =
      insert-IsTable v6 key cidr peer first second t rules v same
  run-IsTable (delete v6 key cidr peer) t rules v same =
      delete-IsTable v6 key cidr peer t rules v same
  run-IsTable (delete_peer peer) t rules v same =
      let (all, changed) = remove_by_peer-IsTable ops laws peer t v in
      (all, λ f c k. changed f c k ∙ ap (cut (is_peer peer) true) (same f c k))
  run-IsTable clear t rules v same = empty-IsTable (u64 (t.seq + 1))

  pub init-IsTable : IsTable ops laws allowedips_init
  unfolding allowedips_init
  init-IsTable = (empty-IsTable 1).0

  run_all-IsTable :
      (calls : List Call) (t : Table) (rules : Rules)
      → IsTable ops laws t
      → Implements t rules
      → IsTable ops laws (run_all ops calls t)
        × Implements (run_all ops calls t) (rules_after ops calls t rules)
  unfolding run_all rules_after
  run_all-IsTable [] t rules v same = (v, same)
  run_all-IsTable (call ∷ calls) t rules v same =
      let (v', same') = run-IsTable call t rules v same in
      run_all-IsTable calls (run ops call t).0 (reported ops call (run ops call t).1 rules) v' same'

  -- After any insertions and removals, also those that fail for want of memory or by a length that
  -- is out of range, find_node gives the peer of the longest prefix of the address for which the
  -- successful calls have left a rule, and no peer if there is none.
  pub longest_match :
      (calls : List Call) (f : Bool) (key : ℕ)
      → find_node ops (width f) (root_of f (run_all ops calls allowedips_init)) key none
        ≡ longest (λ c. rules_after ops calls allowedips_init (λ f c k. none) f c key) (width f)
  unfolding allowedips_init
  longest_match calls f key =
      let (start, nothing) = empty-IsTable 1 in
      let (v, same) = run_all-IsTable calls (empty 1) (λ f c k. none) start nothing in
      find_node-longest ops (width f) (orders ops laws f) _ key (v.tries f)
      ∙ ap (λ e. longest e (width f)) (fun_ext (λ c. same f c key))

  -- An insertion with memory and a length in range succeeds.
  pub insert-ok :
      (v6 : Bool) (key cidr peer : ℕ) (t : Table)
      → cidr ≤ width v6
      → IsTable ops laws t
      → (allowedips_insert ops v6 key cidr peer true true t).1 ≡ ok tt
  unfolding allowedips_insert
  insert-ok v6 key cidr peer t fits v =
      succeeds (add ops (width v6) key cidr peer true true (root_of v6 t)) (
        add-ok ops (width v6) (orders ops laws v6) key cidr peer (root_of v6 t) (v.tries v6) fits
          true true)
    where
      succeeds :
          (result : Result Trie)
          → Places ops (width v6) (orders ops laws v6) key cidr peer true (root_of v6 t) result
          → (after_add ops v6 key cidr peer t result).1 ≡ ok tt
      succeeds (ok trie) placed = refl
      succeeds (err e) (is_memory, has) = absurd (true_ne has)
