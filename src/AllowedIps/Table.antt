-- ===== src/AllowedIps/Table.antt =====
-- struct allowedips of kernel/allowedips.c: the two tries, and the nodes on the peers' lists.
pub mod Nodes
pub mod Laws
pub mod Removal
pub mod Match
use wgtcp.Base.{
  ℕ, ◌+◌, Bool, true, false, not, ◌&&◌, ◌||◌, leb, ltb, ◌==◌, if◌then◌else◌, List, [], ◌∷◌, ◌++◌,
  Option, none, some, u64, Result, ok, err, einval, filter,
}
use wgtcp.AllowedIps.{
  Bitops, Trie, null, node, common_bits, add, take_out, remove, is_peer, find_node, lookup,
}

-- The number of bits of an address: of IPv6 or not.
abbrev pub width : Bool → ℕ
width v6 = if v6 then 128 else 32

-- A node on the list of its peer. All the lists are kept as one; a peer's list is the part of it
-- that the peer owns, in the same order. A node is named by its prefix.
pub record Listed : Type 0 where
  pub owner : ℕ
  pub v6 : Bool
  pub cidr : ℕ
  pub key : ℕ

pub record Table : Type 0 where
  pub root4 : Trie
  pub root6 : Trie
  pub seq : ℕ
  pub listed : List Listed

abbrev pub root_of : Bool → Table → Trie
root_of v6 t = if v6 then t.root6 else t.root4

abbrev pub with_root : Bool → Trie → Table → Table
with_root true trie t = record t { root6 = trie }
with_root false trie t = record t { root4 = trie }

unfoldable pub allowedips_init : Table
allowedips_init = record { root4 = null; root6 = null; seq = 1; listed = [] }

-- Every listed node stands in one of the tries, whose nodes all leave their lists.
unfoldable pub allowedips_free : Table → Table
allowedips_free t = record { root4 = null; root6 = null; seq = u64 (t.seq + 1); listed = [] }

abbrev pub same_family : Bool → Bool → Bool
same_family true b = b
same_family false b = not b

abbrev pub any_peer : Option ℕ → Bool
any_peer p = true

abbrev pub list_of : ℕ → Table → List Listed
list_of peer t = filter (λ n. n.owner == peer) t.listed

module _ (ops : Bitops) where
  abbrev pub is_node : Bool → ℕ → ℕ → Listed → Bool
  is_node v6 cidr key n =
      same_family n.v6 v6 && (cidr == n.cidr && leb n.cidr (common_bits ops (width v6) n.key key))

  -- list_del, by which the node leaves the list that it is on.
  abbrev pub unlisted : Bool → ℕ → ℕ → List Listed → List Listed
  unlisted v6 cidr key ns = filter (λ n. not (is_node v6 cidr key n)) ns

  -- list_add_tail for a new node, list_move_tail for one that changes its peer.
  abbrev pub after_add : Bool → ℕ → ℕ → ℕ → Table → Result Trie → Table × Result {0} Unit
  after_add v6 key cidr peer t (ok trie) = (
    record (with_root v6 trie t) {
      seq = u64 (t.seq + 1);
      listed =
          unlisted v6 cidr key t.listed
          ++ record { owner = peer; v6 = v6; cidr = cidr; key = key } ∷ [];
    },
    ok tt,
  )
  after_add v6 key cidr peer t (err e) = (record t { seq = u64 (t.seq + 1) }, err e)

  unfoldable pub allowedips_insert :
      Bool → ℕ → ℕ → ℕ → Bool → Bool → Table → Table × Result {0} Unit
  allowedips_insert v6 key cidr peer first second t =
      after_add v6 key cidr peer t (add ops (width v6) key cidr peer first second (root_of v6 t))

  -- Only a node of this peer leaves the trie and the peer's list.
  abbrev pub after_remove_of : Bool → ℕ → ℕ → ℕ → Table → Result Trie → Table × Result {0} Unit
  after_remove_of v6 key cidr peer t (ok trie) = (
    record (with_root v6 trie t) {
      seq = u64 (t.seq + 1);
      listed = filter (λ n. not (is_node v6 cidr key n && n.owner == peer)) t.listed;
    },
    ok tt,
  )
  after_remove_of v6 key cidr peer t (err e) = (record t { seq = u64 (t.seq + 1) }, err e)

  unfoldable pub allowedips_remove : Bool → ℕ → ℕ → ℕ → Table → Table × Result {0} Unit
  allowedips_remove v6 key cidr peer t =
      after_remove_of v6 key cidr peer t (remove ops (width v6) key cidr peer (root_of v6 t))

  unfoldable pub unlink : Listed → Table → Table
  unlink n t =
      record (with_root n.v6 (take_out ops (width n.v6) n.key n.cidr any_peer (root_of n.v6 t)).0
        t) { listed = unlisted n.v6 n.cidr n.key t.listed }

  unfoldable pub unlink_all : List Listed → Table → Table
  unfolding unlink
  unlink_all [] t = t
  unlink_all (n ∷ ns) t = unlink_all ns (unlink n t)

  abbrev pub remove_listed : List Listed → Table → Table
  remove_listed [] t = t
  remove_listed (n ∷ ns) t = unlink_all (n ∷ ns) (record t { seq = u64 (t.seq + 1) })

  unfoldable pub allowedips_remove_by_peer : ℕ → Table → Table
  unfolding unlink_all
  allowedips_remove_by_peer peer t = remove_listed (list_of peer t) t
