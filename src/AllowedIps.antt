-- ===== src/AllowedIps.antt =====
-- The trie of kernel/allowedips.c on a little-endian machine. A key is the number that swap_endian
-- makes of an address; a pointer to a node is the subtree that hangs on it, so parent_bit_packed
-- and the reading of a child by RCU leave no trace. Peers are numbers.
pub mod Words
pub mod Keys
pub mod Routes
pub mod Lookup
pub mod Placed
pub mod Insert
mod Cut
pub mod Unlink
pub mod Remove
pub mod Table
pub mod Walk
mod Tests
use wgtcp.Base.{
  ℕ, zero, suc, ◌+◌, ◌-◌, ◌*◌, ◌/◌, ◌%◌, ◌^◌, Bool, true, false, not, ◌&&◌, ltb, leb, ◌==◌, min,
  bit_xor, u32, u64, if◌then◌else◌, List, [], ◌∷◌, Option, none, some, Result, ok, err, Errno,
  einval, enomem, Option-cases,
}

-- fls and fls64 of the kernel's bitops.
pub record Bitops : Type 0 where
  pub fls : ℕ → ℕ
  pub fls64 : ℕ → ℕ

-- `x >> n` on unsigned numbers.
pub shr : ℕ → ℕ → ℕ
shr x zero = x
shr x (suc n) = shr x n / 2

abbrev pub high_word : ℕ → ℕ
high_word key = u64 (key / 2 ^ 64)

-- Byte `i` of the array that a key of 32 or of 128 bits is stored in: one u32, or two u64 with the
-- upper one first, each with its lowest byte first.
pub byte_at : ℕ → ℕ → ℕ → ℕ
unfolding shr
byte_at bits key i =
    if bits == 32
    then shr (u32 key) (8 * i) % 256
    else if ltb i 8
    then shr (high_word key) (8 * i) % 256
    else shr (u64 key) (8 * (i - 8)) % 256

-- bit_at_a and bit_at_b as copy_and_assign_cidr sets them.
abbrev pub bit_at_a : ℕ → ℕ → ℕ
bit_at_a bits cidr = bit_xor (cidr / 8) ((bits / 8 - 1) % 8)

abbrev pub bit_at_b : ℕ → ℕ
bit_at_b cidr = 7 - cidr % 8

-- The bit of `key` at which a node with `cidr` branches.
pub choose : ℕ → ℕ → ℕ → ℕ
choose bits cidr key = shr (byte_at bits key (bit_at_a bits cidr)) (bit_at_b cidr) % 2

pub data Trie : Type 0 where
  null : Trie
  node : (cidr key : ℕ) (peer : Option ℕ) (bit0 bit1 : Trie) → Trie

-- choose_and_connect_node writes one of the two children.
abbrev pub connect_node : ℕ → Trie → Trie → Trie
connect_node bit t null = null
connect_node bit t (node cidr key peer l r) =
    if bit == 0 then node cidr key peer t r else node cidr key peer l t

-- A node whose child on the side of a bit is rebuilt, unless there is no memory.
abbrev pub reconnect : ℕ → Trie → Result Trie → Result Trie
reconnect bit t (ok child) = ok (connect_node bit child t)
reconnect bit t (err e) = err e

-- remove_node takes out a node with at most one child; `true` says that it had none, so that a
-- node above it without a peer goes too.
abbrev pub remove_node : ℕ → ℕ → Trie → Trie → Trie × Bool
remove_node cidr key null null = (null, true)
remove_node cidr key null r = (r, false)
remove_node cidr key l null = (l, false)
remove_node cidr key l r = (node cidr key none l r, false)

-- The node above, after the removal below its child on the side of `bit`.
abbrev pub after_remove : ℕ → ℕ → ℕ → Option ℕ → Trie → Trie → Trie × Bool → Trie × Bool
after_remove bit cidr key none l r (child, true) = (if bit == 0 then r else l, false)
after_remove bit cidr key peer l r (child, gone) =
    (if bit == 0 then node cidr key peer child r else node cidr key peer l child, false)

abbrev pub is_peer : ℕ → Option ℕ → Bool
is_peer peer none = false
is_peer peer (some p) = p == peer

abbrev pub found_at : Option ℕ → Option ℕ → Option ℕ
found_at none found = found
found_at (some p) found = some p

module _ (ops : Bitops) where
  pub fls128 : ℕ → ℕ → ℕ
  fls128 a b = if a == 0 then ops.fls64 b else ops.fls64 a + 64

  pub common_bits : ℕ → ℕ → ℕ → ℕ
  common_bits bits a b =
      if bits == 32
      then 32 - ops.fls (bit_xor (u32 a) (u32 b))
      else if bits == 128
      then 128 - fls128 (bit_xor (high_word a) (high_word b)) (bit_xor (u64 a) (u64 b))
      else 0

  abbrev pub prefix_matches : ℕ → ℕ → ℕ → ℕ → Bool
  prefix_matches bits cidr node_key key = leb cidr (common_bits bits node_key key)

  -- The peer of the node that the walk finds last; `found` is that of the nodes above.
  pub find_node : ℕ → Trie → ℕ → Option ℕ → Option ℕ
  find_node bits null key found = found
  find_node bits (node cidr k peer l r) key found =
      let found' = found_at peer found in
      let in_l = find_node bits l key found' in
      let in_r = find_node bits r key found' in
      if prefix_matches bits cidr k key
      then (if cidr == bits then found' else if choose bits cidr key == 0 then in_l else in_r)
      else found

  -- Each round of lookup's loop sees the trie of its moment and which peers still have references.
  pub lookup : ℕ → List (Trie × (ℕ → Bool)) → ℕ → Option (Option ℕ)
  unfolding find_node
  lookup bits [] key = none
  lookup bits ((root, has_reference) ∷ rounds) key =
      let again = lookup bits rounds key in
      elim (find_node bits root key none) [
        | none ↦ some none
        | some peer ↦ if has_reference peer then some (some peer) else again
      ]

  -- kmem_cache_zalloc gives the new node if `first` holds, and the node above both if `second` does.
  pub split : ℕ → ℕ → ℕ → ℕ → Bool → Trie → ℕ → Result Trie
  split bits key cidr peer second down down_key =
      let cidr' = min cidr (common_bits bits down_key key) in
      let newnode = node cidr key (some peer) null null in
      if cidr == cidr'
      then ok (connect_node (choose bits cidr down_key) down newnode)
      else if second
      then ok (
          connect_node (choose bits cidr' key) newnode
            (connect_node (choose bits cidr' down_key) down (node cidr' key none null null)))
      else err enomem

  -- node_placement's walk, and what add does at its end.
  pub place : ℕ → ℕ → ℕ → ℕ → Bool → Bool → Trie → Result Trie
  place bits key cidr peer first second null =
      if first then ok (node cidr key (some peer) null null) else err enomem
  place bits key cidr peer first second (node c k p l r) =
      let in_l = place bits key cidr peer first second l in
      let in_r = place bits key cidr peer first second r in
      let here = node c k p l r in
      if leb c cidr && prefix_matches bits c k key
      then (if c == cidr
          then ok (node c k (some peer) l r)
          else if choose bits c key == 0
          then reconnect 0 here in_l
          else reconnect 1 here in_r)
      else if first
      then split bits key cidr peer second here k
      else err enomem

  pub add : ℕ → ℕ → ℕ → ℕ → Bool → Bool → Trie → Result Trie
  unfolding place
  add bits key cidr peer first second trie =
      if ltb bits cidr then err einval else place bits key cidr peer first second trie

  -- The walk to the exact node; `wanted` is what it must hold for remove_node to be called.
  pub take_out : ℕ → ℕ → ℕ → (Option ℕ → Bool) → Trie → Trie × Bool
  take_out bits key cidr wanted null = (null, false)
  take_out bits key cidr wanted (node c k p l r) =
      let in_l = take_out bits key cidr wanted l in
      let in_r = take_out bits key cidr wanted r in
      let here = node c k p l r in
      if leb c cidr && prefix_matches bits c k key
      then (if c == cidr
          then (if wanted p then remove_node c k l r else (here, false))
          else if choose bits c key == 0
          then after_remove 0 c k p l r in_l
          else after_remove 1 c k p l r in_r)
      else (here, false)

  pub remove : ℕ → ℕ → ℕ → ℕ → Trie → Result Trie
  unfolding take_out
  remove bits key cidr peer trie =
      if ltb bits cidr then err einval else ok (take_out bits key cidr (is_peer peer) trie).0
