-- ===== src/AllowedIps/Tests.antt =====
-- Routes at concrete addresses, with a counting fls.
use wgtcp.Base.{
  Bool, subst, sym, ℕ, zero, suc, ◌/◌, ◌^◌, ◌≤◌, ◌<◌, ◌≡◌, ◌↔◌, inl, inr, refl, arith, ◌==◌, ==_iff,
  true, false, Bool-cases, if◌then◌else◌, List, [], ◌∷◌, Option, none, some, ok,
}
use native.Mathlib.Nat.{pow-suc, one-le-pow}
use wgtcp.AllowedIps.{
  Bitops, Trie, null, node, find_node, lookup, choose, common_bits, byte_at, shr, add, remove,
  split,
}
use wgtcp.AllowedIps.Words.{IsBitops, CountsDigits}
use wgtcp.AllowedIps.Lookup
use wgtcp.AllowedIps.Lookup.{longest}
use wgtcp.AllowedIps.Table.Nodes.{orders}
use wgtcp.AllowedIps.Routes.{IsTrie, route}
use wgtcp.AllowedIps.Walk
use wgtcp.AllowedIps.Walk.{walk, nodes_of, size}
use wgtcp.AllowedIps.Table.{
  root_of, allowedips_init, allowedips_insert, allowedips_remove, allowedips_remove_by_peer,
}
use wgtcp.AllowedIps.Table.Match
use wgtcp.AllowedIps.Table.Match.{
  Call, insert, delete, delete_peer, clear, run, run_all, rules_after,
}

count : ℕ → ℕ → ℕ
count zero x = 0
count (suc n) x = let rest = count n (x / 2) in if x == 0 then 0 else suc rest

count_lem : (n : ℕ) → CountsDigits n (count n)
unfolding count
count_lem zero x d lt = (λ h. omega arith, λ h. omega (arith, one-le-pow d 2 (omega arith)))
count_lem (suc n) x d lt = elim (Bool-cases (x == 0)) [
  | inl none_left ↦
      let e : x ≡ 0 = (==_iff _ _).0 none_left in
      rw (none_left, e) (λ h. omega arith, λ h. one-le-pow d 2 (omega arith))
  | inr some_left ↦ rw some_left (digit (λ d. count_lem n (x / 2) d half) d (ground arith))
]
  where
    half : x / 2 < 2 ^ n
    half = omega (arith, pow-suc 2 n)

    digit :
        ((d : ℕ) → (x / 2 < 2 ^ d) ↔ (count n (x / 2) ≤ d))
        → (d : ℕ) → 0 < x
        → (x < 2 ^ d) ↔ (suc (count n (x / 2)) ≤ d)
    digit ih zero pos = (λ h. absurd (omega arith), λ h. absurd (omega arith))
    digit ih (suc d) pos = (
      λ h. let few = (ih d).0 (omega (arith, pow-suc 2 d)) in omega arith,
      λ h. let few = (ih d).1 (omega arith) in omega (arith, pow-suc 2 d),
    )

abbrev bitops : Bitops
bitops = record { fls = count 32; fls64 = count 64 }

bitops-IsBitops : IsBitops bitops
bitops-IsBitops = record { fls_lem = count_lem 32; fls64_lem = count_lem 64 }

-- 0.0.0.0/0, 10.0.0.0/8, 10.1.0.0/16, 10.128.0.0/9 and 10.1.2.0/24.
abbrev calls : List Call
calls =
    insert false 0 0 3 true true
    ∷ insert false 0x0a01_0200 24 1 true true
    ∷ insert false 0x0a00_0000 8 1 true true
    ∷ insert false 0x0a01_0000 16 2 true true
    ∷ insert false 0x0a80_0000 9 4 true true
    ∷ insert false 0x0a80_0000 40 4 true true
    ∷ insert false 0x0a01_0000 17 2 true false
    ∷ delete false 0x0a80_0000 9 4
    ∷ delete_peer 2
    ∷ []

found_for : ℕ → Option ℕ
unfolding find_node run_all allowedips_remove_by_peer allowedips_remove remove allowedips_insert add
    allowedips_init common_bits count choose shr byte_at split
found_for key = find_node bitops 32 (root_of false (run_all bitops calls allowedips_init)) key none

in_24 : found_for 0x0a01_0203 ≡ some 1
unfolding found_for
in_24 = refl

-- 10.1.3.4 falls back to 10.0.0.0/8, since the peer of 10.1.0.0/16 is gone.
in_8 : found_for 0x0a01_0304 ≡ some 1
unfolding found_for
in_8 = refl

-- Removed.
in_9 : found_for 0x0a81_0304 ≡ some 1
unfolding found_for
in_9 = refl

elsewhere : found_for 0x0b00_0000 ≡ some 3
unfolding found_for
elsewhere = refl

longest_match_example :
    find_node bitops 32 (root_of false (run_all bitops calls allowedips_init)) 0x0a01_0203 none
    ≡ longest (λ c. rules_after bitops calls allowedips_init (λ f c k. none) false c 0x0a01_0203) 32
longest_match_example = Match.longest_match bitops bitops-IsBitops calls false 0x0a01_0203

insert-ok_example : (allowedips_insert bitops true 1 128 7 true true allowedips_init).1 ≡ ok tt
insert-ok_example =
    Match.insert-ok bitops bitops-IsBitops true 1 128 7 allowedips_init (omega arith)
      (Match.init-IsTable bitops bitops-IsBitops)

abbrev small : Trie
small = node 8 0x0a00_0000 (some 1) null null

small-IsTrie : IsTrie bitops 32 (node 0 0 (some 3) small null)
unfolding choose byte_at shr
small-IsTrie =
    (omega arith, (omega arith, omega arith, refl), tt, (omega arith, tt, tt, tt, tt), tt)

walk-nodes_of_example :
    walk (suc (size (node 0 0 (some 3) small null))) false (node 0 0 (some 3) small null ∷ [])
    ≡ some (nodes_of (node 0 0 (some 3) small null))
walk-nodes_of_example =
    Walk.walk-nodes_of bitops 32 (omega arith) false 0 0 (some 3) small null small-IsTrie

abbrev two_routes : Trie
two_routes = node 0 0 (some 3) small null

abbrev has_one : ℕ → Bool
has_one p = p == 1

-- The peer of the longest prefix has no references in the first round, and has some in the second.
abbrev route_of : ℕ → Option ℕ
route_of c = route bitops 32 two_routes c 0x0a01_0203

route_found : longest route_of 32 ≡ some 1
unfolding longest route common_bits count choose shr byte_at
route_found = refl

lookup-longest_example :
    lookup bitops 32 ((two_routes, λ p. false) ∷ (two_routes, has_one) ∷ []) 0x0a01_0203
    ≡ some (longest route_of 32)
lookup-longest_example =
    Lookup.lookup-longest bitops 32 (orders bitops bitops-IsBitops false) 0x0a01_0203
      ((two_routes, λ p. false) ∷ []) [] two_routes has_one
      (record { trie = small-IsTrie; peer = 1; found = route_found; gone = refl }, tt) small-IsTrie
      (subst (Lookup.IsLast has_one) (sym route_found) refl)
