-- ===== src/AllowedIps/Lookup.antt =====
-- find_node of kernel/allowedips.c against the rules of a trie, and the rounds of lookup around it.
use wgtcp.Base.{
  Bool, true, false, List, [], ◌∷◌, ◌++◌, All, ℕ, zero, suc, ◌≤◌, ◌<◌, ◌≡◌, inl, inr, refl, sym, ap,
  ◌∙◌, arith, ◌==◌, ==_iff, leb, Bool-cases, if◌then◌else◌, Option, none, some,
}
use wgtcp.AllowedIps.{Bitops, Trie, null, node, common_bits, choose, found_at, find_node, lookup}
use wgtcp.AllowedIps.Words.{IsPrefixOrder}
use wgtcp.AllowedIps.Routes.{
  HangsAt, IsTrie, route, route-none, route-matching, route-apart, found_at-none,
}

-- The entry of greatest length at most `n`.
unfoldable pub longest : (ℕ → Option ℕ) → ℕ → Option ℕ
longest entry zero = entry zero
longest entry (suc n) = found_at (entry (suc n)) (longest entry n)

longest-none :
    (entry : ℕ → Option ℕ) (n : ℕ) → ((c : ℕ) → c ≤ n → entry c ≡ none) → longest entry n ≡ none
unfolding longest
longest-none entry zero nothing = nothing 0 (omega arith)
longest-none entry (suc n) nothing =
    rw (nothing (suc n) (omega arith), longest-none entry n (λ c le. nothing c (omega arith))) refl

-- One more entry below all the others is what is found if none of the others is.
longest_with :
    (entry more : ℕ → Option ℕ) (c n : ℕ) (p : Option ℕ)
    → ((x : ℕ) → more x ≡ (if x == c then p else entry x))
    → ((x : ℕ) → x ≤ c → entry x ≡ none)
    → c ≤ n
    → longest more n ≡ found_at (longest entry n) p
unfolding longest
longest_with entry more zero zero p with_p deep le = ground (arith, with_p 0, deep 0)
longest_with entry more (suc c) zero p with_p deep le = absurd (omega arith)
longest_with entry more c (suc n) p with_p deep le = elim (Bool-cases (c == suc n)) [
  | inl last ↦
      let e : c ≡ suc n = (==_iff _ _).0 last in
      let all = longest-none entry n (λ x h. deep x (omega arith)) in
      let rest = longest-none more n (λ x h. ground (arith, with_p x, deep x (omega arith))) in
      ground (arith, with_p (suc n), deep (suc n) (omega arith))
  | inr before ↦
      let ih = longest_with entry more c n p with_p deep (ground arith) in
      ground (arith, with_p (suc n))
]

found_at_assoc : (a b c : Option ℕ) → found_at (found_at a b) c ≡ found_at a (found_at b c)
found_at_assoc none b c = refl
found_at_assoc (some a) b c = refl

-- What a round returns if it is the last one: no peer, or one that has references.
abbrev pub IsLast : (ℕ → Bool) → Option ℕ → Type 0
IsLast has_reference none = Unit
IsLast has_reference (some peer) = has_reference peer ≡ true

on_found :
    (has_reference : ℕ → Bool) (found result : Option ℕ) (again : Option (Option ℕ))
    → found ≡ result
    → IsLast has_reference result
    → (elim found as (λ x. Option (Option ℕ)) [
      | none ↦ some none
      | some peer ↦ if has_reference peer then some (some peer) else again
    ])
      ≡ some result
on_found has_reference found none again e last = rw e refl
on_found has_reference found (some peer) again e last = rw e (rw last refl)

on_missed :
    (has_reference : ℕ → Bool) (found : Option ℕ) (peer : ℕ) (again : Option (Option ℕ))
    → found ≡ some peer
    → has_reference peer ≡ false
    → (elim found as (λ x. Option (Option ℕ)) [
      | none ↦ some none
      | some peer ↦ if has_reference peer then some (some peer) else again
    ])
      ≡ again
on_missed has_reference found peer again e gone = rw e (rw gone refl)

module _ (ops : Bitops) (bits : ℕ)
    (order : IsPrefixOrder bits (common_bits ops bits) (choose bits)) where
  -- The peer of the longest prefix of `key` that has one.
  best : Trie → ℕ → Option ℕ
  best t key = longest (λ c. route ops bits t c key) bits

  best-null : (key : ℕ) → best null key ≡ none
  unfolding best route
  best-null key = longest-none _ bits (λ c le. refl)

  best-side :
      (c k bit : ℕ) (p : Option ℕ) (l r child : Trie) (key : ℕ)
      → c ≤ bits
      → HangsAt ops bits c k bit child
      → IsTrie ops bits child
      → ((x : ℕ)
          → route ops bits (node c k p l r) x key
            ≡ (if x == c then p else route ops bits child x key))
      → best (node c k p l r) key ≡ found_at (best child key) p
  unfolding best
  best-side c k bit p l r child key within h v split =
      longest_with (λ x. route ops bits child x key) (λ x. route ops bits (node c k p l r) x key) c
        bits p split (λ x le. route-none ops bits order c k bit child x key h v (λ b. omega arith))
        within

  best-matching :
      (c k : ℕ) (p : Option ℕ) (l r : Trie) (key : ℕ)
      → IsTrie ops bits (node c k p l r)
      → c ≤ common_bits ops bits k key
      → best (node c k p l r) key
        ≡ found_at (if choose bits c key == 0 then best l key else best r key) p
  best-matching c k p l r key v agrees =
      let split = λ (x : ℕ). route-matching ops bits order c k p l r x key v agrees in
      elim (Bool-cases (choose bits c key == 0)) [
        | inl zero_side ↦
            rw zero_side (best-side c k 0 p l r l key v.0 v.1 v.3 (λ x. rw zero_side at (split x)))
        | inr one_side ↦
            rw one_side (best-side c k 1 p l r r key v.0 v.2 v.4 (λ x. rw one_side at (split x)))
      ]

  best-apart :
      (c k : ℕ) (p : Option ℕ) (l r : Trie) (key : ℕ)
      → IsTrie ops bits (node c k p l r)
      → common_bits ops bits k key < c
      → best (node c k p l r) key ≡ none
  unfolding best
  best-apart c k p l r key v apart =
      longest-none _ bits (λ x le. route-apart ops bits order c k p l r x key v apart)

  -- Below a full key there is nothing.
  best-full :
      (c k bit : ℕ) (t : Trie) (key : ℕ)
      → HangsAt ops bits c k bit t
      → IsTrie ops bits t
      → c ≡ bits
      → best t key ≡ none
  unfolding best
  best-full c k bit t key h v full =
      longest-none _ bits (λ x le. route-none ops bits order c k bit t x key h v (λ b. omega arith))

  find_node-best :
      (t : Trie) (key : ℕ) (found : Option ℕ)
      → IsTrie ops bits t
      → find_node ops bits t key found ≡ found_at (best t key) found
  unfolding find_node
  find_node-best null key found v = ap (λ o. found_at o found) (sym (best-null key))
  find_node-best (node c k p l r) key found v =
      elim (Bool-cases (leb c (common_bits ops bits k key))) [
        | inr apart ↦ rw (apart, best-apart c k p l r key v (ground arith)) refl
        | inl matching ↦
            let at = best-matching c k p l r key v (ground arith) in
            let in_l = find_node-best l key (found_at p found) v.3 in
            let in_r = find_node-best r key (found_at p found) v.4 in
            elim (Bool-cases (c == bits)) [
              | inl full ↦
                  let e : c ≡ bits = (==_iff _ _).0 full in
                  ground (arith, best-full c k 0 l key v.1 v.3 e, best-full c k 1 r key v.2 v.4 e)
              | inr inner ↦
                  let assoc = λ (o : Option ℕ). found_at_assoc o p found in
                  ground (arith, assoc (best l key), assoc (best r key))
            ]
      ]

  -- find_node returns the peer of the longest prefix of the key that has one.
  pub find_node-longest :
      (t : Trie) (key : ℕ)
      → IsTrie ops bits t
      → find_node ops bits t key none ≡ longest (λ c. route ops bits t c key) bits
  unfolding best
  find_node-longest t key v = find_node-best t key none v ∙ found_at-none _

  -- A round of lookup's loop whose trie gives a peer without references.
  pub record IsMiss (key : ℕ) (round : Trie × (ℕ → Bool)) : Type 0 where
    pub trie : IsTrie ops bits round.0
    pub peer : ℕ
    pub found : longest (λ c. route ops bits round.0 c key) bits ≡ some peer
    pub gone : round.1 peer ≡ false

  -- lookup tries again as long as the peer of the longest prefix has no references any more; the first
  -- round in which it has, or in which no prefix has a peer, ends it with the peer of the longest prefix in
  -- the trie of that round.
  pub lookup-longest :
      (key : ℕ) (missed later : List (Trie × (ℕ → Bool))) (root : Trie) (has_reference : ℕ → Bool)
      → All (IsMiss key) missed
      → IsTrie ops bits root
      → IsLast has_reference (longest (λ c. route ops bits root c key) bits)
      → lookup ops bits (missed ++ (root, has_reference) ∷ later) key
        ≡ some (longest (λ c. route ops bits root c key) bits)
  unfolding lookup
  lookup-longest key [] later root has_reference misses v last =
      on_found has_reference _ _ _ (find_node-longest root key v) last
  lookup-longest key ((t, refs) ∷ missed) later root has_reference (m, misses) v last =
      on_missed refs _ m.peer _ (find_node-longest t key m.trie ∙ m.found) m.gone
      ∙ lookup-longest key missed later root has_reference misses v last
