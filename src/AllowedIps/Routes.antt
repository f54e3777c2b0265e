-- ===== src/AllowedIps/Routes.antt =====
-- What a trie of kernel/allowedips.c stands for: the peer of each prefix. The order of its nodes.
use wgtcp.Base.{
  ℕ, ◌≤◌, ◌<◌, ◌≡◌, ◌≢◌, inl, inr, refl, sym, ◌∙◌, arith, ◌==◌, leb, ◌&&◌, Bool, true, Bool-cases,
  Option-cases, if◌then◌else◌, Option, none, some,
}
use wgtcp.AllowedIps.{Bitops, Trie, null, node, common_bits, choose, found_at}
use wgtcp.AllowedIps.Words.{IsPrefixOrder}

pub found_at-none : (a : Option ℕ) → found_at a none ≡ a
found_at-none none = refl
found_at-none (some a) = refl

module _ (ops : Bitops) (bits : ℕ) where
  -- The root of `t` is a longer prefix of which the node at `cidr` is one, on the side `bit`.
  abbrev pub HangsAt : ℕ → ℕ → ℕ → Trie → Type 0
  HangsAt cidr key bit null = Unit
  HangsAt cidr key bit (node c k p l r) =
      (cidr < c) × (cidr ≤ common_bits ops bits key k) × (choose bits cidr k ≡ bit)

  -- The order of a trie.
  abbrev pub IsTrie : Trie → Type 0
  IsTrie null = Unit
  IsTrie (node c k p l r) = (c ≤ bits) × HangsAt c k 0 l × HangsAt c k 1 r × IsTrie l × IsTrie r

  -- The entry for the first `cidr` bits of `key`, wherever in the trie it stands.
  unfoldable pub route : Trie → ℕ → ℕ → Option ℕ
  route null cidr key = none
  route (node c k p l r) cidr key =
      if cidr == c && leb c (common_bits ops bits k key)
      then p
      else found_at (route l cidr key) (route r cidr key)

  -- Whether the first `c` bits of `k` are the first `cidr` bits of `key`.
  abbrev pub is_entry : ℕ → ℕ → ℕ → ℕ → Bool
  is_entry cidr key c k = c == cidr && leb cidr (common_bits ops bits key k)

  pub entry_lem :
      (cidr key c k : ℕ)
      → is_entry cidr key c k ≡ true
      → (c ≡ cidr) × (cidr ≤ common_bits ops bits key k)
  entry_lem cidr key c k h = ground arith

  pub route-node :
      (c k : ℕ) (p : Option ℕ) (l r : Trie) (cidr key : ℕ)
      → route (node c k p l r) cidr key ≡ (
          if cidr == c && leb c (common_bits ops bits k key)
          then p
          else found_at (route l cidr key) (route r cidr key))
  unfolding route
  route-node c k p l r cidr key = refl

module _ (ops : Bitops) (bits : ℕ)
    (order : IsPrefixOrder bits (common_bits ops bits) (choose bits)) where
  open order use {triangle, next, symmetric, self}

  -- A prefix of the node above, on the side of `bit`.
  abbrev Behind : ℕ → ℕ → ℕ → ℕ → ℕ → Type 0
  Behind c k bit cidr key =
      (c < cidr) × (c ≤ common_bits ops bits k key) × (choose bits c key ≡ bit)

  -- What agrees with a node agrees with the nodes above it.
  settle :
      (c k bit c' k' cidr key : ℕ)
      → HangsAt ops bits c k bit (node c' k' none null null)
      → c' ≤ bits
      → c' ≤ cidr
      → c' ≤ common_bits ops bits k' key
      → Behind c k bit cidr key
  settle c k bit c' k' cidr key (lt, le, side) within deep agrees =
      let same = (next c k' key (omega arith) (omega arith)).0 (omega arith) in
      (omega arith, omega (arith, triangle k k' key), sym same ∙ side)

  -- What hangs below a node on one side has entries only for prefixes of that side.
  route-HangsAt :
      (c k bit : ℕ) (t : Trie) (cidr key p : ℕ)
      → HangsAt ops bits c k bit t
      → IsTrie ops bits t
      → route ops bits t cidr key ≡ some p
      → Behind c k bit cidr key
  unfolding route
  route-HangsAt c k bit null cidr key p h t e = ground arith
  route-HangsAt c k bit (node c' k' p' l r) cidr key p (lt, le, side) (within, hl, hr, tl, tr) e =
      elim (Bool-cases (cidr == c' && leb c' (common_bits ops bits k' key))) [
        | inl here ↦
            settle c k bit c' k' cidr key (lt, le, side) within (ground arith) (ground arith)
        | inr below ↦ elim (Option-cases (route ops bits l cidr key)) [
          | inr (q, in_l) ↦
              let b = route-HangsAt c' k' 0 l cidr key q hl tl in_l in
              settle c k bit c' k' cidr key (lt, le, side) within (omega arith) b.1
          | inl none_l ↦
              let in_r : route ops bits r cidr key ≡ some p = rw (below, none_l) at e in
              let b = route-HangsAt c' k' 1 r cidr key p hr tr in_r in
              settle c k bit c' k' cidr key (lt, le, side) within (omega arith) b.1
        ]
      ]

  -- So there is none for other keys.
  pub route-none :
      (c k bit : ℕ) (t : Trie) (cidr key : ℕ)
      → HangsAt ops bits c k bit t
      → IsTrie ops bits t
      → (Behind c k bit cidr key → ⊥)
      → route ops bits t cidr key ≡ none
  route-none c k bit t cidr key h v other = elim (Option-cases (route ops bits t cidr key)) [
    | inl e ↦ e
    | inr (p, e) ↦ absurd (other (route-HangsAt c k bit t cidr key p h v e))
  ]

  -- The entries of a node whose prefix the key has: its own, and those of the child on the key's side.
  pub route-matching :
      (c k : ℕ) (p : Option ℕ) (l r : Trie) (cidr key : ℕ)
      → IsTrie ops bits (node c k p l r)
      → c ≤ common_bits ops bits k key
      → route ops bits (node c k p l r) cidr key ≡ (
          if cidr == c
          then p
          else if choose bits c key == 0
          then route ops bits l cidr key
          else route ops bits r cidr key)
  unfolding route
  route-matching c k p l r cidr key (within, hl, hr, tl, tr) agrees =
      let no_l = λ (ne : choose bits c key ≢ 0). route-none c k 0 l cidr key hl tl (λ b. ne b.2) in
      let no_r = λ (ne : choose bits c key ≢ 1). route-none c k 1 r cidr key hr tr (λ b. ne b.2) in
      elim (Bool-cases (cidr == c)) [
        | inl here ↦ rw here (ground arith)
        | inr other ↦ elim (Bool-cases (choose bits c key == 0)) [
          | inl zero_side ↦ ground (arith, no_r (ground arith))
          | inr one_side ↦ ground (arith, no_l (ground arith))
        ]
      ]

  -- The entries of a node whose prefix the key does not have.
  pub route-apart :
      (c k : ℕ) (p : Option ℕ) (l r : Trie) (cidr key : ℕ)
      → IsTrie ops bits (node c k p l r)
      → common_bits ops bits k key < c
      → route ops bits (node c k p l r) cidr key ≡ none
  unfolding route
  route-apart c k p l r cidr key (within, hl, hr, tl, tr) apart = ground (
    arith,
    route-none c k 0 l cidr key hl tl (λ b. omega arith),
    route-none c k 1 r cidr key hr tr (λ b. omega arith),
  )

  -- A trie has entries for prefixes of its root only.
  pub route-root :
      (c k : ℕ) (p : Option ℕ) (l r : Trie) (cidr key q : ℕ)
      → IsTrie ops bits (node c k p l r)
      → route ops bits (node c k p l r) cidr key ≡ some q
      → (c ≤ cidr) × (c ≤ common_bits ops bits k key)
  unfolding route
  route-root c k p l r cidr key q v e =
      elim (Bool-cases (cidr == c && leb c (common_bits ops bits k key))) [
        | inl here ↦ ground arith
        | inr below ↦ elim (Option-cases (route ops bits l cidr key)) [
          | inr (x, in_l) ↦
              let b = route-HangsAt c k 0 l cidr key x v.1 v.3 in_l in (omega arith, b.1)
          | inl none_l ↦
              let in_r : route ops bits r cidr key ≡ some q = rw (below, none_l) at e in
              let b = route-HangsAt c k 1 r cidr key q v.2 v.4 in_r in (omega arith, b.1)
        ]
      ]

  -- Keys with the same first bits ask for the same entry.
  pub route-cong :
      (t : Trie) (cidr key k : ℕ)
      → cidr ≤ common_bits ops bits key k
      → route ops bits t cidr key ≡ route ops bits t cidr k
  unfolding route
  route-cong null cidr key k e = refl
  route-cong (node c k' p l r) cidr key k e = ground (
    arith,
    triangle k' key k,
    triangle k' k key,
    symmetric key k,
    route-cong l cidr key k e,
    route-cong r cidr key k e,
  )

module _ (ops : Bitops) (bits : ℕ) where
  -- No entry is longer than an address.
  pub route-within :
      (t : Trie) (cidr key p : ℕ)
      → IsTrie ops bits t
      → route ops bits t cidr key ≡ some p
      → cidr ≤ bits
  unfolding route
  route-within null cidr key p v e = absurd (ground arith)
  route-within (node c k q l r) cidr key p v e =
      elim (Bool-cases (cidr == c && leb c (common_bits ops bits k key))) [
        | inl here ↦ ground (arith, v.0)
        | inr below ↦ elim (Option-cases (route ops bits l cidr key)) [
          | inr (x, in_l) ↦ route-within l cidr key x v.3 in_l
          | inl none_l ↦ route-within r cidr key p v.4 (rw (below, none_l) at e)
        ]
      ]
