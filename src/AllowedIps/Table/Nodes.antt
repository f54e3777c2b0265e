-- ===== src/AllowedIps/Table/Nodes.antt =====
-- Prefixes of both families, and the entries of a table for them.
use wgtcp.Base.{
  ℕ, ◌≤◌, ◌≡◌, inl, inr, refl, sym, ap, subst, ◌∙◌, arith, Bool, true, false, if◌then◌else◌, List,
  [], ◌∷◌, ◌++◌, Option, some, All, Any, filter, Bool-cases,
}
use wgtcp.AllowedIps.{Bitops, Trie, common_bits, choose}
use wgtcp.AllowedIps.Words.{IsBitops, IsPrefixOrder}
use wgtcp.AllowedIps.Keys.{v4-IsPrefixOrder, v6-IsPrefixOrder}
use wgtcp.AllowedIps.Routes.{IsTrie, route, route-cong}
use wgtcp.AllowedIps.Table.{width, Listed, Table, root_of, with_root, is_node, same_family}

module _ {ℓ} {A : Type ℓ} where
  pub All-filter :
      (P Q : A → Type 0) (p : A → Bool) (xs : List A)
      → ((x : A) → p x ≡ true → P x → Q x)
      → All P xs
      → All Q (filter p xs)
  All-filter P Q p [] step all = tt
  All-filter P Q p (x ∷ xs) step all = elim (Bool-cases (p x)) [
    | inl e ↦ rw e (step x e all.0, All-filter P Q p xs step all.1)
    | inr e ↦ rw e (All-filter P Q p xs step all.1)
  ]

  pub Any-filter :
      (P : A → Type 0) (p : A → Bool) (xs : List A)
      → ((x : A) → P x → p x ≡ true)
      → Any P xs
      → Any P (filter p xs)
  Any-filter P p [] keep any = any
  Any-filter P p (x ∷ xs) keep (inl here) = rw (keep x here) (inl here)
  Any-filter P p (x ∷ xs) keep (inr there) = elim (Bool-cases (p x)) [
    | inl e ↦ rw e (inr (Any-filter P p xs keep there))
    | inr e ↦ rw e (Any-filter P p xs keep there)
  ]

  pub All-append_one :
      (P : A → Type 0) (xs : List A) (x : A) → All P xs → P x → All P (xs ++ x ∷ [])
  All-append_one P [] x all last = (last, tt)
  All-append_one P (y ∷ xs) x all last = (all.0, All-append_one P xs x all.1 last)

  pub Any-append_one : (P : A → Type 0) (xs : List A) (x : A) → Any P xs → Any P (xs ++ x ∷ [])
  Any-append_one P [] x any = absurd any
  Any-append_one P (y ∷ xs) x (inl here) = inl here
  Any-append_one P (y ∷ xs) x (inr there) = inr (Any-append_one P xs x there)

  pub Any-append_last : (P : A → Type 0) (xs : List A) (x : A) → P x → Any P (xs ++ x ∷ [])
  Any-append_last P [] x last = inl last
  Any-append_last P (y ∷ xs) x last = inr (Any-append_last P xs x last)

abbrev pub named : ℕ → Bool → ℕ → ℕ → Listed
named peer v6 cidr key = record { owner = peer; v6 = v6; cidr = cidr; key = key }

module _ (ops : Bitops) where
  -- The entry of a table for the first `c` bits of `k`.
  abbrev pub entry : Table → Bool → ℕ → ℕ → Option ℕ
  entry t v6 c k = route ops (width v6) (root_of v6 t) c k

  entry-with_root :
      (v6 f : Bool) (trie : Trie) (t : Table) (c k : ℕ)
      → entry (with_root v6 trie t) f c k
        ≡ (if same_family v6 f then route ops (width f) trie c k else entry t f c k)
  entry-with_root true true trie t c k = refl
  entry-with_root true false trie t c k = refl
  entry-with_root false true trie t c k = refl
  entry-with_root false false trie t c k = refl

  pub tries-with_root :
      (v6 f : Bool) (trie : Trie) (t : Table)
      → IsTrie ops (width v6) trie
      → IsTrie ops (width f) (root_of f t)
      → IsTrie ops (width f) (root_of f (with_root v6 trie t))
  tries-with_root true true trie t new old = new
  tries-with_root true false trie t new old = old
  tries-with_root false true trie t new old = old
  tries-with_root false false trie t new old = new

  abbrev pub is_same : Listed → Listed → Bool
  is_same n m = is_node ops n.v6 n.cidr n.key m

module _ (ops : Bitops) (laws : IsBitops ops) where
  pub orders :
      (v6 : Bool) → IsPrefixOrder (width v6) (common_bits ops (width v6)) (choose (width v6))
  orders true = v6-IsPrefixOrder ops laws
  orders false = v4-IsPrefixOrder ops laws

  family_eq : (a b : Bool) → same_family a b ≡ true → a ≡ b
  family_eq true true e = refl
  family_eq true false e = cc
  family_eq false true e = cc
  family_eq false false e = refl

  node_facts :
      (f : Bool) (c k : ℕ) (n : Listed)
      → is_node ops f c k n ≡ true
      → (n.v6 ≡ f) × (c ≡ n.cidr) × (n.cidr ≤ common_bits ops (width f) n.key k)
  node_facts f c k n e = (family_eq n.v6 f (ground arith), ground arith, ground arith)

  family_refl : (a : Bool) → same_family a a ≡ true
  family_refl true = refl
  family_refl false = refl

  node_of_facts :
      (f : Bool) (c k : ℕ) (n : Listed)
      → n.v6 ≡ f
      → c ≡ n.cidr
      → n.cidr ≤ common_bits ops (width f) n.key k
      → is_node ops f c k n ≡ true
  node_of_facts f c k n e d le =
      let family : same_family n.v6 f ≡ true =
        ap (λ b. same_family n.v6 b) (sym e) ∙ family_refl n.v6 in
      ground arith

  -- What names one node names no other.
  node_trans :
      (f : Bool) (c k : ℕ) (n m : Listed)
      → is_node ops f c k n ≡ true
      → is_node ops f c k m ≡ true
      → is_same ops n m ≡ true
  node_trans f c k n m p q =
      let (fn, cn, an) = node_facts f c k n p in
      let (fm, cm, am) = node_facts f c k m q in
      let o = orders f in
      let agree : m.cidr ≤ common_bits ops (width f) m.key n.key =
        omega (arith, o.triangle m.key k n.key, o.symmetric n.key k) in
      node_of_facts n.v6 n.cidr n.key m (fm ∙ sym fn) (sym cn ∙ cm)
        (subst (λ b. m.cidr ≤ common_bits ops (width b) m.key n.key) (sym fn) agree)

  pub node_sym : (n m : Listed) → is_same ops n m ≡ true → is_same ops m n ≡ true
  node_sym n m e =
      let (f, c, a) = node_facts n.v6 n.cidr n.key m e in
      let o = orders n.v6 in
      let agree : n.cidr ≤ common_bits ops (width n.v6) n.key m.key =
        omega (arith, o.symmetric n.key m.key) in
      node_of_facts m.v6 m.cidr m.key n (sym f) (sym c)
        (subst (λ b. n.cidr ≤ common_bits ops (width b) n.key m.key) (sym f) agree)

  -- A name of a node's own prefix is one of the node.
  pub node_back :
      (f : Bool) (c k : ℕ) (n m : Listed)
      → is_node ops f c k n ≡ true
      → is_same ops n m ≡ true
      → is_node ops f c k m ≡ true
  node_back f c k n m p q =
      let (fn, cn, an) = node_facts f c k n p in
      let (fm, cm, am) = node_facts n.v6 n.cidr n.key m q in
      let o = orders f in
      let am' : m.cidr ≤ common_bits ops (width f) m.key n.key =
        subst (λ b. m.cidr ≤ common_bits ops (width b) m.key n.key) fn am in
      node_of_facts f c k m (fm ∙ fn) (cn ∙ cm) (omega (arith, o.triangle m.key n.key k, cm))

  pub node_self :
      (v6 : Bool) (cidr key peer : ℕ)
      → cidr ≤ width v6
      → is_node ops v6 cidr key (record { owner = peer; v6 = v6; cidr = cidr; key = key }) ≡ true
  node_self v6 cidr key peer fits =
      let o = orders v6 in
      node_of_facts v6 cidr key (record { owner = peer; v6 = v6; cidr = cidr; key = key }) refl refl
        (omega (arith, o.self key))

  -- A node that a name fits carries the entry for it.
  pub entry-node :
      (t : Table) (f : Bool) (c k : ℕ) (n : Listed)
      → is_node ops f c k n ≡ true
      → entry ops t f c k ≡ entry ops t n.v6 n.cidr n.key
  entry-node t f c k n e =
      let (fn, cn, an) = node_facts f c k n e in
      let o = orders f in
      let same : entry ops t f n.cidr n.key ≡ entry ops t f n.cidr k =
        route-cong ops (width f) o (root_of f t) n.cidr n.key k an in
      ap (λ (x : ℕ). entry ops t f x k) cn
      ∙ sym same
      ∙ ap (λ b. entry ops t b n.cidr n.key) (sym fn)

  -- Every listed node is in a trie with its peer, and every node with a peer is on its list.
  pub record IsTable (t : Table) : Type 0 where
    pub tries : (v6 : Bool) → IsTrie ops (width v6) (root_of v6 t)
    pub sound : All (λ n. entry ops t n.v6 n.cidr n.key ≡ some n.owner) t.listed
    pub complete :
        (f : Bool) (c k p : ℕ)
        → entry ops t f c k ≡ some p
        → Any (λ n. (n.owner ≡ p) × (is_node ops f c k n ≡ true)) t.listed
