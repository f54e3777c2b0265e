-- ===== src/AllowedIps/Walk.antt =====
-- The loops of kernel/allowedips.c over a whole trie: push_rcu, root_free_rcu and
-- root_remove_peer_lists, with their stack of 129 nodes on the kernel's own stack.
use wgtcp.Base.{
  ℕ, zero, suc, ◌+◌, ◌≤◌, ◌<◌, ◌≡◌, refl, sym, ap, ◌∙◌, arith, Bool, leb, lt→leb, if◌then◌else◌,
  List, [], ◌∷◌, ◌++◌, length, append_assoc, append-nil, Option, none, some,
}
use wgtcp.AllowedIps.{Bitops, Trie, null, node}
use wgtcp.AllowedIps.Routes.{HangsAt, IsTrie}

-- MAX_ALLOWEDIPS_DEPTH
abbrev pub max_depth : ℕ
max_depth = 129

-- The top of the stack comes first. A kernel without DEBUG writes the array without looking at its
-- bound: `none` is a write behind it.
unfoldable pub push_rcu : Bool → Trie → List Trie → Option (List Trie)
push_rcu debug null stack = some stack
push_rcu debug (node c k p l r) stack =
    if leb max_depth (length stack)
    then (if debug then some stack else none)
    else some (node c k p l r ∷ stack)

infixl 5 ◌>>=◌
abbrev ◌>>=◌ : {A B : Type 0} → Option A → (A → Option B) → Option B
none >>= f = none
some a >>= f = f a

-- The nodes that a loop meets, in order. Each is a prefix: its length and its key.
unfoldable pub walk : ℕ → Bool → List Trie → Option (List (ℕ × ℕ))
walk zero debug stack = none
walk (suc fuel) debug [] = some []
walk (suc fuel) debug (null ∷ stack) = some []
walk (suc fuel) debug (node c k p l r ∷ stack) = do
  one ← push_rcu debug l stack
  two ← push_rcu debug r one
  met ← walk fuel debug two
  some ((c, k) ∷ met)

-- The nodes of a trie, the later child first.
unfoldable pub nodes_of : Trie → List (ℕ × ℕ)
nodes_of null = []
nodes_of (node c k p l r) = (c, k) ∷ nodes_of r ++ nodes_of l

unfoldable pub size : Trie → ℕ
size null = 0
size (node c k p l r) = 1 + size l + size r

nodes_of_all : List Trie → List (ℕ × ℕ)
nodes_of_all [] = []
nodes_of_all (t ∷ ts) = nodes_of t ++ nodes_of_all ts

size_all : List Trie → ℕ
size_all [] = 0
size_all (t ∷ ts) = size t + size_all ts

module _ (ops : Bitops) (bits : ℕ) (short : bits < max_depth) where
  -- A node on the stack is at least as deep in its trie as in the stack.
  abbrev IsDeep : ℕ → Trie → Type 0
  IsDeep n null = ⊥
  IsDeep n (node c k p l r) = n ≤ c

  abbrev IsStack : List Trie → Type 0
  IsStack [] = Unit
  IsStack (t ∷ ts) = IsDeep (length ts) t × IsTrie ops bits t × IsStack ts

  -- A child finds room on the stack.
  record IsPushed (debug : Bool) (t : Trie) (stack : List Trie) : Type 0 where
    after : List Trie
    pushed : push_rcu debug t stack ≡ some after
    stacked : IsStack after
    longer : length after ≤ length stack + 1
    sizes : size_all after ≡ size t + size_all stack
    met : nodes_of_all after ≡ nodes_of t ++ nodes_of_all stack

  push_lem :
      (debug : Bool) (c k bit : ℕ) (t : Trie) (stack : List Trie)
      → HangsAt ops bits c k bit t
      → IsTrie ops bits t
      → IsStack stack
      → length stack ≤ c + 1
      → IsPushed debug t stack
  unfolding push_rcu size_all nodes_of_all nodes_of size
  push_lem debug c k bit null stack h v s le = record {
    after = stack;
    pushed = refl;
    stacked = s;
    longer = omega arith;
    sizes = omega arith;
    met = refl;
  }
  push_lem debug c k bit (node c' k' p l r) stack h v s le = record {
    after = node c' k' p l r ∷ stack;
    pushed = rw (lt→leb max_depth (length stack) (omega arith)) refl;
    stacked = (omega arith, v, s);
    longer = omega arith;
    sizes = refl;
    met = refl;
  }

  walk_stack :
      (fuel : ℕ) (debug : Bool) (stack : List Trie)
      → IsStack stack
      → size_all stack < fuel
      → walk fuel debug stack ≡ some (nodes_of_all stack)
  unfolding walk nodes_of_all nodes_of size_all size
  walk_stack zero debug stack s lt = elim lt [ ]
  walk_stack (suc fuel) debug [] s lt = refl
  walk_stack (suc fuel) debug (null ∷ stack) s lt = absurd s.0
  walk_stack (suc fuel) debug (node c k p l r ∷ stack) (deep, v, s) lt =
      let one = push_lem debug c k 0 l stack v.1 v.3 s (omega arith) in
      let two = push_lem debug c k 1 r one.after v.2 v.4 one.stacked (omega (arith, one.longer)) in
      let ih = walk_stack fuel debug two.after two.stacked (omega (arith, one.sizes, two.sizes)) in
      let all : nodes_of_all two.after ≡ (nodes_of r ++ nodes_of l) ++ nodes_of_all stack =
        two.met
        ∙ ap (λ ms. nodes_of r ++ ms) one.met
        ∙ sym (append_assoc (nodes_of r) (nodes_of l) (nodes_of_all stack)) in
      rw (one.pushed, two.pushed, ih) (ap (λ ms. some ((c, k) ∷ ms)) all)

  -- On a trie of addresses with fewer than 129 bits the loops end, having met exactly the nodes of
  -- the trie, and never write behind their stack of 129 entries, with and without DEBUG.
  pub walk-nodes_of :
      (debug : Bool) (c k : ℕ) (p : Option ℕ) (l r : Trie)
      → IsTrie ops bits (node c k p l r)
      → walk (suc (size (node c k p l r))) debug (node c k p l r ∷ [])
        ≡ some (nodes_of (node c k p l r))
  unfolding nodes_of_all size_all
  walk-nodes_of debug c k p l r v =
      walk_stack (suc (size (node c k p l r))) debug (node c k p l r ∷ []) (omega arith, v, tt)
        (omega arith)
      ∙ ap some (append-nil (nodes_of (node c k p l r)))
