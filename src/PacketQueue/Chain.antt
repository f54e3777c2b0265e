-- ===== src/PacketQueue/Chain.antt =====
-- The nodes from the tail to the head of struct prev_queue, some of them not linked yet.
use wgtcp.Base.{
  ℕ, ◌≡◌, ◌≢◌, ◌⊎◌, inl, inr, refl, sym, ap, ◌∙◌, Bool, true, false, ◌==◌, ==_iff, ==_refl,
  Bool-cases, List, [], ◌∷◌, ◌++◌, Option, none, some, All,
}
use wgtcp.PacketQueue.{stub, update}

abbrev pub NotIn : ℕ → List ℕ → Type 0
NotIn x xs = All (λ y. y ≢ x) xs

abbrev pub IsDistinct : List ℕ → Type 0
IsDistinct [] = Unit
IsDistinct (x ∷ xs) = NotIn x xs × IsDistinct xs

-- The nodes behind `a` up to the head. The pointer to the next one is there, or a thread is about
-- to write it.
abbrev pub IsLinked : (ℕ → Option ℕ) → (ℕ → Option ℕ) → ℕ → ℕ → List ℕ → Type 0
IsLinked next waiting head a [] = (next a ≡ none) × (waiting a ≡ none) × (head ≡ a)
IsLinked next waiting head a (b ∷ ns) =
    (((next a ≡ some b) × (waiting a ≡ none)) ⊎ ((next a ≡ none) × (waiting a ≡ some b)))
    × IsLinked next waiting head b ns

pub update_self {ℓ} : {A : Type ℓ} (f : ℕ → A) (k : ℕ) (v : A) → update f k v k ≡ v
update_self f k v = rw (==_refl k) refl

pub update_ne {ℓ} : {A : Type ℓ} (f : ℕ → A) (k j : ℕ) (v : A) → k ≢ j → update f k v j ≡ f j
update_ne f k j v ne = elim (Bool-cases (k == j)) [
  | inl e ↦ absurd (ne ((==_iff k j).0 e))
  | inr e ↦ rw e refl
]

pub some_inj : {a b : ℕ} → some a ≡ some b → a ≡ b
some_inj e = cc

pub none-some : {a : ℕ} → none ≡ some a → ⊥
none-some e = cc

module _ (next waiting : ℕ → Option ℕ) (head : ℕ) where
  -- The head is one of the nodes.
  pub head_in :
      (x a : ℕ) (ns : List ℕ) → IsLinked next waiting head a ns → NotIn x (a ∷ ns) → head ≢ x
  head_in x a [] l other e = other.0 (sym l.2 ∙ e)
  head_in x a (b ∷ ns) l other e = head_in x b ns l.1 other.1 e

  pub head_idle : (a : ℕ) (ns : List ℕ) → IsLinked next waiting head a ns → waiting head ≡ none
  head_idle a [] l = ap waiting l.2 ∙ l.1
  head_idle a (b ∷ ns) l = head_idle b ns l.1

  -- Writing a pointer that is due.
  pub link-IsLinked :
      (old skb a : ℕ) (ns : List ℕ)
      → waiting old ≡ some skb
      → IsLinked next waiting head a ns
      → IsLinked (update next old (some skb)) (update waiting old none) head a ns
  link-IsLinked old skb a [] due (n, w, h) = elim (Bool-cases (old == a)) [
    | inl e ↦
        let same : old ≡ a = (==_iff old a).0 e in
        absurd (none-some (sym w ∙ ap waiting (sym same) ∙ due))
    | inr e ↦ (rw e n, rw e w, h)
  ]
  link-IsLinked old skb a (b ∷ ns) due (here, rest) = elim (Bool-cases (old == a)) [
    | inr e ↦ (
      elim here [ inl (n, w) ↦ inl (rw e n, rw e w) | inr (n, w) ↦ inr (rw e n, rw e w) ],
      link-IsLinked old skb b ns due rest,
    )
    | inl e ↦
        let at : waiting a ≡ some skb = sym (ap waiting ((==_iff old a).0 e)) ∙ due in
        (
          elim here [
            | inl (n, w) ↦ absurd (none-some (sym w ∙ at))
            | inr (n, w) ↦ inl (rw e (sym at ∙ w), rw e refl)
          ],
          link-IsLinked old skb b ns due rest,
        )
  ]

  -- A node behind the head.
  pub exchange-IsLinked :
      (skb a : ℕ) (ns : List ℕ)
      → IsLinked next waiting head a ns
      → IsDistinct (a ∷ ns)
      → NotIn skb (a ∷ ns)
      → IsLinked
          (update next skb none)
          (update (update waiting skb none) head (some skb))
          skb
          a
          (ns ++ skb ∷ [])
  exchange-IsLinked skb a [] (n, w, h) d fresh =
      let ne : skb ≢ a = λ e. fresh.0 (sym e) in
      (
        inr (
          update_ne next skb a none ne ∙ n,
          ap (λ (x : ℕ). update (update waiting skb none) x (some skb) a) h
              ∙ update_self (update waiting skb none) a (some skb),
        ),
        (
          update_self next skb none,
          update_ne (update waiting skb none) head skb (some skb) (λ e. ne (sym (sym h ∙ e)))
              ∙ update_self waiting skb none,
          refl,
        ),
      )
  exchange-IsLinked skb a (b ∷ ns) (here, rest) d fresh =
      let ne : skb ≢ a = λ e. fresh.0 (sym e) in
      let before : head ≢ a = head_in a b ns rest d.0 in
      let same_next = update_ne next skb a none ne in
      let same_waiting =
        update_ne (update waiting skb none) head a (some skb) before
        ∙ update_ne waiting skb a none ne in
      (
        elim here [
          | inl (n, w) ↦ inl (same_next ∙ n, same_waiting ∙ w)
          | inr (n, w) ↦ inr (same_next ∙ n, same_waiting ∙ w)
        ],
        exchange-IsLinked skb b ns rest d.1 fresh.1,
      )

pub NotIn-append : (x : ℕ) (xs : List ℕ) (y : ℕ) → NotIn x xs → y ≢ x → NotIn x (xs ++ y ∷ [])
NotIn-append x [] y h ne = (ne, tt)
NotIn-append x (z ∷ xs) y h ne = (h.0, NotIn-append x xs y h.1 ne)

pub NotIn-of_append : (x : ℕ) (xs : List ℕ) (y : ℕ) → NotIn x (xs ++ y ∷ []) → NotIn x xs × (y ≢ x)
NotIn-of_append x [] y h = (tt, h.0)
NotIn-of_append x (z ∷ xs) y h =
    let (rest, last) = NotIn-of_append x xs y h.1 in ((h.0, rest), last)

pub IsDistinct-append :
    (xs : List ℕ) (y : ℕ) → IsDistinct xs → NotIn y xs → IsDistinct (xs ++ y ∷ [])
IsDistinct-append [] y d new = (tt, tt)
IsDistinct-append (x ∷ xs) y d new =
    (NotIn-append x xs y d.0 (λ e. new.0 (sym e)), IsDistinct-append xs y d.1 new.1)

-- The packets among nodes.
abbrev pub unless : Bool → ℕ → List ℕ → List ℕ
unless true x xs = xs
unless false x xs = x ∷ xs

abbrev pub packets : List ℕ → List ℕ
packets [] = []
packets (x ∷ xs) = unless (x == stub) x (packets xs)

==_stub : (x : ℕ) → x ≢ stub → (x == stub) ≡ false
==_stub x ne = elim (Bool-cases (x == stub)) [
  | inl e ↦ absurd (ne ((==_iff x stub).0 e))
  | inr e ↦ e
]

unless-append :
    (b : Bool) (x : ℕ) (xs ys zs : List ℕ) → zs ≡ xs ++ ys → unless b x zs ≡ unless b x xs ++ ys
unless-append true x xs ys zs e = e
unless-append false x xs ys zs e = ap (λ (ws : List ℕ). x ∷ ws) e

pub packets-cons : (x : ℕ) (xs : List ℕ) → x ≢ stub → packets (x ∷ xs) ≡ x ∷ packets xs
packets-cons x xs ne = ap (λ b. unless b x (packets xs)) (==_stub x ne)

pub packets-append :
    (xs : List ℕ) (y : ℕ) → y ≢ stub → packets (xs ++ y ∷ []) ≡ packets xs ++ y ∷ []
packets-append [] y ne = packets-cons y [] ne
packets-append (x ∷ xs) y ne =
    unless-append (x == stub) x (packets xs) (y ∷ []) _ (packets-append xs y ne)

pub packets-append_stub : (xs : List ℕ) → packets (xs ++ stub ∷ []) ≡ packets xs
packets-append_stub [] = refl
packets-append_stub (x ∷ xs) =
    ap (λ (zs : List ℕ). unless (x == stub) x zs) (packets-append_stub xs)

NotIn-unless :
    (b : Bool) (x y : ℕ) (xs : List ℕ)
    → (b ≡ true → y ≢ x)
    → NotIn x (unless b y xs)
    → (y ≢ x) × NotIn x xs
NotIn-unless true x y xs other h = (other refl, h)
NotIn-unless false x y xs other h = h

-- A packet that is not among the packets is no node.
pub NotIn-packets : (x : ℕ) (xs : List ℕ) → x ≢ stub → NotIn x (packets xs) → NotIn x xs
NotIn-packets x [] ne h = tt
NotIn-packets x (y ∷ xs) ne h =
    let other : (y == stub) ≡ true → y ≢ x = λ e same. ne (sym same ∙ (==_iff y stub).0 e) in
    let (here, later) = NotIn-unless (y == stub) x y (packets xs) other h in
    (here, NotIn-packets x xs ne later)
