-- ===== src/AllowedIps/Cut.antt =====
-- A table entry after a removal: gone if it was asked for and wanted.
use wgtcp.Base.{
  ℕ, ◌≡◌, ◌⊎◌, inl, inr, refl, arith, ◌&&◌, Bool, if◌then◌else◌, Option, none, true, false,
}
use wgtcp.AllowedIps.{found_at}
use wgtcp.AllowedIps.Routes.{found_at-none}

pub true_ne : true ≡ false → ⊥
true_ne e = cc

module _ (wanted : Option ℕ → Bool) where
  -- An entry that is asked for goes if it is wanted.
  abbrev pub cut : Bool → Option ℕ → Option ℕ
  cut asked old = if asked && wanted old then none else old

  pub cut_here :
      (here asked : Bool) (p rest : Option ℕ)
      → here ≡ asked
      → wanted p ≡ true
      → (here ≡ true → rest ≡ none)
      → rest ≡ cut asked (if here then p else rest)
  cut_here true true p rest same goes deep = rw (deep refl, goes) refl
  cut_here false false p rest same goes deep = refl
  cut_here true false p rest same goes deep = absurd (cc)
  cut_here false true p rest same goes deep = absurd (cc)

  pub cut_bare :
      (here asked : Bool) (p rest : Option ℕ)
      → here ≡ asked
      → wanted p ≡ true
      → (if here then none else rest) ≡ cut asked (if here then p else rest)
  cut_bare true true p rest same goes = rw goes refl
  cut_bare false false p rest same goes = refl
  cut_bare true false p rest same goes = absurd (cc)
  cut_bare false true p rest same goes = absurd (cc)

  pub cut_not :
      (asked : Bool) (old : Option ℕ)
      → (asked ≡ true → (old ≡ none) ⊎ (wanted old ≡ false))
      → old ≡ cut asked old
  cut_not false old nothing = refl
  cut_not true old nothing = elim (nothing refl) [ inl e ↦ rw e (ground arith) | inr e ↦ rw e refl ]

  pub cut_left :
      (here asked : Bool) (p a b : Option ℕ)
      → (here ≡ true → asked ≡ true → ⊥)
      → (asked ≡ true → b ≡ none)
      → (if here then p else found_at (cut asked a) b)
        ≡ cut asked (if here then p else found_at a b)
  cut_left true true p a b ex side = absurd (ex refl refl)
  cut_left true false p a b ex side = refl
  cut_left false true p a b ex side =
      rw (side refl, found_at-none a, found_at-none (if wanted a then none else a)) refl
  cut_left false false p a b ex side = refl

  pub cut_right :
      (here asked : Bool) (p a b : Option ℕ)
      → (here ≡ true → asked ≡ true → ⊥)
      → (asked ≡ true → a ≡ none)
      → (if here then p else found_at a (cut asked b))
        ≡ cut asked (if here then p else found_at a b)
  cut_right true true p a b ex side = absurd (ex refl refl)
  cut_right true false p a b ex side = refl
  cut_right false true p a b ex side = rw (side refl) refl
  cut_right false false p a b ex side = refl

  -- A branching node whose one child went is its other child.
  pub cut_collapse_left :
      (here asked : Bool) (a b : Option ℕ)
      → none ≡ cut asked a
      → (here ≡ true → b ≡ none)
      → (asked ≡ true → b ≡ none)
      → b ≡ cut asked (if here then none else found_at a b)
  cut_collapse_left true true a b went deep side = rw (deep refl) (ground arith)
  cut_collapse_left true false a b went deep side = rw (deep refl) refl
  cut_collapse_left false true a b went deep side = rw (side refl, found_at-none a) went
  cut_collapse_left false false a b went deep side = rw (← went) refl

  pub cut_collapse_right :
      (here asked : Bool) (a b : Option ℕ)
      → none ≡ cut asked b
      → (here ≡ true → a ≡ none)
      → (asked ≡ true → a ≡ none)
      → a ≡ cut asked (if here then none else found_at a b)
  cut_collapse_right true true a b went deep side = rw (deep refl) (ground arith)
  cut_collapse_right true false a b went deep side = rw (deep refl) refl
  cut_collapse_right false true a b went deep side = rw (side refl) went
  cut_collapse_right false false a b went deep side = rw (← went, found_at-none a) refl
