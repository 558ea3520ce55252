-- ===== src/Prelude/Members.antt =====
-- Membership in a list.
use mathlib.Core.Path.{◌≡◌, sym, subst}
use mathlib.Core.Bool.{Bool, true}
use mathlib.Core.Logic.{◌⊎◌, inl, inr}
use mathlib.Core.List.{List, [], ◌∷◌, ◌++◌}
use native.Mathlib.Omega.{arith}
use codex_warden.Prelude.Tests.{Bool-cases}
use codex_warden.Prelude.Lists.{filter, All}

-- Membership with the place kept.
abbrev pub In : {A : Type 0} → A → List A → Type 0
In a [] = ⊥
In a (x ∷ xs) = (a ≡ x) ⊎ In a xs

module _ {A : Type 0} where
  pub In-append : (a : A) (xs ys : List A) → In a xs ⊎ In a ys → In a (xs ++ ys)
  In-append a [] ys (inr h) = h
  In-append a [] ys (inl h) = absurd h
  In-append a (x ∷ xs) ys (inl (inl e)) = inl e
  In-append a (x ∷ xs) ys (inl (inr h)) = inr (In-append a xs ys (inl h))
  In-append a (x ∷ xs) ys (inr h) = inr (In-append a xs ys (inr h))

  pub In-of_append : (a : A) (xs ys : List A) → In a (xs ++ ys) → In a xs ⊎ In a ys
  In-of_append a [] ys h = inr h
  In-of_append a (x ∷ xs) ys (inl e) = inl (inl e)
  In-of_append a (x ∷ xs) ys (inr h) = elim (In-of_append a xs ys h) [
    | inl i ↦ inl (inr i)
    | inr j ↦ inr j
  ]

  pub All-at : (P : A → Type 0) (a : A) (xs : List A) → All P xs → In a xs → P a
  All-at P a (x ∷ xs) h (inl e) = subst P (sym e) h.0
  All-at P a (x ∷ xs) h (inr i) = All-at P a xs h.1 i
  All-at P a [] h i = absurd i

module _ {A : Type 0} (p : A → Bool) where
  pub In-filter : (a : A) (xs : List A) → In a xs → p a ≡ true → In a (filter p xs)
  In-filter a [] i h = i
  In-filter a (x ∷ xs) (inl e) h = let passes : p x ≡ true = ground arith in rw passes (inl e)
  In-filter a (x ∷ xs) (inr j) h = elim (Bool-cases (p x)) [
    | inl e ↦ rw e (inr (In-filter a xs j h))
    | inr e ↦ rw e (In-filter a xs j h)
  ]

  pub In-of_filter : (a : A) (xs : List A) → In a (filter p xs) → In a xs × (p a ≡ true)
  In-of_filter a [] i = absurd i
  In-of_filter a (x ∷ xs) i = elim (Bool-cases (p x)) [
    | inl e ↦ passed e (In-of_filter a xs) (rw e at i)
    | inr e ↦ let (j, h) = In-of_filter a xs (rw e at i) in (inr j, h)
  ]
    where
      passed :
          p x ≡ true
          → (In a (filter p xs) → In a xs × (p a ≡ true))
          → In a (x ∷ filter p xs)
          → In a (x ∷ xs) × (p a ≡ true)
      passed e rest (inl q) = (inl q, ground arith)
      passed e rest (inr j) = let (k, h) = rest j in (inr k, h)
