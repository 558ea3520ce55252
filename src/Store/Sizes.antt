-- ===== src/Store/Sizes.antt =====
-- The bytes of a list of events, in all and for one thread, and what removing one does to them.
use codex_warden.Prelude.{
  ℕ, zero, suc, ◌+◌, ◌≤◌, ◌≡◌, subst, ◌⊎◌, inl, inr, String, Option, none, some, List, [], ◌∷◌,
  ◌++◌, In, option_eq, string_eq, if◌then◌else◌, length, arith, Option-cases,
}
use codex_warden.Protocol.Event.{SequencedEvent}
use codex_warden.Store.State.{remove_elem, encoded_len}

module _ {A : Type 0} where
  -- What `remove_elem` leaves in place, and what it takes out.
  pub length-remove_elem :
      (n : ℕ) (xs : List A) {y : A} {rest : List A}
      → remove_elem n xs ≡ some (y, rest)
      → length xs ≡ suc (length rest)
  unfolding remove_elem
  length-remove_elem n [] h = ground arith
  length-remove_elem zero (x ∷ xs) h = ground arith
  length-remove_elem (suc n) (x ∷ xs) h = elim (Option-cases (remove_elem n xs)) [
    | inl e ↦ ground arith
    | inr ((z, r), e) ↦ ground (arith, length-remove_elem n xs e)
  ]

  -- A position inside the list is there to be taken out.
  pub remove_elem-none : (n : ℕ) (xs : List A) → remove_elem n xs ≡ none → length xs ≤ n
  unfolding remove_elem
  remove_elem-none n [] h = omega arith
  remove_elem-none zero (x ∷ xs) h = absurd (ground arith)
  remove_elem-none (suc n) (x ∷ xs) h = elim (Option-cases (remove_elem n xs)) [
    | inl e ↦ omega (arith, remove_elem-none n xs e)
    | inr ((z, r), e) ↦ absurd (ground arith)
  ]

  pub In-remove_elem :
      (n : ℕ) (xs : List A) {y : A} {rest : List A} (a : A)
      → remove_elem n xs ≡ some (y, rest)
      → In a xs
      → (a ≡ y) ⊎ In a rest
  unfolding remove_elem
  In-remove_elem n [] a h i = absurd i
  In-remove_elem zero (x ∷ xs) {y} {rest} a h i =
      subst (λ l. (a ≡ y) ⊎ In a l) (ground arith)
        (elim i [ inl e ↦ inl (ground arith) | inr j ↦ inr j ])
  In-remove_elem (suc n) (x ∷ xs) {y} {rest} a h i = elim (Option-cases (remove_elem n xs)) [
    | inl e ↦ absurd (ground arith)
    | inr ((z, r), e) ↦
        subst (λ l. (a ≡ y) ⊎ In a l) (let p : x ∷ r ≡ rest = ground arith in p)
          (elim i [
            | inl p ↦ inr (inl p)
            | inr j ↦ elim (In-remove_elem n xs a e j) [
              | inl q ↦ inl (ground arith)
              | inr k ↦ inr (inr k)
            ]
          ])
  ]

module _ {V : Type 0} (to_vec_len : SequencedEvent V → Option ℕ) where
  unfoldable pub total : List (SequencedEvent V) → ℕ
  total [] = 0
  total (e ∷ es) = encoded_len to_vec_len e + total es

  unfoldable pub total_of : String → List (SequencedEvent V) → ℕ
  total_of t [] = 0
  total_of t (e ∷ es) =
      (if option_eq.beq e.thread_id (some t) then encoded_len to_vec_len e else 0) + total_of t es

  pub total_of-le : (t : String) (es : List (SequencedEvent V)) → total_of t es ≤ total es
  unfolding total total_of
  total_of-le t [] = omega arith
  total_of-le t (e ∷ es) = ground (arith, total_of-le t es)

  pub total-append : (xs ys : List (SequencedEvent V)) → total (xs ++ ys) ≡ total xs + total ys
  unfolding total
  total-append [] ys = omega arith
  total-append (x ∷ xs) ys = omega (arith, total-append xs ys)

  pub total_of-append :
      (t : String) (xs ys : List (SequencedEvent V))
      → total_of t (xs ++ ys) ≡ total_of t xs + total_of t ys
  unfolding total_of
  total_of-append t [] ys = omega arith
  total_of-append t (x ∷ xs) ys = omega (arith, total_of-append t xs ys)

  pub total-remove_elem :
      (n : ℕ) (xs : List (SequencedEvent V)) {y : SequencedEvent V} {rest : List (SequencedEvent V)}
      → remove_elem n xs ≡ some (y, rest)
      → total xs ≡ encoded_len to_vec_len y + total rest
  unfolding remove_elem total
  total-remove_elem n [] h = ground arith
  total-remove_elem zero (x ∷ xs) h = ground arith
  total-remove_elem (suc n) (x ∷ xs) h = elim (Option-cases (remove_elem n xs)) [
    | inl e ↦ ground arith
    | inr ((z, r), e) ↦ ground (arith, total-remove_elem n xs e)
  ]

  pub total_of-remove_elem :
      (t : String) (n : ℕ) (xs : List (SequencedEvent V)) {y : SequencedEvent V}
      {rest : List (SequencedEvent V)}
      → remove_elem n xs ≡ some (y, rest)
      → total_of t xs ≡ total_of t (y ∷ rest)
  unfolding remove_elem total_of
  total_of-remove_elem t n [] h = ground arith
  total_of-remove_elem t zero (x ∷ xs) h = ground arith
  total_of-remove_elem t (suc n) (x ∷ xs) h = elim (Option-cases (remove_elem n xs)) [
    | inl e ↦ ground arith
    | inr ((z, r), e) ↦ ground (arith, total_of-remove_elem t n xs e)
  ]
