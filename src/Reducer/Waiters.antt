-- ===== src/Reducer/Waiters.antt =====
-- The waiters that an event answers (`Reducer::apply` of src/reducer/src/lib.rs).
use mathlib.Core.List.{Perm, append_assoc}
use mathlib.Core.List.Perm
use codex_warden.Prelude.{
  ℕ, zero, suc, ◌+◌, ◌≤◌, ◌≡◌, refl, subst, true, false, none, some, List, [], ◌∷◌, ◌++◌, arith,
  Bool-cases, Option-cases, inl, inr, length, get_elem?, All, All-append,
}
use codex_warden.Protocol.Event.{SequencedEvent}
use codex_warden.Reducer.State.{Waiter}
use codex_warden.Reducer.Apply.{put_second, last_first, swap_remove, take_ready, apply_waiters}

module _ {A : Type 0} where
  put_second-perm : (x : A) (xs ys : List A) → Perm xs ys → Perm (put_second x xs) (x ∷ ys)
  unfolding put_second
  put_second-perm x [] ys h = Perm.cons x h
  put_second-perm x (z ∷ zs) ys h = Perm.trans (Perm.swap x z zs) (Perm.cons x h)

  last_first-perm : (xs : List A) → Perm (last_first xs) xs
  unfolding last_first
  last_first-perm [] = Perm.refl []
  last_first-perm (x ∷ xs) = put_second-perm x (last_first xs) xs (last_first-perm xs)

  -- `swap_remove` takes one element out and keeps the others, those before it in place.
  swap_remove-perm :
      (n : ℕ) (xs : List A) {y : A} {rest : List A}
      → swap_remove n xs ≡ some (y, rest)
      → Perm (y ∷ rest) xs
  unfolding swap_remove
  swap_remove-perm n [] h = absurd (ground arith)
  swap_remove-perm zero (x ∷ xs) {y} {rest} h =
      let same : x ∷ last_first xs ≡ y ∷ rest = ground arith in
      subst (λ l. Perm l (x ∷ xs)) same (Perm.cons x (last_first-perm xs))
  swap_remove-perm (suc n) (x ∷ xs) {y} {rest} h = elim (Option-cases (swap_remove n xs)) [
    | inl e ↦ absurd (ground arith)
    | inr ((z, r), e) ↦
        let same : z ∷ x ∷ r ≡ y ∷ rest = ground arith in
        subst (λ l. Perm l (x ∷ xs)) same
          (Perm.trans (Perm.swap x z r) (Perm.cons x (swap_remove-perm n xs e)))
  ]

  length-put_second : (x : A) (xs : List A) → length (put_second x xs) ≡ suc (length xs)
  unfolding put_second
  length-put_second x [] = refl
  length-put_second x (z ∷ zs) = refl

  length-last_first : (xs : List A) → length (last_first xs) ≡ length xs
  unfolding last_first
  length-last_first [] = refl
  length-last_first (x ∷ xs) =
      omega (arith, length-put_second x (last_first xs), length-last_first xs)

  length-swap_remove :
      (n : ℕ) (xs : List A) {y : A} {rest : List A}
      → swap_remove n xs ≡ some (y, rest)
      → length xs ≡ suc (length rest)
  unfolding swap_remove
  length-swap_remove n [] h = absurd (ground arith)
  length-swap_remove zero (x ∷ xs) h = ground (arith, length-last_first xs)
  length-swap_remove (suc n) (x ∷ xs) h = elim (Option-cases (swap_remove n xs)) [
    | inl e ↦ ground arith
    | inr ((z, r), e) ↦ ground (arith, length-swap_remove n xs e)
  ]

  -- The elements before a position all have a property.
  abbrev Before : (A → Type 0) → ℕ → List A → Type 0
  Before P zero xs = Unit
  Before P (suc n) [] = Unit
  Before P (suc n) (x ∷ xs) = P x × Before P n xs

  swap_remove-Before :
      (P : A → Type 0) (n : ℕ) (xs : List A) {y : A} {rest : List A}
      → swap_remove n xs ≡ some (y, rest)
      → Before P n xs
      → Before P n rest
  unfolding swap_remove
  swap_remove-Before P zero xs h b = tt
  swap_remove-Before P (suc n) [] h b = absurd (ground arith)
  swap_remove-Before P (suc n) (x ∷ xs) {y} {rest} h b = elim (Option-cases (swap_remove n xs)) [
    | inl e ↦ absurd (ground arith)
    | inr ((z, r), e) ↦
        let same : x ∷ r ≡ rest = ground arith in
        subst (Before P (suc n)) same (b.0, swap_remove-Before P n xs e b.1)
  ]

  swap_remove-get :
      (n : ℕ) (xs : List A) {w : A}
      → get_elem? xs n ≡ some w
      → (rest : List A) × (swap_remove n xs ≡ some (w, rest))
  unfolding swap_remove
  swap_remove-get n [] h = absurd (ground arith)
  swap_remove-get zero (x ∷ xs) h = (last_first xs, ground arith)
  swap_remove-get (suc n) (x ∷ xs) h = let (rest, e) = swap_remove-get n xs h in (x ∷ rest, rw e)

  Before-suc :
      (P : A → Type 0) (n : ℕ) (xs : List A) {w : A}
      → get_elem? xs n ≡ some w
      → P w
      → Before P n xs
      → Before P (suc n) xs
  Before-suc P n [] h p b = absurd (ground arith)
  Before-suc P zero (x ∷ xs) {w} h p b = let same : w ≡ x = ground arith in (subst P same p, tt)
  Before-suc P (suc n) (x ∷ xs) h p b = (b.0, Before-suc P n xs h p b.1)

  length_of_end : (n : ℕ) (xs : List A) → get_elem? xs n ≡ none → length xs ≤ n
  length_of_end n [] h = omega arith
  length_of_end zero (x ∷ xs) h = absurd (ground arith)
  length_of_end (suc n) (x ∷ xs) h = omega (arith, length_of_end n xs h)

  All-of_Before : (P : A → Type 0) (n : ℕ) (xs : List A) → length xs ≤ n → Before P n xs → All P xs
  All-of_Before P n [] h b = tt
  All-of_Before P zero (x ∷ xs) h b = absurd (omega arith)
  All-of_Before P (suc n) (x ∷ xs) h b = (b.0, All-of_Before P n xs (omega arith) b.1)

module _ {V : Type 0} (e : SequencedEvent V) where
  abbrev pub IsReady : Waiter V → Type 0
  IsReady w = w.predicate e ≡ true

  abbrev pub IsWaiting : Waiter V → Type 0
  IsWaiting w = w.predicate e ≡ false

  -- Each waiter is in one of the two lists, as often as before; those of the first list match.
  pub record IsSplit (waiters ready rest : List (Waiter V)) : Type 0 where
    pub same : Perm (ready ++ rest) waiters
    pub matched : All IsReady ready
    pub unmatched : All IsWaiting rest

  take_ready-IsSplit :
      (fuel index : ℕ) (waiters ready all : List (Waiter V))
      → length waiters ≤ fuel + index
      → Before IsWaiting index waiters
      → All IsReady ready
      → Perm (ready ++ waiters) all
      → IsSplit all
          (take_ready e fuel index waiters ready).0
          (take_ready e fuel index waiters ready).1
  unfolding take_ready
  take_ready-IsSplit zero index waiters ready all h b m p = record {
    same = p;
    matched = m;
    unmatched = All-of_Before IsWaiting index waiters (omega arith) b;
  }
  take_ready-IsSplit (suc fuel) index waiters ready all h b m p =
      elim (Option-cases (get_elem? waiters index)) [
        | inl g ↦
            rw (g, take_ready)
              (record {
                same = p;
                matched = m;
                unmatched = All-of_Before IsWaiting index waiters (length_of_end index waiters g) b;
              })
        | inr (w, g) ↦ elim (Bool-cases (w.predicate e)) [
          | inl yes_ready ↦
              let (rest, s) = swap_remove-get index waiters g in
              let moved = swap_remove-perm index waiters s in
              rw (g, take_ready, yes_ready, s)
                (take_ready-IsSplit fuel index rest (ready ++ w ∷ []) all
                  (omega (arith, length-swap_remove index waiters s))
                  (swap_remove-Before IsWaiting index waiters s b)
                  (All-append IsReady ready (w ∷ []) m (yes_ready, tt))
                  (rw append_assoc (Perm.trans (Perm.append_left ready moved) p)))
          | inr not_ready ↦
              rw (g, take_ready, not_ready)
                (take_ready-IsSplit fuel (suc index) waiters ready all (omega arith)
                  (Before-suc IsWaiting index waiters g not_ready b) m p)
        ]
      ]

  -- An event answers each waiter whose predicate it meets, once, and no other; the other waiters
  -- stay registered.
  pub apply_waiters-IsSplit :
      (waiters : List (Waiter V))
      → IsSplit waiters (apply_waiters e waiters).0 (apply_waiters e waiters).1
  unfolding apply_waiters
  apply_waiters-IsSplit waiters =
      take_ready-IsSplit (length waiters) 0 waiters [] waiters (omega arith) tt tt
        (Perm.refl waiters)
