-- ===== src/Store/Victim.antt =====
-- Which event the loop over the byte limits removes (`prune_locked` of src/store/src/lib.rs).
use codex_warden.Prelude.{
  ℕ, zero, suc, ◌≡◌, refl, ap, inl, inr, Bool, true, false, String, Option, none, some, List, [],
  ◌∷◌, ◌++◌, arith, Option-cases, In, All, All-map, string_eq, option_eq,
}
use codex_warden.Protocol.Frame.{Plane}
use codex_warden.Protocol.Event.{SequencedEvent}
use codex_warden.Store.State.{Inner, is_delta, remove_elem, remove_at}
use codex_warden.Store.Prune.{position, is_candidate, victim}
use codex_warden.Store.Query.{of_thread}
use codex_warden.Store.Replies.{IsOfThread, of_thread-IsOfThread}
use codex_warden.Store.Idle.{events-remove_at}

module _ {A : Type 0} (p : A → Bool) where
  -- The list around the first element that passes.
  record Split (xs : List A) (i : ℕ) : Type 0 where
    before : List A
    found : A
    behind : List A
    split : xs ≡ before ++ found ∷ behind
    passes : p found ≡ true
    fails : All (λ x. p x ≡ false) before
    removed : remove_elem i xs ≡ some (found, before ++ behind)

  position-Split : (xs : List A) {i : ℕ} → position p xs ≡ some i → Split xs i
  unfolding position remove_elem
  position-Split [] h = absurd (ground arith)
  position-Split (x ∷ xs) {i = zero} h = record {
    before = [];
    found = x;
    behind = xs;
    split = refl;
    passes = ground (arith, Option-cases (position p xs));
    fails = tt;
    removed = refl;
  }
  position-Split (x ∷ xs) {i = suc i} h = elim (Option-cases (position p xs)) [
    | inl e ↦ absurd (ground arith)
    | inr (j, e) ↦
        let rest = position-Split xs {i = i} (ground arith) in
        record {
          before = x ∷ rest.before;
          found = rest.found;
          behind = rest.behind;
          split = ap (◌∷◌ x) rest.split;
          passes = rest.passes;
          fails = (ground arith, rest.fails);
          removed = rw rest.removed refl;
        }
  ]

  position-In : (a : A) (xs : List A) → In a xs → p a ≡ true → ¬ position p xs ≡ none
  unfolding position
  position-In a [] i h = λ e. i
  position-In a (x ∷ xs) (inl q) h =
      let here : p x ≡ true = ground arith in λ e. ground (arith, Option-cases (position p xs))
  position-In a (x ∷ xs) (inr j) h =
      let deeper = position-In a xs j h in λ e. ground (arith, Option-cases (position p xs))

module _ {V : Type 0} (over : Option String) where
  -- What the loop may take: a delta, and one of the thread over its limit if there is one.
  abbrev pub IsCandidate : SequencedEvent V → Type 0
  IsCandidate e = (e.plane ≡ Plane.delta) × IsOfThread over e

  is_candidate-IsCandidate : (e : SequencedEvent V) → is_candidate over e ≡ true → IsCandidate e
  is_candidate-IsCandidate e h =
      (delta e.plane (ground arith), (of_thread-IsOfThread over e).0 (ground arith))
    where
      delta : (plane : Plane) → is_delta plane ≡ true → plane ≡ Plane.delta
      delta Plane.delta h = refl
      delta Plane.lifecycle h = absurd (ground arith)

  IsCandidate-is_candidate : (e : SequencedEvent V) → IsCandidate e → is_candidate over e ≡ true
  IsCandidate-is_candidate e h =
      let of : of_thread over e ≡ true = (of_thread-IsOfThread over e).1 h.1 in rw (h.0) of

module _ {V : Type 0} (to_vec_len : SequencedEvent V → Option ℕ) (over : Option String)
    (inner : Inner V) where
  -- While a delta of the thread over its limit is retained, or any delta where no thread is over
  -- its limit, the loop removes the oldest such delta: no lifecycle event, no event of another
  -- thread and no newer one. The other events stay in order.
  pub victim-oldest :
      (e : SequencedEvent V)
      → In e inner.events
      → IsCandidate over e
      → (before : List (SequencedEvent V)) × (found : SequencedEvent V) × (behind : List
          (SequencedEvent V))
        × (inner.events ≡ before ++ found ∷ behind)
        × IsCandidate over found
        × All (λ x. ¬ IsCandidate over x) before
        × ((remove_at to_vec_len inner (victim over inner)).events ≡ before ++ behind)
  unfolding victim
  victim-oldest e i h = elim (Option-cases (position (is_candidate over) inner.events)) [
    | inl none_found ↦ absurd (
        position-In (is_candidate over) e inner.events i (IsCandidate-is_candidate over e h)
          none_found)
    | inr (n, at) ↦
        let s = position-Split (is_candidate over) inner.events at in
        (
          s.before,
          s.found,
          s.behind,
          s.split,
          is_candidate-IsCandidate over s.found s.passes,
          All-map (λ x. is_candidate over x ≡ false) (λ x. ¬ IsCandidate over x) s.before
              (λ x fails c.
                let passes = IsCandidate-is_candidate over x c in ground (arith, fails, passes))
              s.fails,
          rw at (events-remove_at to_vec_len [] inner n s.removed),
        )
  ]
