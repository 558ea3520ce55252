-- ===== src/Control/Terminal.antt =====
-- What a read of a thread has to show for its turn to be terminal (`reconcile_interrupt` of
-- src/control/src/lib.rs).
use codex_warden.Prelude.{
  ◌≡◌, refl, ◌⊎◌, inl, inr, subst, Bool, true, false, ◌||◌, String, Option, none, some, and_then,
  is_some_and, List, ok, err, string_eq, option_eq, In, eq_iff, arith,
}
use codex_warden.Protocol.Json.{Json}
use codex_warden.Protocol.Event.{get_str}
use codex_warden.Reducer.Subscribe.{is_terminal_text}
use codex_warden.Control.Client.{Answer}
use codex_warden.Control.Action.{shows_terminal}
use codex_warden.Control.Observed.{IsObserved, find?-IsObserved}

module _ {A B : Type 0} where
  and_then-some :
      (o : Option A) (f : A → Option B) (b : B)
      → and_then o f ≡ some b
      → (a : A) × (o ≡ some a) × (f a ≡ some b)
  and_then-some none f b h = absurd (ground (arith, h))
  and_then-some (some a) f b h = (a, refl, h)

is_some_and-true :
    {A : Type 0} (o : Option A) (p : A → Bool)
    → is_some_and o p ≡ true
    → (a : A) × (o ≡ some a) × (p a ≡ true)
is_some_and-true none p h = absurd (ground (arith, h))
is_some_and-true (some a) p h = (a, refl, h)

or_true : (b c : Bool) → (b || c) ≡ true → (b ≡ true) ⊎ (c ≡ true)
or_true true c h = inl refl
or_true false c h = inr h

module _ {V : Type 0} (J : Json V) where
  open J use {get, as_array}

  -- The read was answered, and among the turns of its thread one has the id and a terminal status.
  abbrev pub IsShownTerminal : String → Answer V → Type 0
  IsShownTerminal turn_id read =
      (value : V) × (thread : V) × (held : V) × (turns : List V) × (turn : V) × (status : String)
      × (read ≡ ok value)
      × (get value "thread" ≡ some thread)
      × (get thread "turns" ≡ some held)
      × (as_array held ≡ some turns)
      × In turn turns
      × (get_str J turn "id" ≡ some turn_id)
      × (get_str J turn "status" ≡ some status)
      × ((status ≡ "completed") ⊎ (status ≡ "failed") ⊎ (status ≡ "interrupted"))

  IsTerminal-text :
      (s : String)
      → is_terminal_text J s ≡ true
      → (s ≡ "completed") ⊎ (s ≡ "failed") ⊎ (s ≡ "interrupted")
  IsTerminal-text s h = elim (or_true _ _ h) [
    | inl e ↦ elim (or_true _ _ e) [
      | inl f ↦ inl ((eq_iff s "completed").0 f)
      | inr f ↦ inr (inl ((eq_iff s "failed").0 f))
    ]
    | inr e ↦ inr (inr ((eq_iff s "interrupted").0 e))
  ]

  pub shows_terminal-IsShownTerminal :
      (turn_id : String) (read : Answer V)
      → shows_terminal J turn_id read ≡ true
      → IsShownTerminal turn_id read
  unfolding shows_terminal
  shows_terminal-IsShownTerminal turn_id (err e) h = absurd (ground (arith, h))
  shows_terminal-IsShownTerminal turn_id (ok value) h =
      let (status, shown, terminal) = is_some_and-true _ _ h in
      let (turns, listed, found) = and_then-some _ _ status shown in
      let (held, inner, array) = and_then-some _ _ turns listed in
      let (thread, outer, has) = and_then-some _ _ held inner in
      let (turn, first, says) = and_then-some _ _ status found in
      let HasId : V → Type 0 = λ t. get_str J t "id" ≡ some turn_id in
      let seen : IsObserved HasId turns (some turn) =
        subst (λ o. IsObserved HasId turns o) first
          (find?-IsObserved HasId (λ t. option_eq.beq (get_str J t "id") (some turn_id)) turns
            (λ t. option_eq.beq_iff (get_str J t "id") (some turn_id))) in
      (
        value,
        thread,
        held,
        turns,
        turn,
        status,
        refl,
        outer,
        has,
        array,
        seen.0,
        seen.1,
        says,
        IsTerminal-text status terminal,
      )
