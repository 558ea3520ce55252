-- ===== src/Control/Observed.antt =====
-- What a waiter of the controller observes within its window (src/control/src/lib.rs).
use codex_warden.Prelude.{
  ◌≡◌, refl, ◌↔◌, inl, inr, Bool, true, false, ◌&&◌, String, Option, none, some, List, [], ◌∷◌,
  string_eq, option_eq, arith, find?, Bool-cases, In, subst,
}
use codex_warden.Protocol.Event.{SequencedEvent, event_method}
use codex_warden.Control.Action.{is_completion, is_start}

module _ {A : Type 0} (P : A → Type 0) where
  -- What comes of waiting for an event with a property: one of the events that has it, or none
  -- where none has it.
  abbrev pub IsObserved : List A → Option A → Type 0
  IsObserved events none = (e : A) → In e events → ¬ P e
  IsObserved events (some e) = In e events × P e

  IsObserved-later :
      (x : A) (events : List A) (o : Option A)
      → ¬ P x
      → IsObserved events o
      → IsObserved (x ∷ events) o
  IsObserved-later x events none n h =
      λ e i q. elim i [ inl same ↦ n (subst P same q) | inr j ↦ h e j q ]
  IsObserved-later x events (some e) n h = (inr h.0, h.1)

  pub find?-IsObserved :
      (p : A → Bool) (events : List A)
      → ((e : A) → (p e ≡ true) ↔ P e)
      → IsObserved events (find? p events)
  find?-IsObserved p [] iff = λ e i. absurd i
  find?-IsObserved p (x ∷ events) iff = elim (Bool-cases (p x)) [
    | inl passes ↦ rw passes (inl refl, (iff x).0 passes)
    | inr fails ↦ rw fails (
        IsObserved-later x events (find? p events)
          (λ q. let passes = (iff x).1 q in ground (arith, passes, fails))
          (find?-IsObserved p events iff))
  ]

and_iff : (b c : Bool) → ((b && c) ≡ true) ↔ ((b ≡ true) × (c ≡ true))
and_iff true c = (λ h. (refl, h), λ h. h.1)
and_iff false c = (λ h. (h, ground (arith, h)), λ h. h.0)

module _ {V : Type 0} where
  -- The end of a turn, and the start of some turn of a thread.
  abbrev pub IsCompletion : String → String → SequencedEvent V → Type 0
  IsCompletion thread_id turn_id e =
      (event_method e ≡ some "turn/completed")
      × (e.thread_id ≡ some thread_id)
      × (e.turn_id ≡ some turn_id)

  abbrev pub IsStart : String → SequencedEvent V → Type 0
  IsStart thread_id e = (event_method e ≡ some "turn/started") × (e.thread_id ≡ some thread_id)

  pub is_completion-IsCompletion :
      (thread_id turn_id : String) (e : SequencedEvent V)
      → (is_completion thread_id turn_id e ≡ true) ↔ IsCompletion thread_id turn_id e
  unfolding is_completion
  is_completion-IsCompletion thread_id turn_id e =
      let m = option_eq.beq_iff (event_method e) (some "turn/completed") in
      let t = option_eq.beq_iff e.thread_id (some thread_id) in
      let u = option_eq.beq_iff e.turn_id (some turn_id) in
      (
        λ h.
            let (both, c) = (and_iff _ _).0 h in
            let (a, b) = (and_iff _ _).0 both in (m.0 a, t.0 b, u.0 c),
        λ h. (and_iff _ _).1 ((and_iff _ _).1 (m.1 h.0, t.1 h.1), u.1 h.2),
      )

  pub is_start-IsStart :
      (thread_id : String) (e : SequencedEvent V)
      → (is_start thread_id e ≡ true) ↔ IsStart thread_id e
  unfolding is_start
  is_start-IsStart thread_id e =
      let m = option_eq.beq_iff (event_method e) (some "turn/started") in
      let t = option_eq.beq_iff e.thread_id (some thread_id) in
      (
        λ h. let (a, b) = (and_iff _ _).0 h in (m.0 a, t.0 b),
        λ h. (and_iff _ _).1 (m.1 h.0, t.1 h.1),
      )
