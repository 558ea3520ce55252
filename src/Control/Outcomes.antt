-- ===== src/Control/Outcomes.antt =====
-- What the outcome of an action says of the answer to its request (src/control/src/lib.rs).
use codex_warden.Prelude.{
  ℕ, ◌<◌, length, ◌≡◌, refl, Bool, true, false, not, ◌||◌, String, Option, none, some, is_some,
  is_some_and, List, [], ◌∷◌, ok, err, arith, option_eq, string_eq, inl, inr, subst, Bool-cases, In,
  find?,
}
use codex_warden.Protocol.Json.{Json}
use codex_warden.Protocol.Event.{SequencedEvent}
use codex_warden.Control.Client.{RequestError, Answer}
use codex_warden.Control.Sends.{IsAttempt, send_not_written_safe-IsAttempt}
use codex_warden.Control.State.{ActionTarget, turn, thread, ActionOutcome, Controller}
use codex_warden.Control.Observed.{IsObserved, find?-IsObserved, IsStart, is_start-IsStart}
use codex_warden.Control.Action.{
  is_start, take_correlation, await_event, response_turn, started, start_answered, start,
  action_answered, steer,
}

module _ {V : Type 0} where
  abbrev pub is_confirmed : ActionOutcome V → Bool
  is_confirmed (ActionOutcome.confirmed target evidence) = true
  is_confirmed (ActionOutcome.rejected target reason error) = false
  is_confirmed (ActionOutcome.outcome_unknown target evidence) = false

  abbrev pub is_unknown : ActionOutcome V → Bool
  is_unknown (ActionOutcome.outcome_unknown target evidence) = true
  is_unknown (ActionOutcome.rejected target reason error) = false
  is_unknown (ActionOutcome.confirmed target evidence) = false

  abbrev pub target_of : ActionOutcome V → ActionTarget
  target_of (ActionOutcome.outcome_unknown target evidence) = target
  target_of (ActionOutcome.rejected target reason error) = target
  target_of (ActionOutcome.confirmed target evidence) = target

  -- the sequence of the event that an outcome gives as evidence
  abbrev pub cited : ActionOutcome V → Option ℕ
  cited (ActionOutcome.outcome_unknown target evidence) = evidence.observed_sequence
  cited (ActionOutcome.rejected target reason error) = none
  cited (ActionOutcome.confirmed target evidence) = evidence.observed_sequence

  -- the response of a request that the daemon accepted
  abbrev pub accepted : Answer V → Option V
  accepted (ok response) = some response
  accepted (err e) = none

  -- The request may have been written, and its outcome is not known.
  abbrev pub is_ambiguous : Answer V → Bool
  is_ambiguous (err (RequestError.written_outcome_unknown i m d)) = true
  is_ambiguous (err (RequestError.timed_out m)) = true
  is_ambiguous (ok response) = false
  is_ambiguous (err (RequestError.not_written d)) = false
  is_ambiguous (err (RequestError.rejected m e)) = false
  is_ambiguous (err RequestError.closed) = false

module _ {V : Type 0} (J : Json V) (error_text : RequestError V → String) where
  start_answered_lem :
      (target : ActionTarget) (correlation : ℕ) (event : Option (SequencedEvent V))
      (answer : Answer V)
      → let outcome = start_answered J error_text target correlation event answer in
        (is_confirmed outcome ≡ is_some_and (accepted answer) (λ v. is_some (response_turn J v)))
        × (is_unknown outcome ≡ (
            is_ambiguous answer
            || is_some_and (accepted answer) (λ v. not (is_some (response_turn J v)))))
        × (target_of outcome ≡ target)
  unfolding start_answered started
  start_answered_lem target correlation none (ok v) = ground arith
  start_answered_lem target correlation (some e) (ok v) = ground arith
  start_answered_lem target correlation event (err (RequestError.written_outcome_unknown i m d)) =
      (refl, refl, refl)
  start_answered_lem target correlation event (err (RequestError.timed_out m)) = (refl, refl, refl)
  start_answered_lem target correlation event (err (RequestError.not_written d)) =
      (refl, refl, refl)
  start_answered_lem target correlation event (err (RequestError.rejected m e)) = (refl, refl, refl)
  start_answered_lem target correlation event (err RequestError.closed) = (refl, refl, refl)

  -- An event that is given as evidence is the one observed, and it is of the turn created.
  abbrev IsCited : Option (SequencedEvent V) → Answer V → Option ℕ → Type 0
  IsCited event answer o =
      (n : ℕ)
      → o ≡ some n
      → (e : SequencedEvent V) × (response : V) × (event ≡ some e)
        × (answer ≡ ok response)
        × (e.sequence ≡ n)
        × (turn_id : String) × (e.turn_id ≡ some turn_id)
        × (response_turn J response ≡ some turn_id)

  uncited :
      (event : Option (SequencedEvent V)) (answer : Answer V) (o : Option ℕ)
      → o ≡ none
      → IsCited event answer o
  uncited event answer none h n e = absurd (ground (arith, e))
  uncited event answer (some m) h n e = absurd (ground (arith, h))

  started-IsCited :
      (target : ActionTarget) (correlation : ℕ) (created : Option String)
      (event : Option (SequencedEvent V)) (response : V)
      → response_turn J response ≡ created
      → IsCited event (ok response) (cited (started target correlation created event))
  unfolding started
  started-IsCited target correlation none event response q = uncited event (ok response) none refl
  started-IsCited target correlation (some expected) none response q =
      uncited none (ok response) none refl
  started-IsCited target correlation (some expected) (some e) response q =
      elim (Bool-cases (option_eq.beq e.turn_id (some expected))) [
        | inl same ↦ rw same (λ n p. (
          e,
          response,
          refl,
          refl,
          ground (arith, p),
          expected,
          (option_eq.beq_iff e.turn_id (some expected)).0 same,
          q,
        ))
        | inr differs ↦ rw differs (uncited (some e) (ok response) none refl)
      ]

  start_answered-IsCited :
      (target : ActionTarget) (correlation : ℕ) (event : Option (SequencedEvent V))
      (answer : Answer V)
      → IsCited event answer (cited (start_answered J error_text target correlation event answer))
  unfolding start_answered
  start_answered-IsCited target correlation event (ok v) =
      started-IsCited target correlation (response_turn J v) event v refl
  start_answered-IsCited target correlation event
        (err (RequestError.written_outcome_unknown i m d)) =
      uncited event _ none refl
  start_answered-IsCited target correlation event (err (RequestError.timed_out m)) =
      uncited event _ none refl
  start_answered-IsCited target correlation event (err (RequestError.not_written d)) =
      uncited event _ none refl
  start_answered-IsCited target correlation event (err (RequestError.rejected m e)) =
      uncited event _ none refl
  start_answered-IsCited target correlation event (err RequestError.closed) =
      uncited event _ none refl

  -- The event that an outcome gives as evidence is one of the window, the start of a turn of the
  -- thread, and that turn is the one that the response names.
  abbrev pub IsEvidenced : String → List (SequencedEvent V) → Answer V → ActionOutcome V → Type 0
  IsEvidenced thread_id events answer outcome =
      (n : ℕ)
      → cited outcome ≡ some n
      → (e : SequencedEvent V) × (response : V) × In e events
        × IsStart thread_id e
        × (answer ≡ ok response)
        × (e.sequence ≡ n)
        × (turn_id : String) × (e.turn_id ≡ some turn_id)
        × (response_turn J response ≡ some turn_id)

  start_answered-IsEvidenced :
      (thread_id : String) (events : List (SequencedEvent V)) (event : Option (SequencedEvent V))
      (answer : Answer V) (outcome : ActionOutcome V)
      → IsObserved (IsStart thread_id) events event
      → IsCited event answer (cited outcome)
      → IsEvidenced thread_id events answer outcome
  start_answered-IsEvidenced thread_id events none answer outcome o h n p =
      let here = (h n p).2 in absurd (ground (arith, here))
  start_answered-IsEvidenced thread_id events (some x) answer outcome o h n p =
      let (e, response, here, answers, at, turn_id, of, names) = h n p in
      let same : x ≡ e = ground (arith, here) in
      let (i, q) = subst (λ y. In y events × IsStart thread_id y) same o in
      (e, response, i, q, answers, at, turn_id, of, names)

  -- Starting a turn is honest. With one answer more at hand than the retries allowed, `start`
  -- returns. It has asked as `send_not_written_safe` does, for the last answer. The outcome is
  -- confirmed exactly if that answer accepts the request and names the turn created, whatever
  -- events came within the window; it is unknown exactly if the request may have been written
  -- without an answer, or was accepted without a turn; its target is the thread. Where it gives an
  -- event as evidence, that is one of the window: the start of the turn that the answer names.
  pub start_honest :
      (thread_id : String) (input : List V) (events : List (SequencedEvent V)) (c : Controller V)
      → c.config.not_written_retries < length c.client.answers
      → (answer : Answer V) × (outcome : ActionOutcome V) × (after : Controller V) × (start J
            error_text thread_id input events c
          ≡ some (outcome, after))
        × IsAttempt c.config.not_written_retries "turn/start"
            (J.object (("threadId", J.string thread_id) ∷ ("input", J.array input) ∷ []))
            c.client.answers
            c.client
            after.client
            answer
        × (is_confirmed outcome ≡ is_some_and (accepted answer) (λ v. is_some (response_turn J v)))
        × (is_unknown outcome ≡ (
            is_ambiguous answer
            || is_some_and (accepted answer) (λ v. not (is_some (response_turn J v)))))
        × (target_of outcome ≡ thread thread_id)
        × IsEvidenced thread_id events answer outcome
  unfolding start
  start_honest thread_id input events c h =
      let (answer, client, runs, attempt) =
        send_not_written_safe-IsAttempt c.config.not_written_retries "turn/start"
          (J.object (("threadId", J.string thread_id) ∷ ("input", J.array input) ∷ [])) c.client
          h in
      let event = find? (is_start thread_id) events in
      let outcome =
        start_answered J error_text (thread thread_id) c.next_correlation event answer in
      let (sure, maybe, target) =
        start_answered_lem (thread thread_id) c.next_correlation event answer in
      (
        answer,
        outcome,
        record (take_correlation (await_event (is_start thread_id) c)) { client = client },
        rw runs refl,
        attempt,
        sure,
        maybe,
        target,
        start_answered-IsEvidenced thread_id events event answer outcome
            (find?-IsObserved (IsStart thread_id) (is_start thread_id) events
              (is_start-IsStart thread_id))
            (start_answered-IsCited (thread thread_id) c.next_correlation event answer),
      )

  abbrev pub steer_params : String → String → List V → V
  steer_params thread_id turn_id input = J.object (
      ("threadId", J.string thread_id)
      ∷ ("expectedTurnId", J.string turn_id)
      ∷ ("input", J.array input)
      ∷ [])

  action_answered_lem :
      (method : String) (target : ActionTarget) (correlation : ℕ) (answer : Answer V)
      → let outcome = action_answered error_text method target correlation answer in
        (is_confirmed outcome ≡ is_some (accepted answer))
        × (is_unknown outcome ≡ is_ambiguous answer)
        × (target_of outcome ≡ target)
  unfolding action_answered
  action_answered_lem method target correlation (ok v) = (refl, refl, refl)
  action_answered_lem method target correlation (err (RequestError.written_outcome_unknown i m d)) =
      (refl, refl, refl)
  action_answered_lem method target correlation (err (RequestError.timed_out m)) =
      (refl, refl, refl)
  action_answered_lem method target correlation (err (RequestError.not_written d)) =
      (refl, refl, refl)
  action_answered_lem method target correlation (err (RequestError.rejected m e)) =
      (refl, refl, refl)
  action_answered_lem method target correlation (err RequestError.closed) = (refl, refl, refl)

  -- Steering a turn is honest. With one answer more at hand than the retries allowed, `steer`
  -- returns, having asked as `send_not_written_safe` does with the expected turn. The outcome is
  -- confirmed exactly if the last answer accepts the request, and unknown exactly if the request
  -- may have been written without an answer; its target is the turn.
  pub steer_honest :
      (thread_id turn_id : String) (input : List V) (c : Controller V)
      → c.config.not_written_retries < length c.client.answers
      → (answer : Answer V) × (outcome : ActionOutcome V) × (after : Controller V) × (steer J
            error_text thread_id turn_id input c
          ≡ some (outcome, after))
        × IsAttempt c.config.not_written_retries "turn/steer"
            (steer_params thread_id turn_id input)
            c.client.answers
            c.client
            after.client
            answer
        × (is_confirmed outcome ≡ is_some (accepted answer))
        × (is_unknown outcome ≡ is_ambiguous answer)
        × (target_of outcome ≡ turn thread_id turn_id)
  unfolding steer
  steer_honest thread_id turn_id input c h =
      let (answer, client, runs, attempt) =
        send_not_written_safe-IsAttempt c.config.not_written_retries "turn/steer"
          (steer_params thread_id turn_id input) c.client h in
      let (sure, maybe, target) =
        action_answered_lem "turn/steer" (turn thread_id turn_id) c.next_correlation answer in
      (
        answer,
        action_answered error_text "turn/steer" (turn thread_id turn_id) c.next_correlation answer,
        record (take_correlation c) { client = client },
        rw runs refl,
        attempt,
        sure,
        maybe,
        target,
      )
