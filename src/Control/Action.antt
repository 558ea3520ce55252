-- ===== src/Control/Action.antt =====
-- The controller's actions (src/control/src/lib.rs). An action yields its outcome and the
-- controller after it, or `none` while it waits for an answer that does not come. `error_text` is
-- the `Display` of `RequestError`, which a macro derives.
use codex_warden.Prelude.{
  ℕ, Bool, true, false, ◌&&◌, String, Option, none, some, and_then, or_else, is_some_and, List, [],
  ◌∷◌, ok, err, string_eq, option_eq, find?, if◌then◌else◌, wrapping_add,
}
use Prim.Native.String.{◌++◌ as str_append}
use codex_warden.Protocol.Json.{Json}
use codex_warden.Protocol.Event.{SequencedEvent, event_method, get_str}
use codex_warden.Reducer.Apply.{register_waiter}
use codex_warden.Reducer.Subscribe.{is_terminal_text}
use codex_warden.Control.State.{
  ActionTarget, turn, thread, ActionOutcome, Controller, Outcome, observed, unknown,
}
use codex_warden.Control.Client.{RequestError, Answer, request, send_not_written_safe}

abbrev pub started_note : String
started_note = "turn/started id matches the id returned by turn/start"

abbrev pub created_note : String
created_note = "daemon returned a unique created turn id; concurrent GUI starts are not attributed"

module _ {V : Type 0} where
  -- the waiter's predicate in `interrupt`
  unfoldable pub is_completion : String → String → SequencedEvent V → Bool
  is_completion thread_id turn_id e =
      option_eq.beq (event_method e) (some "turn/completed")
      && option_eq.beq e.thread_id (some thread_id)
      && option_eq.beq e.turn_id (some turn_id)

  -- the waiter's predicate in `start`
  unfoldable pub is_start : String → SequencedEvent V → Bool
  is_start thread_id e =
      option_eq.beq (event_method e) (some "turn/started")
      && option_eq.beq e.thread_id (some thread_id)

  -- `next_correlation.fetch_add(1)`, and `register_waiter` under that number as its channel
  abbrev pub take_correlation : Controller V → Controller V
  take_correlation c = record c { next_correlation = wrapping_add c.next_correlation 1 }

  abbrev pub await_event : (SequencedEvent V → Bool) → Controller V → Controller V
  await_event predicate c = record c {
    reducer = register_waiter predicate c.next_correlation c.reducer;
  }

  abbrev pub decided : ActionOutcome V → Controller V → Outcome V
  decided outcome c = some (outcome, c)

  -- the outcome of `reconcile_interrupt` from what the read shows
  unfoldable pub reconciled : ActionTarget → ℕ → Bool → Bool → ActionOutcome V
  reconciled target correlation rpc_accepted true = ActionOutcome.confirmed target (
      unknown correlation rpc_accepted
        "target turn is terminal on reconciliation; correlation is not causation")
  reconciled target correlation rpc_accepted false =
      ActionOutcome.outcome_unknown target
        (unknown correlation rpc_accepted "no unique terminal evidence for target turn")

  -- the outcome of an accepted `turn/start`, by the id in the response and the event observed
  unfoldable pub started :
      ActionTarget → ℕ → Option String → Option (SequencedEvent V) → ActionOutcome V
  started target correlation (some expected) (some e) =
      if option_eq.beq e.turn_id (some expected)
      then ActionOutcome.confirmed target (observed correlation true e started_note)
      else ActionOutcome.confirmed target (unknown correlation true created_note)
  started target correlation (some expected) none =
      ActionOutcome.confirmed target (unknown correlation true created_note)
  started target correlation none e =
      ActionOutcome.outcome_unknown target
        (unknown correlation true "response lacked a unique turn id")

module _ {V : Type 0} (error_text : RequestError V → String) where
  -- the outcome where a request was refused before it was written, or the transport is closed
  abbrev pub not_sent : ActionTarget → RequestError V → ActionOutcome V
  not_sent target e = ActionOutcome.rejected target (error_text e) none

  unfoldable pub action_answered : String → ActionTarget → ℕ → Answer V → ActionOutcome V
  action_answered method target correlation (ok response) =
      ActionOutcome.confirmed target
        (unknown correlation true "daemon accepted the explicitly targeted request")
  action_answered method target correlation (err (RequestError.rejected m e)) =
      ActionOutcome.rejected target (str_append "daemon rejected " method) (some e)
  action_answered method target correlation (err (RequestError.written_outcome_unknown i m d)) =
      ActionOutcome.outcome_unknown target (
        unknown correlation false "ambiguous steer cannot be uniquely confirmed and was not resent")
  action_answered method target correlation (err (RequestError.timed_out m)) =
      ActionOutcome.outcome_unknown target (
        unknown correlation false "ambiguous steer cannot be uniquely confirmed and was not resent")
  action_answered method target correlation (err (RequestError.not_written d)) =
      not_sent target (RequestError.not_written d)
  action_answered method target correlation (err RequestError.closed) =
      not_sent target RequestError.closed

module _ {V : Type 0} (J : Json V) where
  open J use {get, as_str, as_array, string, object, bool}

  -- Whether a `thread/read` shows the turn in a terminal status.
  unfoldable pub shows_terminal : String → Answer V → Bool
  shows_terminal turn_id (err e) = false
  shows_terminal turn_id (ok value) =
      is_some_and
        (and_then (and_then (and_then (get value "thread") (λ t. get t "turns")) as_array) λ turns.
          and_then (find? (λ t. option_eq.beq (get_str J t "id") (some turn_id)) turns)
            λ t. get_str J t "status")
        (is_terminal_text J)

  unfoldable pub reconcile_interrupt : String → String → ℕ → Bool → Controller V → Outcome V
  unfolding request reconciled shows_terminal
  reconcile_interrupt thread_id turn_id correlation rpc_accepted c =
      and_then
        (request "thread/read"
          (object (("threadId", string thread_id) ∷ ("includeTurns", bool true) ∷ [])) c.client)
        λ (read, client).
          decided
            (reconciled (turn thread_id turn_id) correlation rpc_accepted
              (shows_terminal turn_id read))
            (record c { client = client })

  -- The id of the turn that the daemon says it created.
  unfoldable pub response_turn : V → Option String
  response_turn response =
      and_then (or_else (and_then (get response "turn") (λ v. get v "id")) (get response "turnId"))
        as_str

module _ {V : Type 0} (J : Json V) (error_text : RequestError V → String) where
  open J use {string, object, array}

  -- `interrupt` behind the answer to its request. `completion` is the event that its waiter yields
  -- within the window, if one comes.
  unfoldable pub interrupt_answered :
      String → String → ℕ → Option (SequencedEvent V) → Answer V → Controller V → Outcome V
  unfolding reconcile_interrupt
  interrupt_answered thread_id turn_id correlation (some e) (ok v) c =
      decided
        (ActionOutcome.confirmed (turn thread_id turn_id) (
          observed correlation true e
            "matching completion observed after interrupt; correlation is not proof of causation"))
        c
  interrupt_answered thread_id turn_id correlation none (ok v) c =
      reconcile_interrupt J thread_id turn_id correlation true c
  interrupt_answered thread_id turn_id correlation completion (err (RequestError.rejected m e)) c =
      decided (ActionOutcome.rejected (turn thread_id turn_id) "daemon rejected interrupt" (some e))
        c
  interrupt_answered thread_id turn_id correlation completion
        (err (RequestError.written_outcome_unknown i m d)) c =
      reconcile_interrupt J thread_id turn_id correlation false c
  interrupt_answered thread_id turn_id correlation completion (err (RequestError.timed_out m)) c =
      reconcile_interrupt J thread_id turn_id correlation false c
  interrupt_answered thread_id turn_id correlation completion (err (RequestError.not_written d)) c =
      decided (not_sent error_text (turn thread_id turn_id) (RequestError.not_written d)) c
  interrupt_answered thread_id turn_id correlation completion (err RequestError.closed) c =
      decided (not_sent error_text (turn thread_id turn_id) RequestError.closed) c

  -- The waiter is registered before the request is sent. `events` are those that the reducer
  -- applies from then on until the window ends: the waiter yields the first that passes its
  -- predicate.
  unfoldable pub interrupt : String → String → List (SequencedEvent V) → Controller V → Outcome V
  unfolding interrupt_answered send_not_written_safe register_waiter is_completion
  interrupt thread_id turn_id events c =
      let waiting = await_event (is_completion thread_id turn_id) c in
      and_then
        (send_not_written_safe c.config.not_written_retries "turn/interrupt"
          (object (("threadId", string thread_id) ∷ ("turnId", string turn_id) ∷ [])) c.client)
        λ (answer, client).
          interrupt_answered thread_id turn_id c.next_correlation
            (find? (is_completion thread_id turn_id) events) answer
            (record (take_correlation waiting) { client = client })

  unfoldable pub start_answered :
      ActionTarget → ℕ → Option (SequencedEvent V) → Answer V → ActionOutcome V
  unfolding started response_turn
  start_answered target correlation event (ok response) =
      started target correlation (response_turn J response) event
  start_answered target correlation event (err (RequestError.rejected m e)) =
      ActionOutcome.rejected target "daemon rejected turn/start" (some e)
  start_answered target correlation event (err (RequestError.written_outcome_unknown i m d)) =
      ActionOutcome.outcome_unknown target (
        unknown correlation false
          "write may have succeeded; reconciliation cannot distinguish a concurrent GUI start")
  start_answered target correlation event (err (RequestError.timed_out m)) =
      ActionOutcome.outcome_unknown target (
        unknown correlation false
          "write may have succeeded; reconciliation cannot distinguish a concurrent GUI start")
  start_answered target correlation event (err (RequestError.not_written d)) =
      not_sent error_text target (RequestError.not_written d)
  start_answered target correlation event (err RequestError.closed) =
      not_sent error_text target RequestError.closed

  -- `events` are those that the reducer applies from the registration of the waiter until the
  -- window ends: the waiter yields the first that passes its predicate.
  unfoldable pub start : String → List V → List (SequencedEvent V) → Controller V → Outcome V
  unfolding start_answered send_not_written_safe register_waiter is_start
  start thread_id input events c =
      let waiting = await_event (is_start thread_id) c in
      and_then
        (send_not_written_safe c.config.not_written_retries "turn/start"
          (object (("threadId", string thread_id) ∷ ("input", array input) ∷ [])) c.client)
        λ (answer, client).
          decided
            (start_answered (thread thread_id) c.next_correlation
              (find? (is_start thread_id) events) answer)
            (record (take_correlation waiting) { client = client })

  -- `rpc_response_action` at an expected turn, which is all that `steer` asks for.
  unfoldable pub rpc_response_action : String → String → String → List V → Controller V → Outcome V
  unfolding action_answered send_not_written_safe
  rpc_response_action method thread_id turn_id input c =
      and_then
        (send_not_written_safe c.config.not_written_retries method
          (object (
            ("threadId", string thread_id)
            ∷ ("expectedTurnId", string turn_id)
            ∷ ("input", array input)
            ∷ []))
          c.client)
        λ (answer, client).
          decided
            (action_answered error_text method (turn thread_id turn_id) c.next_correlation answer)
            (record (take_correlation c) { client = client })

  unfoldable pub steer : String → String → List V → Controller V → Outcome V
  unfolding rpc_response_action
  steer thread_id expected_turn_id input c =
      rpc_response_action "turn/steer" thread_id expected_turn_id input c
