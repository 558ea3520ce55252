-- ===== src/Control/Interrupt.antt =====
-- What the outcome of an interrupt rests on (src/control/src/lib.rs).
use codex_warden.Prelude.{
  ℕ, suc, ◌+◌, ◌<◌, length, map, ap, sym, ◌∙◌, length-append, ◌≡◌, refl, Bool, true, false, not,
  ◌&&◌, ◌||◌, String, Option, none, some, is_some, List, [], ◌∷◌, ok, err, arith, find?,
  if◌then◌else◌,
}
use codex_warden.Protocol.Json.{Json}
use codex_warden.Protocol.Event.{SequencedEvent}
use codex_warden.Control.Client.{RequestError, Answer, Client, request}
use codex_warden.Control.Sends.{IsAttempt, refusal, send_not_written_safe-IsAttempt}
use codex_warden.Control.State.{turn, ActionOutcome, Controller}
use codex_warden.Control.Observed.{
  IsObserved, find?-IsObserved, IsCompletion, is_completion-IsCompletion,
}
use codex_warden.Control.Terminal.{IsShownTerminal, shows_terminal-IsShownTerminal}
use codex_warden.Control.Action.{
  is_completion, take_correlation, await_event, shows_terminal, reconciled, reconcile_interrupt,
  interrupt_answered, interrupt,
}
use codex_warden.Control.Outcomes.{
  is_confirmed, is_unknown, cited, accepted, is_ambiguous, target_of,
}

module _ {V : Type 0} where
  -- The thread has to be read: the request may have been written without an answer, or was accepted
  -- and no completion came.
  abbrev pub needs_read : Option (SequencedEvent V) → Answer V → Bool
  needs_read completion answer =
      is_ambiguous answer || (is_some (accepted answer) && not (is_some completion))

  abbrev pub sequence_of : Option (SequencedEvent V) → Option ℕ
  sequence_of none = none
  sequence_of (some e) = some e.sequence

module _ {V : Type 0} (J : Json V) (error_text : RequestError V → String)
    (thread_id turn_id : String) where
  abbrev pub interrupt_params : V
  interrupt_params = J.object (("threadId", J.string thread_id) ∷ ("turnId", J.string turn_id) ∷ [])

  abbrev pub read_params : V
  read_params = J.object (("threadId", J.string thread_id) ∷ ("includeTurns", J.bool true) ∷ [])

  -- What the outcome says, from the completion, the answer and, where there was one, the read.
  pub record IsGrounded (completion : Option (SequencedEvent V)) (answer : Answer V)
      (asked after : Client V) (outcome : ActionOutcome V) : Type 0 where
    pub on_target : target_of outcome ≡ turn thread_id turn_id
    pub unread :
        needs_read completion answer ≡ false
        → (after ≡ asked)
          × (is_confirmed outcome ≡ is_some (accepted answer))
          × (is_unknown outcome ≡ false)
          × (cited outcome ≡ (if is_confirmed outcome then sequence_of completion else none))
    pub by_read :
        needs_read completion answer ≡ true
        → (read : Answer V) × (request "thread/read" read_params asked ≡ some (read, after))
          × (is_confirmed outcome ≡ shows_terminal J turn_id read)
          × (is_unknown outcome ≡ not (shows_terminal J turn_id read))
          × (cited outcome ≡ none)
          × (is_confirmed outcome ≡ true → IsShownTerminal J turn_id read)

  request_answered :
      (client : Client V)
      → 0 < length client.answers
      → (read : Answer V) × (after : Client V) × (request "thread/read" read_params client
          ≡ some (read, after))
  unfolding request
  request_answered client h = go client.answers refl
    where
      go :
          (answers : List (Answer V))
          → client.answers ≡ answers
          → (read : Answer V) × (after : Client V) × (request "thread/read" read_params client
              ≡ some (read, after))
      go [] e = absurd (omega (arith, ap length e))
      go (answer ∷ rest) e = rw e (answer, _, refl)

  reconciled_lem :
      (correlation : ℕ) (rpc : Bool) (terminal : Bool)
      → (is_confirmed (reconciled {V = V} (turn thread_id turn_id) correlation rpc terminal)
          ≡ terminal)
        × (is_unknown (reconciled {V = V} (turn thread_id turn_id) correlation rpc terminal)
            ≡ not terminal)
        × (cited (reconciled {V = V} (turn thread_id turn_id) correlation rpc terminal) ≡ none)
        × (target_of (reconciled {V = V} (turn thread_id turn_id) correlation rpc terminal)
            ≡ turn thread_id turn_id)
  unfolding reconciled
  reconciled_lem correlation rpc true = (refl, refl, refl, refl)
  reconciled_lem correlation rpc false = (refl, refl, refl, refl)

  reconcile_interrupt_lem :
      (correlation : ℕ) (rpc : Bool) (completion : Option (SequencedEvent V)) (answer : Answer V)
      (c : Controller V)
      → needs_read completion answer ≡ true
      → 0 < length c.client.answers
      → (outcome : ActionOutcome V) × (after : Controller V) × (reconcile_interrupt J thread_id
            turn_id correlation rpc c
          ≡ some (outcome, after))
        × IsGrounded completion answer c.client after.client outcome
  unfolding reconcile_interrupt
  reconcile_interrupt_lem correlation rpc completion answer c needed h =
      let (read, client, asks) = request_answered c.client h in
      let (sure, maybe, bare, target) =
        reconciled_lem correlation rpc (shows_terminal J turn_id read) in
      (
        _,
        record c { client = client },
        rw asks refl,
        record {
          on_target = target;
          unread = λ p. absurd (ground (arith, needed, p));
          by_read = λ p. (
            read,
            asks,
            sure,
            maybe,
            bare,
            λ c. shows_terminal-IsShownTerminal J turn_id read (sym sure ∙ c),
          );
        },
      )

  interrupt_answered_lem :
      (correlation : ℕ) (completion : Option (SequencedEvent V)) (answer : Answer V)
      (c : Controller V)
      → 0 < length c.client.answers
      → (outcome : ActionOutcome V) × (after : Controller V) × (interrupt_answered J error_text
            thread_id turn_id correlation completion answer c
          ≡ some (outcome, after))
        × IsGrounded completion answer c.client after.client outcome
  unfolding interrupt_answered
  interrupt_answered_lem correlation none (ok v) c h =
      reconcile_interrupt_lem correlation true none (ok v) c refl h
  interrupt_answered_lem correlation (some e) (ok v) c h = (
    _,
    c,
    refl,
    record {
      on_target = refl;
      unread = λ p. (refl, refl, refl, refl);
      by_read = λ p. absurd (ground (arith, p));
    },
  )
  interrupt_answered_lem correlation completion (err (RequestError.written_outcome_unknown i m d)) c
        h =
      reconcile_interrupt_lem correlation false completion _ c refl h
  interrupt_answered_lem correlation completion (err (RequestError.timed_out m)) c h =
      reconcile_interrupt_lem correlation false completion _ c refl h
  interrupt_answered_lem correlation completion (err (RequestError.not_written d)) c h = (
    _,
    c,
    refl,
    record {
      on_target = refl;
      unread = λ p. (refl, refl, refl, refl);
      by_read = λ p. absurd (ground (arith, p));
    },
  )
  interrupt_answered_lem correlation completion (err (RequestError.rejected m e)) c h = (
    _,
    c,
    refl,
    record {
      on_target = refl;
      unread = λ p. (refl, refl, refl, refl);
      by_read = λ p. absurd (ground (arith, p));
    },
  )
  interrupt_answered_lem correlation completion (err RequestError.closed) c h = (
    _,
    c,
    refl,
    record {
      on_target = refl;
      unread = λ p. (refl, refl, refl, refl);
      by_read = λ p. absurd (ground (arith, p));
    },
  )

  -- Interrupting a turn is honest. With two answers more at hand than the retries allowed,
  -- `interrupt` returns, having asked as `send_not_written_safe` does. The completion is an event
  -- of the window that says that the targeted turn has ended, whatever its status; none is had
  -- only if no event of the window says so. Where the request may have been written without an
  -- answer, or was accepted and no completion was had, it reads the thread once: the outcome is
  -- confirmed if the turn is read as completed, failed or interrupted, and unknown if not. Else it
  -- asks nothing more, and the outcome is confirmed exactly if the request was accepted, with that
  -- completion as its evidence, and never unknown. The target is the turn.
  pub interrupt_honest :
      (events : List (SequencedEvent V)) (c : Controller V)
      → c.config.not_written_retries + 1 < length c.client.answers
      → (completion : Option (SequencedEvent V)) × (answer : Answer V) × (asked : Client V)
        × (outcome : ActionOutcome V) × (after : Controller V) × (interrupt J error_text thread_id
              turn_id events c
            ≡ some (outcome, after))
        × IsObserved (IsCompletion thread_id turn_id) events completion
        × IsAttempt c.config.not_written_retries "turn/interrupt" interrupt_params c.client.answers
            c.client asked answer
        × IsGrounded completion answer asked after.client outcome
  unfolding interrupt
  interrupt_honest events c h =
      let completion = find? (is_completion thread_id turn_id) events in
      let (answer, asked, runs, attempt) =
        send_not_written_safe-IsAttempt c.config.not_written_retries "turn/interrupt"
          interrupt_params c.client (omega arith) in
      let (outcome, after, ends, grounded) =
        interrupt_answered_lem c.next_correlation completion answer
          (record (take_correlation (await_event (is_completion thread_id turn_id) c)) {
            client = asked;
          })
          (left_over answer asked attempt) in
      (
        completion,
        answer,
        asked,
        outcome,
        after,
        rw runs ends,
        find?-IsObserved (IsCompletion thread_id turn_id) (is_completion thread_id turn_id) events
            (is_completion-IsCompletion thread_id turn_id),
        attempt,
        grounded,
      )
    where
      length-map : (ds : List String) → length (map (refusal {V = V}) ds) ≡ length ds
      length-map [] = refl
      length-map (d ∷ ds) = ap suc (length-map ds)

      left_over :
          (answer : Answer V) (asked : Client V)
          → IsAttempt c.config.not_written_retries "turn/interrupt" interrupt_params
              c.client.answers c.client asked answer
          → 0 < length asked.answers
      left_over answer asked a = omega (
        arith,
        ap length a.consumed,
        length-append (map refusal a.refusals) (answer ∷ asked.answers),
        length-map a.refusals,
        a.bounded,
      )
