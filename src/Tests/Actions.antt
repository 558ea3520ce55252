-- ===== src/Tests/Actions.antt =====
-- The control actions (src/control).
use codex_warden.Prelude.{
  ◌≡◌, not, ◌||◌, String, some, is_some, is_some_and, List, Option, [], ◌∷◌, arith, ok, err,
}
use codex_warden.Protocol.Event.{SequencedEvent}
use codex_warden.Reducer.State.{new}
use codex_warden.Control.Client.{RequestError, Answer, Client, send_not_written_safe}
use codex_warden.Control.State.{
  turn, thread, ActionOutcome, Controller, new_controller, default_control,
}
use codex_warden.Control.Action.{interrupt, start, steer, response_turn}
use codex_warden.Control.Observed.{IsObserved, IsCompletion}
use codex_warden.Control.Sends.{IsAttempt, send_not_written_safe-IsAttempt}
use codex_warden.Control.Outcomes.{
  is_confirmed, is_unknown, target_of, accepted, is_ambiguous, IsEvidenced, steer_params,
  start_honest, steer_honest,
}
use codex_warden.Control.Interrupt.{interrupt_params, IsGrounded, interrupt_honest}
use codex_warden.Tests.Sample.{Value, nothing, text, fields, field, stop, sample, event}

abbrev failure_text : RequestError Value → String
failure_text e = "error"

abbrev refused : Answer Value
refused = err (RequestError.not_written "busy")

abbrev lost : Answer Value
lost = err (RequestError.timed_out "turn/interrupt")

-- The daemon is busy once, then it answers that it created a turn.
abbrev client : Client Value
client = record {
  answers = refused ∷ ok (fields (field "turnId" (text "u") stop)) ∷ lost ∷ lost ∷ [];
  sent = [];
}

-- A turn starts and ends while the waiters of the actions wait.
abbrev window : List (SequencedEvent Value)
window = event 1 "turn/started" ∷ event 2 "turn/completed" ∷ []

abbrev controller : Controller Value
controller = new_controller client new default_control

send_not_written_safe-IsAttempt_example :
    (answer : Answer Value) × (after : Client Value) × (send_not_written_safe 2 "turn/start" nothing
        client
      ≡ some (answer, after))
    × IsAttempt 2 "turn/start" nothing client.answers client after answer
send_not_written_safe-IsAttempt_example =
    send_not_written_safe-IsAttempt 2 "turn/start" nothing client (omega arith)

start_honest_example :
    (answer : Answer Value) × (outcome : ActionOutcome Value) × (after : Controller Value) × (start
        sample failure_text "t" [] window controller
      ≡ some (outcome, after))
    × IsAttempt 2 "turn/start"
        (sample.object (("threadId", sample.string "t") ∷ ("input", sample.array []) ∷ []))
        client.answers
        client
        after.client
        answer
    × (is_confirmed outcome ≡ is_some_and (accepted answer) (λ v. is_some (response_turn sample v)))
    × (is_unknown outcome ≡ (
        is_ambiguous answer
        || is_some_and (accepted answer) (λ v. not (is_some (response_turn sample v)))))
    × (target_of outcome ≡ thread "t")
    × IsEvidenced sample failure_text "t" window answer outcome
start_honest_example = start_honest sample failure_text "t" [] window controller (omega arith)

steer_honest_example :
    (answer : Answer Value) × (outcome : ActionOutcome Value) × (after : Controller Value) × (steer
        sample failure_text "t" "u" [] controller
      ≡ some (outcome, after))
    × IsAttempt 2 "turn/steer"
        (steer_params sample failure_text "t" "u" [])
        client.answers
        client
        after.client
        answer
    × (is_confirmed outcome ≡ is_some (accepted answer))
    × (is_unknown outcome ≡ is_ambiguous answer)
    × (target_of outcome ≡ turn "t" "u")
steer_honest_example = steer_honest sample failure_text "t" "u" [] controller (omega arith)

interrupt_honest_example :
    (completion : Option (SequencedEvent Value)) × (answer : Answer Value) × (asked : Client Value)
    × (outcome : ActionOutcome Value) × (after : Controller Value) × (interrupt sample failure_text
          "t" "u" window controller
        ≡ some (outcome, after))
    × IsObserved (IsCompletion "t" "u") window completion
    × IsAttempt 2 "turn/interrupt"
        (interrupt_params sample failure_text "t" "u")
        client.answers
        client
        asked
        answer
    × IsGrounded sample failure_text "t" "u" completion answer asked after.client outcome
interrupt_honest_example =
    interrupt_honest sample failure_text "t" "u" window controller (omega arith)
