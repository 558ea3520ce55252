-- ===== src/Tests/Links.antt =====
-- The reconnecting transport (src/transport).
use codex_warden.Prelude.{
  ℕ, ◌+◌, ◌≤◌, ◌≡◌, refl, true, false, String, none, some, List, [], ◌∷◌, ◌++◌, Result, ok, err,
  arith, string_eq, ◌==◌, if◌then◌else◌, lookup, insert, remove, length,
}
use codex_warden.Protocol.Frame.{RpcId, rpc_id_from_value, parse}
use codex_warden.Transport.State.{
  TransportConfig, default_transport, request, Message, new_link, Arrival,
}
use codex_warden.Transport.Handshake.{
  deliver, message_json, message, greet_frame, greet_step, greet, initialize,
}
use codex_warden.Transport.Drive.{
  disconnected, Input, command, arrived, stream_ended, tick, settle, finish_drive, on_command,
  on_frame, on_message, on_tick, drive_step, drive_loop, drive,
}
use codex_warden.Transport.Connection.{
  Dial, again, reject_while_disconnected, start_connection, back_off, hang_up, serve, dial_once,
  connection_loop,
}
use codex_warden.Transport.Handle.{spawn}
use codex_warden.Transport.Channels.{HasUniqueIds}
use codex_warden.Transport.Taken.{inputs_taken}
use codex_warden.Transport.Ledger.{requests, asked, answered, drive-answered}
use codex_warden.Transport.Honesty.{AreTruthful, drive-AreTruthful}
use codex_warden.Transport.Numbering.{ask, tell, mark, stop, calls, as_inputs, calls-HasUniqueIds}
use codex_warden.Transport.Sequences.{IsOrdered}
use codex_warden.Transport.Order.{total_messages, connection_loop-IsOrdered}
use codex_warden.Transport.Pauses.{IsBetween}
use codex_warden.Transport.Gate.{gate_after, connection_loop-IsBetween}
use codex_warden.Tests.Sample.{Value, nothing, num, text, fields, field, stop as no_fields, sample}

-- The parsers know three texts: the response to the handshake, one to a request, and a
-- notification.
abbrev from_str : String → Result Value String
from_str s =
    if s == "ready"
    then ok (fields (field "id" (num 0) (field "result" nothing no_fields)))
    else if s == "answer"
    then ok (fields (field "id" (num 1) (field "result" (text "done") no_fields)))
    else if s == "note"
    then ok (fields (field "method" (text "turn/started") no_fields))
    else err "no value"

abbrev from_slice : List ℕ → Result Value String
from_slice bytes = err "no value"

abbrev idle_text : ℕ → String
idle_text idle = "idle"

abbrev config : TransportConfig
config = default_transport none "1"

abbrev arrival : Arrival
arrival = record { elapsed = 5; now = 5; ingress_open = true; write_error = none }

-- A request that is answered, one that is pending when the connection ends, one whose write fails.
abbrev inputs : List (Input Value)
inputs =
    command (some (request (RpcId.number 1) "thread/list" nothing 7)) none
    ∷ arrived (Message.text "note") arrival
    ∷ command (some (request (RpcId.number 2) "thread/read" nothing 8)) none
    ∷ arrived (Message.text "answer") arrival
    ∷ tick 10 none
    ∷ command (some (request (RpcId.number 3) "turn/start" nothing 9)) (some "broken pipe")
    ∷ stream_ended
    ∷ []

-- A connection that cannot be made, one that is lost, and one that rejects a request in the pause.
abbrev dials : List (Dial Value)
dials =
    record {
      connection = some "refused";
      first_write = none;
      greetings = [];
      last_write = none;
      started = 0;
      inputs = [];
      pause = none;
      stored = none;
    }
    ∷ record {
      connection = none;
      first_write = none;
      greetings =
          message (Message.text "note") arrival ∷ message (Message.text "ready") arrival ∷ [];
      last_write = none;
      started = 5;
      inputs = inputs;
      pause = none;
      stored = none;
    }
    ∷ record {
      connection = some "refused";
      first_write = none;
      greetings = [];
      last_write = none;
      started = 0;
      inputs = [];
      pause = some (some (request (RpcId.number 4) "turn/start" nothing 10));
      stored = some true;
    }
    ∷ []

distinct : HasUniqueIds (requests inputs)
unfolding lookup
distinct = (refl, (refl, (refl, tt)))

write_fails :
    (drive sample from_str from_slice idle_text config 0 0 inputs new_link).0
    ≡ some (disconnected "broken pipe")
unfolding drive drive_loop finish_drive drive_step on_command on_message on_tick on_frame settle
    deliver message_json parse rpc_id_from_value lookup insert remove
write_fails = refl

-- The inputs up to the write that fails.
abbrev took : List (Input Value)
took = inputs_taken sample from_str from_slice idle_text config 0 0 inputs new_link

drive-answered_example :
    ((left : List (Input Value)) × (inputs ≡ took ++ left))
    × (drive sample from_str from_slice idle_text config 0 0 took new_link
        ≡ drive sample from_str from_slice idle_text config 0 0 inputs new_link)
    × ((drive sample from_str from_slice idle_text config 0 0 inputs new_link).2 ≡ [])
    × ((c : ℕ)
        → answered c
            (drive sample from_str from_slice idle_text config 0 0 inputs new_link).1.replies
          ≡ answered {V = Value} c [] + asked c took)
drive-answered_example =
    drive-answered sample from_str from_slice idle_text config 0 inputs 0 new_link distinct
      (disconnected "broken pipe") write_fails

drive-AreTruthful_example :
    AreTruthful inputs []
      (drive sample from_str from_slice idle_text config 0 0 inputs new_link).1.replies
drive-AreTruthful_example =
    drive-AreTruthful sample from_str from_slice idle_text config 0 inputs 0 new_link

calls-HasUniqueIds_example : HasUniqueIds (
    requests (
      as_inputs
        (λ c. none)
        (calls
          (ask "thread/list" nothing false 7 none
            ∷ ask "turn/start" nothing true 8 none
            ∷ mark 9 true
            ∷ tell "initialized" nothing
            ∷ ask "turn/start" nothing true 10 none
            ∷ stop 11
            ∷ [])
          spawn)))
calls-HasUniqueIds_example = calls-HasUniqueIds (λ c. none) _ (omega arith)

connection_loop-IsOrdered_example :
    let link =
      (connection_loop sample from_str from_slice idle_text config dials
        (start_connection config)).1.link in
    IsOrdered link.sequence link.ingress link.inbound × (link.sequence ≤ total_messages dials)
connection_loop-IsOrdered_example =
    connection_loop-IsOrdered sample from_str from_slice idle_text config dials (omega arith)

goes_on :
    (connection_loop sample from_str from_slice idle_text config dials (start_connection config)).0
    ≡ again
unfolding connection_loop dial_once back_off reject_while_disconnected serve hang_up drive
    drive_loop finish_drive drive_step on_command on_message on_tick on_frame settle deliver
    message_json initialize greet greet_step greet_frame parse rpc_id_from_value lookup insert
    remove
goes_on = refl

connection_loop-IsBetween_example :
    IsBetween config
      (length dials)
      (gate_after sample from_str from_slice idle_text config dials (start_connection config) false)
      (connection_loop sample from_str from_slice idle_text config dials
        (start_connection config)).1
connection_loop-IsBetween_example =
    connection_loop-IsBetween sample from_str from_slice idle_text config dials (omega arith)
      goes_on
