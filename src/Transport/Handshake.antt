-- ===== src/Transport/Handshake.antt =====
-- `message_json`, the delivery of a frame, and `initialize` (src/transport/src/lib.rs). The parsers
-- of serde_json are `from_str` and `from_slice`.
use codex_warden.Prelude.{
  ℕ, Bool, true, false, String, Option, none, some, List, [], ◌∷◌, ◌++◌, Result, ok, err,
  wrapping_add, nat_eq, ◌==◌,
}
use codex_warden.Protocol.Json.{Json}
use codex_warden.Protocol.Frame.{IncomingFrame, RpcId, parse}
use codex_warden.Protocol.Event.{SequencedEvent, from_frame}
use codex_warden.Protocol.Request.{request, notification}
use codex_warden.Transport.State.{
  TransportConfig, handshaking, Message, text, binary, ping, close, other, Wire, Link, Arrival,
  write, report,
}

module _ {V : Type 0} (J : Json V) where
  -- The next sequence, the event, and its delivery: `fetch_add(1) + 1` and `from_frame`. The event
  -- reaches neither receiver if that of the ingress is gone.
  unfoldable pub event_of : Arrival → IncomingFrame V → Link V → SequencedEvent V
  unfolding from_frame wrapping_add
  event_of arrival frame link =
      from_frame J (wrapping_add link.sequence 1) arrival.elapsed arrival.now frame

  unfoldable pub deliver : Arrival → IncomingFrame V → Link V → Link V
  unfolding event_of wrapping_add
  deliver arrival frame link =
      let e = event_of arrival frame link in
      let counted = record link { sequence = wrapping_add link.sequence 1 } in
      elim arrival.ingress_open [
        | true ↦ record counted {
          ingress = link.ingress ++ e ∷ [];
          inbound = link.inbound ++ e ∷ [];
        }
        | false ↦ counted
      ]

module _ {V : Type 0} (from_str : String → Result V String)
    (from_slice : List ℕ → Result V String) where
  abbrev pub some_value : Result V String → Result (Option V) String
  some_value (ok v) = ok (some v)
  some_value (err e) = err e

  unfoldable pub message_json : Message → Result (Option V) String
  message_json (text s) = some_value (from_str s)
  message_json (binary bytes) = some_value (from_slice bytes)
  message_json (ping payload) = ok none
  message_json close = err "peer closed websocket"
  message_json other = ok none

-- One step of the handshake and those behind it, unless it ends there.
abbrev pub then_greet :
    {V : Type 0}
    → Option (Result (Unit {0}) String) × Link V
    → (Link V → Option (Result (Unit {0}) String) × Link V)
    → Option (Result (Unit {0}) String) × Link V
then_greet (some result, link) rest = (some result, link)
then_greet (none, link) rest = rest link

-- What the socket yields during the handshake.
pub data Greeting : Type 0 where
  timed_out ended : Greeting
  failed : String → Greeting
  message : Message → Arrival → Greeting

module _ {V : Type 0} (J : Json V) (from_str : String → Result V String)
    (from_slice : List ℕ → Result V String) (config : TransportConfig) where
  open J use {object, string, bool}

  abbrev pub initialize_params : V
  initialize_params = object (
      (
        "clientInfo",
        object (
            ("name", string config.client_name)
            ∷ ("title", string "Codex Control")
            ∷ ("version", string config.client_version)
            ∷ []),
      )
      ∷ ("capabilities", object (("serverRequests", bool false) ∷ []))
      ∷ [])

  -- The response that ends the handshake, and whether it rejects it.
  abbrev pub is_zero : RpcId → Bool
  is_zero (RpcId.number n) = n == 0
  is_zero (RpcId.string s) = false

  abbrev pub verdict : IncomingFrame V → Option (Result (Unit {0}) String)
  verdict (IncomingFrame.response id result none raw) = elim (is_zero id) [
    | true ↦ some (ok tt)
    | false ↦ none
  ]
  verdict (IncomingFrame.response id result (some e) raw) = elim (is_zero id) [
    | true ↦ some (err "initialize rejected")
    | false ↦ none
  ]
  verdict (IncomingFrame.notification m p known raw) = none
  verdict (IncomingFrame.server_request id m p known raw) = none

  -- the value of a message in the handshake: a frame, nothing, or an error
  abbrev pub greeting_frame : Result (Option V) String → Result (Option (IncomingFrame V)) String
  greeting_frame (err e) = err e
  greeting_frame (ok none) = ok none
  greeting_frame (ok (some v)) = elim (parse J v) [ ok frame ↦ ok (some frame) | err e ↦ err e ]

  -- What a frame does in the handshake: the result, if it ends there, and the link.
  unfoldable pub greet_frame :
      ℕ → IncomingFrame V → Arrival → Link V → Option (Result (Unit {0}) String) × Link V
  unfolding deliver
  greet_frame attempts frame arrival link =
      let seen = deliver J arrival frame link in
      elim arrival.ingress_open [
        | false ↦ (some (err "authoritative ingress closed"), seen)
        | true ↦ (verdict frame, report handshaking attempts none seen)
      ]

  abbrev pub greet_value :
      ℕ
      → Result (Option (IncomingFrame V)) String
      → Arrival
      → Link V
      → Option (Result (Unit {0}) String) × Link V
  greet_value attempts (err e) arrival link = (some (err e), link)
  greet_value attempts (ok none) arrival link = (none, link)
  greet_value attempts (ok (some frame)) arrival link = greet_frame attempts frame arrival link

  unfoldable pub greet_step : ℕ → Greeting → Link V → Option (Result (Unit {0}) String) × Link V
  unfolding message_json greet_frame
  greet_step attempts timed_out link = (some (err "initialize response timed out"), link)
  greet_step attempts ended link = (some (err "socket closed during initialize"), link)
  greet_step attempts (failed e) link = (some (err e), link)
  greet_step attempts (message m arrival) link =
      greet_value attempts (greeting_frame (message_json from_str from_slice m)) arrival link

  -- The loop of `initialize`: its result, if it ends, and the link.
  unfoldable pub greet : ℕ → List Greeting → Link V → Option (Result (Unit {0}) String) × Link V
  unfolding greet_step
  greet attempts [] link = (none, link)
  greet attempts (greeting ∷ rest) link =
      then_greet (greet_step attempts greeting link) (greet attempts rest)

  -- the last write of `initialize`
  abbrev pub finish_greeting :
      Option String
      → Option (Result (Unit {0}) String) × Link V
      → Option (Result (Unit {0}) String) × Link V
  finish_greeting last (none, link) = (none, link)
  finish_greeting last (some (err e), link) = (some (err e), link)
  finish_greeting last (some (ok u), link) = (
    elim last [ none ↦ some (ok u) | some e ↦ some (err e) ],
    write last (Wire.frame (notification J "initialized" (object []))) link,
  )

  -- `initialize`, by the errors of its two writes.
  unfoldable pub initialize :
      ℕ
      → (first last : Option String) → List Greeting
      → Link V
      → Option (Result (Unit {0}) String) × Link V
  unfolding greet request notification
  initialize attempts (some e) last greetings link = (some (err e), link)
  initialize attempts none last greetings link = finish_greeting last (
      greet attempts greetings
        (write none (Wire.frame (request J (RpcId.number 0) "initialize" initialize_params)) link))
