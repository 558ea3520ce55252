-- ===== src/Protocol/Request.antt =====
-- Frames that the crates build: `request`, `notification` and the reconstructed anchor of
-- src/protocol/src/lib.rs.
use codex_warden.Prelude.{ℕ, true, String, Option, none, some, [], ◌∷◌, Result, ok, err}
use codex_warden.Protocol.Json.{Json}
use codex_warden.Protocol.Frame.{IncomingFrame, Plane, RpcId, parse}
use codex_warden.Protocol.Event.{SequencedEvent}

module _ {V : Type 0} (J : Json V) where
  open J use {string, number, object}

  -- `Serialize` of the untagged enum `RpcId`
  unfoldable pub rpc_id_value : RpcId → V
  rpc_id_value (RpcId.number n) = number n
  rpc_id_value (RpcId.string s) = string s

  unfoldable pub request : RpcId → String → V → V
  unfolding rpc_id_value
  request id method params = object (
      ("jsonrpc", string "2.0")
      ∷ ("id", rpc_id_value id)
      ∷ ("method", string method)
      ∷ ("params", params)
      ∷ [])

  unfoldable pub notification : String → V → V
  notification method params =
      object (("jsonrpc", string "2.0") ∷ ("method", string method) ∷ ("params", params) ∷ [])

  -- the parameters of the anchor's frame
  unfoldable pub turn_params : String → String → V
  turn_params thread turn =
      object (("threadId", string thread) ∷ ("turn", object (("id", string turn) ∷ [])) ∷ [])

  -- the event around the parsed frame; `expect` panics on an error, which is `none`
  unfoldable pub anchor_event :
      (sequence monotonic now : ℕ)
      → String
      → String
      → Result (IncomingFrame V) String
      → Option (SequencedEvent V)
  anchor_event sequence monotonic now thread turn (err e) = none
  anchor_event sequence monotonic now thread turn (ok frame) = some (record {
    sequence = sequence;
    unix_receipt_ms = now;
    monotonic_ms = monotonic;
    emitted_at_ms = none;
    plane = Plane.lifecycle;
    thread_id = some thread;
    turn_id = some turn;
    frame = frame;
    reconstructed = true;
  })

  unfoldable pub reconstructed_active_turn :
      (sequence monotonic now : ℕ) → String → String → Option (SequencedEvent V)
  unfolding anchor_event notification turn_params
  reconstructed_active_turn sequence monotonic now thread turn =
      anchor_event sequence monotonic now thread turn
        (parse J (notification "turn/started" (turn_params thread turn)))
