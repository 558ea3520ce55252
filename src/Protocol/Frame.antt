-- ===== src/Protocol/Frame.antt =====
-- `RpcId`, `Plane`, `KnownMessage`, `IncomingFrame` and `classify` of src/protocol/src/lib.rs.
use Prim.Native.String.{len, slice}
use mathlib.Core.Option
use text.Mathlib.Text.{starts_with, find?}
use codex_warden.Prelude.{
  ℕ, ◌-◌, Bool, true, false, not, ◌&&◌, ◌||◌, String, Option, none, some, ◌==◌, string_eq, leb,
  if◌then◌else◌, Result, ok, err, get_or, and_then,
}
use codex_warden.Protocol.Json.{Json}

pub data RpcId : Type 0 where
  number : ℕ → RpcId
  string : String → RpcId

pub data Plane : Type 0 where
  lifecycle delta : Plane

pub data KnownMessage : Type 0 where
  thread_started thread_status_changed turn_started turn_completed : KnownMessage
  turn_diff_updated item_lifecycle reviewer_request : KnownMessage

-- A response carries the id, the result, the error and the raw frame; the others the method, the
-- parameters, the known kind and the raw frame.
pub data IncomingFrame (V : Type 0) : Type 0 where
  response : RpcId → Option V → Option V → V → IncomingFrame V
  notification : String → V → Option KnownMessage → V → IncomingFrame V
  server_request : RpcId → String → V → Option KnownMessage → V → IncomingFrame V

-- `str::contains` and `str::ends_with`
unfoldable pub contains : String → String → Bool
contains s t = elim (find? s t) [ none ↦ false | some i ↦ true ]

unfoldable pub ends_with : String → String → Bool
ends_with s t = leb (len t) (len s) && (slice s (len s - len t) (len s) == t)

unfoldable pub classify : String → Option KnownMessage
classify m =
    if m == "thread/started"
    then some KnownMessage.thread_started
    else if m == "thread/status/changed"
    then some KnownMessage.thread_status_changed
    else if m == "turn/started"
    then some KnownMessage.turn_started
    else if m == "turn/completed"
    then some KnownMessage.turn_completed
    else if m == "turn/diff/updated"
    then some KnownMessage.turn_diff_updated
    else if starts_with m "item/" && not (contains m "delta")
    then some KnownMessage.item_lifecycle
    else if contains m "approval" || contains m "requestUserInput"
    then some KnownMessage.reviewer_request
    else none

unfoldable pub plane_for_method : String → Plane
plane_for_method m =
    if contains m "delta" || ends_with m "/updated" || contains m "output"
    then Plane.delta
    else Plane.lifecycle

module _ {V : Type 0} where
  unfoldable pub raw : IncomingFrame V → V
  raw (response _ _ _ r) = r
  raw (notification _ _ _ r) = r
  raw (server_request _ _ _ _ r) = r

  unfoldable pub method : IncomingFrame V → Option String
  method (response _ _ _ _) = none
  method (notification m _ _ _) = some m
  method (server_request _ m _ _ _) = some m

  unfoldable pub params : IncomingFrame V → Option V
  params (response _ _ _ _) = none
  params (notification _ p _ _) = some p
  params (server_request _ _ p _ _) = some p

  unfoldable pub is_server_request : IncomingFrame V → Bool
  is_server_request (server_request _ _ _ _ _) = true
  is_server_request (notification _ _ _ _) = false
  is_server_request (response _ _ _ _) = false

module _ {V : Type 0} (J : Json V) where
  open J use {get, as_str, as_u64, null}

  -- `serde_json::from_value::<RpcId>`: the enum is untagged, so the variants are tried in order.
  unfoldable pub rpc_id_from_value : V → Option RpcId
  rpc_id_from_value v = elim (as_u64 v) [
    | some n ↦ some (RpcId.number n)
    | none ↦ Option.map RpcId.string (as_str v)
  ]

  abbrev pub params_or_null : V → V
  params_or_null r = get_or (get r "params") null

  unfoldable pub server_request_from : Option RpcId → String → V → Result (IncomingFrame V) String
  server_request_from none m r = err "invalid request id"
  server_request_from (some id) m r = ok (server_request id m (params_or_null r) (classify m) r)

  unfoldable pub response_from : Option RpcId → V → Result (IncomingFrame V) String
  response_from none r = err "invalid response id"
  response_from (some id) r = ok (response id (get r "result") (get r "error") r)

  -- the `match (id, method)` of `parse`
  unfoldable pub parse_parts : Option V → Option String → V → Result (IncomingFrame V) String
  unfolding server_request_from response_from
  parse_parts (some id) (some m) r = server_request_from (rpc_id_from_value id) m r
  parse_parts none (some m) r = ok (notification m (params_or_null r) (classify m) r)
  parse_parts (some id) none r = response_from (rpc_id_from_value id) r
  parse_parts none none r = err "frame has neither method nor id"

  unfoldable pub parse : V → Result (IncomingFrame V) String
  unfolding parse_parts
  parse r = parse_parts (get r "id") (and_then (get r "method") as_str) r
