-- ===== src/Tests/Frames.antt =====
-- Frames and events (src/protocol).
use codex_warden.Prelude.{◌≡◌, refl, true, none, some, ok, err, arith}
use codex_warden.Protocol.Frame.{
  IncomingFrame, KnownMessage, Plane, RpcId, classify, contains, ends_with, plane_for_method, parse,
  raw, method, is_server_request, rpc_id_from_value,
}
use codex_warden.Protocol.Request.{request, notification, reconstructed_active_turn, turn_params}
use codex_warden.Protocol.Event.{extract_thread_id, extract_turn_id}
use codex_warden.Protocol.Laws.{
  raw-parse, parse-request, parse-notification, anchor, anchor-from_frame,
}
use codex_warden.Tests.Sample.{Value, text, num, nothing, fields, field, stop, sample, sample_laws}

-- The planes of some methods.
planes :
    (plane_for_method "item/output/delta" ≡ Plane.delta)
    × (plane_for_method "turn/diff/updated" ≡ Plane.delta)
    × (plane_for_method "turn/completed" ≡ Plane.lifecycle)
unfolding plane_for_method contains ends_with
planes = (refl, refl, refl)

known :
    (classify "item/started" ≡ some KnownMessage.item_lifecycle)
    × (classify "item/output/delta" ≡ none)
    × (classify "exec/approval" ≡ some KnownMessage.reviewer_request)
unfolding classify contains
known = (refl, refl, refl)

-- The frame of a test of the source.
abbrev review : Value
review = fields (field "id" (num 7) (field "method" (text "future/review") stop))

review_parsed :
    parse sample review
    ≡ ok (IncomingFrame.server_request (RpcId.number 7) "future/review" nothing none review)
unfolding parse rpc_id_from_value classify contains
review_parsed = refl

malformed : parse sample nothing ≡ err "frame has neither method nor id"
unfolding parse
malformed = refl

raw-parse_example :
    (raw (IncomingFrame.server_request (RpcId.number 7) "future/review" nothing none review)
      ≡ review)
    × (method (IncomingFrame.server_request (RpcId.number 7) "future/review" nothing none review)
        ≡ some "future/review")
    × (is_server_request
          (IncomingFrame.server_request (RpcId.number 7) "future/review" nothing none review)
        ≡ true)
raw-parse_example = raw-parse sample review review_parsed

parse-request_example :
    parse sample (request sample (RpcId.number 3) "thread/list" nothing)
    ≡ ok (
        IncomingFrame.server_request
          (RpcId.number 3)
          "thread/list"
          nothing
          (classify "thread/list")
          (request sample (RpcId.number 3) "thread/list" nothing))
parse-request_example =
    parse-request sample sample_laws (RpcId.number 3) "thread/list" nothing (omega arith)

parse-notification_example :
    parse sample (notification sample "initialized" nothing)
    ≡ ok (
        IncomingFrame.notification "initialized" nothing
          (classify "initialized")
          (notification sample "initialized" nothing))
parse-notification_example = parse-notification sample sample_laws "initialized" nothing

anchor-from_frame_example :
    (reconstructed_active_turn sample 5 6 7 "t" "u"
      ≡ some (anchor sample sample_laws 5 6 7 "t" "u"))
    × (extract_thread_id sample (turn_params sample "t" "u") ≡ some "t")
    × (extract_turn_id sample (turn_params sample "t" "u") ≡ some "u")
anchor-from_frame_example = anchor-from_frame sample sample_laws 5 6 7 "t" "u"
