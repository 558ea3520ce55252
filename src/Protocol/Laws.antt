-- ===== src/Protocol/Laws.antt =====
-- What `IncomingFrame::parse` and the builders of frames guarantee.
use codex_warden.Prelude.{
  ℕ, ◌<◌, ◌≡◌, true, ◌&&◌, String, Option, none, some, ok, lookup, word_mod, arith, Option-cases,
  and_then, is_some, string_eq,
}
use codex_warden.Protocol.Json.{Json, JsonLaws}
use codex_warden.Protocol.Frame.{
  RpcId, KnownMessage, IncomingFrame, raw, method, params, is_server_request, parse, parse_parts,
  rpc_id_from_value, classify, contains, ends_with, plane_for_method,
}
use codex_warden.Protocol.Event.{
  SequencedEvent, from_frame, extract_thread_id, extract_turn_id, extract_emitted_at_ms,
}
use codex_warden.Protocol.Request.{
  rpc_id_value, request, notification, turn_params, reconstructed_active_turn,
}

-- The number of an id fits a `u64`.
abbrev pub IsWord : RpcId → Type 0
IsWord (RpcId.number n) = n < word_mod
IsWord (RpcId.string s) = Unit

module _ {V : Type 0} (J : Json V) where
  open J use {get, as_str}

  raw-parse_parts :
      (id : Option V) (m : Option String) (r : V) {f : IncomingFrame V}
      → parse_parts J id m r ≡ ok f
      → (raw f ≡ r) × (method f ≡ m) × (is_server_request f ≡ (is_some id && is_some m))
  unfolding parse_parts raw method is_server_request
  raw-parse_parts (some id) (some m) r h = ground (arith, Option-cases (rpc_id_from_value J id))
  raw-parse_parts none (some m) r h = ground arith
  raw-parse_parts (some id) none r h = ground (arith, Option-cases (rpc_id_from_value J id))
  raw-parse_parts none none r h = ground arith

  -- A frame that is parsed keeps the raw value whole and the method that it names, and it is a
  -- server request exactly when the value has an id and a method.
  pub raw-parse :
      (r : V) {f : IncomingFrame V}
      → parse J r ≡ ok f
      → (raw f ≡ r)
        × (method f ≡ and_then (get r "method") as_str)
        × (is_server_request f
            ≡ (is_some (get r "id") && is_some (and_then (get r "method") as_str)))
  unfolding parse
  raw-parse r h = raw-parse_parts (get r "id") (and_then (get r "method") as_str) r h

  module _ (laws : JsonLaws J) where
    rpc_id_round : (id : RpcId) → IsWord id → rpc_id_from_value J (rpc_id_value J id) ≡ some id
    unfolding rpc_id_from_value rpc_id_value
    rpc_id_round (RpcId.number n) w = ground (arith, laws.as_u64-number n w)
    rpc_id_round (RpcId.string s) w = ground (arith, laws.as_u64-string s, laws.as_str-string s)

    -- Parsing a request that the client builds gives back its id, method and parameters.
    pub parse-request :
        (id : RpcId) (m : String) (p : V)
        → IsWord id
        → parse J (request J id m p)
          ≡ ok (IncomingFrame.server_request id m p (classify m) (request J id m p))
    unfolding parse request lookup rpc_id_value
    parse-request id m p w = simp (laws.get-object, laws.as_str-string, rpc_id_round id w)

    -- Parsing a notification that the client builds gives back its method and parameters.
    pub parse-notification :
        (m : String) (p : V)
        → parse J (notification J m p)
          ≡ ok (IncomingFrame.notification m p (classify m) (notification J m p))
    unfolding parse notification lookup
    parse-notification m p = simp (laws.get-object, laws.as_str-string)

    -- The frame that the anchor of an active turn carries.
    abbrev pub anchor_frame : String → String → IncomingFrame V
    anchor_frame thread turn =
        IncomingFrame.notification "turn/started" (turn_params J thread turn)
          (some KnownMessage.turn_started)
          (notification J "turn/started" (turn_params J thread turn))

    -- What `from_frame` makes of that frame, marked as reconstructed.
    abbrev pub anchor : (sequence monotonic now : ℕ) → String → String → SequencedEvent V
    anchor sequence monotonic now thread turn =
        record (from_frame J sequence monotonic now (anchor_frame thread turn)) {
          reconstructed = true;
        }

    -- Building the anchor of an active turn never panics. The anchor names the given thread and
    -- turn, and it is what `from_frame` makes of its frame, but for the mark `reconstructed`.
    pub anchor-from_frame :
        (sequence monotonic now : ℕ) (thread turn : String)
        → (reconstructed_active_turn J sequence monotonic now thread turn
            ≡ some (anchor sequence monotonic now thread turn))
          × (extract_thread_id J (turn_params J thread turn) ≡ some thread)
          × (extract_turn_id J (turn_params J thread turn) ≡ some turn)
    unfolding reconstructed_active_turn from_frame extract_thread_id extract_turn_id turn_params
        extract_emitted_at_ms params method lookup classify plane_for_method contains ends_with
    anchor-from_frame sequence monotonic now thread turn = (
      rw parse-notification (simp (laws.get-object, laws.as_str-string)),
      simp (laws.get-object, laws.as_str-string),
      simp (laws.get-object, laws.as_str-string),
    )
