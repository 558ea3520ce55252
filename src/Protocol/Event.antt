-- ===== src/Protocol/Event.antt =====
-- `SequencedEvent` and the extraction of its fields (src/protocol/src/lib.rs). The clocks are
-- arguments: the wall clock and the time since the start, both in milliseconds.
use codex_warden.Prelude.{ℕ, Bool, false, String, Option, get_or, and_then, or_else}
use codex_warden.Protocol.Json.{Json}
use codex_warden.Protocol.Frame.{IncomingFrame, Plane, method, params, plane_for_method}

pub record SequencedEvent (V : Type 0) : Type 0 where
  pub sequence : ℕ
  pub unix_receipt_ms : ℕ
  pub monotonic_ms : ℕ
  pub emitted_at_ms : Option ℕ
  pub plane : Plane
  pub thread_id : Option String
  pub turn_id : Option String
  pub frame : IncomingFrame V
  pub reconstructed : Bool

-- `SequencedEvent::method`
unfoldable pub event_method : {V : Type 0} → SequencedEvent V → Option String
unfolding method
event_method e = method e.frame

module _ {V : Type 0} (J : Json V) where
  open J use {get, as_str, as_u64, string, object}

  -- `v.get(k).and_then(Value::as_str)`
  abbrev pub get_str : V → String → Option String
  get_str v k = and_then (get v k) as_str

  unfoldable pub extract_thread_id : V → Option String
  extract_thread_id v = or_else (get_str v "threadId") (
      or_else (and_then (get v "thread") (λ t. get_str t "id"))
        (and_then (get v "turn") (λ t. get_str t "threadId")))

  unfoldable pub extract_turn_id : V → Option String
  extract_turn_id v = or_else (get_str v "turnId") (and_then (get v "turn") (λ t. get_str t "id"))

  unfoldable pub extract_emitted_at_ms : V → Option ℕ
  extract_emitted_at_ms v = and_then (or_else (get v "emittedAtMs") (get v "emitted_at_ms")) as_u64

  unfoldable pub from_frame : (sequence monotonic now : ℕ) → IncomingFrame V → SequencedEvent V
  from_frame sequence monotonic now frame = record {
    sequence = sequence;
    unix_receipt_ms = now;
    monotonic_ms = monotonic;
    emitted_at_ms = and_then (params frame) extract_emitted_at_ms;
    plane = plane_for_method (get_or (method frame) "");
    thread_id = and_then (params frame) extract_thread_id;
    turn_id = and_then (params frame) extract_turn_id;
    frame = frame;
    reconstructed = false;
  }
