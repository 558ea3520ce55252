-- ===== src/Transport/Drive.antt =====
-- `drive`: one connection, from the first command to its exit (src/transport/src/lib.rs).
use codex_warden.Prelude.{
  ℕ, ◌-◌, ◌*◌, true, false, String, Option, none, some, get_or, List, [], ◌∷◌, ◌++◌, Map, lookup,
  insert, remove, map, Result, ok, err, leb, if◌then◌else◌,
}
use codex_warden.Protocol.Json.{Json}
use codex_warden.Protocol.Frame.{IncomingFrame, RpcId, parse}
use codex_warden.Protocol.Request.{request as request_value, notification}
use codex_warden.Control.Client.{Answer, RequestError}
use codex_warden.Transport.State.{
  TransportConfig, Command, request, notify, reconciled, shutdown, Pending, Message, text, binary,
  ping, close, other, Wire, Link, Session, Arrival, connected, rpc_id_eq, write, reply, complete,
  report, set_ready,
}
use codex_warden.Transport.Handshake.{deliver, message_json}

pub data DriveExit : Type 0 where
  -- the channel that waits for the shutdown
  shutdown_requested : ℕ → DriveExit
  disconnected : String → DriveExit
  commands_closed : DriveExit

-- What `select!` takes next: a command, or that there are no more, with the error of its write; a
-- message, an error or the end of the stream; a tick, with its time and the error of its ping.
pub data Input (V : Type 0) : Type 0 where
  command : Option (Command V) → Option String → Input V
  arrived : Message → Arrival → Input V
  broken : String → Input V
  stream_ended : Input V
  tick : ℕ → Option String → Input V

abbrev pub Step : Type 0 → Type 0
Step V = Option DriveExit × Session V

abbrev pub exit_detail : DriveExit → String
exit_detail (disconnected detail) = detail
exit_detail (shutdown_requested channel) = "connection closed"
exit_detail commands_closed = "connection closed"

module _ {V : Type 0} where
  -- One round and those behind it, unless it ends the loop.
  abbrev pub then_drive : Step V → (Session V → Step V) → Step V
  then_drive (some exit, s) rest = (some exit, s)
  then_drive (none, s) rest = rest s

  abbrev pub on_link : (Link V → Link V) → Session V → Session V
  on_link f s = record s { link = f s.link }

  -- What the caller of a request gets for a response.
  abbrev pub answer_of : V → String → Option V → Option V → Answer V
  answer_of null method result (some e) = err (RequestError.rejected method e)
  answer_of null method result none = ok (get_or result null)

  -- `pending.remove(id)` and its answer
  abbrev pub answer_pending : RpcId → Option Pending → (String → Answer V) → Session V → Session V
  answer_pending id none answer s = s
  answer_pending id (some p) answer s = record s {
    link = reply p.response (answer p.method) s.link;
    pending = remove id s.pending;
  }

  -- A response answers the request that waits under its id.
  unfoldable pub settle : V → IncomingFrame V → Session V → Session V
  settle null (IncomingFrame.response id result e raw) s =
      answer_pending id (lookup id s.pending) (λ method. answer_of null method result e) s
  settle null (IncomingFrame.notification m p known raw) s = s
  settle null (IncomingFrame.server_request id m p known raw) s = s

  -- The answer to a request that is pending when the connection ends.
  abbrev pub unknown_outcome : String → RpcId × Pending → ℕ × Answer V
  unknown_outcome detail (id, p) =
      (p.response, err (RequestError.written_outcome_unknown id p.method detail))

  -- `for (id, pending) in pending`, in the order of the list that stands for the map
  unfoldable pub drain : DriveExit → Session V → Link V
  drain exit s = record s.link {
    replies = s.link.replies ++ map (unknown_outcome (exit_detail exit)) s.pending;
  }

  -- The end of `drive`: the requests still pending are answered. A connection that has not ended
  -- keeps its session.
  unfoldable pub finish_drive : Step V → Option DriveExit × Link V × Map RpcId Pending
  unfolding drain
  finish_drive (some e, s) = (some e, drain e s, [])
  finish_drive (none, s) = (none, s.link, s.pending)

module _ {V : Type 0} (J : Json V) (from_str : String → Result V String)
    (from_slice : List ℕ → Result V String) (idle_text : ℕ → String) (config : TransportConfig)
    (attempts : ℕ) where
  unfoldable pub on_command : Option (Command V) → Option String → Session V → Step V
  unfolding request_value notification
  on_command (some (request id method params channel)) none s = (
    none,
    record s {
      link = write none (Wire.frame (request_value J id method params)) s.link;
      pending = insert id (record { method = method; response = channel }) s.pending;
    },
  )
  on_command (some (request id method params channel)) (some e) s =
      (some (disconnected e), on_link (reply channel (err (RequestError.not_written e))) s)
  on_command (some (notify method params)) none s =
      (none, on_link (write none (Wire.frame (notification J method params))) s)
  on_command (some (notify method params)) (some e) s = (some (disconnected e), s)
  on_command (some (reconciled channel)) e s =
      (none, on_link (λ l. complete channel (report connected attempts none (set_ready true l))) s)
  on_command (some (shutdown channel)) e s = (some (shutdown_requested channel), s)
  on_command none e s = (some commands_closed, s)

  -- the health after a frame: its phase, attempts and detail stay
  abbrev pub note_frame : Link V → Link V
  note_frame l = record l { health = record l.health { last_frame_sequence = l.sequence } }

  unfoldable pub on_frame : IncomingFrame V → Arrival → Session V → Step V
  unfolding settle deliver
  on_frame frame arrival s =
      let answered = settle J.null frame s in
      let delivered = on_link (deliver J arrival frame) answered in
      elim arrival.ingress_open [
        | false ↦ (some commands_closed, delivered)
        | true ↦ (none, on_link note_frame delivered)
      ]

  -- A value that is no frame is ignored.
  abbrev pub on_parsed : Result (IncomingFrame V) String → Arrival → Session V → Step V
  on_parsed (err e) arrival s = (none, s)
  on_parsed (ok frame) arrival s = on_frame frame arrival s

  abbrev pub on_value : Result (Option V) String → Arrival → Session V → Step V
  on_value (err e) arrival s = (some (disconnected e), s)
  on_value (ok none) arrival s = (none, s)
  on_value (ok (some v)) arrival s = on_parsed (parse J v) arrival s

  unfoldable pub on_message : Message → Arrival → Session V → Step V
  unfolding on_frame message_json
  on_message (ping payload) arrival s = (
    none,
    on_link (write arrival.write_error (Wire.pong payload))
        (record s { last_read = arrival.elapsed }),
  )
  on_message (text t) arrival s =
      on_value (message_json from_str from_slice (text t)) arrival
        (record s { last_read = arrival.elapsed })
  on_message (binary bytes) arrival s =
      on_value (message_json from_str from_slice (binary bytes)) arrival
        (record s { last_read = arrival.elapsed })
  on_message close arrival s =
      on_value (message_json from_str from_slice close) arrival
        (record s { last_read = arrival.elapsed })
  on_message other arrival s =
      on_value (message_json from_str from_slice other) arrival
        (record s { last_read = arrival.elapsed })

  -- `idle_text` is the format of the idle time.
  unfoldable pub on_tick : ℕ → Option String → Session V → Step V
  on_tick now e s =
      let idle = now - s.last_read in
      if leb (config.read_idle_timeout * 2) idle
      then (some (disconnected (idle_text idle)), s)
      else if leb config.read_idle_timeout idle
      then elim e [
        | none ↦ (none, on_link (write none Wire.ping) s)
        | some detail ↦ (some (disconnected "ping write failed"), s)
      ]
      else (none, s)

  -- one round of the loop
  unfoldable pub drive_step : Input V → Session V → Step V
  unfolding on_command on_message on_tick
  drive_step (command c e) s = on_command c e s
  drive_step (arrived m arrival) s = on_message m arrival s
  drive_step (broken e) s = (some (disconnected e), s)
  drive_step stream_ended s = (some (disconnected "websocket stream ended"), s)
  drive_step (tick now e) s = on_tick now e s

  -- The loop: its exit, if it ends within the inputs, and the session.
  unfoldable pub drive_loop : List (Input V) → Session V → Step V
  unfolding drive_step
  drive_loop [] s = (none, s)
  drive_loop (input ∷ rest) s = then_drive (drive_step input s) (drive_loop rest)

  unfoldable pub drive : ℕ → List (Input V) → Link V → Option DriveExit × Link V × Map RpcId Pending
  unfolding drive_loop finish_drive
  drive started inputs link =
      finish_drive (drive_loop inputs (record { link = link; pending = []; last_read = started }))
