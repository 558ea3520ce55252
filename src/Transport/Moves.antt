-- ===== src/Transport/Moves.antt =====
-- What a round of `drive` does to the requests (src/transport/src/lib.rs).
use codex_warden.Prelude.{
  ℕ, ◌-◌, ◌*◌, ◌≡◌, refl, ◌∙◌, inl, inr, String, Option, none, some, List, [], ◌∷◌, ◌++◌, Map,
  lookup, insert, remove, Result, ok, err, Bool-cases, Option-cases, leb,
}
use codex_warden.Protocol.Json.{Json}
use codex_warden.Protocol.Frame.{IncomingFrame, RpcId, parse}
use codex_warden.Control.Client.{Answer, RequestError}
use codex_warden.Transport.State.{
  TransportConfig, Command, request, notify, reconciled, shutdown, Pending, Message, text, binary,
  ping, close, other, Link, Session, Arrival, Wire, rpc_id_eq, write,
}
use codex_warden.Transport.Handshake.{deliver, message_json}
use codex_warden.Transport.Drive.{
  on_link, note_frame, on_parsed, Input, command, arrived, broken, stream_ended, tick, settle,
  answer_of, on_value, on_frame, on_command, on_message, on_tick, drive_step,
}

module _ {V : Type 0} where
  -- the requests of the inputs: their ids and their channels
  abbrev pub request_of : Input V → Map RpcId ℕ
  request_of (command (some (request id method params channel)) e) = (id, channel) ∷ []
  request_of (command (some (notify method params)) e) = []
  request_of (command (some (reconciled channel)) e) = []
  request_of (command (some (shutdown channel)) e) = []
  request_of (command none e) = []
  request_of (arrived m arrival) = []
  request_of (broken e) = []
  request_of stream_ended = []
  request_of (tick now e) = []

  -- what a response makes of a request
  abbrev pub IsAnswer : String → Answer V → Type 0
  IsAnswer method (ok v) = Unit
  IsAnswer method (err (RequestError.rejected m e)) = m ≡ method
  IsAnswer method (err (RequestError.not_written d)) = ⊥
  IsAnswer method (err (RequestError.written_outcome_unknown id m d)) = ⊥
  IsAnswer method (err (RequestError.timed_out m)) = ⊥
  IsAnswer method (err RequestError.closed) = ⊥

  -- The requests stay as they are, one is answered, one is written, or one cannot be written.
  pub data Move (input : Input V) (s s' : Session V) : Type 0 where
    quiet :
        s'.link.replies ≡ s.link.replies
        → s'.pending ≡ s.pending
        → request_of input ≡ []
        → Move input s s'
    answers :
        (id : RpcId) (p : Pending) (answer : Answer V)
        → lookup id s.pending ≡ some p
        → IsAnswer p.method answer
        → s'.link.replies ≡ s.link.replies ++ (p.response, answer) ∷ []
        → s'.pending ≡ remove id s.pending
        → request_of input ≡ []
        → Move input s s'
    writes :
        (id : RpcId) (method : String) (params : V) (channel : ℕ)
        → input ≡ command (some (request id method params channel)) none
        → s'.link.replies ≡ s.link.replies
        → s'.pending ≡ insert id (record { method = method; response = channel }) s.pending
        → Move input s s'
    fails :
        (id : RpcId) (method : String) (params : V) (channel : ℕ) (detail : String)
        → input ≡ command (some (request id method params channel)) (some detail)
        → s'.link.replies ≡ s.link.replies ++ (channel, err (RequestError.not_written detail)) ∷ []
        → s'.pending ≡ s.pending
        → Move input s s'

  answer_of-IsAnswer :
      (null : V) (method : String) (result e : Option V)
      → IsAnswer method (answer_of null method result e)
  answer_of-IsAnswer null method result none = tt
  answer_of-IsAnswer null method result (some e) = refl

  settle-Move :
      (input : Input V) (null : V) (frame : IncomingFrame V) (s : Session V)
      → request_of input ≡ []
      → Move input s (settle null frame s)
  unfolding settle
  settle-Move input null (IncomingFrame.response id result e raw) s q =
      elim (Option-cases (lookup id s.pending)) [
        | inl unknown ↦ rw unknown (quiet refl refl q)
        | inr (p, found) ↦ rw found (
            answers id p (answer_of null p.method result e) found
              (answer_of-IsAnswer null p.method result e) refl refl q)
      ]
  settle-Move input null (IncomingFrame.notification m p known raw) s q = quiet refl refl q
  settle-Move input null (IncomingFrame.server_request id m p known raw) s q = quiet refl refl q

  -- what changes neither the replies nor the requests behind a move
  then_quiet-Move :
      (input : Input V) (s m m' : Session V)
      → m'.link.replies ≡ m.link.replies
      → m'.pending ≡ m.pending
      → Move input s m
      → Move input s m'
  then_quiet-Move input s m m' r p (quiet r' p' q) = quiet (r ∙ r') (p ∙ p') q
  then_quiet-Move input s m m' r p (answers id x a l i r' p' q) =
      answers id x a l i (r ∙ r') (p ∙ p') q
  then_quiet-Move input s m m' r p (writes id method params c i r' p') =
      writes id method params c i (r ∙ r') (p ∙ p')
  then_quiet-Move input s m m' r p (fails id method params c d i r' p') =
      fails id method params c d i (r ∙ r') (p ∙ p')

  write-replies : (e : Option String) (m : Wire V) (l : Link V) → (write e m l).replies ≡ l.replies
  write-replies none m l = refl
  write-replies (some e) m l = refl

module _ {V : Type 0} (J : Json V) (from_str : String → Result V String)
    (from_slice : List ℕ → Result V String) (idle_text : ℕ → String) (config : TransportConfig)
    (attempts : ℕ) where
  deliver-replies :
      (arrival : Arrival) (frame : IncomingFrame V) (l : Link V)
      → (deliver J arrival frame l).replies ≡ l.replies
  unfolding deliver
  deliver-replies arrival frame l = elim (Bool-cases arrival.ingress_open) [
    | inl here ↦ rw (here, deliver) refl
    | inr gone ↦ rw (gone, deliver) refl
  ]

  -- A value that was read, and the time of the reading, which counts for nothing here.
  module _ (input : Input V) (q : request_of input ≡ []) where
    on_frame-Move :
        (frame : IncomingFrame V) (arrival : Arrival) (s : Session V)
        → Move input s (on_frame J from_str from_slice idle_text config attempts frame arrival s).1
    unfolding on_frame
    on_frame-Move frame arrival s =
        let kept = settle J.null frame s in
        let note = note_frame J from_str from_slice idle_text config attempts in
        let seen = deliver-replies arrival frame kept.link in
        let settled = settle-Move input J.null frame s q in
        elim (Bool-cases arrival.ingress_open) [
          | inl here ↦
              rw (here, on_frame)
                (then_quiet-Move input s kept
                  (on_link note (on_link (deliver J arrival frame) kept)) seen refl settled)
          | inr gone ↦
              rw (gone, on_frame)
                (then_quiet-Move input s kept (on_link (deliver J arrival frame) kept) seen refl
                  settled)
        ]

    on_parsed-Move :
        (r : Result (IncomingFrame V) String) (arrival : Arrival) (s : Session V)
        → Move input s (on_parsed J from_str from_slice idle_text config attempts r arrival s).1
    on_parsed-Move (err e) arrival s = quiet refl refl q
    on_parsed-Move (ok frame) arrival s = on_frame-Move frame arrival s

    on_value-Move :
        (r : Result (Option V) String) (arrival : Arrival) (s : Session V)
        → Move input s (on_value J from_str from_slice idle_text config attempts r arrival s).1
    on_value-Move (err e) arrival s = quiet refl refl q
    on_value-Move (ok none) arrival s = quiet refl refl q
    on_value-Move (ok (some v)) arrival s = on_parsed-Move (parse J v) arrival s

    read-Move :
        (last_read : ℕ) (s s' : Session V)
        → Move input (record s { last_read = last_read }) s'
        → Move input s s'
    read-Move last_read s s' (quiet r p q') = quiet r p q'
    read-Move last_read s s' (answers id x a l i r p q') = answers id x a l i r p q'
    read-Move last_read s s' (writes id method params c i r p) = writes id method params c i r p
    read-Move last_read s s' (fails id method params c d i r p) = fails id method params c d i r p

    value-Move :
        (m : Message) (arrival : Arrival) (s : Session V)
        → Move input s
            (on_value J from_str from_slice idle_text config attempts
              (message_json from_str from_slice m)
              arrival
              (record s { last_read = arrival.elapsed })).1
    value-Move m arrival s = read-Move arrival.elapsed s _ (
        on_value-Move (message_json from_str from_slice m) arrival
          (record s { last_read = arrival.elapsed }))

    on_message-Move :
        (m : Message) (arrival : Arrival) (s : Session V)
        → Move input s (on_message J from_str from_slice idle_text config attempts m arrival s).1
    unfolding on_message
    on_message-Move (ping payload) arrival s =
        quiet (write-replies arrival.write_error (Wire.pong payload) s.link) refl q
    on_message-Move (text t) arrival s = value-Move (text t) arrival s
    on_message-Move (binary bytes) arrival s = value-Move (binary bytes) arrival s
    on_message-Move close arrival s = value-Move close arrival s
    on_message-Move other arrival s = value-Move other arrival s

    on_tick-Move :
        (now : ℕ) (e : Option String) (s : Session V)
        → Move input s (on_tick J from_str from_slice idle_text config attempts now e s).1
    unfolding on_tick
    on_tick-Move now e s =
        elim (Bool-cases (leb (config.read_idle_timeout * 2) (now - s.last_read))) [
          | inl dead ↦ rw (dead, on_tick) (quiet refl refl q)
          | inr alive ↦ elim (Bool-cases (leb config.read_idle_timeout (now - s.last_read))) [
            | inr fresh ↦ rw (alive, fresh, on_tick) (quiet refl refl q)
            | inl idle ↦ elim (Option-cases e) [
              | inl n ↦ rw (alive, idle, n, on_tick) (quiet refl refl q)
              | inr (d, p) ↦ rw (alive, idle, p, on_tick) (quiet refl refl q)
            ]
          ]
        ]

  on_command-Move :
      (c : Option (Command V)) (e : Option String) (s : Session V)
      → Move (command c e) s (on_command J from_str from_slice idle_text config attempts c e s).1
  unfolding on_command
  on_command-Move (some (request id method params channel)) none s =
      writes id method params channel refl refl refl
  on_command-Move (some (request id method params channel)) (some e) s =
      fails id method params channel e refl refl refl
  on_command-Move (some (notify method params)) none s = quiet refl refl refl
  on_command-Move (some (notify method params)) (some e) s = quiet refl refl refl
  on_command-Move (some (reconciled channel)) e s = quiet refl refl refl
  on_command-Move (some (shutdown channel)) e s = quiet refl refl refl
  on_command-Move none e s = quiet refl refl refl

  pub drive_step-Move :
      (input : Input V) (s : Session V)
      → Move input s (drive_step J from_str from_slice idle_text config attempts input s).1
  unfolding drive_step
  drive_step-Move (command c e) s = on_command-Move c e s
  drive_step-Move (arrived m arrival) s = on_message-Move (arrived m arrival) refl m arrival s
  drive_step-Move (broken e) s = quiet refl refl refl
  drive_step-Move stream_ended s = quiet refl refl refl
  drive_step-Move (tick now e) s = on_tick-Move (tick now e) refl now e s
