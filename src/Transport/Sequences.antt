-- ===== src/Transport/Sequences.antt =====
-- The events of all connections come in order (src/transport/src/lib.rs).
use codex_warden.Prelude.{
  ℕ, suc, ◌+◌, ◌-◌, ◌*◌, ◌≤◌, ◌<◌, ◌≡◌, refl, inl, inr, String, Option, none, some, List, [], ◌∷◌,
  ◌++◌, lookup, Result, ok, err, length, All, All-append, All-map, arith, Bool-cases, Option-cases,
  word_mod, wrapping_add, wrapping_add-eq, leb,
}
use codex_warden.Protocol.Json.{Json}
use codex_warden.Protocol.Frame.{IncomingFrame, parse}
use codex_warden.Protocol.Event.{SequencedEvent, from_frame}
use codex_warden.Reducer.Log.{IsIncreasing}
use codex_warden.Transport.State.{
  TransportConfig, Command, request, notify, reconciled, shutdown, Pending, Message, text, binary,
  ping, close, other, Link, Session, Arrival, Wire, rpc_id_eq, write,
}
use codex_warden.Transport.Handshake.{event_of, deliver, message_json}
use codex_warden.Transport.Drive.{
  then_drive, on_parsed, Input, command, arrived, broken, stream_ended, tick, settle,
  answer_pending, answer_of, on_value, on_frame, on_command, on_message, on_tick, drive_step,
  drive_loop, Step,
}

module _ {V : Type 0} where
  -- The events were delivered to both receivers, in increasing sequence, up to the counter.
  pub record IsOrdered (sequence : ℕ) (ingress inbound : List (SequencedEvent V)) : Type 0 where
    pub increasing : IsIncreasing ingress
    pub below : All (λ e. e.sequence ≤ sequence) ingress
    pub same : inbound ≡ ingress

  abbrev pub Ordered : Link V → Type 0
  Ordered l = IsOrdered l.sequence l.ingress l.inbound

  -- At most `n` frames more, with the order kept.
  abbrev pub Grows : ℕ → Link V → Link V → Type 0
  Grows n l l' = Ordered l' × (l'.sequence ≤ l.sequence + n)

  snoc-IsIncreasing :
      (es : List (SequencedEvent V)) (e : SequencedEvent V)
      → IsIncreasing es
      → All (λ x. x.sequence < e.sequence) es
      → IsIncreasing (es ++ e ∷ [])
  snoc-IsIncreasing [] e h a = (tt, tt)
  snoc-IsIncreasing (x ∷ xs) e h a = (
    All-append (λ later. x.sequence < later.sequence) xs (e ∷ []) h.0 (a.0, tt),
    snoc-IsIncreasing xs e h.1 a.1,
  )

  -- Only the three parts count.
  abbrev pub IsSilent : Link V → Link V → Type 0
  IsSilent l l' = (l'.sequence ≡ l.sequence) × (l'.ingress ≡ l.ingress) × (l'.inbound ≡ l.inbound)

  pub silent-Grows : (l l' : Link V) (n : ℕ) → IsSilent l l' → Ordered l → Grows n l l'
  silent-Grows l l' n (s, i, b) h = (rw (s, i, b) h, omega (arith, s))

  then_drive-Grows :
      (l : Link V) (n : ℕ) (step : Step V) (rest : Session V → Step V)
      → Grows 1 l step.1.link
      → ((next : Session V)
          → Ordered next.link
          → next.link.sequence ≤ l.sequence + 1
          → Grows n next.link (rest next).1.link)
      → Grows (suc n) l (then_drive step rest).1.link
  then_drive-Grows l n (some e, next) rest g ih = (g.0, omega (arith, g.1))
  then_drive-Grows l n (none, next) rest g ih =
      let r = ih next g.0 g.1 in (r.0, omega (arith, g.1, r.1))

  pub silent_after-Grows : (n : ℕ) (l m m' : Link V) → IsSilent m m' → Grows n l m → Grows n l m'
  silent_after-Grows n l m m' (s, i, b) g = (rw (s, i, b) g.0, omega (arith, s, g.1))

  pub write-IsSilent : (e : Option String) (m : Wire V) (l : Link V) → IsSilent l (write e m l)
  write-IsSilent none m l = (refl, refl, refl)
  write-IsSilent (some e) m l = (refl, refl, refl)

  settle-IsSilent :
      (null : V) (frame : IncomingFrame V) (s : Session V)
      → IsSilent s.link (settle null frame s).link
  unfolding settle
  settle-IsSilent null (IncomingFrame.response id result e raw) s = go (lookup id s.pending)
    where
      go :
          (p : Option Pending)
          → IsSilent s.link (answer_pending id p (λ method. answer_of null method result e) s).link
      go none = (refl, refl, refl)
      go (some p) = (refl, refl, refl)
  settle-IsSilent null (IncomingFrame.notification m p known raw) s = (refl, refl, refl)
  settle-IsSilent null (IncomingFrame.server_request id m p known raw) s = (refl, refl, refl)

module _ {V : Type 0} (J : Json V) where
  pub deliver-Grows :
      (arrival : Arrival) (frame : IncomingFrame V) (l : Link V)
      → Ordered l
      → l.sequence + 1 < word_mod
      → Grows 1 l (deliver J arrival frame l)
  unfolding deliver event_of from_frame
  deliver-Grows arrival frame l h fits = elim (Bool-cases arrival.ingress_open) [
    | inr gone ↦
        rw (gone, deliver, next)
          (record { increasing = h.increasing; below = later; same = h.same }, omega arith)
    | inl here ↦
        rw (here, deliver, next)
          (
            record {
              increasing = snoc-IsIncreasing l.ingress _ h.increasing (
                  All-map (λ e. e.sequence ≤ l.sequence) (λ e. e.sequence < l.sequence + 1)
                    l.ingress (λ e le. omega (arith, le)) h.below);
              below =
                  All-append (λ e. e.sequence ≤ l.sequence + 1) l.ingress _ later (omega arith, tt);
              same = rw h.same;
            },
            omega arith,
          )
  ]
    where
      next : wrapping_add l.sequence 1 ≡ l.sequence + 1
      next = wrapping_add-eq l.sequence 1 fits

      later : All (λ e. e.sequence ≤ l.sequence + 1) l.ingress
      later =
          All-map (λ e. e.sequence ≤ l.sequence) (λ e. e.sequence ≤ l.sequence + 1) l.ingress
            (λ e le. omega (arith, le)) h.below

module _ {V : Type 0} (J : Json V) (from_str : String → Result V String)
    (from_slice : List ℕ → Result V String) (idle_text : ℕ → String) (config : TransportConfig)
    (attempts : ℕ) where
  on_frame-Grows :
      (frame : IncomingFrame V) (arrival : Arrival) (s : Session V)
      → Ordered s.link
      → s.link.sequence + 1 < word_mod
      → Grows 1 s.link
          (on_frame J from_str from_slice idle_text config attempts frame arrival s).1.link
  unfolding on_frame
  on_frame-Grows frame arrival s h fits =
      let quiet = settle-IsSilent J.null frame s in
      let kept = silent-Grows s.link (settle J.null frame s).link 0 quiet h in
      let grown =
        deliver-Grows J arrival frame (settle J.null frame s).link kept.0
          (omega (arith, fits, quiet.0)) in
      elim (Bool-cases arrival.ingress_open) [
        | inl here ↦ rw (here, on_frame) (grown.0, omega (arith, grown.1, quiet.0))
        | inr gone ↦ rw (gone, on_frame) (grown.0, omega (arith, grown.1, quiet.0))
      ]

  on_parsed-Grows :
      (r : Result (IncomingFrame V) String) (arrival : Arrival) (s : Session V)
      → Ordered s.link
      → s.link.sequence + 1 < word_mod
      → Grows 1 s.link
          (on_parsed J from_str from_slice idle_text config attempts r arrival s).1.link
  on_parsed-Grows (err e) arrival s h fits = (h, omega arith)
  on_parsed-Grows (ok frame) arrival s h fits = on_frame-Grows frame arrival s h fits

  on_value-Grows :
      (r : Result (Option V) String) (arrival : Arrival) (s : Session V)
      → Ordered s.link
      → s.link.sequence + 1 < word_mod
      → Grows 1 s.link (on_value J from_str from_slice idle_text config attempts r arrival s).1.link
  on_value-Grows (err e) arrival s h fits = (h, omega arith)
  on_value-Grows (ok none) arrival s h fits = (h, omega arith)
  on_value-Grows (ok (some v)) arrival s h fits = on_parsed-Grows (parse J v) arrival s h fits

  on_message-Grows :
      (m : Message) (arrival : Arrival) (s : Session V)
      → Ordered s.link
      → s.link.sequence + 1 < word_mod
      → Grows 1 s.link
          (on_message J from_str from_slice idle_text config attempts m arrival s).1.link
  unfolding on_message
  on_message-Grows (ping payload) arrival s h fits =
      silent-Grows s.link (write arrival.write_error (Wire.pong payload) s.link) 1
        (write-IsSilent arrival.write_error (Wire.pong payload) s.link) h
  on_message-Grows (text t) arrival s h fits =
      on_value-Grows (message_json from_str from_slice (text t)) arrival
        (record s { last_read = arrival.elapsed }) h fits
  on_message-Grows (binary bytes) arrival s h fits =
      on_value-Grows (message_json from_str from_slice (binary bytes)) arrival
        (record s { last_read = arrival.elapsed }) h fits
  on_message-Grows close arrival s h fits =
      on_value-Grows (message_json from_str from_slice close) arrival
        (record s { last_read = arrival.elapsed }) h fits
  on_message-Grows other arrival s h fits =
      on_value-Grows (message_json from_str from_slice other) arrival
        (record s { last_read = arrival.elapsed }) h fits

  on_command-Grows :
      (c : Option (Command V)) (e : Option String) (s : Session V)
      → Ordered s.link
      → Grows 1 s.link (on_command J from_str from_slice idle_text config attempts c e s).1.link
  unfolding on_command
  on_command-Grows (some (request id method params channel)) none s h = (h, omega arith)
  on_command-Grows (some (request id method params channel)) (some e) s h = (h, omega arith)
  on_command-Grows (some (notify method params)) none s h = (h, omega arith)
  on_command-Grows (some (notify method params)) (some e) s h = (h, omega arith)
  on_command-Grows (some (reconciled channel)) e s h = (h, omega arith)
  on_command-Grows (some (shutdown channel)) e s h = (h, omega arith)
  on_command-Grows none e s h = (h, omega arith)

  on_tick-Grows :
      (now : ℕ) (e : Option String) (s : Session V)
      → Ordered s.link
      → Grows 1 s.link (on_tick J from_str from_slice idle_text config attempts now e s).1.link
  unfolding on_tick
  on_tick-Grows now e s h =
      elim (Bool-cases (leb (config.read_idle_timeout * 2) (now - s.last_read))) [
        | inl dead ↦ rw (dead, on_tick) (h, omega arith)
        | inr alive ↦ elim (Bool-cases (leb config.read_idle_timeout (now - s.last_read))) [
          | inr fresh ↦ rw (alive, fresh, on_tick) (h, omega arith)
          | inl idle ↦ elim (Option-cases e) [
            | inl n ↦ rw (alive, idle, n, on_tick) (h, omega arith)
            | inr (d, p) ↦ rw (alive, idle, p, on_tick) (h, omega arith)
          ]
        ]
      ]

  drive_step-Grows :
      (input : Input V) (s : Session V)
      → Ordered s.link
      → s.link.sequence + 1 < word_mod
      → Grows 1 s.link (drive_step J from_str from_slice idle_text config attempts input s).1.link
  unfolding drive_step
  drive_step-Grows (command c e) s h fits = on_command-Grows c e s h
  drive_step-Grows (arrived m arrival) s h fits = on_message-Grows m arrival s h fits
  drive_step-Grows (broken e) s h fits = (h, omega arith)
  drive_step-Grows stream_ended s h fits = (h, omega arith)
  drive_step-Grows (tick now e) s h fits = on_tick-Grows now e s h

  pub drive_loop-Grows :
      (inputs : List (Input V)) (s : Session V)
      → Ordered s.link
      → s.link.sequence + length inputs < word_mod
      → Grows
          (length inputs)
          s.link
          (drive_loop J from_str from_slice idle_text config attempts inputs s).1.link
  unfolding drive_loop
  drive_loop-Grows [] s h fits = (h, omega arith)
  drive_loop-Grows (input ∷ rest) s h fits =
      then_drive-Grows s.link (length rest)
        (drive_step J from_str from_slice idle_text config attempts input s)
        (drive_loop J from_str from_slice idle_text config attempts rest)
        (drive_step-Grows input s h (omega arith))
        (λ next o le. drive_loop-Grows rest next o (omega (arith, le)))
