-- ===== src/Transport/Order.antt =====
-- The events of all connections come in order, across reconnects (src/transport/src/lib.rs).
use codex_warden.Prelude.{
  ℕ, ◌+◌, ◌≤◌, ◌<◌, ◌≡◌, refl, Bool, true, false, String, Option, none, some, List, [], ◌∷◌, Result,
  ok, err, length, arith, word_mod,
}
use codex_warden.Protocol.Json.{Json}
use codex_warden.Transport.State.{
  TransportConfig, Command, request, notify, reconciled, shutdown, Link, handshaking, connecting,
  reconciling, report, set_ready,
}
use codex_warden.Transport.Handshake.{initialize}
use codex_warden.Transport.Drive.{
  DriveExit, shutdown_requested, disconnected, commands_closed, Step, finish_drive, drain,
  drive_loop, drive,
}
use codex_warden.Transport.Connection.{
  shared_gate, Dial, Connection, Round, again, running, reject_while_disconnected, then_dial,
  start_connection, rejected_by, paused, back_off, hang_up, serve, greeted, dialled, dial_once,
  connection_loop,
}
use codex_warden.Transport.Greetings.{initialize-Grows}
use codex_warden.Transport.Sequences.{
  IsOrdered, Ordered, Grows, IsSilent, silent-Grows, silent_after-Grows, drive_loop-Grows,
}

module _ {V : Type 0} where
  -- How many messages a round meets at most, and all rounds.
  abbrev pub messages : Dial V → ℕ
  messages dial = length dial.greetings + length dial.inputs

  abbrev pub total_messages : List (Dial V) → ℕ
  total_messages [] = 0
  total_messages (dial ∷ dials) = messages dial + total_messages dials

  reject-IsSilent :
      (c : Option (Command V)) (detail : String) (l : Link V)
      → IsSilent l (reject_while_disconnected c detail l).1
  unfolding reject_while_disconnected
  reject-IsSilent (some (request id method params channel)) detail l = (refl, refl, refl)
  reject-IsSilent (some (notify method params)) detail l = (refl, refl, refl)
  reject-IsSilent (some (reconciled channel)) detail l = (refl, refl, refl)
  reject-IsSilent (some (shutdown channel)) detail l = (refl, refl, refl)
  reject-IsSilent none detail l = (refl, refl, refl)

  shared_gate-Grows :
      (n : ℕ) (l : Link V) (stored : Option Bool) (r : Round × Connection V)
      → Grows n l r.1.link
      → Grows n l (shared_gate stored r).1.link
  unfolding shared_gate
  shared_gate-Grows n l none r g = g
  shared_gate-Grows n l (some ready) r g =
      silent_after-Grows n l r.1.link (set_ready ready r.1.link) (refl, refl, refl) g

  finish_drive-Grows :
      (n : ℕ) (l : Link V) (step : Step V) → Grows n l step.1.link → Grows n l (finish_drive step).1
  unfolding finish_drive drain
  finish_drive-Grows n l (some e, s) g = g
  finish_drive-Grows n l (none, s) g = g

module _ {V : Type 0} (J : Json V) (from_str : String → Result V String)
    (from_slice : List ℕ → Result V String) (idle_text : ℕ → String)
    (config : TransportConfig) where
  hang_up-IsSilent :
      (exit : Option DriveExit) (c : Connection V)
      → IsSilent c.link (hang_up J from_str from_slice idle_text config exit c).1.link
  unfolding hang_up
  hang_up-IsSilent none c = (refl, refl, refl)
  hang_up-IsSilent (some (shutdown_requested channel)) c = (refl, refl, refl)
  hang_up-IsSilent (some (disconnected detail)) c = (refl, refl, refl)
  hang_up-IsSilent (some commands_closed) c = (refl, refl, refl)

  rejected_by-link :
      (attempts backoff : ℕ) (r : Bool × Link V)
      → (rejected_by config attempts backoff r).1.link ≡ r.1
  rejected_by-link attempts backoff (true, link) = refl
  rejected_by-link attempts backoff (false, link) = refl

  paused-Grows :
      (detail : String) (pause : Option (Option (Command V))) (attempts backoff : ℕ) (l : Link V)
      → Ordered l
      → Grows 0 l
          (paused J from_str from_slice idle_text config detail pause attempts backoff l).1.link
  paused-Grows detail none attempts backoff l h = (h, omega arith)
  paused-Grows detail (some command) attempts backoff l h =
      rw (rejected_by-link attempts backoff (reject_while_disconnected command detail l)) (
        silent-Grows l (reject_while_disconnected command detail l).1 0
          (reject-IsSilent command detail l) h)

  serve-Grows :
      (dial : Dial V) (c : Connection V)
      → Ordered c.link
      → c.link.sequence + length dial.inputs < word_mod
      → Grows
          (length dial.inputs)
          c.link
          (serve J from_str from_slice idle_text config dial c).1.link
  unfolding serve drive
  serve-Grows dial c h fits =
      let l = report reconciling c.attempts none (set_ready false c.link) in
      let looped =
        drive_loop J from_str from_slice idle_text config c.attempts dial.inputs
          (record { link = l; pending = []; last_read = dial.started }) in
      let grown = finish_drive-Grows (length dial.inputs) l looped (
        drive_loop-Grows J from_str from_slice idle_text config c.attempts dial.inputs
          (record { link = l; pending = []; last_read = dial.started }) h fits) in
      let closed : Connection V = record {
        link = (finish_drive looped).1;
        attempts = c.attempts;
        backoff = config.retry_initial;
      } in
      silent_after-Grows (length dial.inputs) c.link (finish_drive looped).1
        (hang_up J from_str from_slice idle_text config (finish_drive looped).0 closed).1.link
        (hang_up-IsSilent (finish_drive looped).0 closed) (grown.0, grown.1)

  back_off-Grows :
      (detail : String) (pause : Option (Option (Command V))) (c : Connection V)
      → Ordered c.link
      → Grows 0 c.link (back_off J from_str from_slice idle_text config detail pause c).1.link
  unfolding back_off
  back_off-Grows detail pause c h = paused-Grows detail pause _ c.backoff _ h

  greeted-Grows :
      (dial : Dial V) (attempts backoff : ℕ) (g : Option (Result (Unit {0}) String) × Link V)
      → Ordered g.1
      → g.1.sequence + length dial.inputs < word_mod
      → Grows
          (length dial.inputs)
          g.1
          (greeted J from_str from_slice idle_text config dial attempts backoff g).1.link
  greeted-Grows dial attempts backoff (none, link) h fits = (h, omega arith)
  greeted-Grows dial attempts backoff (some (err detail), link) h fits =
      let r =
        back_off-Grows detail dial.pause
          (record { link = link; attempts = attempts; backoff = backoff }) h in
      (r.0, omega (arith, r.1))
  greeted-Grows dial attempts backoff (some (ok u), link) h fits =
      serve-Grows dial (record { link = link; attempts = attempts; backoff = backoff }) h fits

  dialled-Grows :
      (connection : Option String) (dial : Dial V) (c : Connection V)
      → Ordered c.link
      → c.link.sequence + messages dial < word_mod
      → Grows
          (messages dial)
          c.link
          (dialled J from_str from_slice idle_text config connection dial c).1.link
  dialled-Grows (some detail) dial c h fits =
      let r = back_off-Grows detail dial.pause c h in (r.0, omega (arith, r.1))
  dialled-Grows none dial c h fits =
      let l = report handshaking c.attempts none c.link in
      let grown =
        initialize-Grows J from_str from_slice config c.attempts dial.first_write dial.last_write
          dial.greetings l h (omega arith) in
      let served =
        greeted-Grows dial c.attempts c.backoff
          (initialize J from_str from_slice config c.attempts dial.first_write dial.last_write
            dial.greetings l)
          grown.0 (omega (arith, grown.1)) in
      (served.0, omega (arith, grown.1, served.1))

  then_dial-Grows :
      (l : Link V) (m n : ℕ) (step : Round × Connection V)
      (rest : Connection V → Round × Connection V)
      → Grows m l step.1.link
      → ((next : Connection V)
          → Ordered next.link
          → next.link.sequence ≤ l.sequence + m
          → Grows n next.link (rest next).1.link)
      → Grows (m + n) l (then_dial step rest).1.link
  then_dial-Grows l m n (again, next) rest g ih =
      let r = ih next g.0 g.1 in (r.0, omega (arith, g.1, r.1))
  then_dial-Grows l m n (Round.ended, next) rest g ih = (g.0, omega (arith, g.1))
  then_dial-Grows l m n (running, next) rest g ih = (g.0, omega (arith, g.1))

  connection_loop-Grows :
      (dials : List (Dial V)) (c : Connection V)
      → Ordered c.link
      → c.link.sequence + total_messages dials < word_mod
      → Grows
          (total_messages dials)
          c.link
          (connection_loop J from_str from_slice idle_text config dials c).1.link
  unfolding connection_loop dial_once
  connection_loop-Grows [] c h fits = (h, omega arith)
  connection_loop-Grows (dial ∷ dials) c h fits =
      then_dial-Grows c.link (messages dial) (total_messages dials)
        (dial_once J from_str from_slice idle_text config dial c)
        (connection_loop J from_str from_slice idle_text config dials)
        (shared_gate-Grows (messages dial) c.link dial.stored _ (
          dialled-Grows dial.connection dial
            (record c { link = report connecting c.attempts none c.link }) h (omega arith)))
        (λ next o le. connection_loop-Grows dials next o (omega (arith, le)))

  -- Events come in order, also across reconnects. Over any rounds of the connection loop from its
  -- start, with fewer messages than a word can count, the events that the lossless receiver of the
  -- ingress was sent have strictly increasing sequences, none above the number of messages, and
  -- the broadcast was sent the same events.
  pub connection_loop-IsOrdered :
      (dials : List (Dial V))
      → total_messages dials < word_mod
      → let link =
          (connection_loop J from_str from_slice idle_text config dials
            (start_connection config)).1.link in
        IsOrdered link.sequence link.ingress link.inbound × (link.sequence ≤ total_messages dials)
  connection_loop-IsOrdered dials fits =
      let g =
        connection_loop-Grows dials (start_connection config)
          (record { increasing = tt; below = tt; same = refl }) (omega (arith, fits)) in
      (g.0, omega (arith, g.1))
