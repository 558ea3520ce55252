-- ===== src/Transport/Connection.antt =====
-- `connection_loop` and `reject_while_disconnected` (src/transport/src/lib.rs).
use codex_warden.Prelude.{
  ℕ, ◌*◌, min, Bool, true, false, String, Option, none, some, List, [], ◌∷◌, Result, ok, err,
  wrapping_add,
}
use codex_warden.Protocol.Json.{Json}
use codex_warden.Control.Client.{RequestError}
use codex_warden.Transport.State.{
  TransportConfig, Command, request, notify, reconciled, shutdown, Link, new_link, reply, complete,
  report, set_ready, connecting, handshaking, reconciling, degraded, stopped,
}
use codex_warden.Transport.Handshake.{Greeting, initialize}
use codex_warden.Transport.Drive.{
  DriveExit, shutdown_requested, disconnected, commands_closed, Input, drive,
}

-- What a round of the loop meets: whether `connect` succeeds, the writes and messages of the
-- handshake, the inputs of the connection and when it began; where no connection comes about, what
-- the pause ends by: a command, or that there are no more, or the time; and what handles last
-- stored in the gate within the round, behind the last store of the loop itself, if they did.
pub record Dial (V : Type 0) : Type 0 where
  pub connection : Option String
  pub first_write : Option String
  pub greetings : List Greeting
  pub last_write : Option String
  pub started : ℕ
  pub inputs : List (Input V)
  pub pause : Option (Option (Command V))
  pub stored : Option Bool

pub record Connection (V : Type 0) : Type 0 where
  pub link : Link V
  pub attempts : ℕ
  pub backoff : ℕ

pub data Round : Type 0 where
  again ended running : Round

module _ {V : Type 0} where
  -- Whether the loop ends, and the link.
  unfoldable pub reject_while_disconnected : Option (Command V) → String → Link V → Bool × Link V
  reject_while_disconnected (some (request id method params channel)) detail link =
      (false, reply channel (err (RequestError.not_written detail)) link)
  reject_while_disconnected (some (shutdown channel)) detail link = (true, complete channel link)
  reject_while_disconnected (some (notify method params)) detail link = (false, link)
  reject_while_disconnected (some (reconciled channel)) detail link = (false, complete channel link)
  reject_while_disconnected none detail link = (true, link)

  -- The gate is shared: `mark_reconciled` stores in it at any time, before the loop takes its
  -- command.
  unfoldable pub shared_gate : Option Bool → Round × Connection V → Round × Connection V
  shared_gate none r = r
  shared_gate (some ready) (round, c) = (round, record c { link = set_ready ready c.link })

  -- One round and those behind it, unless it ends the loop or is still on.
  abbrev pub then_dial :
      Round × Connection V → (Connection V → Round × Connection V) → Round × Connection V
  then_dial (again, c) rest = rest c
  then_dial (ended, c) rest = (ended, c)
  then_dial (running, c) rest = (running, c)

  abbrev pub start_connection : TransportConfig → Connection V
  start_connection config = record { link = new_link; attempts = 0; backoff = config.retry_initial }

  -- the state for the next try, with twice the pause at most
  abbrev pub slower : TransportConfig → (attempts backoff : ℕ) → Link V → Connection V
  slower config attempts backoff link = record {
    link = link;
    attempts = attempts;
    backoff = min (backoff * 2) config.retry_max;
  }

  abbrev pub rejected_by :
      TransportConfig → (attempts backoff : ℕ) → Bool × Link V → Round × Connection V
  rejected_by config attempts backoff (true, link) =
      (ended, record { link = link; attempts = attempts; backoff = backoff })
  rejected_by config attempts backoff (false, link) = (again, slower config attempts backoff link)

module _ {V : Type 0} (J : Json V) (from_str : String → Result V String)
    (from_slice : List ℕ → Result V String) (idle_text : ℕ → String)
    (config : TransportConfig) where
  -- what the pause ends by
  abbrev pub paused :
      String → Option (Option (Command V)) → (attempts backoff : ℕ) → Link V → Round × Connection V
  paused detail none attempts backoff link = (again, slower config attempts backoff link)
  paused detail (some command) attempts backoff link =
      rejected_by config attempts backoff (reject_while_disconnected command detail link)

  -- The pause behind a connection that did not come about.
  unfoldable pub back_off :
      String → Option (Option (Command V)) → Connection V → Round × Connection V
  unfolding reject_while_disconnected wrapping_add
  back_off detail pause c =
      let attempts = wrapping_add c.attempts 1 in
      paused detail pause attempts c.backoff (report degraded attempts (some detail) c.link)

  -- What follows the exit of `drive`.
  unfoldable pub hang_up : Option DriveExit → Connection V → Round × Connection V
  unfolding wrapping_add
  hang_up none c = (running, c)
  hang_up (some (shutdown_requested channel)) c =
      (ended, record c { link = complete channel (report stopped c.attempts none c.link) })
  hang_up (some (disconnected detail)) c =
      let attempts = wrapping_add c.attempts 1 in
      (
        again,
        record c {
          link = report degraded attempts (some detail) (set_ready false c.link);
          attempts = attempts;
        },
      )
  hang_up (some commands_closed) c = (ended, c)

  -- The connection once its handshake is through.
  unfoldable pub serve : Dial V → Connection V → Round × Connection V
  unfolding drive hang_up
  serve dial c =
      let open_link = report reconciling c.attempts none (set_ready false c.link) in
      let (exit, link, pending) =
        drive J from_str from_slice idle_text config c.attempts dial.started dial.inputs
          open_link in
      hang_up exit (record { link = link; attempts = c.attempts; backoff = config.retry_initial })

  -- by the result of the handshake
  abbrev pub greeted :
      Dial V
      → (attempts backoff : ℕ) → Option (Result (Unit {0}) String) × Link V
      → Round × Connection V
  greeted dial attempts backoff (none, link) =
      (running, record { link = link; attempts = attempts; backoff = backoff })
  greeted dial attempts backoff (some (err detail), link) =
      back_off detail dial.pause (record { link = link; attempts = attempts; backoff = backoff })
  greeted dial attempts backoff (some (ok u), link) =
      serve dial (record { link = link; attempts = attempts; backoff = backoff })

  -- by the result of `connect`
  abbrev pub dialled : Option String → Dial V → Connection V → Round × Connection V
  dialled (some detail) dial c = back_off detail dial.pause c
  dialled none dial c = greeted dial c.attempts c.backoff (
      initialize J from_str from_slice config c.attempts dial.first_write dial.last_write
        dial.greetings (report handshaking c.attempts none c.link))

  -- one round of the loop
  unfoldable pub dial_once : Dial V → Connection V → Round × Connection V
  unfolding back_off serve initialize shared_gate
  dial_once dial c =
      shared_gate dial.stored (
        dialled dial.connection dial (record c { link = report connecting c.attempts none c.link }))

  -- The loop, as far as the rounds go: whether it has ended, and its state.
  unfoldable pub connection_loop : List (Dial V) → Connection V → Round × Connection V
  unfolding dial_once
  connection_loop [] c = (again, c)
  connection_loop (dial ∷ rest) c = then_dial (dial_once dial c) (connection_loop rest)
