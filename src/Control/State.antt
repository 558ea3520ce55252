-- ===== src/Control/State.antt =====
-- Targets, evidence, outcomes and the controller (src/control/src/lib.rs).
use codex_warden.Prelude.{ℕ, ◌*◌, Bool, String, Option, none, some}
use codex_warden.Protocol.Event.{SequencedEvent, event_method}
use codex_warden.Reducer.State.{Reducer}
use codex_warden.Control.Client.{Client}

-- Times in milliseconds.
pub record ControlConfig : Type 0 where
  pub correlation_window : ℕ
  pub not_written_retries : ℕ
  pub retry_delay : ℕ

abbrev pub default_control : ControlConfig
default_control = record {
  correlation_window = 3 * 1000;
  not_written_retries = 2;
  retry_delay = 100;
}

pub data ActionTarget : Type 0 where
  -- a thread and a turn
  turn : String → String → ActionTarget
  thread : String → ActionTarget

pub record Evidence : Type 0 where
  pub action_correlation : ℕ
  pub rpc_accepted : Bool
  pub observed_sequence : Option ℕ
  pub observed_method : Option String
  pub note : String

pub data ActionOutcome (V : Type 0) : Type 0 where
  confirmed : ActionTarget → Evidence → ActionOutcome V
  -- the target, the reason, the daemon's error
  rejected : ActionTarget → String → Option V → ActionOutcome V
  outcome_unknown : ActionTarget → Evidence → ActionOutcome V

pub record Controller (V : Type 0) : Type 0 where
  pub client : Client V
  pub reducer : Reducer V
  pub config : ControlConfig
  pub next_correlation : ℕ

abbrev pub new_controller : {V : Type 0} → Client V → Reducer V → ControlConfig → Controller V
new_controller client reducer config = record {
  client = client;
  reducer = reducer;
  config = config;
  next_correlation = 1;
}

abbrev pub observed : {V : Type 0} → ℕ → Bool → SequencedEvent V → String → Evidence
observed correlation rpc_accepted e note = record {
  action_correlation = correlation;
  rpc_accepted = rpc_accepted;
  observed_sequence = some e.sequence;
  observed_method = event_method e;
  note = note;
}

abbrev pub unknown : ℕ → Bool → String → Evidence
unknown correlation rpc_accepted note = record {
  action_correlation = correlation;
  rpc_accepted = rpc_accepted;
  observed_sequence = none;
  observed_method = none;
  note = note;
}

-- What an action yields, or `none` while it waits.
abbrev pub Outcome : Type 0 → Type 0
Outcome V = Option (ActionOutcome V × Controller V)
