-- ===== src/Reducer/State.antt =====
-- The state of the reducer (src/reducer/src/lib.rs).
use codex_warden.Prelude.{
  ℕ, Bool, false, not, ◌&&◌, String, Option, none, List, [], Map, Set, is_some,
}
use codex_warden.Protocol.Event.{SequencedEvent}

pub record ThreadState (V : Type 0) : Type 0 where
  pub thread_id : String
  pub status : String
  pub active_turn_id : Option String
  pub subscribed : Bool
  pub ephemeral : Bool
  pub last_sequence : ℕ
  pub raw_thread : Option V

pub record Snapshot (V : Type 0) : Type 0 where
  pub at_sequence : ℕ
  pub threads : Map String (ThreadState V)

pub record ReducerState (V : Type 0) : Type 0 where
  pub snapshot : Snapshot V
  pub open snapshot use *
  pub subscribing : Set String

-- A waiter: its predicate, and a name for the channel that answers it.
pub record Waiter (V : Type 0) : Type 0 where
  pub predicate : SequencedEvent V → Bool
  pub channel : ℕ

-- The three parts of a `Reducer`, each under a lock of its own.
pub record Reducer (V : Type 0) : Type 0 where
  pub state : ReducerState V
  pub lifecycle : List (SequencedEvent V)
  pub waiters : List (Waiter V)

module _ {V : Type 0} where
  abbrev pub init_state : ReducerState V
  init_state = record { snapshot = record { at_sequence = 0; threads = [] }; subscribing = [] }

  -- The log's capacity, which must be positive, is an argument of the operations.
  abbrev pub new : Reducer V
  new = record { state = init_state; lifecycle = []; waiters = [] }

  -- `or_insert_with(|| ThreadState { ... })`
  unfoldable pub fresh_thread : String → ThreadState V
  fresh_thread id = record {
    thread_id = id;
    status = "unknown";
    active_turn_id = none;
    subscribed = false;
    ephemeral = false;
    last_sequence = 0;
    raw_thread = none;
  }

  unfoldable pub is_prunable : ThreadState V → Bool
  is_prunable thread = not thread.subscribed && not (is_some thread.active_turn_id)

  -- The state with other threads.
  abbrev pub with_threads : ReducerState V → Map String (ThreadState V) → ReducerState V
  with_threads s threads = record s { snapshot = record s.snapshot { threads = threads } }
