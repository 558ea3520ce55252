-- ===== src/Streaming.antt =====
-- The fan-out of events and its two streams (src/streaming/src/lib.rs).
--
-- tokio's broadcast channel is not part of the source: a sender is what was sent on it, in order,
-- and what a receiver answers is an argument of the streams. The reducer that a stream holds is
-- shared with its writer, so its state at each call is an argument too.
pub mod Session
pub mod Complete
pub mod Deltas
use codex_warden.Prelude.{
  ℕ, String, Option, none, some, List, [], ◌∷◌, ◌++◌, get_last?, wrapping_add,
}
use codex_warden.Protocol.Frame.{Plane}
use codex_warden.Protocol.Event.{SequencedEvent}
use codex_warden.Reducer.State.{Snapshot, Reducer}
use codex_warden.Reducer.Replay.{ReplayResult, events_since}

pub record EventHub (V : Type 0) : Type 0 where
  pub lifecycle : List (SequencedEvent V)
  pub delta : List (SequencedEvent V)

-- What `Receiver::recv` answers.
pub data Received (V : Type 0) : Type 0 where
  event : SequencedEvent V → Received V
  lagged : ℕ → Received V
  closed : Received V

pub data LifecycleItem (V : Type 0) : Type 0 where
  event : SequencedEvent V → LifecycleItem V
  replay : List (SequencedEvent V) → LifecycleItem V
  gap_too_old : Snapshot V → Option ℕ → LifecycleItem V
  closed : LifecycleItem V

pub record LifecycleStream : Type 0 where
  pub cursor : ℕ

pub record DeltaStream : Type 0 where
  pub dropped : ℕ

abbrev pub lifecycle : ℕ → LifecycleStream
lifecycle after = record { cursor = after }

abbrev pub deltas : DeltaStream
deltas = record { dropped = 0 }

module _ {V : Type 0} where
  abbrev pub new_hub : EventHub V
  new_hub = record { lifecycle = []; delta = [] }

  -- the hub with one more event of a plane
  abbrev pub publish_on : Plane → SequencedEvent V → EventHub V → EventHub V
  publish_on Plane.lifecycle e hub = record hub { lifecycle = hub.lifecycle ++ e ∷ [] }
  publish_on Plane.delta e hub = record hub { delta = hub.delta ++ e ∷ [] }

  unfoldable pub publish : SequencedEvent V → EventHub V → EventHub V
  publish e hub = publish_on e.plane e hub

  -- `if let Some(last) = events.last()`
  abbrev pub cursor_after : ℕ → Option (SequencedEvent V) → ℕ
  cursor_after cursor none = cursor
  cursor_after cursor (some last) = last.sequence

  -- the answer to a lag, from what the reducer replays
  unfoldable pub caught_up : LifecycleStream → ReplayResult V → LifecycleItem V × LifecycleStream
  caught_up stream (ReplayResult.events es) =
      (LifecycleItem.replay es, record { cursor = cursor_after stream.cursor (get_last? es) })
  caught_up stream (ReplayResult.gap_too_old requested oldest snapshot) =
      (LifecycleItem.gap_too_old snapshot oldest, record { cursor = snapshot.at_sequence })

  unfoldable pub recv : Received V → Reducer V → LifecycleStream → LifecycleItem V × LifecycleStream
  unfolding caught_up
  recv (Received.event e) r stream = (LifecycleItem.event e, record { cursor = e.sequence })
  recv (Received.lagged n) r stream = caught_up stream (events_since stream.cursor r)
  recv Received.closed r stream = (LifecycleItem.closed, stream)

  -- The loop of `DeltaStream::recv` on the answers that the channel gives from now on: what it
  -- returns, the stream, and the answers left. `none` where the answers end, so that it still
  -- waits.
  unfoldable pub recv_delta :
      List (Received V)
      → DeltaStream
      → Option (Option (SequencedEvent V) × DeltaStream × List (Received V))
  recv_delta [] stream = none
  recv_delta (Received.event e ∷ rest) stream = some (some e, stream, rest)
  recv_delta (Received.lagged n ∷ rest) stream =
      recv_delta rest (record { dropped = wrapping_add stream.dropped n })
  recv_delta (Received.closed ∷ rest) stream = some (none, stream, rest)
