-- ===== src/Reducer/Replay.antt =====
-- `events_since` and the readers of the snapshot (src/reducer/src/lib.rs).
use codex_warden.Prelude.{
  ℕ, Option, none, some, List, ltb, if◌then◌else◌, is_some_and, head?, filter, saturating_add,
}
use codex_warden.Protocol.Event.{SequencedEvent}
use codex_warden.Reducer.State.{Snapshot, Reducer}

pub data ReplayResult (V : Type 0) : Type 0 where
  events : List (SequencedEvent V) → ReplayResult V
  -- what was asked for, the oldest sequence at hand, the snapshot
  gap_too_old : ℕ → Option ℕ → Snapshot V → ReplayResult V

module _ {V : Type 0} where
  unfoldable pub oldest : List (SequencedEvent V) → Option ℕ
  oldest log = elim (head? log) [ none ↦ none | some e ↦ some e.sequence ]

  unfoldable pub events_since : ℕ → Reducer V → ReplayResult V
  unfolding oldest
  events_since sequence r =
      if is_some_and (oldest r.lifecycle) (λ first. ltb (saturating_add sequence 1) first)
      then gap_too_old sequence (oldest r.lifecycle) r.state.snapshot
      else events (filter (λ e. ltb sequence e.sequence) r.lifecycle)

  unfoldable pub current_sequence : Reducer V → ℕ
  current_sequence r = r.state.at_sequence
