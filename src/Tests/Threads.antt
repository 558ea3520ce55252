-- ===== src/Tests/Threads.antt =====
-- The reducer (src/reducer).
use mathlib.Core.Bool.{false≢true}
use codex_warden.Prelude.{
  ℕ, ◌<◌, ◌≡◌, ◌↔◌, ◌⊎◌, ◌||◌, refl, inr, true, none, some, List, [], ◌∷◌, ◌++◌, lookup, insert,
  remove, contains, filter, arith, ltb, saturating_add, string_eq, if◌then◌else◌, eq_iff,
}
use codex_warden.Protocol.Frame.{
  plane_for_method, contains as str_contains, ends_with, method, params,
}
use codex_warden.Protocol.Event.{
  SequencedEvent, from_frame, event_method, extract_thread_id, extract_turn_id,
}
use codex_warden.Protocol.Request.{turn_params}
use codex_warden.Reducer.State.{Reducer, Waiter, init_state, new}
use codex_warden.Reducer.Apply.{apply, apply_state, apply_log, apply_waiters, trim}
use codex_warden.Reducer.Subscribe.{entry_of, evict_idle, reconcile_thread, reconciled_thread}
use codex_warden.Reducer.Replay.{ReplayResult, oldest, events_since}
use codex_warden.Reducer.Relevance.{
  IsRelevant, Call, run_calls, run_calls-IsRelevant, IsKept, evict_idle_exact,
}
use codex_warden.Reducer.Log.{IsTail, is_lifecycle, apply_log-IsTail, events_since_honest}
use codex_warden.Reducer.Waiters.{IsSplit, apply_waiters-IsSplit}
use codex_warden.Reducer.Turns.{
  after, ended, apply_state_completed, apply_state_completed_other, reconcile_thread_lem,
}
use codex_warden.Tests.Sample.{Value, text, fields, field, stop, sample, event}

program : Unit {0}
unfolding apply apply_state apply_log apply_waiters trim from_frame plane_for_method str_contains
    ends_with extract_thread_id extract_turn_id method params turn_params event_method events_since
    saturating_add lookup insert remove contains
program = tt

abbrev begun : SequencedEvent Value
begun = event 2 "turn/started"

abbrev done : SequencedEvent Value
done = event 3 "turn/completed"

abbrev other_done : SequencedEvent Value
other_done = record done { turn_id = some "v" }

init-IsRelevant : IsRelevant (init_state {V = Value})
unfolding program
init-IsRelevant id thread p = absurd (ground arith)

abbrev calls : List (Call Value)
calls =
    Call.begun "t" ∷ Call.applied begun ∷ Call.finished "t" ∷ Call.applied done ∷ Call.evicted ∷ []

run_calls-IsRelevant_example : IsRelevant (run_calls sample calls init_state)
run_calls-IsRelevant_example = run_calls-IsRelevant sample calls init_state init-IsRelevant

evict_idle_exact_example :
    (lookup "t" (evict_idle (apply_state sample begun init_state)).0.threads
      ≡ some (after sample begun "t" init_state))
    ↔ ((lookup "t" (apply_state sample begun init_state).threads
          ≡ some (after sample begun "t" init_state))
        × IsKept (apply_state sample begun init_state) "t" (after sample begun "t" init_state))
evict_idle_exact_example =
    evict_idle_exact (apply_state sample begun init_state) "t" (after sample begun "t" init_state)

-- A log of two events, after three.
abbrev history : List (SequencedEvent Value)
history = event 1 "turn/started" ∷ event 2 "turn/completed" ∷ event 3 "turn/started" ∷ []

abbrev two_left : Reducer Value
two_left = record new { lifecycle = event 2 "turn/completed" ∷ event 3 "turn/started" ∷ [] }

replayed :
    (events_since 1 two_left
      ≡ ReplayResult.events (event 2 "turn/completed" ∷ event 3 "turn/started" ∷ []))
    × (events_since 0 two_left
        ≡ ReplayResult.gap_too_old 0 (some 2) (init_state {V = Value}).snapshot)
unfolding program
replayed = (refl, refl)

two_left-IsTail : IsTail 2 history two_left.lifecycle
unfolding program
two_left-IsTail = record {
  dropped = event 1 "turn/started" ∷ [];
  split = refl;
  bounded = omega arith;
  full = inr refl;
}

events_since_honest_example :
    (events_since 1 two_left
      ≡ ReplayResult.events (filter (λ e. ltb 1 e.sequence) (filter is_lifecycle history)))
    ⊎ ((first : ℕ) × (oldest two_left.lifecycle ≡ some first)
        × (saturating_add 1 1 < first)
        × (events_since 1 two_left
            ≡ ReplayResult.gap_too_old 1 (some first) two_left.state.snapshot))
unfolding program
events_since_honest_example =
    events_since_honest 2 1 history two_left (omega arith) two_left-IsTail (omega arith)

apply_log-IsTail_example : IsTail 2 (history ++ done ∷ []) (apply_log 2 done two_left.lifecycle)
apply_log-IsTail_example = apply_log-IsTail 2 history two_left.lifecycle done two_left-IsTail

abbrev waiting : List (Waiter Value)
waiting =
    (record { predicate = λ e. ltb 2 e.sequence; channel = 1 })
    ∷ (record { predicate = λ e. ltb 5 e.sequence; channel = 2 })
    ∷ (record { predicate = λ e. true; channel = 3 })
    ∷ []

apply_waiters-IsSplit_example :
    IsSplit done waiting (apply_waiters done waiting).0 (apply_waiters done waiting).1
apply_waiters-IsSplit_example = apply_waiters-IsSplit done waiting

apply_state_completed_example :
    lookup "t" (apply_state sample done (apply_state sample begun init_state)).threads ≡ (
      if contains "t" (init_state {V = Value}).subscribing
        || (entry_of {V = Value} "t" []).subscribed
      then some (ended sample done (entry_of "t" []))
      else none)
unfolding program
apply_state_completed_example =
    apply_state_completed sample begun done init_state "t" "u" (refl, refl, refl) (refl, refl, refl)

apply_state_completed_other_example :
    lookup "t" (apply_state sample other_done (apply_state sample begun init_state)).threads
    ≡ some (record (entry_of {V = Value} "t" []) {
      last_sequence = 3;
      status = "idle";
      active_turn_id = some "u";
    })
unfolding program
apply_state_completed_other_example =
    apply_state_completed_other sample begun other_done init_state "t" "u" "v" (refl, refl, refl)
      (refl, refl, refl) (λ p. false≢true ((eq_iff "u" "v").1 p))

abbrev read_thread : Value
read_thread = fields (field "id" (text "t") stop)

reconcile_thread_lem_example :
    (lookup "t" (reconcile_thread sample read_thread init_state).threads ≡ (
      if string_eq.beq "t" "t"
      then some (reconciled_thread sample "t" read_thread init_state)
      else lookup "t" (init_state {V = Value}).threads))
    × ((reconciled_thread sample "t" read_thread init_state).subscribed
        ≡ (entry_of {V = Value} "t" []).subscribed)
    × ((reconcile_thread sample read_thread init_state).at_sequence ≡ 0)
reconcile_thread_lem_example = reconcile_thread_lem sample read_thread init_state "t" "t" refl
