-- ===== src/Tests/Storage.antt =====
-- The event store (src/store).
use codex_warden.Prelude.{
  In, ◌≡◌, ◌↔◌, ◌⊎◌, refl, inl, true, false, none, some, get_or, List, [], ◌∷◌, ◌++◌, All, lookup,
  insert, remove, option_eq, string_eq, filter, any, arith, wrapping_add,
}
use codex_warden.Protocol.Frame.{plane_for_method, contains, ends_with, method, params}
use codex_warden.Protocol.Event.{
  SequencedEvent, from_frame, event_method, extract_thread_id, extract_turn_id,
  extract_emitted_at_ms,
}
use codex_warden.Protocol.Laws.{anchor}
use codex_warden.Protocol.Request.{turn_params}
use codex_warden.Store.State.{
  StoreConfig, Inner, empty, no_gap, remove_elem, encoded_len, add_thread, forget, remove_at,
}
use codex_warden.Store.Prune.{
  record_locked, over_thread, over_global, victim, expire, enforce, push_event, is_genuine_start,
  record_reconstructed_active_turn, evict_idle_content, is_idle_content,
}
use codex_warden.Store.Query.{query_sequence, query_time, in_range}
use codex_warden.Store.Accounting.{IsAccounted, empty-IsAccounted, push_event-IsAccounted}
use codex_warden.Store.Order.{entries, entries-IsOrder}
use codex_warden.Store.Limits.{IsWithin, record_locked-IsWithin}
use codex_warden.Store.Victim.{IsCandidate, victim-oldest}
use codex_warden.Store.Gaps.{Reaches, IsHonest, record_all}
use codex_warden.Store.Replies.{
  InRange, InWindow, query_sequence_exact, query_time_exact, query_sequence_complete,
  query_all-remove_at,
}
use codex_warden.Store.Idle.{is_kept, evict_idle_content-filter}
use codex_warden.Store.Anchor.{record_reconstructed_lem}
use codex_warden.Tests.Sample.{Value, sample, sample_laws, event, ten}

program : Unit {0}
unfolding record_locked encoded_len forget remove_at remove_elem add_thread expire over_thread
    over_global victim enforce push_event from_frame plane_for_method contains ends_with entries
    lookup insert remove wrapping_add extract_emitted_at_ms extract_thread_id extract_turn_id method
    params turn_params event_method
program = tt

-- Room for two events.
abbrev small : StoreConfig
small = record {
  retention = 1000;
  per_thread_bytes = 20;
  global_bytes = 20;
  emitted_at_tolerance = 2;
}

abbrev delta : SequencedEvent Value
delta = event 1 "item/output/delta"

abbrev first_end : SequencedEvent Value
first_end = event 2 "turn/completed"

abbrev second_end : SequencedEvent Value
second_end = event 3 "turn/completed"

abbrev two : Inner Value
two = push_event ten (push_event ten empty delta) first_end

two-IsAccounted : IsAccounted ten two
unfolding program
two-IsAccounted =
    push_event-IsAccounted ten (push_event ten empty delta) first_end
      (push_event-IsAccounted ten empty delta (empty-IsAccounted ten) (omega arith)) (omega arith)

-- The store after the third event, which pushes the delta out.
abbrev pruned : Inner Value
pruned = record {
  events = first_end ∷ second_end ∷ [];
  bytes = 20;
  thread_bytes = ("t", 20) ∷ [];
  gaps =
      (
        some "t",
        record {
          before_sequence = some 1;
          summarized_delta_events = 1;
          evicted_lifecycle_events = 0;
        },
      )
      ∷ [];
}

third_recorded : record_locked ten entries small two second_end ≡ some pruned
unfolding program
third_recorded = refl

abbrev recorded : List (SequencedEvent Value)
recorded = delta ∷ first_end ∷ second_end ∷ []

all_recorded : record_all ten entries small recorded empty ≡ some pruned
unfolding program
all_recorded = refl

record_locked-IsWithin_example :
    (inner : Inner Value) × (record_locked ten entries small two second_end ≡ some inner)
    × IsAccounted ten inner
    × IsWithin ten entries-IsOrder small inner
unfolding program
record_locked-IsWithin_example =
    record_locked-IsWithin ten entries-IsOrder small two second_end two-IsAccounted (omega arith)

query_sequence_complete_example :
    In delta (query_sequence (some "t") 0 none pruned).events
    ⊎ Reaches (get_or (query_sequence (some "t") 0 none pruned).gap no_gap).before_sequence 1
unfolding program
query_sequence_complete_example =
    query_sequence_complete ten entries small recorded "t" 0 none delta all_recorded (inl refl) refl
      (omega arith) refl

query_sequence_exact_example :
    In first_end (query_sequence (some "t") 1 (some 2) pruned).events
    ↔ (In first_end pruned.events × InRange (some "t") 1 (some 2) first_end)
query_sequence_exact_example = query_sequence_exact (some "t") 1 (some 2) pruned first_end

query_time_exact_example :
    In first_end (query_time small (some "t") 4 9 pruned).events
    ↔ (In first_end pruned.events × InWindow small (some "t") 4 9 first_end)
unfolding program
query_time_exact_example =
    query_time_exact small (some "t") 4 9 pruned first_end (omega arith) (omega arith)

query_all-remove_at_example :
    ((query_sequence none 0 none (remove_at ten two 0)).gap ≡ lookup none two.gaps)
    × ((query_sequence none 0 none (remove_at ten two 0)).events
        ≡ filter (in_range none 0 none) (first_end ∷ []))
unfolding program
query_all-remove_at_example =
    query_all-remove_at ten two 0 0 none {e = delta} {thread = "t"} refl refl

-- The delta of the thread over its limit, ahead of the end of its turn.
victim-oldest_example :
    (before : List (SequencedEvent Value)) × (found : SequencedEvent Value) × (behind : List
      (SequencedEvent Value))
    × (two.events ≡ before ++ found ∷ behind)
    × IsCandidate (some "t") found
    × All (λ x. ¬ IsCandidate (some "t") x) before
    × ((remove_at ten two (victim (some "t") two)).events ≡ before ++ behind)
unfolding program
victim-oldest_example =
    victim-oldest ten (some "t") two delta (inl refl) (refl, λ t p. ground (arith, p))

evict_idle_content-filter_example :
    ((evict_idle_content ten ("t" ∷ []) two).events ≡ filter (is_kept ten ("t" ∷ [])) two.events)
    × IsAccounted ten (evict_idle_content ten ("t" ∷ []) two)
evict_idle_content-filter_example = evict_idle_content-filter ten ("t" ∷ []) two two-IsAccounted

idle_deltas_evicted : (evict_idle_content ten ("t" ∷ []) two).events ≡ first_end ∷ []
unfolding program evict_idle_content is_idle_content
idle_deltas_evicted = refl

empty-IsHonest : IsHonest ten [] empty
empty-IsHonest e i = absurd i

record_reconstructed_lem_example :
    ((any (is_genuine_start "t" "u") (empty {V = Value}).events ≡ true)
      × (record_reconstructed_active_turn ten sample entries small 4 5 6 "t" "u" empty
          ≡ some (empty, false)))
    ⊎ ((any (is_genuine_start "t" "u") (empty {V = Value}).events ≡ false)
        × ((inner : Inner Value) × (record_reconstructed_active_turn ten sample entries small 4 5 6
                "t" "u" empty
              ≡ some (inner, true))
            × IsAccounted ten inner
            × IsWithin ten entries-IsOrder small inner
            × IsHonest ten (anchor sample sample_laws 4 5 6 "t" "u" ∷ []) inner))
unfolding program
record_reconstructed_lem_example =
    record_reconstructed_lem sample_laws ten entries-IsOrder small 4 5 6 "t" "u" [] empty
      (empty-IsAccounted ten) empty-IsHonest (omega arith)
