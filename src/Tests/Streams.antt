-- ===== src/Tests/Streams.antt =====
-- The streams and the ingestion (src/streaming, src/ingest).
use codex_warden.Prelude.{
  ◌+◌, ◌≤◌, ◌%◌, ◌≡◌, refl, ◌⊎◌, inl, inr, String, none, some, List, [], ◌∷◌, ◌++◌, map, length,
  arith, Result, ok, word_mod,
}
use codex_warden.Protocol.Frame.{
  plane_for_method, contains as str_contains, ends_with, method, params,
}
use codex_warden.Protocol.Event.{
  SequencedEvent, from_frame, extract_thread_id, extract_turn_id, event_method,
}
use codex_warden.Protocol.Request.{turn_params}
use codex_warden.Reducer.State.{Reducer, init_state, new}
use codex_warden.Store.State.{StoreConfig, empty, encoded_len}
use codex_warden.Store.Sizes.{total, total_of}
use codex_warden.Store.Accounting.{IsAccounted, empty-IsAccounted}
use codex_warden.Store.Order.{entries, entries-IsOrder}
use codex_warden.Store.Limits.{IsWithin}
use codex_warden.Streaming.{Received, new_hub, deltas, lifecycle, recv_delta}
use codex_warden.Streaming.Session.{Step, got, fell_behind, run_session, HasApplied, SomeTells}
use codex_warden.Streaming.Complete.{run_session_complete}
use codex_warden.Streaming.Deltas.{sum, last_answer, recv_delta-lags}
use codex_warden.Control.Client.{RequestError, Answer, Client}
use codex_warden.Ingest.State.{
  IngestConfig, default_ingest, DiscoverySource, DiscoveryOutcome, IngestError, ThreadIngestor,
  new_ingestor,
}
use codex_warden.Ingest.Ingress.{AuthoritativeIngress, run}
use codex_warden.Ingest.Applied.{IsIngested, run-IsIngested}
use codex_warden.Ingest.Discover.{discover}
use codex_warden.Ingest.Settled.{IsSettled}
use codex_warden.Ingest.Total.{discover_total}
use codex_warden.Ingest.Reconcile.{Listing, pages}
use codex_warden.Ingest.Listing.{EndsListed, pages_bounded}
use codex_warden.Tests.Sample.{Value, nothing, sample, event, ten}

program : Unit {0}
unfolding from_frame plane_for_method str_contains ends_with extract_thread_id extract_turn_id
    method params turn_params event_method encoded_len total total_of
program = tt

-- Three events on the lifecycle plane; the channel drops the second for the reader.
abbrev sent_events : List (SequencedEvent Value)
sent_events = event 1 "turn/started" ∷ event 2 "turn/completed" ∷ event 3 "turn/started" ∷ []

abbrev caught : Reducer Value
caught = record new {
  state = record init_state { snapshot = record { at_sequence = 3; threads = [] } };
  lifecycle = sent_events;
}

abbrev session : List (Step Value)
session = got (event 1 "turn/started") new ∷ fell_behind (event 2 "turn/completed" ∷ []) caught ∷ []

caught-HasApplied :
    HasApplied 4 sent_events ((event 1 "turn/started" ∷ []) ++ event 2 "turn/completed" ∷ []) caught
unfolding program
caught-HasApplied = record {
  history = sent_events;
  more = event 3 "turn/started" ∷ [];
  later = [];
  applied = refl;
  in_order = refl;
  tail = record { dropped = []; split = refl; bounded = omega arith; full = inl refl };
  known = omega arith;
}

run_session_complete_example : (2 ≤ 0) ⊎ SomeTells (run_session session (lifecycle 0)) 2
unfolding program
run_session_complete_example =
    run_session_complete 4 0 sent_events [] session (event 2 "turn/completed") (omega arith)
      (omega arith) tt
      ((event 2 "turn/completed" ∷ event 3 "turn/started" ∷ [], refl), (caught-HasApplied, tt))
      (inr (inl refl))

recv_delta-lags_example :
    recv_delta
      (map Received.lagged (3 ∷ 4 ∷ []) ++ last_answer (some (event 1 "turn/started")) ∷ [])
      deltas
    ≡ some
        (some (event 1 "turn/started"), record { dropped = (0 + sum (3 ∷ 4 ∷ [])) % word_mod }, [])
recv_delta-lags_example =
    recv_delta-lags (3 ∷ 4 ∷ []) (some (event 1 "turn/started")) [] deltas refl

abbrev small_store : StoreConfig
small_store = record {
  retention = 100;
  per_thread_bytes = 20;
  global_bytes = 20;
  emitted_at_tolerance = 0;
}

abbrev fresh : AuthoritativeIngress Value
fresh = record { reducer = new; store = empty; hub = new_hub }

fresh-IsIngested : IsIngested 4 [] fresh
fresh-IsIngested = record {
  logged = record { dropped = []; split = refl; bounded = omega arith; full = inl refl };
  known = tt;
  lifecycle_sent = refl;
  delta_sent = refl;
}

run-IsIngested_example :
    (last : AuthoritativeIngress Value) × (run sample 4 ten entries small_store sent_events fresh
      ≡ some last)
    × IsIngested 4 ([] ++ sent_events) last
    × IsAccounted ten last.store
    × IsWithin ten entries-IsOrder small_store last.store
unfolding program
run-IsIngested_example =
    run-IsIngested sample 4 ten entries-IsOrder small_store sent_events [] fresh fresh-IsIngested
      (empty-IsAccounted ten) (record { in_all = omega arith; per_thread = λ t. omega arith })
      (omega arith, (omega arith, (omega arith, tt)))

abbrev error_text : RequestError Value → String
error_text e = "error"

abbrev one_retry : IngestConfig
one_retry = record default_ingest { resume_retry_limit = 1 }

abbrev scripted : List (Answer Value) → Client Value
scripted answers = record { answers = answers; sent = [] }

-- The thread is resumed at once; the read shows no thread.
abbrev ingestor : ThreadIngestor Value
ingestor = new_ingestor (scripted (ok nothing ∷ ok nothing ∷ ok nothing ∷ [])) init_state one_retry

discover_total_example :
    (outcome : DiscoveryOutcome) × (after : ThreadIngestor Value) × (discover sample error_text ten
        entries small_store 0 0 "t" DiscoverySource.thread_started ingestor
      ≡ some (outcome, after))
    × IsSettled "t" ingestor outcome after
discover_total_example =
    discover_total sample error_text ten entries small_store 0 0 "t" DiscoverySource.thread_started
      ingestor refl (omega arith)

pages_bounded_example :
    (result : Result Listing (IngestError Value)) × (after : Client Value) × (pages sample one_retry
        0 2 none
        (record { newest_watermark = 0; candidates = [] })
        (scripted (ok nothing ∷ ok nothing ∷ []))
      ≡ some (result, after))
    × (length after.sent ≤ 0 + 2)
    × EndsListed sample 200 (record { newest_watermark = 0; candidates = [] }) result
pages_bounded_example =
    pages_bounded sample one_retry 0 2 none (record { newest_watermark = 0; candidates = [] })
      (scripted (ok nothing ∷ ok nothing ∷ [])) (omega arith) (omega arith)
