-- ===== src/Ingest/Discover.antt =====
-- `discover` and `handle_signal` (src/ingest/src/lib.rs). Each runs to its end with no other call
-- in between; `none` while it waits for an answer that does not come.
use codex_warden.Prelude.{
  ℕ, ◌+◌, true, ◌&&◌, ◌||◌, String, Option, none, some, and_then, is_some_and, List, [], ◌∷◌, Map,
  lookup, insert, ok, err, ltb, leb, ◌==◌, string_eq, option_eq, if◌then◌else◌, length, filter,
}
use codex_warden.Protocol.Json.{Json}
use codex_warden.Protocol.Frame.{params}
use codex_warden.Protocol.Event.{SequencedEvent, event_method}
use codex_warden.Reducer.Subscribe.{
  begin_subscription, finish_subscription, cancel_subscription, reconcile_thread,
}
use codex_warden.Store.State.{StoreConfig}
use codex_warden.Store.Prune.{record_reconstructed_active_turn}
use codex_warden.Control.Client.{RequestError, Answer, note_request, request}
use codex_warden.Ingest.State.{
  DiscoverySource, SubscriptionState, DiscoveryOutcome, ThreadIngestor, is_managed,
}
use codex_warden.Ingest.Reading.{
  status_type, in_flight_turn_id, is_ephemeral_error, is_retryable_server_error,
}

-- the number of threads that hold a subscription, or are about to
unfoldable pub retained : Map String SubscriptionState → ℕ
retained states = length (filter (λ (id, s). is_managed s) states)

-- What the loop does at an error: another attempt, or an outcome with the state that it leaves.
pub data Verdict : Type 0 where
  again : Verdict
  ended : DiscoveryOutcome → SubscriptionState → Verdict

module _ {V : Type 0} where
  abbrev pub set_state : String → SubscriptionState → ThreadIngestor V → ThreadIngestor V
  set_state thread_id s i = record i { states = insert thread_id s i.states }

  -- The block of `discover` under the lock: an outcome that ends the call, or none; and the states.
  unfoldable pub claim :
      String → DiscoverySource → ThreadIngestor V → Option DiscoveryOutcome × ThreadIngestor V
  unfolding retained
  claim thread_id source i =
      if is_some_and (lookup thread_id i.states) is_managed
      then (some DiscoveryOutcome.already_managed, i)
      else if leb i.config.subscription_cap (retained i.states)
      then (
        some DiscoveryOutcome.capacity_degraded,
        set_state thread_id SubscriptionState.capacity_degraded i,
      )
      else (none, set_state thread_id (SubscriptionState.subscribing source 1) i)

  -- The state during a pause and after it.
  unfoldable pub pause : String → DiscoverySource → ℕ → ThreadIngestor V → ThreadIngestor V
  pause thread_id source attempt i =
      set_state thread_id (SubscriptionState.subscribing source attempt)
        (set_state thread_id (SubscriptionState.retry_wait attempt) i)

  -- The end of a discovery that failed.
  abbrev pub give_up : String → SubscriptionState → ThreadIngestor V → ThreadIngestor V
  give_up thread_id s i =
      let marked = set_state thread_id s i in
      record marked { reducer = cancel_subscription thread_id marked.reducer }

module _ {V : Type 0} (J : Json V) (error_text : RequestError V → String) where
  abbrev pub failing : RequestError V → Verdict
  failing e =
      ended (DiscoveryOutcome.failed (error_text e)) (SubscriptionState.failed (error_text e))

  unfoldable pub judge : (limit attempt : ℕ) → RequestError V → Verdict
  unfolding is_ephemeral_error is_retryable_server_error
  judge limit attempt (RequestError.not_written d) =
      if ltb attempt limit then again else failing (RequestError.not_written d)
  judge limit attempt (RequestError.rejected m e) =
      if (is_ephemeral_error J e || is_retryable_server_error J e) && ltb attempt limit
      then again
      else if is_ephemeral_error J e
      then ended DiscoveryOutcome.ephemeral SubscriptionState.ephemeral
      else failing (RequestError.rejected m e)
  judge limit attempt (RequestError.written_outcome_unknown i m d) =
      failing (RequestError.written_outcome_unknown i m d)
  judge limit attempt (RequestError.timed_out m) = failing (RequestError.timed_out m)
  judge limit attempt RequestError.closed = failing RequestError.closed

  -- The loop of `discover` on the answers to come: the outcome that ends the call, or none where
  -- the thread was resumed.
  unfoldable pub resume_loop :
      String
      → DiscoverySource
      → (attempt : ℕ) → List (Answer V)
      → ThreadIngestor V
      → Option (Option DiscoveryOutcome × ThreadIngestor V)
  unfolding judge pause
  resume_loop thread_id source attempt [] i = none
  resume_loop thread_id source attempt (answer ∷ rest) i =
      let asked = record i {
        client =
            note_request "thread/resume" (J.object (("threadId", J.string thread_id) ∷ [])) rest
              i.client;
      } in
      let retried =
        resume_loop thread_id source (attempt + 1) rest
          (pause thread_id source (attempt + 1) asked) in
      elim answer [
        | ok response ↦ some (none, asked)
        | err e ↦ elim (judge i.config.resume_retry_limit attempt e) [
          | again ↦ retried
          | ended outcome s ↦ some (some outcome, give_up thread_id s asked)
        ]
      ]

module _ {V : Type 0} (J : Json V) (error_text : RequestError V → String)
    (to_vec_len : SequencedEvent V → Option ℕ) (order : Map String ℕ → Map String ℕ)
    (store_config : StoreConfig) (elapsed now : ℕ) where
  -- The anchor of a turn in flight, where a store is attached; `none` where recording fails.
  unfoldable pub anchor : String → Option String → ThreadIngestor V → Option (ThreadIngestor V)
  unfolding record_reconstructed_active_turn
  anchor thread_id none i = some i
  anchor thread_id (some turn_id) i = elim i.store [
    | none ↦ some i
    | some inner ↦
        and_then
          (record_reconstructed_active_turn to_vec_len J order store_config i.reducer.at_sequence
            elapsed now thread_id turn_id inner)
          λ (inner', recorded). some (record i { store = some inner' })
  ]

  -- what follows the answer to the read behind a resume
  unfoldable pub read_back : String → Answer V → ThreadIngestor V → Option (ThreadIngestor V)
  unfolding anchor reconcile_thread in_flight_turn_id
  read_back thread_id (err e) i = some i
  read_back thread_id (ok response) i = elim (J.get response "thread") [
    | none ↦ some i
    | some thread ↦
        anchor thread_id (in_flight_turn_id J thread)
          (record i { reducer = reconcile_thread J thread i.reducer })
  ]

  -- the rest of `discover` once the thread is resumed
  unfoldable pub subscribe :
      String → ThreadIngestor V → Option (DiscoveryOutcome × ThreadIngestor V)
  unfolding read_back finish_subscription request
  subscribe thread_id i =
      let held =
        set_state thread_id SubscriptionState.subscribed
          (record i { reducer = finish_subscription thread_id i.reducer }) in
      and_then
        (request "thread/read"
          (J.object (("threadId", J.string thread_id) ∷ ("includeTurns", J.bool true) ∷ []))
          held.client)
        λ (answer, client).
          and_then (read_back thread_id answer (record held { client = client }))
            λ done. some (DiscoveryOutcome.subscribed, done)

  -- The rest of `discover` behind the lock.
  unfoldable pub proceed :
      String
      → DiscoverySource
      → Option DiscoveryOutcome × ThreadIngestor V
      → Option (DiscoveryOutcome × ThreadIngestor V)
  unfolding resume_loop subscribe begin_subscription
  proceed thread_id source (some outcome, claimed) = some (outcome, claimed)
  proceed thread_id source (none, claimed) =
      let begun = record claimed { reducer = begin_subscription thread_id claimed.reducer } in
      and_then (resume_loop J error_text thread_id source 1 begun.client.answers begun)
        λ (failure, next). elim failure [
          | some outcome ↦ some (outcome, next)
          | none ↦ subscribe thread_id next
        ]

  unfoldable pub discover :
      String → DiscoverySource → ThreadIngestor V → Option (DiscoveryOutcome × ThreadIngestor V)
  unfolding claim proceed
  discover thread_id source i = proceed thread_id source (claim thread_id source i)

  -- The source of a discovery that a signal starts.
  unfoldable pub signal_source : String → Option String → Option DiscoverySource
  signal_source method status =
      if method == "thread/started"
      then some DiscoverySource.thread_started
      else if method == "thread/status/changed" && option_eq.beq status (some "active")
      then some DiscoverySource.activation_status
      else none

  -- The outcome, if the event starts a discovery, and the ingestor.
  unfoldable pub handle_signal :
      SequencedEvent V → ThreadIngestor V → Option (Option DiscoveryOutcome × ThreadIngestor V)
  unfolding discover status_type signal_source
  handle_signal e i = elim e.thread_id [
    | none ↦ some (none, i)
    | some thread_id ↦ elim (event_method e) [
      | none ↦ some (none, i)
      | some method ↦ elim (signal_source method (status_type J (params e.frame))) [
        | none ↦ some (none, i)
        | some source ↦
            and_then (discover thread_id source i) λ (outcome, next). some (some outcome, next)
      ]
    ]
  ]
