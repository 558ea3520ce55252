-- ===== src/Ingest/Quiet.antt =====
-- The end of a discovery, behind the resume (src/ingest/src/lib.rs).
use codex_warden.Prelude.{
  ℕ, ◌≡◌, refl, ◌∙◌, inl, inr, true, String, Option, none, some, and_then, [], ◌∷◌, Map, string_eq,
  Option-cases, ok, err,
}
use codex_warden.Protocol.Json.{Json}
use codex_warden.Protocol.Event.{SequencedEvent, get_str}
use codex_warden.Reducer.State.{ReducerState}
use codex_warden.Reducer.Subscribe.{finish_subscription, reconcile_thread}
use codex_warden.Store.State.{StoreConfig, Inner}
use codex_warden.Store.Prune.{record_reconstructed_active_turn}
use codex_warden.Control.Client.{RequestError, Answer, request}
use codex_warden.Ingest.State.{SubscriptionState, DiscoveryOutcome, ThreadIngestor}
use codex_warden.Ingest.Reading.{in_flight_turn_id}
use codex_warden.Ingest.Discover.{set_state, anchor, read_back, subscribe}
use codex_warden.Ingest.Capacity.{Each, Each-and_then, anything}

module _ {V : Type 0} where
  -- A step that leaves the states, the configuration and the subscriptions under way alone.
  pub record IsQuiet (before after : ThreadIngestor V) : Type 0 where
    pub states_kept : after.states ≡ before.states
    pub config_kept : after.config ≡ before.config
    pub subscribing_kept : after.reducer.subscribing ≡ before.reducer.subscribing

  -- The ingestor once the thread is held.
  abbrev pub held : String → ThreadIngestor V → ThreadIngestor V
  held id i =
      set_state id SubscriptionState.subscribed
        (record i { reducer = finish_subscription id i.reducer })

  abbrev pub IsQuietFrom : ThreadIngestor V → DiscoveryOutcome × ThreadIngestor V → Type 0
  IsQuietFrom before (outcome, after) =
      (outcome ≡ DiscoveryOutcome.subscribed) × IsQuiet before after

module _ {V : Type 0} (J : Json V) (error_text : RequestError V → String)
    (to_vec_len : SequencedEvent V → Option ℕ) (order : Map String ℕ → Map String ℕ)
    (store_config : StoreConfig) (elapsed now : ℕ) where
  anchor-IsQuiet :
      (id : String) (turn_id : Option String) (i : ThreadIngestor V)
      → Each
          (IsQuiet i)
          (anchor J error_text to_vec_len order store_config elapsed now id turn_id i)
  unfolding anchor
  anchor-IsQuiet id none i = record {
    states_kept = refl;
    config_kept = refl;
    subscribing_kept = refl;
  }
  anchor-IsQuiet id (some turn_id) i = go i.store
    where
      quiet : (s : Option (Inner V)) → IsQuiet i (record i { store = s })
      quiet s = record { states_kept = refl; config_kept = refl; subscribing_kept = refl }

      go :
          (s : Option (Inner V))
          → Each (IsQuiet i) (elim s [
            | none ↦ some i
            | some inner ↦
                and_then
                  (record_reconstructed_active_turn to_vec_len J order store_config
                    i.reducer.at_sequence elapsed now id turn_id inner)
                  λ (inner', recorded). some (record i { store = some inner' })
          ])
      go none = quiet i.store
      go (some inner) =
          Each-and_then (λ x. Unit) (IsQuiet i)
            (record_reconstructed_active_turn to_vec_len J order store_config i.reducer.at_sequence
              elapsed now id turn_id inner)
            (λ (inner', recorded). some (record i { store = some inner' }))
            (anything (
              record_reconstructed_active_turn to_vec_len J order store_config i.reducer.at_sequence
                elapsed now id turn_id inner))
            (λ x u. quiet (some x.0))

  reconcile_thread-subscribing :
      (thread : V) (s : ReducerState V) → (reconcile_thread J thread s).subscribing ≡ s.subscribing
  unfolding reconcile_thread
  reconcile_thread-subscribing thread s = elim (Option-cases (get_str J thread "id")) [
    | inl e ↦ rw (e, reconcile_thread) refl
    | inr (k, e) ↦ rw (e, reconcile_thread) refl
  ]

  read_back-IsQuiet :
      (id : String) (answer : Answer V) (i : ThreadIngestor V)
      → Each
          (IsQuiet i)
          (read_back J error_text to_vec_len order store_config elapsed now id answer i)
  unfolding read_back
  read_back-IsQuiet id (err e) i = record {
    states_kept = refl;
    config_kept = refl;
    subscribing_kept = refl;
  }
  read_back-IsQuiet id (ok response) i = go (J.get response "thread")
    where
      widen :
          (thread : V) (o : Option (ThreadIngestor V))
          → Each (IsQuiet (record i { reducer = reconcile_thread J thread i.reducer })) o
          → Each (IsQuiet i) o
      widen thread none q = tt
      widen thread (some after) q = record {
        states_kept = q.states_kept;
        config_kept = q.config_kept;
        subscribing_kept = q.subscribing_kept ∙ reconcile_thread-subscribing thread i.reducer;
      }

      go :
          (o : Option V)
          → Each (IsQuiet i) (elim o [
            | none ↦ some i
            | some thread ↦
                anchor J error_text to_vec_len order store_config elapsed now id
                  (in_flight_turn_id J thread)
                  (record i { reducer = reconcile_thread J thread i.reducer })
          ])
      go none = record { states_kept = refl; config_kept = refl; subscribing_kept = refl }
      go (some thread) =
          widen thread
            (anchor J error_text to_vec_len order store_config elapsed now id
              (in_flight_turn_id J thread)
              (record i { reducer = reconcile_thread J thread i.reducer }))
            (anchor-IsQuiet id (in_flight_turn_id J thread)
              (record i { reducer = reconcile_thread J thread i.reducer }))

  pub subscribe_lem :
      (id : String) (i : ThreadIngestor V)
      → Each
          (IsQuietFrom (held id i))
          (subscribe J error_text to_vec_len order store_config elapsed now id i)
  unfolding subscribe
  subscribe_lem id i =
      Each-and_then (λ x. Unit) (IsQuietFrom (held id i))
        (request "thread/read" params (held id i).client) _
        (anything (request "thread/read" params (held id i).client))
        (λ (answer, client) u.
          Each-and_then (IsQuiet (record (held id i) { client = client })) (IsQuietFrom (held id i))
            (read_back J error_text to_vec_len order store_config elapsed now id answer
              (record (held id i) { client = client }))
            _ (read_back-IsQuiet id answer (record (held id i) { client = client }))
            (λ done q. (
              refl,
              record {
                states_kept = q.states_kept;
                config_kept = q.config_kept;
                subscribing_kept = q.subscribing_kept;
              },
            )))
    where
      params : V
      params = J.object (("threadId", J.string id) ∷ ("includeTurns", J.bool true) ∷ [])
