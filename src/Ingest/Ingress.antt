-- ===== src/Ingest/Ingress.antt =====
-- `AuthoritativeIngress`: the reducer, then the store, then the fan-out (src/ingest/src/lib.rs).
use codex_warden.Prelude.{ℕ, String, Option, some, and_then, List, [], ◌∷◌, Map}
use codex_warden.Protocol.Json.{Json}
use codex_warden.Protocol.Event.{SequencedEvent}
use codex_warden.Reducer.State.{Reducer}
use codex_warden.Reducer.Apply.{apply}
use codex_warden.Store.State.{StoreConfig, Inner}
use codex_warden.Store.Prune.{record_locked}
use codex_warden.Streaming.{EventHub, publish}

pub record AuthoritativeIngress (V : Type 0) : Type 0 where
  pub reducer : Reducer V
  pub store : Inner V
  pub hub : EventHub V

module _ {V : Type 0} (J : Json V) (capacity : ℕ) (to_vec_len : SequencedEvent V → Option ℕ)
    (order : Map String ℕ → Map String ℕ) (config : StoreConfig) where
  -- `none` where the store's loop does not end.
  unfoldable pub process :
      SequencedEvent V → AuthoritativeIngress V → Option (AuthoritativeIngress V)
  unfolding apply record_locked publish
  process e i =
      let reducer = (apply J capacity e i.reducer).0 in
      and_then (record_locked to_vec_len order config i.store e)
        λ store. some (record { reducer = reducer; store = store; hub = publish e i.hub })

  -- `run` over the events that the channel yields until it closes
  unfoldable pub run :
      List (SequencedEvent V) → AuthoritativeIngress V → Option (AuthoritativeIngress V)
  unfolding process
  run [] i = some i
  run (e ∷ es) i = and_then (process e i) λ next. run es next
