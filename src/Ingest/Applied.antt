-- ===== src/Ingest/Applied.antt =====
-- Every consumer has an event before the fan-out (src/ingest/src/lib.rs).
use mathlib.Core.List.{append-nil, append_assoc}
use codex_warden.Prelude.{
  ℕ, ◌+◌, ◌≤◌, ◌<◌, ◌≡◌, refl, sym, ap, subst, ◌∙◌, ◌⊎◌, inl, inr, Bool, String, Option, some, List,
  [], ◌∷◌, ◌++◌, Map, filter, filter-append, All, All-append, All-map, arith, word_mod,
}
use codex_warden.Protocol.Json.{Json}
use codex_warden.Protocol.Frame.{Plane}
use codex_warden.Protocol.Event.{SequencedEvent}
use codex_warden.Reducer.Apply.{apply, apply_state}
use codex_warden.Reducer.Log.{IsTail, is_lifecycle, apply_log-IsTail}
use codex_warden.Store.State.{StoreConfig, encoded_len, is_delta}
use codex_warden.Store.Accounting.{IsAccounted}
use codex_warden.Store.Order.{IsOrder}
use codex_warden.Store.Limits.{IsWithin, record_locked-IsWithin}
use codex_warden.Streaming.{EventHub, publish}
use codex_warden.Ingest.Ingress.{AuthoritativeIngress, process, run}

plane_cases : (p : Plane) → (p ≡ Plane.lifecycle) ⊎ (p ≡ Plane.delta)
plane_cases Plane.lifecycle = inl refl
plane_cases Plane.delta = inr refl

module _ {V : Type 0} where
  abbrev pub is_delta_event : SequencedEvent V → Bool
  is_delta_event e = is_delta e.plane

  -- The reducer and the fan-out after a history of events: the log is the end of the lifecycle
  -- events, the snapshot is at least as recent as each event, and each plane of the fan-out has
  -- been sent its events, in order.
  pub record IsIngested (capacity : ℕ) (history : List (SequencedEvent V))
      (i : AuthoritativeIngress V) : Type 0 where
    pub logged : IsTail capacity history i.reducer.lifecycle
    pub known : All (λ e. e.sequence ≤ i.reducer.state.at_sequence) history
    pub lifecycle_sent : i.hub.lifecycle ≡ filter is_lifecycle history
    pub delta_sent : i.hub.delta ≡ filter is_delta_event history

  publish_lem :
      (e : SequencedEvent V) (hub : EventHub V)
      → ((publish e hub).lifecycle ≡ hub.lifecycle ++ filter is_lifecycle (e ∷ []))
        × ((publish e hub).delta ≡ hub.delta ++ filter is_delta_event (e ∷ []))
  unfolding publish
  publish_lem e hub = elim (plane_cases e.plane) [
    | inl p ↦ rw (p, publish) (refl, sym (append-nil hub.delta))
    | inr p ↦ rw (p, publish) (sym (append-nil hub.lifecycle), refl)
  ]

module _ {V : Type 0} (J : Json V) (capacity : ℕ) (to_vec_len : SequencedEvent V → Option ℕ)
    {order : Map String ℕ → Map String ℕ} (visits : IsOrder order) (config : StoreConfig) where
  process_total :
      (e : SequencedEvent V) (history : List (SequencedEvent V)) (i : AuthoritativeIngress V)
      → IsIngested capacity history i
      → IsAccounted to_vec_len i.store
      → IsWithin to_vec_len visits config i.store
      → config.global_bytes + encoded_len to_vec_len e < word_mod
      → (next : AuthoritativeIngress V) × (process J capacity to_vec_len order config e i
          ≡ some next)
        × IsIngested capacity (history ++ e ∷ []) next
        × IsAccounted to_vec_len next.store
        × IsWithin to_vec_len visits config next.store
  unfolding process apply apply_state
  process_total e history i h acc within fits =
      let (store, runs, acc', within') =
        record_locked-IsWithin to_vec_len visits config i.store e acc
          (omega (arith, acc.bytes_total, within.in_all)) in
      (
        record { reducer = (apply J capacity e i.reducer).0; store = store; hub = publish e i.hub },
        rw runs refl,
        record {
          logged = apply_log-IsTail capacity history i.reducer.lifecycle e h.logged;
          known =
              All-append (λ x. x.sequence ≤ (apply_state J e i.reducer.state).at_sequence) history
                (e ∷ [])
                (All-map (λ x. x.sequence ≤ i.reducer.state.at_sequence)
                  (λ x. x.sequence ≤ (apply_state J e i.reducer.state).at_sequence) history
                  (λ x le. omega (arith, le)) h.known)
                (omega arith, tt);
          lifecycle_sent =
              (publish_lem e i.hub).0
              ∙ ap (λ l. l ++ filter is_lifecycle (e ∷ [])) h.lifecycle_sent
              ∙ sym (filter-append is_lifecycle history (e ∷ []));
          delta_sent =
              (publish_lem e i.hub).1
              ∙ ap (λ l. l ++ filter is_delta_event (e ∷ [])) h.delta_sent
              ∙ sym (filter-append is_delta_event history (e ∷ []));
        },
        acc',
        within',
      )

  -- Ingestion keeps its parts in step. From a store within its limits, and for events that a word
  -- can count beside the global limit, `run` ends. The log of the reducer is then the end of all
  -- lifecycle events so far, the snapshot is at least as recent as every event, each plane of the
  -- fan-out was sent exactly its events in order, and the store is accounted for and within its
  -- limits.
  pub run-IsIngested :
      (es history : List (SequencedEvent V)) (i : AuthoritativeIngress V)
      → IsIngested capacity history i
      → IsAccounted to_vec_len i.store
      → IsWithin to_vec_len visits config i.store
      → All (λ e. config.global_bytes + encoded_len to_vec_len e < word_mod) es
      → (last : AuthoritativeIngress V) × (run J capacity to_vec_len order config es i ≡ some last)
        × IsIngested capacity (history ++ es) last
        × IsAccounted to_vec_len last.store
        × IsWithin to_vec_len visits config last.store
  unfolding run
  run-IsIngested [] history i h acc within fits =
      (i, refl, subst (λ l. IsIngested capacity l i) (sym (append-nil history)) h, acc, within)
  run-IsIngested (e ∷ es) history i h acc within fits =
      let (next, runs, h', acc', within') = process_total e history i h acc within fits.0 in
      let (last, ends, h'', acc'', within'') =
        run-IsIngested es (history ++ e ∷ []) next h' acc' within' fits.1 in
      (
        last,
        rw runs ends,
        subst (λ l. IsIngested capacity l last) (append_assoc history (e ∷ []) es) h'',
        acc'',
        within'',
      )
