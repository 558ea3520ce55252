-- ===== src/Ingest/Reconcile.antt =====
-- `reconcile`, `release_if_idle` and `unsubscribe_all_best_effort` (src/ingest/src/lib.rs).
use codex_warden.Prelude.{
  ℕ, zero, suc, max, Bool, true, false, not, ◌&&◌, ◌||◌, String, Option, none, some, get_or,
  and_then, is_some_and, is_some, List, [], ◌∷◌, ◌++◌, Map, lookup, map, Result, ok, err, ltb, leb,
  ◌==◌, string_eq, option_eq, if◌then◌else◌, length, filter,
}
use codex_warden.Protocol.Json.{Json}
use codex_warden.Protocol.Event.{SequencedEvent, get_str}
use codex_warden.Reducer.Subscribe.{set_subscribed, reconcile_thread}
use codex_warden.Store.State.{StoreConfig}
use codex_warden.Control.Client.{RequestError, Answer, Client, request}
use codex_warden.Ingest.State.{
  IngestConfig, DiscoverySource, SubscriptionState, DiscoveryOutcome, IngestError, ThreadIngestor,
}
use codex_warden.Ingest.Reading.{thread_is_active, numeric_timestamp}
use codex_warden.Ingest.Discover.{set_state, discover}

-- The newest time seen and the candidates found.
pub record Listing : Type 0 where
  pub newest_watermark : ℕ
  pub candidates : List String

module _ {V : Type 0} (J : Json V) where
  -- The loop over the threads of a page; whether it reached the previous watermark.
  unfoldable pub scan : (previous limit : ℕ) → List V → Listing → Listing × Bool
  unfolding numeric_timestamp
  scan previous limit [] l = (l, false)
  scan previous limit (thread ∷ threads) l = elim (get_str J thread "id") [
    | none ↦ scan previous limit threads l
    | some id ↦
        let updated = get_or (numeric_timestamp J (J.get thread "updatedAt")) 0 in
        let seen = record l { newest_watermark = max l.newest_watermark updated } in
        let found = record seen { candidates = l.candidates ++ id ∷ [] } in
        let rest = scan previous limit threads found in
        if ltb 0 previous && leb updated previous
        then (seen, true)
        else if leb limit (length found.candidates)
        then (found, false)
        else rest
  ]

  abbrev pub cursor_value : Option String → V
  cursor_value none = J.null
  cursor_value (some s) = J.string s

  abbrev pub list_params : IngestConfig → Option String → V
  list_params config cursor = J.object (
      ("cursor", cursor_value cursor)
      ∷ ("limit", J.number config.reconcile_page_size)
      ∷ ("sortKey", J.string "updated_at")
      ∷ ("sortDirection", J.string "desc")
      ∷ [])

  -- The page of an answer: its threads and the next cursor.
  unfoldable pub page : Answer V → Result (List V × Option String) (IngestError V)
  page (err e) = err (IngestError.request e)
  page (ok result) = elim (and_then (J.get result "data") J.as_array) [
    | none ↦ err IngestError.malformed_list
    | some threads ↦ ok (threads, get_str J result "nextCursor")
  ]

  -- The loop over the pages, of which so many are left.
  unfoldable pub pages :
      IngestConfig
      → (previous left : ℕ) → Option String
      → Listing
      → Client V
      → Option (Result Listing (IngestError V) × Client V)
  unfolding scan page request
  pages config previous zero cursor l client = some (ok l, client)
  pages config previous (suc left) cursor l client =
      if leb config.reconcile_candidate_limit (length l.candidates)
      then some (ok l, client)
      else and_then (request "thread/list" (list_params config cursor) client) λ (answer, after).
        elim (page answer) [
          | err e ↦ some (err e, after)
          | ok (threads, next) ↦
              let (scanned, reached) = scan previous config.reconcile_candidate_limit threads l in
              elim (reached || not (is_some next)) [
                | true ↦ some (ok scanned, after)
                | false ↦ pages config previous left next scanned after
              ]
        ]

module _ {V : Type 0} (J : Json V) (error_text : RequestError V → String)
    (to_vec_len : SequencedEvent V → Option ℕ) (order : Map String ℕ → Map String ℕ)
    (store_config : StoreConfig) (elapsed now : ℕ) where
  -- The thread of an answer, where it is active.
  unfoldable pub active_thread : Answer V → Option V
  unfolding thread_is_active
  active_thread (err e) = none
  active_thread (ok response) =
      and_then (J.get response "thread")
        λ thread. if thread_is_active J thread then some thread else none

  -- The loop over the candidates: each is read, and discovered if it is active.
  unfoldable pub visit :
      List String → ThreadIngestor V → Option (List (String × DiscoveryOutcome) × ThreadIngestor V)
  unfolding active_thread request reconcile_thread discover
  visit [] i = some ([], i)
  visit (thread_id ∷ ids) i =
      and_then
        (request "thread/read"
          (J.object (("threadId", J.string thread_id) ∷ ("includeTurns", J.bool true) ∷ []))
          i.client)
        λ (answer, client).
          let asked = record i { client = client } in
          elim (active_thread answer) [
            | none ↦ visit ids asked
            | some thread ↦
                and_then
                  (discover J error_text to_vec_len order store_config elapsed now thread_id
                    DiscoverySource.reconciliation
                    (record asked { reducer = reconcile_thread J thread asked.reducer }))
                  λ (outcome, next).
                    and_then (visit ids next)
                      λ (outcomes, end). some ((thread_id, outcome) ∷ outcomes, end)
          ]

  unfoldable pub reconcile :
      ThreadIngestor V
      → Option (Result (List (String × DiscoveryOutcome)) (IngestError V) × ThreadIngestor V)
  unfolding pages visit
  reconcile i =
      and_then
        (pages J i.config i.watermark i.config.reconcile_page_bound none
          (record { newest_watermark = i.watermark; candidates = [] }) i.client)
        λ (listed, client).
          let asked = record i { client = client } in
          elim listed [
            | err e ↦ some (err e, asked)
            | ok l ↦
                and_then (visit l.candidates (record asked { watermark = l.newest_watermark }))
                  λ (outcomes, end). some (ok outcomes, end)
          ]

module _ {V : Type 0} (J : Json V) where
  abbrev pub unsubscribe_params : String → V
  unsubscribe_params thread_id = J.object (("threadId", J.string thread_id) ∷ [])

  -- the end of `release_if_idle`, from the answer to its request
  unfoldable pub release_answered : String → Answer V → ThreadIngestor V → Bool × ThreadIngestor V
  unfolding set_subscribed
  release_answered thread_id (err e) i = (false, i)
  release_answered thread_id (ok response) i = (
    true,
    record (set_state thread_id SubscriptionState.released i) {
      reducer = set_subscribed thread_id false i.reducer;
    },
  )

  unfoldable pub release_if_idle : String → ThreadIngestor V → Option (Bool × ThreadIngestor V)
  unfolding release_answered request
  release_if_idle thread_id i =
      if not i.config.release_idle_subscriptions || not i.reactivation_verified
      then some (false, i)
      else if is_some_and (lookup thread_id i.reducer.threads) (λ t. not (t.status == "idle"))
      then some (false, i)
      else and_then (request "thread/unsubscribe" (unsubscribe_params thread_id) i.client)
          λ (answer, client).
            some (release_answered thread_id answer (record i { client = client }))

  abbrev is_subscribed : SubscriptionState → Bool
  is_subscribed SubscriptionState.subscribed = true
  is_subscribed _ = false

  -- one request for each thread, whatever the answers
  unfoldable pub unsubscribe_each : List String → Client V → Option (Client V)
  unfolding request
  unsubscribe_each [] client = some client
  unsubscribe_each (thread_id ∷ ids) client =
      and_then (request "thread/unsubscribe" (unsubscribe_params thread_id) client)
        λ (answer, after). unsubscribe_each ids after

  -- `visits` is the order in which the map is read.
  unfoldable pub unsubscribe_all_best_effort :
      (Map String SubscriptionState → Map String SubscriptionState)
      → ThreadIngestor V
      → Option (ThreadIngestor V)
  unfolding unsubscribe_each
  unsubscribe_all_best_effort visits i =
      and_then
        (unsubscribe_each
          (map (λ (id, s). id) (filter (λ (id, s). is_subscribed s) (visits i.states))) i.client)
        λ client. some (record i { client = client })
