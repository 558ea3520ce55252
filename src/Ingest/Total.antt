-- ===== src/Ingest/Total.antt =====
-- A discovery ends (src/ingest/src/lib.rs).
use codex_warden.Prelude.{
  ℕ, ◌+◌, ◌<◌, ◌≡◌, refl, sym, ap, subst, ◌∙◌, ◌⊎◌, inl, inr, String, Option, none, some, and_then,
  List, [], ◌∷◌, Map, length, arith, Bool-cases, Option-cases, ok, err,
}
use codex_warden.Protocol.Json.{Json}
use codex_warden.Protocol.Event.{SequencedEvent}
use codex_warden.Reducer.Subscribe.{reconcile_thread}
use codex_warden.Store.State.{StoreConfig}
use codex_warden.Control.Client.{RequestError, Answer, Client, request}
use codex_warden.Ingest.State.{DiscoverySource, SubscriptionState, DiscoveryOutcome, ThreadIngestor}
use codex_warden.Ingest.Reading.{in_flight_turn_id, is_ephemeral_error}
use codex_warden.Ingest.Discover.{
  Verdict, again, ended, pause, judge, resume_loop, anchor, read_back, subscribe, proceed, discover,
}
use codex_warden.Ingest.Capacity.{Each}
use codex_warden.Ingest.Quiet.{held}
use codex_warden.Ingest.Settled.{IsSettled, begun, IsSettledFrom, claim_lem, discover-IsSettled}

-- There is a value.
abbrev IsThere : {A : Type 0} → Option A → Type 0
IsThere {A} o = (a : A) × (o ≡ some a)

IsThere-and_then :
    {A B : Type 0} (o : Option A) (f : A → Option B)
    → IsThere o
    → ((a : A) → IsThere (f a))
    → IsThere (and_then o f)
IsThere-and_then o f (a, e) g = rw e (g a)

verdict_cases :
    (v : Verdict)
    → (v ≡ again) ⊎ ((o : DiscoveryOutcome) × (s : SubscriptionState) × (v ≡ ended o s))
verdict_cases again = inl refl
verdict_cases (ended o s) = inr (o, s, refl)

module _ {V : Type 0} where
  request-IsThere :
      (method : String) (params : V) (client : Client V)
      → 0 < length client.answers
      → IsThere (request method params client)
  unfolding request
  request-IsThere method params client h = go client.answers refl
    where
      go :
          (answers : List (Answer V))
          → client.answers ≡ answers
          → IsThere (request method params client)
      go [] e = absurd (omega (arith, h, ap length e))
      go (answer ∷ rest) e = rw (e, request) (_, refl)

  -- The loop ends with an answer to spare, and without touching the store.
  abbrev EndsLoop : ThreadIngestor V → Option (Option DiscoveryOutcome × ThreadIngestor V) → Type 0
  EndsLoop i o =
      (failure : Option DiscoveryOutcome) × (next : ThreadIngestor V) × (o ≡ some (failure, next))
      × (0 < length next.client.answers)
      × (next.store ≡ i.store)

module _ {V : Type 0} (J : Json V) (error_text : RequestError V → String) where
  judge_again :
      (limit attempt : ℕ) (e : RequestError V)
      → judge J error_text limit attempt e ≡ again
      → attempt < limit
  unfolding judge
  judge_again limit attempt (RequestError.not_written d) h = ground arith
  judge_again limit attempt (RequestError.rejected m e) h =
      elim (Bool-cases (is_ephemeral_error J e)) [
        | inl y ↦ ground (arith, y)
        | inr n ↦ ground (arith, n)
      ]
  judge_again limit attempt (RequestError.written_outcome_unknown i m d) h = ground arith
  judge_again limit attempt (RequestError.timed_out m) h = ground arith
  judge_again limit attempt RequestError.closed h = ground arith

  resume_loop-EndsLoop :
      (id : String) (source : DiscoverySource) (attempt : ℕ) (answers : List (Answer V))
      (i : ThreadIngestor V)
      → i.config.resume_retry_limit + 1 < attempt + length answers
      → 1 < length answers
      → EndsLoop i (resume_loop J error_text id source attempt answers i)
  unfolding resume_loop pause
  resume_loop-EndsLoop id source attempt [] i h g = absurd (omega arith)
  resume_loop-EndsLoop id source attempt (ok response ∷ rest) i h g =
      (_, _, refl, omega arith, refl)
  resume_loop-EndsLoop id source attempt (err e ∷ rest) i h g =
      elim (verdict_cases (judge J error_text i.config.resume_retry_limit attempt e)) [
        | inl j ↦
            let less = judge_again i.config.resume_retry_limit attempt e j in
            rw (j, resume_loop)
              (resume_loop-EndsLoop id source (attempt + 1) rest _ (omega arith)
                (omega (arith, less)))
        | inr (o, s, j) ↦ rw (j, resume_loop) (_, _, refl, omega arith, refl)
      ]

module _ {V : Type 0} (J : Json V) (error_text : RequestError V → String)
    (to_vec_len : SequencedEvent V → Option ℕ) (order : Map String ℕ → Map String ℕ)
    (store_config : StoreConfig) (elapsed now : ℕ) where
  anchor-IsThere :
      (id : String) (turn_id : Option String) (i : ThreadIngestor V)
      → i.store ≡ none
      → IsThere (anchor J error_text to_vec_len order store_config elapsed now id turn_id i)
  unfolding anchor
  anchor-IsThere id none i h = (i, refl)
  anchor-IsThere id (some t) i h = rw (h, anchor) (i, refl)

  -- With no store attached the read behind a resume always ends.
  read_back-IsThere :
      (id : String) (answer : Answer V) (i : ThreadIngestor V)
      → i.store ≡ none
      → IsThere (read_back J error_text to_vec_len order store_config elapsed now id answer i)
  unfolding read_back anchor
  read_back-IsThere id (err e) i h = (i, refl)
  read_back-IsThere id (ok response) i h = elim (Option-cases (J.get response "thread")) [
    | inl e ↦ rw (e, read_back) (i, refl)
    | inr (thread, e) ↦
        rw (e, read_back)
          (anchor-IsThere id (in_flight_turn_id J thread)
            (record i { reducer = reconcile_thread J thread i.reducer }) h)
  ]

  subscribe-IsThere :
      (id : String) (i : ThreadIngestor V)
      → i.store ≡ none
      → 0 < length i.client.answers
      → IsThere (subscribe J error_text to_vec_len order store_config elapsed now id i)
  unfolding subscribe
  subscribe-IsThere id i h g =
      IsThere-and_then (request "thread/read" _ (held id i).client) _
        (request-IsThere "thread/read" _ i.client g)
        (λ (answer, client).
          IsThere-and_then
            (read_back J error_text to_vec_len order store_config elapsed now id answer _) _
            (read_back-IsThere id answer (record (held id i) { client = client }) h)
            (λ done. (_, refl)))

  discover-IsThere :
      (id : String) (source : DiscoverySource) (i : ThreadIngestor V)
      → i.store ≡ none
      → i.config.resume_retry_limit + 1 < length i.client.answers
      → IsThere (discover J error_text to_vec_len order store_config elapsed now id source i)
  unfolding discover proceed
  discover-IsThere id source i h g = elim (claim_lem id source i) [
    | inl e ↦ subst ends (sym e) (_, refl)
    | inr (free, inl e) ↦ subst ends (sym e) (_, refl)
    | inr (free, inr (less, e)) ↦ subst ends (sym e) (
        let (failure, next, runs, left, kept) =
          resume_loop-EndsLoop J error_text id source 1 i.client.answers (begun id source i)
            (omega arith) (omega arith) in
        rw runs (finish failure next (kept ∙ h) left))
  ]
    where
      ends : Option DiscoveryOutcome × ThreadIngestor V → Type 0
      ends c = IsThere (proceed J error_text to_vec_len order store_config elapsed now id source c)

      finish :
          (failure : Option DiscoveryOutcome) (next : ThreadIngestor V)
          → next.store ≡ none
          → 0 < length next.client.answers
          → IsThere (elim failure [
            | some outcome ↦ some (outcome, next)
            | none ↦ subscribe J error_text to_vec_len order store_config elapsed now id next
          ])
      finish (some outcome) next s l = (_, refl)
      finish none next s l = subscribe-IsThere id next s l

  -- Every discovery is settled. With no store attached, and two answers more at hand than the
  -- retry limit, `discover` ends, and on every branch the states of the other threads are as they
  -- were, the retained subscriptions are within the cap if they were so before, the thread has the
  -- state that the outcome names, nothing has changed if it was managed already, and no
  -- subscription that was begun is still under way in the reducer.
  pub discover_total :
      (id : String) (source : DiscoverySource) (i : ThreadIngestor V)
      → i.store ≡ none
      → i.config.resume_retry_limit + 1 < length i.client.answers
      → (outcome : DiscoveryOutcome) × (after : ThreadIngestor V) × (discover J error_text
            to_vec_len order store_config elapsed now id source i
          ≡ some (outcome, after))
        × IsSettled id i outcome after
  discover_total id source i h g =
      let ((outcome, after), runs) = discover-IsThere id source i h g in
      (
        outcome,
        after,
        runs,
        subst (Each (IsSettledFrom id i)) runs
            (discover-IsSettled J error_text to_vec_len order store_config elapsed now id source i),
      )
