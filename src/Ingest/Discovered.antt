-- ===== src/Ingest/Discovered.antt =====
-- How a discovery ends (src/ingest/src/lib.rs).
use codex_warden.Prelude.{
  ℕ, ◌+◌, ◌≡◌, refl, ap, ◌∙◌, inl, inr, false, String, Option, none, some, is_some_and, List, [],
  ◌∷◌, lookup, insert, lookup-insert, contains, contains-set_remove, string_eq, eq_iff, arith,
  Bool-cases, ok, err,
}
use codex_warden.Protocol.Json.{Json}
use codex_warden.Reducer.State.{ReducerState, is_prunable}
use codex_warden.Reducer.Subscribe.{cancel_subscription}
use codex_warden.Control.Client.{RequestError, Answer, Client, note_request}
use codex_warden.Ingest.State.{DiscoverySource, SubscriptionState, DiscoveryOutcome, ThreadIngestor}
use codex_warden.Ingest.Discover.{Verdict, again, ended, pause, give_up, judge, resume_loop}
use codex_warden.Ingest.Reading.{is_ephemeral_error}
use codex_warden.Ingest.Capacity.{
  IsTouched, same-IsTouched, insert-IsTouched, trans-IsTouched, Each,
}

-- The state that an outcome leaves, where it decides one.
abbrev pub state_of : DiscoveryOutcome → Option SubscriptionState
state_of DiscoveryOutcome.subscribed = some SubscriptionState.subscribed
state_of DiscoveryOutcome.ephemeral = some SubscriptionState.ephemeral
state_of DiscoveryOutcome.capacity_degraded = some SubscriptionState.capacity_degraded
state_of (DiscoveryOutcome.failed detail) = some (SubscriptionState.failed detail)
state_of DiscoveryOutcome.already_managed = none

module _ {V : Type 0} (J : Json V) (error_text : RequestError V → String) where
  abbrev resume_asked : String → List (Answer V) → Client V → Client V
  resume_asked id rest client =
      note_request "thread/resume" (J.object (("threadId", J.string id) ∷ [])) rest client

  judge_lem :
      (limit attempt : ℕ) (e : RequestError V) {outcome : DiscoveryOutcome} {s : SubscriptionState}
      → judge J error_text limit attempt e ≡ ended outcome s
      → state_of outcome ≡ some s
  unfolding judge
  judge_lem limit attempt (RequestError.not_written d) h = ground arith
  judge_lem limit attempt (RequestError.rejected m e) h =
      elim (Bool-cases (is_ephemeral_error J e)) [
        | inl y ↦ ground (arith, y)
        | inr n ↦ ground (arith, n)
      ]
  judge_lem limit attempt (RequestError.written_outcome_unknown i m d) h = ground arith
  judge_lem limit attempt (RequestError.timed_out m) h = ground arith
  judge_lem limit attempt RequestError.closed h = ground arith

  -- The end of the loop: only this thread's state has changed, and where it failed the state is
  -- that of the outcome and the reducer has been told.
  pub record IsResumed (id : String) (before after : ThreadIngestor V)
      (failure : Option DiscoveryOutcome) : Type 0 where
    pub touched : IsTouched id before.states after.states
    pub config_kept : after.config ≡ before.config
    pub failed_state :
        (outcome : DiscoveryOutcome)
        → failure ≡ some outcome
        → ((s : SubscriptionState) × (state_of outcome ≡ some s)
            × (lookup id after.states ≡ some s))
          × (contains id after.reducer.subscribing ≡ false)

  cancel_subscription-free :
      (id : String) (s : ReducerState V)
      → contains id (cancel_subscription id s).subscribing ≡ false
  unfolding cancel_subscription
  cancel_subscription-free id s =
      elim (Bool-cases (is_some_and (lookup id s.threads) is_prunable)) [
        | inl e ↦ rw e (ground (arith, contains-set_remove id id s.subscribing, eq_iff id id))
        | inr e ↦ rw e (ground (arith, contains-set_remove id id s.subscribing, eq_iff id id))
      ]

  pause_config :
      (id : String) (source : DiscoverySource) (n : ℕ) (i : ThreadIngestor V)
      → (pause id source n i).config ≡ i.config
  unfolding pause
  pause_config id source n i = refl

  pause-IsTouched :
      (id : String) (source : DiscoverySource) (n : ℕ) (i : ThreadIngestor V)
      → IsTouched id i.states (pause id source n i).states
  unfolding pause
  pause-IsTouched id source n i =
      insert-IsTouched id (SubscriptionState.subscribing source n) i.states
        (insert id (SubscriptionState.retry_wait n) i.states)
        (insert-IsTouched id (SubscriptionState.retry_wait n) i.states i.states
          (same-IsTouched id i.states))

  abbrev pub IsResumedFrom :
      String → ThreadIngestor V → Option DiscoveryOutcome × ThreadIngestor V → Type 0
  IsResumedFrom id before (failure, after) = IsResumed id before after failure

  -- One error, by the verdict on it; `later` is the rest of the loop.
  judged-IsResumed :
      (id : String) (source : DiscoverySource) (attempt : ℕ) (client : Client V)
      (i : ThreadIngestor V) (e : RequestError V) (limit : ℕ)
      (later : Option (Option DiscoveryOutcome × ThreadIngestor V))
      → Each (IsResumedFrom id (pause id source (attempt + 1) (record i { client = client }))) later
      → (v : Verdict) → judge J error_text limit attempt e ≡ v
      → Each (IsResumedFrom id i) (elim v [
        | again ↦ later
        | ended outcome s ↦ some (some outcome, give_up id s (record i { client = client }))
      ])
  judged-IsResumed id source attempt client i e limit none r again j = tt
  judged-IsResumed id source attempt client i e limit (some (failure, after)) r again j = record {
    touched =
        trans-IsTouched id i.states
          (pause id source (attempt + 1) (record i { client = client })).states after.states
          (pause-IsTouched id source (attempt + 1) (record i { client = client })) r.touched;
    config_kept =
        r.config_kept ∙ pause_config id source (attempt + 1) (record i { client = client });
    failed_state = r.failed_state;
  }
  judged-IsResumed id source attempt client i e limit later r (ended outcome s) j = record {
    touched = insert-IsTouched id s i.states i.states (same-IsTouched id i.states);
    config_kept = refl;
    failed_state = λ o p. (
      (
        s,
        ap state_of (let q : o ≡ outcome = ground (arith, p) in q) ∙ judge_lem limit attempt e j,
        ground (arith, lookup-insert id id s i.states, eq_iff id id),
      ),
      cancel_subscription-free id i.reducer,
    );
  }

  pub resume_loop-IsResumed :
      (id : String) (source : DiscoverySource) (attempt : ℕ) (answers : List (Answer V))
      (i : ThreadIngestor V)
      → Each (IsResumedFrom id i) (resume_loop J error_text id source attempt answers i)
  unfolding resume_loop
  resume_loop-IsResumed id source attempt [] i = tt
  resume_loop-IsResumed id source attempt (ok response ∷ rest) i = record {
    touched = same-IsTouched id i.states;
    config_kept = refl;
    failed_state = λ o p. absurd (ground (arith, p));
  }
  resume_loop-IsResumed id source attempt (err e ∷ rest) i =
      judged-IsResumed id source attempt (resume_asked id rest i.client) i e
        i.config.resume_retry_limit
        (resume_loop J error_text id source (attempt + 1) rest
          (pause id source (attempt + 1) (record i { client = resume_asked id rest i.client })))
        (resume_loop-IsResumed id source (attempt + 1) rest
          (pause id source (attempt + 1) (record i { client = resume_asked id rest i.client })))
        (judge J error_text i.config.resume_retry_limit attempt e) refl
