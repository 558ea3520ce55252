-- ===== src/Ingest/Settled.antt =====
-- What `discover` leaves behind on every branch (src/ingest/src/lib.rs).
use codex_warden.Prelude.{
  ℕ, ◌≤◌, ◌≡◌, ◌≢◌, refl, sym, ap, subst, ◌∙◌, ◌⊎◌, inl, inr, false, String, Option, none, some,
  is_some_and, Map, lookup, insert, lookup-insert, contains, contains-set_remove, string_eq, eq_iff,
  arith, Bool-cases, leb,
}
use codex_warden.Protocol.Json.{Json}
use codex_warden.Protocol.Event.{SequencedEvent}
use codex_warden.Reducer.State.{ReducerState}
use codex_warden.Reducer.Subscribe.{begin_subscription, finish_subscription}
use codex_warden.Store.State.{StoreConfig}
use codex_warden.Control.Client.{RequestError}
use codex_warden.Ingest.State.{
  DiscoverySource, SubscriptionState, DiscoveryOutcome, ThreadIngestor, is_managed,
}
use codex_warden.Ingest.Discover.{
  retained, set_state, claim, resume_loop, subscribe, proceed, discover,
}
use codex_warden.Ingest.Capacity.{
  IsTouched, same-IsTouched, insert-IsTouched, trans-IsTouched, Each, Each-and_then, Each-map,
}
use codex_warden.Ingest.Discovered.{state_of, IsResumed, IsResumedFrom, resume_loop-IsResumed}
use codex_warden.Ingest.Quiet.{held, IsQuietFrom, subscribe_lem}

module _ {V : Type 0} where
  -- What a discovery leaves: the other threads' states as they were; the retained subscriptions
  -- within the cap, if they were; the state that its outcome names; no change where the thread was
  -- managed already; and no subscription of the thread still under way in the reducer where one
  -- was begun.
  pub record IsSettled (id : String) (before : ThreadIngestor V) (outcome : DiscoveryOutcome)
      (after : ThreadIngestor V) : Type 0 where
    pub others : (j : String) → id ≢ j → lookup j after.states ≡ lookup j before.states
    pub bounded :
        retained before.states ≤ before.config.subscription_cap
        → retained after.states ≤ before.config.subscription_cap
    pub config_kept : after.config ≡ before.config
    pub settled :
        (s : SubscriptionState) → state_of outcome ≡ some s → lookup id after.states ≡ some s
    pub unmoved : outcome ≡ DiscoveryOutcome.already_managed → after ≡ before
    pub finished :
        outcome ≢ DiscoveryOutcome.already_managed
        → outcome ≢ DiscoveryOutcome.capacity_degraded
        → contains id after.reducer.subscribing ≡ false

  abbrev pub IsSettledFrom :
      String → ThreadIngestor V → DiscoveryOutcome × ThreadIngestor V → Type 0
  IsSettledFrom id before (outcome, after) = IsSettled id before outcome after

  pub claim_lem :
      (id : String) (source : DiscoverySource) (i : ThreadIngestor V)
      → (claim id source i ≡ (some DiscoveryOutcome.already_managed, i))
        ⊎ ((is_some_and (lookup id i.states) is_managed ≡ false)
            × ((claim id source i ≡ (
              some DiscoveryOutcome.capacity_degraded,
              set_state id SubscriptionState.capacity_degraded i,
            ))
                ⊎ ((leb i.config.subscription_cap (retained i.states) ≡ false)
                    × (claim id source i
                        ≡ (none, set_state id (SubscriptionState.subscribing source 1) i)))))
  unfolding claim
  claim_lem id source i = elim (Bool-cases (is_some_and (lookup id i.states) is_managed)) [
    | inl old ↦ inl (rw (old, claim) refl)
    | inr free ↦ inr (
      free,
      elim (Bool-cases (leb i.config.subscription_cap (retained i.states))) [
        | inl full ↦ inl (rw (free, full, claim) refl)
        | inr less ↦ inr (less, rw (free, less, claim) refl)
      ],
    )
  ]

  -- The ingestor once the thread is claimed and the reducer told.
  abbrev pub begun : String → DiscoverySource → ThreadIngestor V → ThreadIngestor V
  begun id source i = record (set_state id (SubscriptionState.subscribing source 1) i) {
    reducer = begin_subscription id i.reducer;
  }

module _ {V : Type 0} (J : Json V) (error_text : RequestError V → String)
    (to_vec_len : SequencedEvent V → Option ℕ) (order : Map String ℕ → Map String ℕ)
    (store_config : StoreConfig) (elapsed now : ℕ) where
  -- The claim leaves room, so the end is within the cap whatever state the thread has then.
  room :
      (id : String) (i after : ThreadIngestor V)
      → is_some_and (lookup id i.states) is_managed ≡ false
      → leb i.config.subscription_cap (retained i.states) ≡ false
      → IsTouched id i.states after.states
      → retained after.states ≤ i.config.subscription_cap
  room id i after free less t = ground (arith, t.counted, free, less)

  begun-IsTouched :
      (id : String) (source : DiscoverySource) (i : ThreadIngestor V)
      → IsTouched id i.states (begun id source i).states
  begun-IsTouched id source i =
      insert-IsTouched id (SubscriptionState.subscribing source 1) i.states i.states
        (same-IsTouched id i.states)

  finish_subscription-free :
      (id : String) (s : ReducerState V)
      → contains id (finish_subscription id s).subscribing ≡ false
  unfolding finish_subscription
  finish_subscription-free id s =
      ground (arith, contains-set_remove id id s.subscribing, eq_iff id id)

  -- behind the loop: a failure ends the call, a resumed thread is held and read
  settle :
      (id : String) (source : DiscoverySource) (i next : ThreadIngestor V)
      (failure : Option DiscoveryOutcome)
      → is_some_and (lookup id i.states) is_managed ≡ false
      → leb i.config.subscription_cap (retained i.states) ≡ false
      → IsResumed J error_text id (begun id source i) next failure
      → Each (IsSettledFrom id i) (elim failure [
        | some outcome ↦ some (outcome, next)
        | none ↦ subscribe J error_text to_vec_len order store_config elapsed now id next
      ])
  settle id source i next (some outcome) free less r =
      let t : IsTouched id i.states next.states =
        trans-IsTouched id i.states (begun id source i).states next.states
          (begun-IsTouched id source i) r.touched in
      record {
        others = t.others;
        bounded = λ h. room id i next free less t;
        config_kept = r.config_kept;
        settled = λ s p. failure_names s p ((r.failed_state outcome refl).0);
        unmoved = λ p. absurd (named p (r.failed_state outcome refl).0);
        finished = λ a b. (r.failed_state outcome refl).1;
      }
    where
      failure_names :
          (s : SubscriptionState)
          → state_of outcome ≡ some s
          → (s' : SubscriptionState) × (state_of outcome ≡ some s')
            × (lookup id next.states ≡ some s')
          → lookup id next.states ≡ some s
      failure_names s p (s', q, l) = l ∙ sym q ∙ p

      named :
          outcome ≡ DiscoveryOutcome.already_managed
          → (s' : SubscriptionState) × (state_of outcome ≡ some s')
            × (lookup id next.states ≡ some s')
          → ⊥
      named p (s', q, l) = let r : none ≡ some s' = sym (ap state_of p) ∙ q in ground (arith, r)
  settle id source i next none free less r =
      Each-map (IsQuietFrom (held id next)) (IsSettledFrom id i)
        (subscribe J error_text to_vec_len order store_config elapsed now id next)
        (subscribe_lem J error_text to_vec_len order store_config elapsed now id next) read_settled
    where
      t : IsTouched id i.states (held id next).states
      t = insert-IsTouched id SubscriptionState.subscribed i.states next.states (
          trans-IsTouched id i.states (begun id source i).states next.states
            (begun-IsTouched id source i) r.touched)

      read_settled :
          (a : DiscoveryOutcome × ThreadIngestor V)
          → IsQuietFrom (held id next) a
          → IsSettledFrom id i a
      read_settled (outcome, after) (won, q) = record {
        others = λ j h. ap (lookup j) q.states_kept ∙ t.others j h;
        bounded =
            λ h. room id i after free less (subst (IsTouched id i.states) (sym q.states_kept) t);
        config_kept = q.config_kept ∙ r.config_kept;
        settled = λ s p.
            ap (lookup id) q.states_kept
            ∙ (let l : lookup id (insert id SubscriptionState.subscribed next.states)
                    ≡ some SubscriptionState.subscribed =
                  ground (
                    arith,
                    lookup-insert id id SubscriptionState.subscribed next.states,
                    eq_iff id id,
                  ) in
                l)
            ∙ sym (ap state_of won)
            ∙ p;
        unmoved = λ p.
            let x : DiscoveryOutcome.already_managed ≡ DiscoveryOutcome.subscribed = sym p ∙ won in
            absurd (ground (arith, x));
        finished =
            λ a b. ap (contains id) q.subscribing_kept ∙ finish_subscription-free id next.reducer;
      }

  -- Every discovery that ends is settled, however it ends: see `IsSettled`.
  pub discover-IsSettled :
      (id : String) (source : DiscoverySource) (i : ThreadIngestor V)
      → Each
          (IsSettledFrom id i)
          (discover J error_text to_vec_len order store_config elapsed now id source i)
  unfolding discover proceed
  discover-IsSettled id source i = elim (claim_lem id source i) [
    | inl e ↦ subst outcome_of (sym e) (record {
      others = λ j h. refl;
      bounded = λ h. h;
      config_kept = refl;
      settled = λ s p. absurd (ground (arith, p));
      unmoved = λ p. refl;
      finished = λ a b. absurd (a refl);
    })
    | inr (free, inl e) ↦ subst outcome_of (sym e) (record {
      others = degraded.others;
      bounded = λ h. ground (arith, degraded.counted, degraded_at, free, h);
      config_kept = refl;
      settled = λ s p. degraded_at ∙ p;
      unmoved = λ p. absurd (ground (arith, p));
      finished = λ a b. absurd (b refl);
    })
    | inr (free, inr (less, e)) ↦ subst outcome_of (sym e) (
        Each-and_then (IsResumedFrom J error_text id (begun id source i)) (IsSettledFrom id i)
          (resume_loop J error_text id source 1 i.client.answers (begun id source i)) _
          (resume_loop-IsResumed J error_text id source 1 i.client.answers (begun id source i))
          (λ (failure, next) r. settle id source i next failure free less r))
  ]
    where
      outcome_of : Option DiscoveryOutcome × ThreadIngestor V → Type 0
      outcome_of c =
          Each (IsSettledFrom id i)
            (proceed J error_text to_vec_len order store_config elapsed now id source c)

      degraded : IsTouched id i.states (insert id SubscriptionState.capacity_degraded i.states)
      degraded =
          insert-IsTouched id SubscriptionState.capacity_degraded i.states i.states
            (same-IsTouched id i.states)

      degraded_at :
          lookup id (insert id SubscriptionState.capacity_degraded i.states)
          ≡ some SubscriptionState.capacity_degraded
      degraded_at =
          ground
            (arith, lookup-insert id id SubscriptionState.capacity_degraded i.states, eq_iff id id)
