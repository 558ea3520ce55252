-- ===== src/Reducer/Relevance.antt =====
-- Which threads the snapshot of the reducer retains (src/reducer/src/lib.rs).
use codex_warden.Prelude.{
  ◌≡◌, refl, ◌↔◌, ◌⊎◌, inl, inr, ◌||◌, ◌&&◌, not, is_some, contains, Bool, true, false, String,
  Option, none, some, List, [], ◌∷◌, lookup, insert, lookup-insert, lookup-remove, lookup-retain,
  contains-set_insert, contains-set_remove, string_eq, eq_iff, arith, Option-cases, set_remove,
}
use codex_warden.Protocol.Json.{Json}
use codex_warden.Protocol.Event.{SequencedEvent}
use codex_warden.Reducer.State.{ThreadState, ReducerState, is_prunable}
use codex_warden.Reducer.Apply.{update_thread, update_threads, apply_state}
use codex_warden.Reducer.Subscribe.{
  entry_of, begin_subscription, finish_subscription, cancel_subscription, unsubscribe_thread,
  set_subscribed, is_needed, evict_idle,
}

-- The calls that write the snapshot, but for `reconcile_thread`.
pub data Call (V : Type 0) : Type 0 where
  applied : SequencedEvent V → Call V
  begun : String → Call V
  finished : String → Call V
  cancelled : String → Call V
  subscription_set : String → Bool → Call V
  evicted : Call V

module _ {V : Type 0} where
  -- Every thread of the snapshot is needed: its subscription is being set up, it is subscribed, or
  -- it has an active turn.
  abbrev pub IsRelevant : ReducerState V → Type 0
  IsRelevant s =
      (id : String) (thread : ThreadState V)
      → lookup id s.threads ≡ some thread
      → is_needed s id thread ≡ true

  pub begin_subscription-IsRelevant :
      (id : String) (s : ReducerState V) → IsRelevant s → IsRelevant (begin_subscription id s)
  unfolding begin_subscription
  begin_subscription-IsRelevant id s h j thread p = ground (
    arith,
    lookup-insert id j (entry_of id s.threads) s.threads,
    contains-set_insert id j s.subscribing,
    h j thread,
  )

  pub finish_subscription-IsRelevant :
      (id : String) (s : ReducerState V) → IsRelevant s → IsRelevant (finish_subscription id s)
  unfolding finish_subscription is_prunable
  finish_subscription-IsRelevant id s h j thread p = ground (
    arith,
    lookup-insert id j (record (entry_of id s.threads) { subscribed = true }) s.threads,
    contains-set_remove id j s.subscribing,
    h j thread,
  )

  pub cancel_subscription-IsRelevant :
      (id : String) (s : ReducerState V) → IsRelevant s → IsRelevant (cancel_subscription id s)
  unfolding cancel_subscription
  cancel_subscription-IsRelevant id s h j thread p = ground (
    arith,
    lookup-remove id j s.threads,
    contains-set_remove id j s.subscribing,
    eq_iff id j,
    h j thread,
  )

  unsubscribe_thread-IsRelevant :
      (id : String) (o : Option (ThreadState V)) (s : ReducerState V)
      → lookup id s.threads ≡ o
      → IsRelevant s
      → IsRelevant
          (unsubscribe_thread id o (record s { subscribing = set_remove id s.subscribing }))
  unfolding unsubscribe_thread
  unsubscribe_thread-IsRelevant id none s e h j thread p =
      ground (arith, contains-set_remove id j s.subscribing, eq_iff id j, h j thread)
  unsubscribe_thread-IsRelevant id (some old) s e h j thread p =
      let new = record old { subscribed = false } in
      ground (
        arith,
        lookup-remove id j (insert id new s.threads),
        lookup-insert id j new s.threads,
        contains-set_remove id j s.subscribing,
        eq_iff id j,
        h j thread,
      )

  pub set_subscribed-IsRelevant :
      (id : String) (b : Bool) (s : ReducerState V)
      → IsRelevant s
      → IsRelevant (set_subscribed id b s)
  unfolding set_subscribed
  set_subscribed-IsRelevant id true s h = finish_subscription-IsRelevant id s h
  set_subscribed-IsRelevant id false s h =
      unsubscribe_thread-IsRelevant id (lookup id s.threads) s refl h

  pub evict_idle-IsRelevant : (s : ReducerState V) → IsRelevant (evict_idle s).0
  unfolding evict_idle
  evict_idle-IsRelevant s j thread p =
      ground (arith, lookup-retain (is_needed s) j s.threads, Option-cases (lookup j s.threads))

  module _ (J : Json V) (e : SequencedEvent V) where
    update_threads-IsRelevant :
        (id : String) (s : ReducerState V)
        → IsRelevant s
        → (j : String) (thread : ThreadState V) → lookup j (update_threads J e id s) ≡ some thread
        → is_needed s j thread ≡ true
    unfolding update_threads
    update_threads-IsRelevant id s h j thread p =
        let new = update_thread J e (entry_of id s.threads) in
        ground (
          arith,
          lookup-remove id j (insert id new s.threads),
          lookup-insert id j new s.threads,
          eq_iff id j,
          h j thread,
        )

    threads_after :
        (o : Option String) (s : ReducerState V)
        → IsRelevant s
        → (j : String) (thread : ThreadState V)
        → lookup j (elim o [ none ↦ s.threads | some id ↦ update_threads J e id s ]) ≡ some thread
        → is_needed s j thread ≡ true
    threads_after none s h = h
    threads_after (some id) s h = update_threads-IsRelevant id s h

    pub apply_state-IsRelevant :
        (s : ReducerState V) → IsRelevant s → IsRelevant (apply_state J e s)
    unfolding apply_state
    apply_state-IsRelevant s h = threads_after e.thread_id s h

module _ {V : Type 0} where
  -- Why a thread is kept: its subscription is being set up, it is subscribed, or it has an active
  -- turn.
  abbrev pub IsKept : ReducerState V → String → ThreadState V → Type 0
  IsKept s id thread =
      (contains id s.subscribing ≡ true)
      ⊎ (thread.subscribed ≡ true)
      ⊎ ((turn : String) × (thread.active_turn_id ≡ some turn))

  is_needed-IsKept :
      (s : ReducerState V) (id : String) (thread : ThreadState V)
      → (is_needed s id thread ≡ true) ↔ IsKept s id thread
  unfolding is_prunable
  is_needed-IsKept s id thread = (
    λ h. why (contains id s.subscribing) thread.subscribed thread.active_turn_id h,
    λ k. elim k [
      | inl p ↦ ground (arith, p)
      | inr (inl p) ↦ ground (arith, p)
      | inr (inr (turn, p)) ↦ ground (arith, p)
    ],
  )
    where
      why :
          (subscribing subscribed : Bool) (active : Option String)
          → (subscribing || not (not subscribed && not (is_some active))) ≡ true
          → (subscribing ≡ true) ⊎ (subscribed ≡ true) ⊎ ((turn : String) × (active ≡ some turn))
      why true subscribed active h = inl refl
      why false true active h = inr (inl refl)
      why false false (some turn) h = inr (inr (turn, refl))
      why false false none h = absurd (ground (arith, h))

  -- After an eviction the snapshot has exactly the threads whose subscription is being set up,
  -- that are subscribed or that have an active turn, each as it was.
  pub evict_idle_exact :
      (s : ReducerState V) (id : String) (thread : ThreadState V)
      → (lookup id (evict_idle s).0.threads ≡ some thread)
        ↔ ((lookup id s.threads ≡ some thread) × IsKept s id thread)
  unfolding evict_idle
  evict_idle_exact s id thread = (
    λ p.
        let (found, needed) : (lookup id s.threads ≡ some thread) × (is_needed s id thread ≡ true) =
          ground
            (arith, lookup-retain (is_needed s) id s.threads, Option-cases (lookup id s.threads)) in
        (found, (is_needed-IsKept s id thread).0 needed),
    λ p.
        let needed = (is_needed-IsKept s id thread).1 p.1 in
        ground (
          arith,
          p.0,
          needed,
          lookup-retain (is_needed s) id s.threads,
          Option-cases (lookup id s.threads),
        ),
  )

module _ {V : Type 0} (J : Json V) where
  abbrev pub run_call : Call V → ReducerState V → ReducerState V
  run_call (applied e) s = apply_state J e s
  run_call (begun id) s = begin_subscription id s
  run_call (finished id) s = finish_subscription id s
  run_call (cancelled id) s = cancel_subscription id s
  run_call (subscription_set id b) s = set_subscribed id b s
  run_call evicted s = (evict_idle s).0

  abbrev pub run_calls : List (Call V) → ReducerState V → ReducerState V
  run_calls [] s = s
  run_calls (c ∷ cs) s = run_calls cs (run_call c s)

  run_call-IsRelevant : (c : Call V) (s : ReducerState V) → IsRelevant s → IsRelevant (run_call c s)
  run_call-IsRelevant (applied e) s h = apply_state-IsRelevant J e s h
  run_call-IsRelevant (begun id) s h = begin_subscription-IsRelevant id s h
  run_call-IsRelevant (finished id) s h = finish_subscription-IsRelevant id s h
  run_call-IsRelevant (cancelled id) s h = cancel_subscription-IsRelevant id s h
  run_call-IsRelevant (subscription_set id b) s h = set_subscribed-IsRelevant id b s h
  run_call-IsRelevant evicted s h = evict_idle-IsRelevant s

  -- From any state whose threads are all needed, no sequence of events, subscription calls and
  -- evictions leaves a thread that is not: one neither subscribed, nor with an active turn, nor
  -- with a subscription being set up.
  pub run_calls-IsRelevant :
      (calls : List (Call V)) (s : ReducerState V) → IsRelevant s → IsRelevant (run_calls calls s)
  run_calls-IsRelevant [] s h = h
  run_calls-IsRelevant (c ∷ cs) s h =
      run_calls-IsRelevant cs (run_call c s) (run_call-IsRelevant c s h)
