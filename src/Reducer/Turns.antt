-- ===== src/Reducer/Turns.antt =====
-- What turn events and reconciliation do to a thread (src/reducer/src/lib.rs).
use codex_warden.Prelude.{
  ◌≡◌, ◌≢◌, refl, Bool, not, ◌&&◌, ◌||◌, String, none, some, lookup, lookup-insert, lookup-remove,
  insert, contains, string_eq, option_eq, beq_self, eq_iff, ◌==◌, if◌then◌else◌, arith,
  Option-cases,
}
use codex_warden.Protocol.Json.{Json}
use codex_warden.Protocol.Event.{SequencedEvent, event_method, get_str}
use codex_warden.Reducer.State.{ThreadState, ReducerState, fresh_thread, is_prunable}
use codex_warden.Reducer.Apply.{update_thread, update_threads, apply_state}
use codex_warden.Reducer.Subscribe.{entry_of, reconciled_thread, reconcile_thread}

module _ {V : Type 0} (J : Json V) where
  -- A turn event: its thread, its turn and its method.
  abbrev pub IsTurnEvent : String → String → String → SequencedEvent V → Type 0
  IsTurnEvent method thread turn e =
      (event_method e ≡ some method) × (e.thread_id ≡ some thread) × (e.turn_id ≡ some turn)

  started_thread :
      (e : SequencedEvent V) (id turn : String) (old : ThreadState V)
      → IsTurnEvent "turn/started" id turn e
      → update_thread J e old
        ≡ record old { last_sequence = e.sequence; status = "active"; active_turn_id = some turn }
  unfolding update_thread
  started_thread e id turn old h = rw (h.0, h.2)

  completed_thread :
      (e : SequencedEvent V) (id turn : String) (old : ThreadState V)
      → IsTurnEvent "turn/completed" id turn e
      → update_thread J e old ≡ record old {
        last_sequence = e.sequence;
        status = "idle";
        active_turn_id =
            if option_eq.beq old.active_turn_id (some turn) then none else old.active_turn_id;
      }
  unfolding update_thread
  completed_thread e id turn old h = rw (h.0, h.2) (ground arith)

  -- The thread of an event after it, and whether the snapshot still needs it.
  abbrev pub after : SequencedEvent V → String → ReducerState V → ThreadState V
  after e id s = update_thread J e (entry_of id s.threads)

  abbrev is_dropped : SequencedEvent V → String → ReducerState V → Bool
  is_dropped e id s = not (contains id s.subscribing) && is_prunable (after e id s)

  -- An event of a thread changes that thread alone: its entry is the updated one, made afresh where
  -- there was none, or no entry where nothing needs the thread.
  lookup-apply_state :
      (e : SequencedEvent V) (s : ReducerState V) (id j : String)
      → e.thread_id ≡ some id
      → lookup j (apply_state J e s).threads ≡ (
          if id == j
          then (if is_dropped e id s then none else some (after e id s))
          else lookup j s.threads)
  unfolding apply_state update_threads
  lookup-apply_state e s id j h = rw h (
      ground (
        arith,
        lookup-remove id j (insert id (after e id s) s.threads),
        lookup-insert id j (after e id s) s.threads,
      ))

  -- The start of a turn is always recorded: the thread is retained as active, with that turn.
  pub apply_state_started :
      (e : SequencedEvent V) (s : ReducerState V) (id turn : String)
      → IsTurnEvent "turn/started" id turn e
      → lookup id (apply_state J e s).threads
        ≡ some (record (entry_of id s.threads) {
          last_sequence = e.sequence;
          status = "active";
          active_turn_id = some turn;
        })
  unfolding is_prunable
  apply_state_started e s id turn h =
      rw (lookup-apply_state e s id id h.1)
        (ground (arith, started_thread e id turn (entry_of id s.threads) h, beq_self id))

  subscribing-apply_state :
      (e : SequencedEvent V) (s : ReducerState V) → (apply_state J e s).subscribing ≡ s.subscribing
  unfolding apply_state
  subscribing-apply_state e s = refl

  -- The thread once its turn has ended: idle, with no active turn.
  abbrev pub ended : SequencedEvent V → ThreadState V → ThreadState V
  ended e old = record old { last_sequence = e.sequence; status = "idle"; active_turn_id = none }

  -- A turn that starts and then completes leaves no active turn: the thread is idle, and it stays
  -- in the snapshot exactly if it is subscribed or its subscription is being set up.
  pub apply_state_completed :
      (e f : SequencedEvent V) (s : ReducerState V) (id turn : String)
      → IsTurnEvent "turn/started" id turn e
      → IsTurnEvent "turn/completed" id turn f
      → lookup id (apply_state J f (apply_state J e s)).threads ≡ (
          if contains id s.subscribing || (entry_of id s.threads).subscribed
          then some (ended f (entry_of id s.threads))
          else none)
  unfolding is_prunable
  apply_state_completed e f s id turn h k =
      let begun = apply_state J e s in
      rw (lookup-apply_state f begun id id k.1) (
        ground (
          arith,
          completed_thread f id turn (entry_of id begun.threads) k,
          apply_state_started e s id turn h,
          subscribing-apply_state e s,
          beq_self id,
          beq_self turn,
        ))

  -- The end of another turn than the active one marks the thread idle, and leaves the active turn.
  pub apply_state_completed_other :
      (e f : SequencedEvent V) (s : ReducerState V) (id turn other : String)
      → IsTurnEvent "turn/started" id turn e
      → IsTurnEvent "turn/completed" id other f
      → turn ≢ other
      → lookup id (apply_state J f (apply_state J e s)).threads
        ≡ some (record (entry_of id s.threads) {
          last_sequence = f.sequence;
          status = "idle";
          active_turn_id = some turn;
        })
  unfolding is_prunable
  apply_state_completed_other e f s id turn other h k ne =
      let begun = apply_state J e s in
      let running = apply_state_started e s id turn h in
      rw (lookup-apply_state f begun id id k.1) (
        ground (
          arith,
          completed_thread f id other (entry_of id begun.threads) k,
          beq_self id,
          eq_iff turn other,
          running,
        ))

  -- Reconciling a thread that was read replaces its entry and no other. The entry keeps the
  -- subscription flag, and the snapshot keeps its sequence.
  pub reconcile_thread_lem :
      (raw : V) (s : ReducerState V) (id j : String)
      → get_str J raw "id" ≡ some id
      → (lookup j (reconcile_thread J raw s).threads
          ≡ (if id == j then some (reconciled_thread J id raw s) else lookup j s.threads))
        × ((reconciled_thread J id raw s).subscribed ≡ (entry_of id s.threads).subscribed)
        × ((reconcile_thread J raw s).at_sequence ≡ s.at_sequence)
  unfolding reconcile_thread fresh_thread
  reconcile_thread_lem raw s id j h = (
    rw (h, reconcile_thread) (lookup-insert id j (reconciled_thread J id raw s) s.threads),
    ground (arith, Option-cases (lookup id s.threads)),
    rw (h, reconcile_thread),
  )
