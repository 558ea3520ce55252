-- ===== src/Reducer/Apply.antt =====
-- `Reducer::apply` and `register_waiter` (src/reducer/src/lib.rs).
use codex_warden.Prelude.{
  ℕ, zero, suc, max, Bool, true, false, not, ◌&&◌, ◌||◌, String, Option, none, some, get_or,
  and_then, or_else, is_some, List, [], ◌∷◌, ◌++◌, Map, lookup, insert, remove, contains, string_eq,
  option_eq, ◌==◌, ltb, if◌then◌else◌, length, get_elem?,
}
use codex_warden.Protocol.Json.{Json}
use codex_warden.Protocol.Frame.{params}
use codex_warden.Protocol.Event.{SequencedEvent, event_method, get_str}
use codex_warden.Reducer.State.{
  ThreadState, ReducerState, Waiter, Reducer, fresh_thread, is_prunable,
}
use codex_warden.Store.State.{is_delta}

module _ {V : Type 0} (J : Json V) where
  open J use {get, as_str, as_bool}

  -- `s.get("type").and_then(Value::as_str).or_else(|| s.as_str())`
  abbrev pub status_text : V → Option String
  status_text s = or_else (get_str J s "type") (as_str s)

  -- The thread's state after an event, by the event's method; its sequence is noted first.
  unfoldable pub update_thread : SequencedEvent V → ThreadState V → ThreadState V
  update_thread e old =
      let thread = record old { last_sequence = e.sequence } in
      let method = get_or (event_method e) "" in
      if method == "thread/started"
      then (let raw = and_then (params e.frame) (λ p. get p "thread") in
          record thread {
            status = "idle";
            raw_thread = raw;
            ephemeral = get_or (and_then (and_then raw (λ v. get v "ephemeral")) as_bool) false;
          })
      else if method == "thread/status/changed"
      then record thread {
        status =
            get_or (and_then (and_then (params e.frame) (λ p. get p "status")) status_text)
              "unknown";
      }
      else if method == "turn/started"
      then record thread { status = "active"; active_turn_id = e.turn_id }
      else if method == "turn/completed"
      then record thread {
        status = "idle";
        active_turn_id =
            if option_eq.beq thread.active_turn_id e.turn_id || not (is_some e.turn_id)
            then none
            else thread.active_turn_id;
      }
      else thread

  -- The threads after an event of a thread: its entry is updated, and pruned where nothing needs
  -- it.
  unfoldable pub update_threads :
      SequencedEvent V → String → ReducerState V → Map String (ThreadState V)
  unfolding update_thread
  update_threads e id s =
      let thread = update_thread e (get_or (lookup id s.threads) (fresh_thread id)) in
      let threads = insert id thread s.threads in
      if not (contains id s.subscribing) && is_prunable thread then remove id threads else threads

  -- the first block of `apply`, under the lock of the state
  unfoldable pub apply_state : SequencedEvent V → ReducerState V → ReducerState V
  unfolding update_threads
  apply_state e s = record s {
    snapshot = record {
      at_sequence = max s.at_sequence e.sequence;
      threads = elim e.thread_id [ none ↦ s.threads | some id ↦ update_threads e id s ];
    };
  }

module _ {V : Type 0} where
  -- `while lifecycle.len() > capacity { pop_front }`
  unfoldable pub trim : ℕ → List (SequencedEvent V) → List (SequencedEvent V)
  trim capacity [] = []
  trim capacity (e ∷ es) =
      let rest = trim capacity es in if ltb capacity (length (e ∷ es)) then rest else e ∷ es

  -- the second block of `apply`, under the lock of the log
  unfoldable pub apply_log :
      ℕ → SequencedEvent V → List (SequencedEvent V) → List (SequencedEvent V)
  unfolding trim
  apply_log capacity e log = if is_delta e.plane then log else trim capacity (log ++ e ∷ [])

-- `Vec::swap_remove`: the last element takes the place of the one removed.
module _ {ℓ} {A : Type ℓ} where
  -- `z ∷ zs` with `x` put behind its first element
  unfoldable pub put_second : A → List A → List A
  put_second x [] = x ∷ []
  put_second x (z ∷ zs) = z ∷ x ∷ zs

  -- The last element first, then the others in order.
  unfoldable pub last_first : List A → List A
  unfolding put_second
  last_first [] = []
  last_first (x ∷ xs) = put_second x (last_first xs)

  unfoldable pub swap_remove : ℕ → List A → Option (A × List A)
  unfolding last_first
  swap_remove n [] = none
  swap_remove zero (x ∷ xs) = some (x, last_first xs)
  swap_remove (suc n) (x ∷ xs) = elim (swap_remove n xs) [
    | none ↦ none
    | some (y, rest) ↦ some (y, x ∷ rest)
  ]

module _ {V : Type 0} where
  -- `while index < waiters.len()`: the waiters that are ready, in the order found, and the others.
  -- Each round has one element less ahead of the index, so the number of waiters is enough fuel.
  unfoldable pub take_ready :
      SequencedEvent V
      → (fuel index : ℕ) → List (Waiter V)
      → List (Waiter V)
      → List (Waiter V) × List (Waiter V)
  unfolding swap_remove
  take_ready e zero index waiters ready = (ready, waiters)
  take_ready e (suc fuel) index waiters ready = elim (get_elem? waiters index) [
    | none ↦ (ready, waiters)
    | some w ↦ elim (w.predicate e) [
      | true ↦ elim (swap_remove index waiters) [
        | none ↦ (ready, waiters)
        | some (found, rest) ↦ take_ready e fuel index rest (ready ++ found ∷ [])
      ]
      | false ↦ take_ready e fuel (suc index) waiters ready
    ]
  ]

  -- the third block of `apply`: the waiters to answer with the event, and those that stay
  unfoldable pub apply_waiters :
      SequencedEvent V → List (Waiter V) → List (Waiter V) × List (Waiter V)
  unfolding take_ready
  apply_waiters e waiters = take_ready e (length waiters) 0 waiters []

  unfoldable pub register_waiter : (SequencedEvent V → Bool) → ℕ → Reducer V → Reducer V
  register_waiter predicate channel r = record r {
    waiters = r.waiters ++ (record { predicate = predicate; channel = channel }) ∷ [];
  }

-- The reducer after an event, and the waiters that are answered with it.
unfoldable pub apply :
    {V : Type 0} → Json V → ℕ → SequencedEvent V → Reducer V → Reducer V × List (Waiter V)
unfolding apply_state apply_log apply_waiters
apply J capacity e r =
    let (ready, rest) = apply_waiters e r.waiters in
    (
      record {
        state = apply_state J e r.state;
        lifecycle = apply_log capacity e r.lifecycle;
        waiters = rest;
      },
      ready,
    )
