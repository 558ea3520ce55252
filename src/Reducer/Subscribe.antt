-- ===== src/Reducer/Subscribe.antt =====
-- Subscriptions, eviction and reconciliation of the reducer (src/reducer/src/lib.rs).
use codex_warden.Prelude.{
  ℕ, ◌-◌, Bool, true, false, not, ◌||◌, String, Option, none, some, get_or, and_then, is_some,
  is_some_and, Map, lookup, insert, remove, retain, contains, set_insert, set_remove, string_eq,
  ◌==◌, if◌then◌else◌, length, find?, reverse,
}
use codex_warden.Protocol.Json.{Json}
use codex_warden.Protocol.Event.{get_str}
use codex_warden.Reducer.State.{ThreadState, ReducerState, fresh_thread, is_prunable, with_threads}
use codex_warden.Reducer.Apply.{status_text}

module _ {V : Type 0} where
  -- `entry(id).or_insert_with(fresh_thread)`: the value that the entry has then
  abbrev pub entry_of : String → Map String (ThreadState V) → ThreadState V
  entry_of id threads = get_or (lookup id threads) (fresh_thread id)

  unfoldable pub begin_subscription : String → ReducerState V → ReducerState V
  begin_subscription id s = record s {
    subscribing = set_insert id s.subscribing;
    snapshot = record s.snapshot { threads = insert id (entry_of id s.threads) s.threads };
  }

  unfoldable pub finish_subscription : String → ReducerState V → ReducerState V
  finish_subscription id s = record s {
    subscribing = set_remove id s.subscribing;
    snapshot = record s.snapshot {
      threads = insert id (record (entry_of id s.threads) { subscribed = true }) s.threads;
    };
  }

  unfoldable pub cancel_subscription : String → ReducerState V → ReducerState V
  cancel_subscription id s =
      let free = record s { subscribing = set_remove id s.subscribing } in
      if is_some_and (lookup id s.threads) is_prunable
      then with_threads free (remove id s.threads)
      else free

  -- `set_subscribed(id, false)`: the entry, where there is one, is marked and then pruned if
  -- nothing needs it.
  unfoldable pub unsubscribe_thread :
      String → Option (ThreadState V) → ReducerState V → ReducerState V
  unsubscribe_thread id none s = s
  unsubscribe_thread id (some old) s =
      let thread = record old { subscribed = false } in
      let threads = insert id thread s.threads in
      with_threads s (if is_prunable thread then remove id threads else threads)

  unfoldable pub set_subscribed : String → Bool → ReducerState V → ReducerState V
  unfolding finish_subscription unsubscribe_thread
  set_subscribed id true s = finish_subscription id s
  set_subscribed id false s =
      unsubscribe_thread id (lookup id s.threads)
        (record s { subscribing = set_remove id s.subscribing })

  abbrev pub is_needed : ReducerState V → String → ThreadState V → Bool
  is_needed s id thread = contains id s.subscribing || not (is_prunable thread)

  -- The state, and how many entries left it.
  unfoldable pub evict_idle : ReducerState V → ReducerState V × ℕ
  evict_idle s =
      let kept = retain (is_needed s) s.threads in
      (with_threads s kept, length s.threads - length kept)

module _ {V : Type 0} (J : Json V) where
  open J use {get, as_str, as_bool, as_array}

  -- `matches!(turn.get("status").and_then(Value::as_str), Some("completed" | ...))`
  abbrev pub is_terminal_text : String → Bool
  is_terminal_text s = s == "completed" || s == "failed" || s == "interrupted"

  abbrev pub is_terminal : V → Bool
  is_terminal turn = is_some_and (get_str J turn "status") is_terminal_text

  -- The id of the last turn that is not terminal.
  unfoldable pub open_turn : V → Option String
  open_turn thread = and_then (and_then (get thread "turns") as_array) λ turns.
      and_then (find? (λ turn. not (is_terminal turn)) (reverse turns)) λ turn. get_str J turn "id"

  unfoldable pub reconciled_thread : String → V → ReducerState V → ThreadState V
  unfolding open_turn
  reconciled_thread id raw s = record {
    thread_id = id;
    status =
        if is_some (open_turn raw)
        then "active"
        else get_or (and_then (get raw "status") (status_text J)) "unknown";
    active_turn_id = open_turn raw;
    subscribed = is_some_and (lookup id s.threads) (λ old. old.subscribed);
    ephemeral = get_or (and_then (get raw "ephemeral") as_bool) false;
    last_sequence = s.at_sequence;
    raw_thread = some raw;
  }

  unfoldable pub reconcile_thread : V → ReducerState V → ReducerState V
  unfolding reconciled_thread
  reconcile_thread raw s = elim (get_str J raw "id") [
    | none ↦ s
    | some id ↦ with_threads s (insert id (reconciled_thread id raw s) s.threads)
  ]
