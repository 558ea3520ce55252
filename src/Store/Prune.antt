-- ===== src/Store/Prune.antt =====
-- `record`, `record_reconstructed_active_turn`, `record_locked`, `prune_locked` and
-- `evict_idle_content` (src/store/src/lib.rs).
use codex_warden.Prelude.{
  ℕ, zero, suc, Bool, true, false, not, ◌&&◌, String, Option, none, some, get_or, and_then, is_some,
  is_some_and, is_none_or, List, [], ◌∷◌, ◌++◌, Map, string_eq, option_eq, ◌==◌, ltb, if◌then◌else◌,
  wrapping_add, saturating_sub, length, get_elem?, any, find?, head?, get_last?, Map,
}
use codex_warden.Protocol.Json.{Json}
use codex_warden.Protocol.Event.{SequencedEvent, event_method}
use codex_warden.Protocol.Request.{reconstructed_active_turn}
use codex_warden.Store.State.{StoreConfig, Inner, is_delta, encoded_len, add_thread, remove_at}

-- `iter().position(p)`
unfoldable pub position {ℓ} : {A : Type ℓ} → (A → Bool) → List A → Option ℕ
position p [] = none
position p (x ∷ xs) =
    let rest : Option ℕ = elim (position p xs) [ none ↦ none | some i ↦ some (suc i) ] in
    if p x then some 0 else rest

module _ {V : Type 0} where
  -- `config.retention` before the newest event; 0 stands for an earlier time.
  unfoldable pub cutoff_of : StoreConfig → Inner V → ℕ
  cutoff_of config inner =
      saturating_sub (elim (get_last? inner.events) [ none ↦ 0 | some e ↦ e.monotonic_ms ])
        config.retention

  -- `thread_bytes.iter().find(...)`: a map is read in an order of its own, which `order` gives.
  unfoldable pub over_thread : (Map String ℕ → Map String ℕ) → StoreConfig → Inner V → Option String
  over_thread order config inner =
      and_then (find? (λ entry. ltb config.per_thread_bytes entry.1) (order inner.thread_bytes))
        (λ entry. some entry.0)

  unfoldable pub over_global : StoreConfig → Inner V → Bool
  over_global config inner = ltb config.global_bytes inner.bytes

  -- A delta of the thread over its limit, or any delta where no thread is.
  abbrev pub is_candidate : Option String → SequencedEvent V → Bool
  is_candidate over e =
      is_delta e.plane && is_none_or over (λ t. option_eq.beq e.thread_id (some t))

  -- The event that the loop over the byte limits removes next.
  unfoldable pub victim : Option String → Inner V → ℕ
  unfolding position
  victim over inner = get_or (position (is_candidate over) inner.events) 0

  -- A turn that the wire announced: its start is retained.
  unfoldable pub is_genuine_start : String → String → SequencedEvent V → Bool
  is_genuine_start thread turn e =
      not e.reconstructed
      && option_eq.beq (event_method e) (some "turn/started")
      && option_eq.beq e.thread_id (some thread)
      && option_eq.beq e.turn_id (some turn)

  unfoldable pub is_idle_content : List String → SequencedEvent V → Bool
  is_idle_content idle e = is_delta e.plane && is_some_and e.thread_id (λ t. any (λ i. i == t) idle)

module _ {V : Type 0} (to_vec_len : SequencedEvent V → Option ℕ) where
  -- `while front().is_some_and(|e| e.monotonic_ms < cutoff)`; the rounds are at most the events.
  unfoldable pub expire : ℕ → ℕ → Inner V → Inner V
  expire zero cutoff inner = inner
  expire (suc rounds) cutoff inner =
      let next = expire rounds cutoff (remove_at to_vec_len inner 0) in
      if is_some_and (head? inner.events) (λ e. ltb e.monotonic_ms cutoff) then next else inner

  -- `loop { ... }` over the byte limits; `none` means that the fuel ran out.
  unfoldable pub enforce :
      (Map String ℕ → Map String ℕ) → StoreConfig → ℕ → Inner V → Option (Inner V)
  enforce order config zero inner = none
  enforce order config (suc fuel) inner =
      let over = over_thread order config inner in
      let next = enforce order config fuel (remove_at to_vec_len inner (victim over inner)) in
      if not (over_global config inner) && not (is_some over) then some inner else next

  -- Each round of the loop removes an event, so one more round than events is enough.
  unfoldable pub prune_locked :
      (Map String ℕ → Map String ℕ) → StoreConfig → Inner V → Option (Inner V)
  unfolding expire cutoff_of enforce
  prune_locked order config inner =
      let kept = expire (length inner.events) (cutoff_of config inner) inner in
      enforce order config (suc (length kept.events)) kept

  unfoldable pub push_event : Inner V → SequencedEvent V → Inner V
  unfolding add_thread
  push_event inner e =
      let size = encoded_len to_vec_len e in
      record inner {
        events = inner.events ++ (e ∷ []);
        bytes = wrapping_add inner.bytes size;
        thread_bytes = add_thread e.thread_id size inner.thread_bytes;
      }

  unfoldable pub record_locked :
      (Map String ℕ → Map String ℕ) → StoreConfig → Inner V → SequencedEvent V → Option (Inner V)
  unfolding push_event prune_locked
  record_locked order config inner e = prune_locked order config (push_event inner e)

  -- The state and the answer; `none` is a panic, or a loop that does not end.
  unfoldable pub record_reconstructed_active_turn :
      Json V
      → (Map String ℕ → Map String ℕ)
      → StoreConfig
      → (sequence elapsed now : ℕ) → String
      → String
      → Inner V
      → Option (Inner V × Bool)
  unfolding is_genuine_start record_locked
  record_reconstructed_active_turn J order config sequence elapsed now thread turn inner =
      if any (is_genuine_start thread turn) inner.events
      then some (inner, false)
      else and_then (reconstructed_active_turn J sequence elapsed now thread turn)
          λ e. and_then (record_locked order config inner e) λ inner'. some (inner', true)

  -- `while position > 0` over the positions from the last down to the first.
  unfoldable pub evict_below : List String → ℕ → Inner V → Inner V
  unfolding is_idle_content
  evict_below idle zero inner = inner
  evict_below idle (suc position) inner = evict_below idle position (
      if is_some_and (get_elem? inner.events position) (is_idle_content idle)
      then remove_at to_vec_len inner position
      else inner)

  unfoldable pub evict_idle_content : List String → Inner V → Inner V
  unfolding evict_below
  evict_idle_content idle inner = evict_below idle (length inner.events) inner
