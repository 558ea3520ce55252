-- ===== src/Store/Limits.antt =====
-- After every write the store is within its byte limits, and the loop that prunes it ends.
use codex_warden.Prelude.{
  ℕ, zero, suc, ◌+◌, ◌≤◌, ◌<◌, ◌≡◌, refl, inl, inr, Bool, true, false, not, ◌&&◌, String, Option,
  none, some, List, [], ◌∷◌, Map, lookup, string_eq, length, arith, Option-cases, Bool-cases,
  word_mod, find?, ltb, is_some, option_eq,
}
use codex_warden.Protocol.Event.{SequencedEvent}
use codex_warden.Store.State.{StoreConfig, Inner, remove_elem, encoded_len, forget, remove_at}
use codex_warden.Store.Prune.{
  over_thread, over_global, victim, is_candidate, position, enforce, expire, cutoff_of,
  prune_locked, push_event, record_locked,
}
use codex_warden.Store.Sizes.{total, total_of, total_of-le, length-remove_elem, remove_elem-none}
use codex_warden.Store.Accounting.{
  IsAccounted, bytes_of, push_event-IsAccounted, remove_at-IsAccounted, expire-IsAccounted,
}
use codex_warden.Store.Order.{IsOrder}

-- A position that `position` finds lies in the list.
position-lt {ℓ} :
    {A : Type ℓ} (p : A → Bool) (xs : List A) {i : ℕ} → position p xs ≡ some i → i < length xs
unfolding position
position-lt p [] h = absurd (ground arith)
position-lt p (x ∷ xs) {i} h = elim (Option-cases (position p xs)) [
  | inl e ↦ ground arith
  | inr (j, e) ↦ ground (arith, position-lt p xs e)
]

module _ {V : Type 0} (to_vec_len : SequencedEvent V → Option ℕ)
    {order : Map String ℕ → Map String ℕ} (visits : IsOrder order) (config : StoreConfig) where
  -- The retained bytes are within the limits: in all, and for each thread.
  pub record IsWithin (inner : Inner V) : Type 0 where
    pub in_all : total to_vec_len inner.events ≤ config.global_bytes
    pub per_thread : (t : String) → total_of to_vec_len t inner.events ≤ config.per_thread_bytes

  abbrev is_over : String × ℕ → Bool
  is_over entry = ltb config.per_thread_bytes entry.1

  -- `over_thread` answers `none` only where every counter is within the limit, and a thread that
  -- it names is over the limit.
  no_over_thread :
      (inner : Inner V) (t : String)
      → over_thread order config inner ≡ none
      → bytes_of t inner.thread_bytes ≤ config.per_thread_bytes
  unfolding over_thread
  no_over_thread inner t h = elim (Option-cases (lookup t inner.thread_bytes)) [
    | inl e ↦ rw e (omega arith)
    | inr (b, e) ↦ rw e (ground (arith, visits.visits_all inner.thread_bytes is_over t b))
  ]

  is_over_thread :
      (inner : Inner V) (t : String)
      → over_thread order config inner ≡ some t
      → config.per_thread_bytes < bytes_of t inner.thread_bytes
  unfolding over_thread
  is_over_thread inner t h = elim (Option-cases (find? is_over (order inner.thread_bytes))) [
    | inl e ↦ absurd (ground arith)
    | inr ((k, b), e) ↦
        let (l, q) = visits.visits_only inner.thread_bytes is_over k b e in ground (arith, l, q)
  ]

  total_nil : (es : List (SequencedEvent V)) → length es ≡ 0 → total to_vec_len es ≡ 0
  unfolding total
  total_nil [] h = refl
  total_nil (e ∷ es) h = absurd (omega arith)

  -- A store over a limit holds an event, so the next round removes one.
  nonempty_of_over :
      (inner : Inner V)
      → IsAccounted to_vec_len inner
      → (not (over_global config inner) && not (is_some (over_thread order config inner))) ≡ false
      → 0 < length inner.events
  unfolding over_global
  nonempty_of_over inner acc h = elim (Option-cases (over_thread order config inner)) [
    | inl e ↦ ground (arith, acc.bytes_total, total_nil inner.events)
    | inr (t, e) ↦ ground (
      arith,
      acc.bytes_total,
      acc.thread_total t,
      is_over_thread inner t e,
      total_of-le to_vec_len t inner.events,
      total_nil inner.events,
    )
  ]

  length-remove_at :
      (inner : Inner V) (n : ℕ)
      → n < length inner.events
      → suc (length (remove_at to_vec_len inner n).events) ≡ length inner.events
  unfolding remove_at forget
  length-remove_at inner n h = elim (Option-cases (remove_elem n inner.events)) [
    | inl e ↦ absurd (omega (arith, remove_elem-none n inner.events e))
    | inr ((y, rest), e) ↦ rw (e, remove_at) (ground (arith, length-remove_elem n inner.events e))
  ]

  victim-lt :
      (over : Option String) (inner : Inner V)
      → 0 < length inner.events
      → victim over inner < length inner.events
  unfolding victim
  victim-lt over inner h = elim (Option-cases (position (is_candidate over) inner.events)) [
    | inl e ↦ rw e h
    | inr (i, e) ↦ rw e (position-lt (is_candidate over) inner.events e)
  ]

  IsWithin-of_done :
      (inner : Inner V)
      → IsAccounted to_vec_len inner
      → (not (over_global config inner) && not (is_some (over_thread order config inner))) ≡ true
      → IsWithin inner
  unfolding over_global
  IsWithin-of_done inner acc h = record {
    in_all = ground (arith, acc.bytes_total);
    per_thread = λ t. ground (arith, acc.thread_total t, no_over_thread inner t);
  }

  pub enforce_total :
      (fuel : ℕ) (inner : Inner V)
      → length inner.events < fuel
      → IsAccounted to_vec_len inner
      → (inner' : Inner V) × (enforce to_vec_len order config fuel inner ≡ some inner')
        × IsAccounted to_vec_len inner'
        × IsWithin inner'
  unfolding enforce
  enforce_total zero inner h acc = absurd (omega arith)
  enforce_total (suc fuel) inner h acc =
      elim (Bool-cases
        (not (over_global config inner) && not (is_some (over_thread order config inner)))) [
          | inl done ↦ rw done (inner, refl, acc, IsWithin-of_done inner acc done)
          | inr more ↦
              let n = victim (over_thread order config inner) inner in
              let inside : n < length inner.events =
                victim-lt (over_thread order config inner) inner
                  (nonempty_of_over inner acc more) in
              rw more (
                enforce_total fuel (remove_at to_vec_len inner n)
                  (omega (arith, length-remove_at inner n inside))
                  (remove_at-IsAccounted to_vec_len inner n acc))
        ]

  -- Recording an event ends, for events that a word can count. The byte counters still agree with
  -- the retained events, which are then within the global limit and each thread's limit.
  pub record_locked-IsWithin :
      (inner : Inner V) (e : SequencedEvent V)
      → IsAccounted to_vec_len inner
      → inner.bytes + encoded_len to_vec_len e < word_mod
      → (inner' : Inner V) × (record_locked to_vec_len order config inner e ≡ some inner')
        × IsAccounted to_vec_len inner'
        × IsWithin inner'
  unfolding record_locked prune_locked
  record_locked-IsWithin inner e acc fits =
      let pushed = push_event to_vec_len inner e in
      let kept = expire to_vec_len (length pushed.events) (cutoff_of config pushed) pushed in
      enforce_total (suc (length kept.events)) kept (omega arith) (
        expire-IsAccounted to_vec_len (length pushed.events) (cutoff_of config pushed) pushed
          (push_event-IsAccounted to_vec_len inner e acc fits))
