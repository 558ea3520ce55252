-- ===== src/Store/Replies.antt =====
-- What the answers of `query_sequence` and `query_time` promise (src/store/src/lib.rs).
use codex_warden.Prelude.{
  ℕ, ◌+◌, ◌≤◌, ◌<◌, ◌≡◌, ◌↔◌, refl, ◌⊎◌, inl, inr, true, String, Option, none, some, get_or, List,
  [], Map, lookup, lookup-insert, string_eq, option_eq, is_none_or, arith, leb, filter, In,
  In-filter, In-of_filter, saturating_add, word_mod, eq_iff, beq_self,
}
use codex_warden.Protocol.Event.{SequencedEvent}
use codex_warden.Store.State.{
  StoreConfig, Inner, empty, no_gap, note_gap, remove_elem, forget, remove_at,
}
use codex_warden.Store.Query.{of_thread, in_range, in_window, query_sequence, query_time}
use codex_warden.Store.Gaps.{Reaches, record_all, record_all-IsHonest}

through_iff :
    (through : Option ℕ) (sequence : ℕ)
    → (is_none_or through (λ last. leb sequence last) ≡ true)
      ↔ ((last : ℕ) → through ≡ some last → sequence ≤ last)
through_iff none sequence = (λ h last p. absurd (ground (arith, p)), λ h. refl)
through_iff (some n) sequence =
    (λ h last p. ground (arith, p), λ h. let below = h n refl in ground arith)

module _ {V : Type 0} where
  -- The event is of the thread asked for, if one is.
  abbrev pub IsOfThread : Option String → SequencedEvent V → Type 0
  IsOfThread thread e = (t : String) → thread ≡ some t → e.thread_id ≡ some t

  pub of_thread-IsOfThread :
      (thread : Option String) (e : SequencedEvent V)
      → (of_thread thread e ≡ true) ↔ IsOfThread thread e
  of_thread-IsOfThread none e = (λ h t p. absurd (ground (arith, p)), λ h. refl)
  of_thread-IsOfThread (some u) e =
      (λ h t p. is_that e.thread_id h t p, λ h. rw (h u refl) (beq_self u))
    where
      is_that :
          (o : Option String)
          → option_eq.beq o (some u) ≡ true
          → (t : String) → some u ≡ some t
          → o ≡ some t
      is_that none h t p = absurd (ground arith)
      is_that (some x) h t p = rw ((eq_iff x u).0 h) p

  -- The range of a sequence query.
  abbrev pub InRange : Option String → ℕ → Option ℕ → SequencedEvent V → Type 0
  InRange thread after through e =
      (after < e.sequence)
      × ((last : ℕ) → through ≡ some last → e.sequence ≤ last)
      × IsOfThread thread e

  -- A sequence query answers exactly the retained events behind `after`, up to the last sequence
  -- if one is given, whose thread is the one asked for if one is.
  pub query_sequence_exact :
      (thread : Option String) (after : ℕ) (through : Option ℕ) (inner : Inner V)
      (e : SequencedEvent V)
      → In e (query_sequence thread after through inner).events
        ↔ (In e inner.events × InRange thread after through e)
  unfolding query_sequence
  query_sequence_exact thread after through inner e = (
    λ i.
        let (j, h) = In-of_filter (in_range thread after through) e inner.events i in
        let range : (after < e.sequence)
            × (is_none_or through (λ last. leb e.sequence last) ≡ true)
            × (of_thread thread e ≡ true) =
          ground (arith, h) in
        (
          j,
          (
            range.0,
            (through_iff through e.sequence).0 range.1,
            (of_thread-IsOfThread thread e).0 range.2,
          ),
        ),
    λ i.
        let upto = (through_iff through e.sequence).1 i.1.1 in
        let of = (of_thread-IsOfThread thread e).1 i.1.2 in
        In-filter (in_range thread after through) e inner.events i.0
          (ground (arith, i.1.0, upto, of)),
  )

  -- The range of a time query, with the tolerance on both ends.
  abbrev pub InWindow : StoreConfig → Option String → ℕ → ℕ → SequencedEvent V → Type 0
  InWindow config thread start last e =
      (start ≤ get_or e.emitted_at_ms e.unix_receipt_ms + config.emitted_at_tolerance)
      × (get_or e.emitted_at_ms e.unix_receipt_ms ≤ last + config.emitted_at_tolerance)
      × IsOfThread thread e

  -- A time query answers exactly the retained events of the thread whose time, the daemon's if it
  -- gave one, lies within the tolerance of the window: the saturating sums change no answer, at a
  -- start and at times of events that are 64-bit words.
  pub query_time_exact :
      (config : StoreConfig) (thread : Option String) (start last : ℕ) (inner : Inner V)
      (e : SequencedEvent V)
      → start < word_mod
      → get_or e.emitted_at_ms e.unix_receipt_ms < word_mod
      → In e (query_time config thread start last inner).events
        ↔ (In e inner.events × InWindow config thread start last e)
  unfolding query_time saturating_add
  query_time_exact config thread start last inner e fits time = (
    λ i.
        let (j, h) = In-of_filter (in_window config thread start last) e inner.events i in
        (j, (ground arith, ground arith, (of_thread-IsOfThread thread e).0 (ground arith))),
    λ i.
        let of = (of_thread-IsOfThread thread e).1 i.1.2 in
        In-filter (in_window config thread start last) e inner.events i.0
          (ground (arith, i.1.0, i.1.1, of)),
  )

  -- After events are recorded one by one into an empty store, a query by thread and sequence
  -- misses none of them: each recorded event of the thread in the range is in the answer, or the
  -- gap in the answer reaches its sequence.
  pub query_sequence_complete :
      (to_vec_len : SequencedEvent V → Option ℕ) (order : Map String ℕ → Map String ℕ)
      (config : StoreConfig) (recorded : List (SequencedEvent V)) (thread : String) (after : ℕ)
      (through : Option ℕ) (e : SequencedEvent V) {inner : Inner V}
      → record_all to_vec_len order config recorded empty ≡ some inner
      → In e recorded
      → e.thread_id ≡ some thread
      → after < e.sequence
      → is_none_or through (λ last. leb e.sequence last) ≡ true
      → In e (query_sequence (some thread) after through inner).events
        ⊎ Reaches
            (get_or (query_sequence (some thread) after through inner).gap no_gap).before_sequence
            e.sequence
  unfolding query_sequence
  query_sequence_complete to_vec_len order config recorded thread after through e {inner} p i of
        later upto =
      elim (record_all-IsHonest to_vec_len order config recorded [] empty (λ a j. absurd j) p e
        (inl i)) [
          | inl here ↦ inl (
              In-filter (in_range (some thread) after through) e inner.events here
                (ground (arith, eq_iff thread thread)))
          | inr gone ↦ inr (rw of at gone)
        ]

  -- A query over all threads reports no loss of events of a thread: removing such an event leaves
  -- the gap in its answer as it was.
  pub query_all-remove_at :
      (to_vec_len : SequencedEvent V → Option ℕ) (inner : Inner V) (n after : ℕ)
      (through : Option ℕ) {e : SequencedEvent V} {rest : List (SequencedEvent V)} {thread : String}
      → remove_elem n inner.events ≡ some (e, rest)
      → e.thread_id ≡ some thread
      → ((query_sequence none after through (remove_at to_vec_len inner n)).gap
          ≡ lookup none inner.gaps)
        × ((query_sequence none after through (remove_at to_vec_len inner n)).events
            ≡ filter (in_range none after through) rest)
  unfolding query_sequence remove_at forget
  query_all-remove_at to_vec_len inner n after through {e} {rest} {thread} taken of =
      rw (taken, remove_at)
        (
          ground (
            arith,
            lookup-insert e.thread_id none
                (note_gap (get_or (lookup e.thread_id inner.gaps) no_gap) e) inner.gaps,
          ),
          refl,
        )
