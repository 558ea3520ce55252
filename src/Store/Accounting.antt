-- ===== src/Store/Accounting.antt =====
-- The byte counters of the store agree with the events that it retains.
use codex_warden.Prelude.{
  ℕ, zero, suc, ◌+◌, ◌-◌, ◌<◌, ◌≡◌, refl, inl, inr, true, false, String, Option, none, some, get_or,
  List, Map, [], ◌∷◌, lookup, lookup-insert, option_eq, string_eq, eq_iff, if◌then◌else◌, arith,
  Option-cases, wrapping_add, wrapping_add-eq, word_mod, ltb, is_some_and, head?,
}
use codex_warden.Protocol.Event.{SequencedEvent}
use codex_warden.Store.State.{
  Inner, empty, remove_elem, encoded_len, add_thread, sub_thread, forget, remove_at,
}
use codex_warden.Store.Prune.{push_event, expire}
use codex_warden.Store.Sizes.{
  total, total_of, total_of-le, total-append, total_of-append, total-remove_elem,
  total_of-remove_elem,
}

-- The bytes of a thread; a thread with no entry has none.
abbrev pub bytes_of : String → Map String ℕ → ℕ
bytes_of t m = get_or (lookup t m) 0

bytes_of-add_thread :
    (thread : Option String) (size : ℕ) (m : Map String ℕ) (t : String)
    → bytes_of t (add_thread thread size m)
      ≡ (if option_eq.beq thread (some t) then wrapping_add (bytes_of t m) size else bytes_of t m)
unfolding add_thread
bytes_of-add_thread none size m t = refl
bytes_of-add_thread (some k) size m t =
    ground (arith, lookup-insert k t (wrapping_add (bytes_of k m) size) m, eq_iff k t)

bytes_of-sub_thread :
    (thread : Option String) (size : ℕ) (m : Map String ℕ) (t : String)
    → bytes_of t (sub_thread thread size m)
      ≡ (if option_eq.beq thread (some t) then bytes_of t m - size else bytes_of t m)
unfolding sub_thread
bytes_of-sub_thread none size m t = refl
bytes_of-sub_thread (some k) size m t =
    ground (arith, lookup-insert k t (bytes_of k m - size) m, eq_iff k t)

module _ {V : Type 0} (to_vec_len : SequencedEvent V → Option ℕ) where
  -- The counters are the sums over the retained events.
  pub record IsAccounted (inner : Inner V) : Type 0 where
    pub bytes_total : inner.bytes ≡ total to_vec_len inner.events
    pub thread_total :
        (t : String) → bytes_of t inner.thread_bytes ≡ total_of to_vec_len t inner.events

  pub empty-IsAccounted : IsAccounted empty
  unfolding total total_of lookup
  empty-IsAccounted = record { bytes_total = refl; thread_total = λ t. refl }

  pub push_event-IsAccounted :
      (inner : Inner V) (e : SequencedEvent V)
      → IsAccounted inner
      → inner.bytes + encoded_len to_vec_len e < word_mod
      → IsAccounted (push_event to_vec_len inner e)
  unfolding push_event total total_of
  push_event-IsAccounted inner e acc fits = record {
    bytes_total = omega (
      arith,
      acc.bytes_total,
      wrapping_add-eq inner.bytes (encoded_len to_vec_len e),
      total-append to_vec_len inner.events (e ∷ []),
    );
    thread_total = λ t. ground (
      arith,
      bytes_of-add_thread e.thread_id (encoded_len to_vec_len e) inner.thread_bytes t,
      acc.thread_total t,
      acc.bytes_total,
      total_of-le to_vec_len t inner.events,
      total_of-append to_vec_len t inner.events (e ∷ []),
      wrapping_add-eq (bytes_of t inner.thread_bytes) (encoded_len to_vec_len e),
    );
  }

  forget-IsAccounted :
      (inner : Inner V) (n : ℕ) {e : SequencedEvent V} {rest : List (SequencedEvent V)}
      → IsAccounted inner
      → remove_elem n inner.events ≡ some (e, rest)
      → IsAccounted (forget to_vec_len inner e rest)
  unfolding forget total_of
  forget-IsAccounted inner n {e} {rest} acc h = record {
    bytes_total = omega (arith, acc.bytes_total, total-remove_elem to_vec_len n inner.events h);
    thread_total = λ t. ground (
      arith,
      bytes_of-sub_thread e.thread_id (encoded_len to_vec_len e) inner.thread_bytes t,
      acc.thread_total t,
      total_of-remove_elem to_vec_len t n inner.events h,
    );
  }

  pub remove_at-IsAccounted :
      (inner : Inner V) (n : ℕ) → IsAccounted inner → IsAccounted (remove_at to_vec_len inner n)
  unfolding remove_at
  remove_at-IsAccounted inner n acc = elim (Option-cases (remove_elem n inner.events)) [
    | inl e ↦ rw (e, remove_at) acc
    | inr ((y, rest), e) ↦ rw (e, remove_at) (forget-IsAccounted inner n acc e)
  ]

  pub expire-IsAccounted :
      (rounds cutoff : ℕ) (inner : Inner V)
      → IsAccounted inner
      → IsAccounted (expire to_vec_len rounds cutoff inner)
  unfolding expire
  expire-IsAccounted zero cutoff inner acc = acc
  expire-IsAccounted (suc rounds) cutoff inner acc =
      elim (is_some_and (head? inner.events) (λ e. ltb e.monotonic_ms cutoff))
        as (λ b.
          IsAccounted
            (if b then expire to_vec_len rounds cutoff (remove_at to_vec_len inner 0) else inner)) [
              | true ↦ expire-IsAccounted rounds cutoff _ (remove_at-IsAccounted inner 0 acc)
              | false ↦ acc
            ]
