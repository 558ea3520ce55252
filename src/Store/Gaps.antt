-- ===== src/Store/Gaps.antt =====
-- What the store has dropped is reported: the gaps of src/store/src/lib.rs.
use codex_warden.Prelude.{
  In, In-append, ℕ, zero, suc, ◌≤◌, ◌≡◌, ◌⊎◌, inl, inr, true, false, String, Option, none, some,
  get_or, List, [], ◌∷◌, Map, lookup, lookup-insert, string_eq, option_eq, option_beq_iff, beq_self,
  if◌then◌else◌, arith, Option-cases, Bool-cases, is_some_and, head?, ltb, not, ◌&&◌, is_some,
  length, subst, and_then,
}
use codex_warden.Protocol.Event.{SequencedEvent}
use codex_warden.Store.State.{
  StoreConfig, RetentionGap, Inner, no_gap, before_max, note_gap, remove_elem, forget, remove_at,
}
use codex_warden.Store.Prune.{
  over_thread, over_global, victim, expire, enforce, cutoff_of, prune_locked, push_event,
  record_locked,
}
use codex_warden.Store.Sizes.{In-remove_elem}

-- A summary that reaches at least up to a sequence.
abbrev pub Reaches : Option ℕ → ℕ → Type 0
Reaches none s = ⊥
Reaches (some b) s = s ≤ b

-- The gap of an event's thread reaches the event.
abbrev pub IsReported : {V : Type 0} → Map (Option String) RetentionGap → SequencedEvent V → Type 0
IsReported gaps e = Reaches (get_or (lookup e.thread_id gaps) no_gap).before_sequence e.sequence

module _ {V : Type 0} (to_vec_len : SequencedEvent V → Option ℕ) where
  -- Every event of a history is retained, or the gap of its thread reports it.
  abbrev pub IsHonest : List (SequencedEvent V) → Inner V → Type 0
  IsHonest history inner =
      (e : SequencedEvent V) → In e history → In e inner.events ⊎ IsReported inner.gaps e

  note_gap_before :
      (gap : RetentionGap) (e : SequencedEvent V)
      → (note_gap gap e).before_sequence ≡ some (before_max gap.before_sequence e.sequence)
  unfolding note_gap
  note_gap_before gap e = ground arith

  before_max_grows : (b : Option ℕ) (n s : ℕ) → Reaches b s → Reaches (some (before_max b n)) s
  before_max_grows none n s h = absurd h
  before_max_grows (some b) n s h = omega arith

  before_max_self : (b : Option ℕ) (n : ℕ) → Reaches (some (before_max b n)) n
  before_max_self none n = omega arith
  before_max_self (some b) n = omega arith

  module _ (inner : Inner V) (y : SequencedEvent V) (rest : List (SequencedEvent V)) where
    forget_reports :
        (e : SequencedEvent V)
        → IsReported inner.gaps e
        → IsReported (forget to_vec_len inner y rest).gaps e
    unfolding forget
    forget_reports e h = elim (Bool-cases (option_eq.beq y.thread_id e.thread_id)) [
      | inl same ↦
          rw (lookup-insert, same, note_gap_before)
            (before_max_grows _ y.sequence e.sequence
              (rw ((option_beq_iff y.thread_id e.thread_id).0 same) h))
      | inr other ↦ rw (lookup-insert, other) h
    ]

    forget_reports_self : IsReported (forget to_vec_len inner y rest).gaps y
    unfolding forget
    forget_reports_self =
        rw (lookup-insert, beq_self y.thread_id, note_gap_before) (before_max_self _ y.sequence)

  forget_cases :
      (inner : Inner V) (n : ℕ) (y : SequencedEvent V) (rest : List (SequencedEvent V))
      (e : SequencedEvent V)
      → remove_elem n inner.events ≡ some (y, rest)
      → In e inner.events ⊎ IsReported inner.gaps e
      → In e rest ⊎ IsReported (forget to_vec_len inner y rest).gaps e
  forget_cases inner n y rest e taken (inr gone) = inr (forget_reports inner y rest e gone)
  forget_cases inner n y rest e taken (inl here) =
      elim (In-remove_elem n inner.events e taken here) [
        | inl p ↦ inr (rw p (forget_reports_self inner y rest))
        | inr k ↦ inl k
      ]

  pub remove_at-IsHonest :
      (history : List (SequencedEvent V)) (inner : Inner V) (n : ℕ)
      → IsHonest history inner
      → IsHonest history (remove_at to_vec_len inner n)
  unfolding remove_at forget
  remove_at-IsHonest history inner n h e i = elim (Option-cases (remove_elem n inner.events)) [
    | inl none_left ↦ rw (none_left, remove_at) (h e i)
    | inr ((y, rest), taken) ↦ rw (taken, remove_at) (forget_cases inner n y rest e taken (h e i))
  ]

  expire-IsHonest :
      (history : List (SequencedEvent V)) (rounds cutoff : ℕ) (inner : Inner V)
      → IsHonest history inner
      → IsHonest history (expire to_vec_len rounds cutoff inner)
  unfolding expire
  expire-IsHonest history zero cutoff inner h = h
  expire-IsHonest history (suc rounds) cutoff inner h =
      elim (is_some_and (head? inner.events) (λ e. ltb e.monotonic_ms cutoff))
        as (λ b.
          IsHonest history
            (if b then expire to_vec_len rounds cutoff (remove_at to_vec_len inner 0) else inner)) [
              | true ↦
                  expire-IsHonest history rounds cutoff (remove_at to_vec_len inner 0)
                    (remove_at-IsHonest history inner 0 h)
              | false ↦ h
            ]

  module _ (order : Map String ℕ → Map String ℕ) (config : StoreConfig) where
    enforce-IsHonest :
        (history : List (SequencedEvent V)) (fuel : ℕ) (inner : Inner V) {inner' : Inner V}
        → IsHonest history inner
        → enforce to_vec_len order config fuel inner ≡ some inner'
        → IsHonest history inner'
    unfolding enforce
    enforce-IsHonest history zero inner h p = absurd (ground arith)
    enforce-IsHonest history (suc fuel) inner {inner'} h p =
        elim (Bool-cases
          (not (over_global config inner) && not (is_some (over_thread order config inner)))) [
            | inl done ↦
                subst (IsHonest history) (let same : inner ≡ inner' = ground arith in same) h
            | inr more ↦
                let n = victim (over_thread order config inner) inner in
                enforce-IsHonest history fuel (remove_at to_vec_len inner n)
                  (remove_at-IsHonest history inner n h) (rw more at p)
          ]

    push_event-IsHonest :
        (history : List (SequencedEvent V)) (inner : Inner V) (new : SequencedEvent V)
        → IsHonest history inner
        → IsHonest (new ∷ history) (push_event to_vec_len inner new)
    unfolding push_event
    push_event-IsHonest history inner new h e (inl p) =
        inl (In-append e inner.events (new ∷ []) (inr (inl p)))
    push_event-IsHonest history inner new h e (inr i) = elim (h e i) [
      | inl here ↦ inl (In-append e inner.events (new ∷ []) (inl here))
      | inr gone ↦ inr gone
    ]

    -- After an event is recorded, it and every event recorded before is retained, or the gap of its
    -- thread reaches its sequence.
    pub record_locked-IsHonest :
        (history : List (SequencedEvent V)) (inner : Inner V) (new : SequencedEvent V)
        {inner' : Inner V}
        → IsHonest history inner
        → record_locked to_vec_len order config inner new ≡ some inner'
        → IsHonest (new ∷ history) inner'
    unfolding record_locked prune_locked
    record_locked-IsHonest history inner new h p =
        let pushed = push_event to_vec_len inner new in
        let kept = expire to_vec_len (length pushed.events) (cutoff_of config pushed) pushed in
        enforce-IsHonest (new ∷ history) (suc (length kept.events)) kept
          (expire-IsHonest (new ∷ history) (length pushed.events) (cutoff_of config pushed) pushed
            (push_event-IsHonest history inner new h))
          p

    -- The store after events are recorded one by one, from the first.
    abbrev pub record_all : List (SequencedEvent V) → Inner V → Option (Inner V)
    record_all [] inner = some inner
    record_all (e ∷ es) inner =
        and_then (record_locked to_vec_len order config inner e) (record_all es)

    pub record_all-IsHonest :
        (es history : List (SequencedEvent V)) (inner : Inner V) {inner' : Inner V}
        → IsHonest history inner
        → record_all es inner ≡ some inner'
        → (e : SequencedEvent V) → In e es ⊎ In e history
        → In e inner'.events ⊎ IsReported inner'.gaps e
    record_all-IsHonest [] history inner {inner'} h p e (inl i) = absurd i
    record_all-IsHonest [] history inner {inner'} h p e (inr i) =
        subst (IsHonest history) (let same : inner ≡ inner' = ground arith in same) h e i
    record_all-IsHonest (x ∷ xs) history inner h p e i =
        elim (Option-cases (record_locked to_vec_len order config inner x)) [
          | inl stuck ↦ absurd (ground arith)
          | inr (next, q) ↦
              record_all-IsHonest xs (x ∷ history) next (record_locked-IsHonest history inner x h q)
                (rw q at p) e
                (elim i [ inl (inl a) ↦ inr (inl a) | inl (inr a) ↦ inl a | inr a ↦ inr (inr a) ])
        ]
