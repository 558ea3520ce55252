-- ===== src/Reducer/Log.antt =====
-- The retained lifecycle log against the whole history, and the honesty of `events_since`
-- (src/reducer/src/lib.rs).
use mathlib.Core.List.{append-nil, append_assoc}
use codex_warden.Prelude.{
  ℕ, suc, ◌≤◌, ◌<◌, ◌≡◌, refl, ap, ◌∙◌, sym, ◌⊎◌, inl, inr, Bool, true, false, not, Option, none,
  some, List, [], ◌∷◌, ◌++◌, arith, Bool-cases, ltb, length, length-append, filter, filter-append,
  All, is_some_and, saturating_add,
}
use codex_warden.Protocol.Event.{SequencedEvent}
use codex_warden.Store.State.{is_delta}
use codex_warden.Reducer.State.{Reducer}
use codex_warden.Reducer.Apply.{trim, apply_log}
use codex_warden.Reducer.Replay.{ReplayResult, oldest, events_since}

module _ {V : Type 0} where
  abbrev pub is_lifecycle : SequencedEvent V → Bool
  is_lifecycle e = not (is_delta e.plane)

  -- The log holds the end of the lifecycle history: what was dropped stands before it, and nothing
  -- was dropped while there was room.
  pub record IsTail (capacity : ℕ) (history log : List (SequencedEvent V)) : Type 0 where
    pub dropped : List (SequencedEvent V)
    pub split : filter is_lifecycle history ≡ dropped ++ log
    pub bounded : length log ≤ capacity
    pub full : (dropped ≡ []) ⊎ (length log ≡ capacity)

  -- `trim` drops what is too much from the front, and no more.
  trim_lem :
      (capacity : ℕ) (es : List (SequencedEvent V))
      → (front : List (SequencedEvent V)) × (es ≡ front ++ trim capacity es)
        × (length (trim capacity es) ≤ capacity)
        × ((front ≡ []) ⊎ (length (trim capacity es) ≡ capacity))
  unfolding trim
  trim_lem capacity [] = ([], refl, omega arith, inl refl)
  trim_lem capacity (e ∷ es) = elim (Bool-cases (ltb capacity (length (e ∷ es)))) [
    | inl over ↦
        let (front, s, b, f) = trim_lem capacity es in
        rw over (e ∷ front, ap (◌∷◌ e) s, b, inr (trimmed_full es front f s b (ground arith)))
    | inr fits ↦ rw fits ([], refl, ground arith, inl refl)
  ]
    where
      trimmed_full :
          (es front : List (SequencedEvent V))
          → (front ≡ []) ⊎ (length (trim capacity es) ≡ capacity)
          → es ≡ front ++ trim capacity es
          → length (trim capacity es) ≤ capacity
          → capacity ≤ length es
          → length (trim capacity es) ≡ capacity
      trimmed_full es front (inl empty) s b h =
          omega (arith, ap length s, ap (λ l. length (l ++ trim capacity es)) empty)
      trimmed_full es front (inr done) s b h = done

  -- The log after an event is still the end of the lifecycle history: a lifecycle event is added to
  -- both, a delta to neither, and events leave the front only when the log is full.
  pub apply_log-IsTail :
      (capacity : ℕ) (history log : List (SequencedEvent V)) (e : SequencedEvent V)
      → IsTail capacity history log
      → IsTail capacity (history ++ e ∷ []) (apply_log capacity e log)
  unfolding apply_log
  apply_log-IsTail capacity history log e t = elim (Bool-cases (is_delta e.plane)) [
    | inl delta ↦ rw delta (record {
      dropped = t.dropped;
      split = rw (filter-append is_lifecycle history (e ∷ []), delta, append-nil) t.split;
      bounded = t.bounded;
      full = t.full;
    })
    | inr life ↦ rw life (grown life (trim_lem capacity (log ++ e ∷ [])))
  ]
    where
      grown :
          is_delta e.plane ≡ false
          → (front : List (SequencedEvent V)) × (log ++ e ∷ []
              ≡ front ++ trim capacity (log ++ e ∷ []))
            × (length (trim capacity (log ++ e ∷ [])) ≤ capacity)
            × ((front ≡ []) ⊎ (length (trim capacity (log ++ e ∷ [])) ≡ capacity))
          → IsTail capacity (history ++ e ∷ []) (trim capacity (log ++ e ∷ []))
      grown life (front, s, b, f) = record {
        dropped = t.dropped ++ front;
        split =
            rw (filter-append is_lifecycle history (e ∷ []), life, t.split)
              (append_assoc t.dropped log (e ∷ [])
                ∙ ap (◌++◌ t.dropped) s
                ∙ sym (append_assoc t.dropped front (trim capacity (log ++ e ∷ []))));
        bounded = b;
        full = elim f [
          | inr done ↦ inr done
          | inl none_cut ↦ elim t.full [
            | inl empty ↦ inl (rw (empty, none_cut) refl)
            | inr room ↦ absurd (
                omega (
                  arith,
                  ap length s,
                  ap (λ l. length (l ++ trim capacity (log ++ e ∷ []))) none_cut,
                  length-append log (e ∷ []),
                ))
          ]
        ];
      }

  -- Each event has a larger sequence than those before it.
  abbrev pub IsIncreasing : List (SequencedEvent V) → Type 0
  IsIncreasing [] = Unit
  IsIncreasing (e ∷ es) = All (λ later. e.sequence < later.sequence) es × IsIncreasing es

  All-drop_front :
      (P : SequencedEvent V → Type 0) (xs ys : List (SequencedEvent V))
      → All P (xs ++ ys)
      → All P ys
  All-drop_front P [] ys h = h
  All-drop_front P (x ∷ xs) ys h = All-drop_front P xs ys h.1

  -- In an increasing list all that stands before an element is smaller.
  before-lt :
      (xs : List (SequencedEvent V)) (y : SequencedEvent V) (ys : List (SequencedEvent V))
      → IsIncreasing (xs ++ y ∷ ys)
      → All (λ x. x.sequence < y.sequence) xs
  before-lt [] y ys h = tt
  before-lt (x ∷ xs) y ys h = (
    (All-drop_front (λ later. x.sequence < later.sequence) xs (y ∷ ys) h.0).0,
    before-lt xs y ys h.1,
  )

  filter_of_seen :
      (n s : ℕ) (xs : List (SequencedEvent V))
      → n ≤ suc s
      → All (λ x. x.sequence < n) xs
      → filter (λ e. ltb s e.sequence) xs ≡ []
  filter_of_seen n s [] b h = refl
  filter_of_seen n s (x ∷ xs) b h = ground (arith, filter_of_seen n s xs b h.1)

  -- The events that the log lacks are none that the answer wants.
  nothing_missed :
      (capacity s : ℕ) (log dropped : List (SequencedEvent V))
      → 0 < capacity
      → (dropped ≡ []) ⊎ (length log ≡ capacity)
      → IsIncreasing (dropped ++ log)
      → is_some_and (oldest log) (λ first. ltb (saturating_add s 1) first) ≡ false
      → filter (λ e. ltb s e.sequence) dropped ≡ []
  unfolding oldest saturating_add
  nothing_missed capacity s [] dropped pos (inl empty) inc h = rw empty
  nothing_missed capacity s [] dropped pos (inr room) inc h = absurd (omega arith)
  nothing_missed capacity s (y ∷ ys) dropped pos full inc h =
      filter_of_seen y.sequence s dropped (ground arith) (before-lt dropped y ys inc)

  -- Replay loses nothing silently. With a positive capacity, and lifecycle events received in
  -- increasing sequence, the answer is either every lifecycle event of the whole history that comes
  -- after the given sequence, or a gap that names the oldest retained event, more than one past the
  -- given sequence (or past the largest word), with the current snapshot.
  pub events_since_honest :
      (capacity s : ℕ) (history : List (SequencedEvent V)) (r : Reducer V)
      → 0 < capacity
      → IsTail capacity history r.lifecycle
      → IsIncreasing (filter is_lifecycle history)
      → (events_since s r
          ≡ ReplayResult.events (filter (λ e. ltb s e.sequence) (filter is_lifecycle history)))
        ⊎ ((first : ℕ) × (oldest r.lifecycle ≡ some first)
            × (saturating_add s 1 < first)
            × (events_since s r ≡ ReplayResult.gap_too_old s (some first) r.state.snapshot))
  unfolding events_since
  events_since_honest capacity s history r pos t inc =
      elim (Bool-cases
        (is_some_and (oldest r.lifecycle) (λ first. ltb (saturating_add s 1) first))) [
          | inl gap ↦ inr (gap_case (oldest r.lifecycle) refl gap)
          | inr near ↦ inl (
              rw (
                near,
                t.split,
                filter-append (λ e. ltb s e.sequence) t.dropped,
                nothing_missed capacity s r.lifecycle t.dropped pos t.full (rw t.split at inc) near,
              ))
        ]
    where
      gap_case :
          (o : Option ℕ)
          → oldest r.lifecycle ≡ o
          → is_some_and o (λ first. ltb (saturating_add s 1) first) ≡ true
          → (first : ℕ) × (oldest r.lifecycle ≡ some first)
            × (saturating_add s 1 < first)
            × (events_since s r ≡ ReplayResult.gap_too_old s (some first) r.state.snapshot)
      gap_case none e h = absurd (ground arith)
      gap_case (some first) e h = (first, e, ground arith, rw (e, h))
