-- ===== src/Streaming/Complete.antt =====
-- A reader of the lifecycle stream misses no event (src/streaming/src/lib.rs).
use codex_warden.Prelude.{
  ℕ, ◌≤◌, ◌<◌, ◌≡◌, refl, sym, ap, subst, ◌⊎◌, inl, inr, Bool, some, List, [], ◌∷◌, ◌++◌, arith,
  filter, ltb, All, In, In-append, In-of_append, All-at, In-filter, In-of_filter, get_last?,
  Bool-cases, Option-cases,
}
use codex_warden.Protocol.Event.{SequencedEvent}
use codex_warden.Reducer.State.{Reducer}
use codex_warden.Reducer.Replay.{events_since}
use codex_warden.Reducer.Log.{IsIncreasing, events_since_honest}
use codex_warden.Streaming.{
  LifecycleItem, LifecycleStream, cursor_after, caught_up, recv, lifecycle,
}
use codex_warden.Streaming.Session.{
  Step, got, fell_behind, hung_up, run_session, passed, HasApplied, IsSession, Tells, SomeTells,
}

later_told : {C T S : Type 0} → (C ⊎ T) ⊎ S → C ⊎ (T ⊎ S)
later_told (inl (inl c)) = inl c
later_told (inl (inr t)) = inr (inl t)
later_told (inr s) = inr (inr s)

module _ {V : Type 0} where
  -- In an increasing list what stands further back is larger.
  front-lt :
      (xs ys : List (SequencedEvent V)) (x y : SequencedEvent V)
      → IsIncreasing (xs ++ ys)
      → In x xs
      → In y ys
      → x.sequence < y.sequence
  front-lt [] ys x y h i j = absurd i
  front-lt (z ∷ zs) ys x y h (inl e) j =
      subst (λ w. w.sequence < y.sequence) (sym e)
        (All-at (λ w. z.sequence < w.sequence) y (zs ++ ys) h.0 (In-append y zs ys (inr j)))
  front-lt (z ∷ zs) ys x y h (inr i) j = front-lt zs ys x y h.1 i j

  All-front :
      (P : SequencedEvent V → Type 0) (xs ys : List (SequencedEvent V))
      → All P (xs ++ ys)
      → All P xs
  All-front P [] ys h = tt
  All-front P (x ∷ xs) ys h = (h.0, All-front P xs ys h.1)

  front-IsIncreasing : (xs ys : List (SequencedEvent V)) → IsIncreasing (xs ++ ys) → IsIncreasing xs
  front-IsIncreasing [] ys h = tt
  front-IsIncreasing (x ∷ xs) ys h =
      (All-front (λ later. x.sequence < later.sequence) xs ys h.0, front-IsIncreasing xs ys h.1)

  back-lt :
      (xs ys : List (SequencedEvent V)) (x y : SequencedEvent V)
      → IsIncreasing (xs ++ x ∷ ys)
      → In y ys
      → x.sequence < y.sequence
  back-lt [] ys x y h j = All-at (λ w. x.sequence < w.sequence) y ys h.0 j
  back-lt (z ∷ zs) ys x y h j = back-lt zs ys x y h.1 j

  In-get_last? :
      (es : List (SequencedEvent V)) (x : SequencedEvent V) → get_last? es ≡ some x → In x es
  In-get_last? [] x h = absurd (ground arith)
  In-get_last? (e ∷ []) x h = inl (let p : x ≡ e = ground arith in p)
  In-get_last? (e ∷ d ∷ es) x h = inr (In-get_last? (d ∷ es) x h)

  -- What is known before a step: the passed events are accounted for, and all that the cursor
  -- covers.
  record IsTold (sent seen : List (SequencedEvent V)) (cursor : ℕ) (C : ℕ → Type 0) : Type 0 where
    passed_told : (x : SequencedEvent V) → In x seen → C x.sequence
    cursor_told : (x : SequencedEvent V) → In x sent → x.sequence ≤ cursor → C x.sequence

  told_by_event :
      (sent seen later : List (SequencedEvent V)) (e : SequencedEvent V) (cursor : ℕ)
      (C : ℕ → Type 0)
      → IsIncreasing sent
      → sent ≡ seen ++ e ∷ later
      → IsTold sent seen cursor C
      → IsTold sent (seen ++ e ∷ []) e.sequence (λ n. C n ⊎ (e.sequence ≡ n))
  told_by_event sent seen later e cursor C inc split told = record {
    passed_told = λ x i. elim (In-of_append x seen (e ∷ []) i) [
      | inl old ↦ inl (told.passed_told x old)
      | inr (inl same) ↦ inr (ap (λ w. w.sequence) (sym same))
      | inr (inr none_left) ↦ absurd none_left
    ];
    cursor_told = λ x i le. elim (In-of_append x seen (e ∷ later) (subst (In x) split i)) [
      | inl old ↦ inl (told.passed_told x old)
      | inr (inl same) ↦ inr (ap (λ w. w.sequence) (sym same))
      | inr (inr after) ↦
          absurd (omega (arith, le, back-lt seen later e x (subst IsIncreasing split inc) after))
    ];
  }

  abbrev is_new : ℕ → SequencedEvent V → Bool
  is_new cursor e = ltb cursor e.sequence

  abbrev missed : ℕ → List (SequencedEvent V) → List (SequencedEvent V)
  missed cursor published = filter (is_new cursor) published

  -- A replay of all that was published behind the cursor.
  told_by_replay :
      (sent seen published later : List (SequencedEvent V)) (cursor : ℕ) (C : ℕ → Type 0)
      → IsIncreasing sent
      → sent ≡ published ++ later
      → ((x : SequencedEvent V) → In x seen → In x published)
      → ((x : SequencedEvent V) → In x sent → x.sequence ≤ cursor → C x.sequence)
      → IsTold sent seen
          (cursor_after cursor (get_last? (missed cursor published)))
          (λ n. C n ⊎ Tells (LifecycleItem.replay (missed cursor published)) n)
  told_by_replay sent seen published later cursor C inc split within told = record {
    passed_told = λ x i.
        replayed x (within x i)
          (told x (subst (In x) (sym split) (In-append x published later (inl (within x i)))));
    cursor_told = λ x i le. elim (Option-cases (get_last? (missed cursor published))) [
      | inl e ↦ inl (told x i (subst (λ o. x.sequence ≤ cursor_after cursor o) e le))
      | inr (last, e) ↦ elim (In-of_append x published later (subst (In x) split i)) [
        | inl here ↦ replayed x here (told x i)
        | inr after ↦ absurd (
            omega (
              arith,
              subst (λ o. x.sequence ≤ cursor_after cursor o) e le,
              front-lt published later last x (subst IsIncreasing split inc)
                  (In-of_filter (is_new cursor) last published
                    (In-get_last? (missed cursor published) last e)).0
                  after,
            ))
      ]
    ];
  }
    where
      replayed :
          (x : SequencedEvent V)
          → In x published
          → (x.sequence ≤ cursor → C x.sequence)
          → C x.sequence ⊎ Tells (LifecycleItem.replay (missed cursor published)) x.sequence
      replayed x i old = elim (Bool-cases (is_new cursor x)) [
        | inl fresh ↦ inr (x, In-filter (is_new cursor) x published i fresh, refl)
        | inr seen_before ↦ inl (old (ground arith))
      ]

  -- A snapshot as recent as all that was published.
  told_by_snapshot :
      (sent seen published : List (SequencedEvent V)) (at_sequence : ℕ) (C : ℕ → Type 0)
      → ((x : SequencedEvent V) → In x seen → In x published)
      → All (λ e. e.sequence ≤ at_sequence) published
      → IsTold sent seen at_sequence (λ n. C n ⊎ (n ≤ at_sequence))
  told_by_snapshot sent seen published at_sequence C within known = record {
    passed_told =
        λ x i. inr (All-at (λ e. e.sequence ≤ at_sequence) x published known (within x i));
    cursor_told = λ x i le. inr le;
  }

  told_by_lag :
      (capacity : ℕ) (sent seen skipped : List (SequencedEvent V)) (r : Reducer V)
      (stream : LifecycleStream) (C : ℕ → Type 0)
      → 0 < capacity
      → IsIncreasing sent
      → HasApplied capacity sent (seen ++ skipped) r
      → IsTold sent seen stream.cursor C
      → IsTold sent
          (seen ++ skipped)
          (caught_up stream (events_since stream.cursor r)).1.cursor
          (λ n. C n ⊎ Tells (caught_up stream (events_since stream.cursor r)).0 n)
  unfolding caught_up
  told_by_lag capacity sent seen skipped r stream C pos inc a told =
      elim (events_since_honest capacity stream.cursor a.history r pos a.tail (
        subst IsIncreasing (sym a.applied) (
          front-IsIncreasing ((seen ++ skipped) ++ a.more) a.later
            (subst IsIncreasing a.in_order inc)))) [
              | inl complete ↦
                  rw (complete, a.applied)
                    (told_by_replay sent (seen ++ skipped) ((seen ++ skipped) ++ a.more) a.later
                      stream.cursor C inc a.in_order
                      (λ x i. In-append x (seen ++ skipped) a.more (inl i)) told.cursor_told)
              | inr (first, o, far, gap) ↦ rw gap (
                  told_by_snapshot sent (seen ++ skipped) ((seen ++ skipped) ++ a.more)
                    r.state.at_sequence C (λ x i. In-append x (seen ++ skipped) a.more (inl i))
                    a.known)
            ]

  -- the items of the rest of a session account for what is not yet accounted for
  all_told :
      (capacity : ℕ) (sent seen : List (SequencedEvent V)) (steps : List (Step V))
      (stream : LifecycleStream) (C : ℕ → Type 0)
      → 0 < capacity
      → IsIncreasing sent
      → IsSession capacity sent seen steps
      → IsTold sent seen stream.cursor C
      → (x : SequencedEvent V) → In x (passed seen steps)
      → C x.sequence ⊎ SomeTells (run_session steps stream) x.sequence
  unfolding run_session recv
  all_told capacity sent seen [] stream C pos inc s told x i = inl (told.passed_told x i)
  all_told capacity sent seen (got e r ∷ steps) stream C pos inc ((later, split), s) told x i =
      later_told (
        all_told capacity sent (seen ++ e ∷ []) steps (record { cursor = e.sequence })
          (λ n. C n ⊎ (e.sequence ≡ n)) pos inc s
          (told_by_event sent seen later e stream.cursor C inc split told) x i)
  all_told capacity sent seen (fell_behind skipped r ∷ steps) stream C pos inc (a, s) told x i =
      later_told (
        all_told capacity sent (seen ++ skipped) steps
          (caught_up stream (events_since stream.cursor r)).1
          (λ n. C n ⊎ Tells (caught_up stream (events_since stream.cursor r)).0 n) pos inc s
          (told_by_lag capacity sent seen skipped r stream C pos inc a told) x i)
  all_told capacity sent seen (hung_up r ∷ steps) stream C pos inc s told x i =
      elim (all_told capacity sent seen steps stream C pos inc s told x i) [
        | inl old ↦ inl old
        | inr new ↦ inr (inr new)
      ]

  -- Nothing is lost on the lifecycle stream. A reader opens it at a sequence that it knows
  -- everything up to, and takes items while the channel delivers, or drops events on the reader
  -- and is caught up from the reducer, which has applied every event before it was sent. Then each
  -- lifecycle event that the channel has passed was known at the start or is accounted for by an
  -- item: the event itself, a replay that holds it, or a snapshot at least as recent.
  pub run_session_complete :
      (capacity after : ℕ) (sent before : List (SequencedEvent V)) (steps : List (Step V))
      (e : SequencedEvent V)
      → 0 < capacity
      → IsIncreasing sent
      → All (λ x. x.sequence ≤ after) before
      → IsSession capacity sent before steps
      → In e (passed before steps)
      → (e.sequence ≤ after) ⊎ SomeTells (run_session steps (lifecycle after)) e.sequence
  run_session_complete capacity after sent before steps e pos inc known s i =
      all_told capacity sent before steps (lifecycle after) (λ n. n ≤ after) pos inc s
        (record {
          passed_told = λ x j. All-at (λ x. x.sequence ≤ after) x before known j;
          cursor_told = λ x j le. le;
        })
        e i
