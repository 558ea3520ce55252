-- ===== src/Store/Idle.antt =====
-- `evict_idle_content` and `record_reconstructed_active_turn` (src/store/src/lib.rs).
use mathlib.Core.List.{append-nil, append_assoc}
use codex_warden.Prelude.{
  ℕ, zero, suc, ◌≤◌, ◌<◌, ◌≡◌, refl, ap, inl, inr, Bool, true, false, not, String, Option, some,
  List, [], ◌∷◌, ◌++◌, if◌then◌else◌, arith, Bool-cases, length, get_elem?, filter, is_some_and,
  filter-append, length-append, none, ◌&&◌, ◌==◌, string_eq, any,
}
use codex_warden.Protocol.Frame.{Plane}
use codex_warden.Protocol.Event.{SequencedEvent}
use codex_warden.Store.State.{Inner, is_delta, remove_elem, forget, remove_at}
use codex_warden.Store.Prune.{is_idle_content, evict_below, evict_idle_content}
use codex_warden.Store.Accounting.{IsAccounted, remove_at-IsAccounted}

module _ {A : Type 0} where
  -- A list split where its first elements end.
  abbrev take : ℕ → List A → List A
  take zero xs = []
  take (suc n) [] = []
  take (suc n) (x ∷ xs) = x ∷ take n xs

  abbrev drop : ℕ → List A → List A
  drop zero xs = xs
  drop (suc n) [] = []
  drop (suc n) (x ∷ xs) = drop n xs

  split_at :
      (n : ℕ) (xs : List A)
      → n < length xs
      → (y : A) × (get_elem? xs n ≡ some y)
        × (take (suc n) xs ≡ take n xs ++ y ∷ [])
        × (drop n xs ≡ y ∷ drop (suc n) xs)
        × (remove_elem n xs ≡ some (y, take n xs ++ drop (suc n) xs))
  unfolding remove_elem
  split_at n [] h = absurd (omega arith)
  split_at zero (x ∷ xs) h = (x, refl, refl, refl, refl)
  split_at (suc n) (x ∷ xs) h =
      let (y, a, b, c, d) = split_at n xs (omega arith) in (y, a, ap (◌∷◌ x) b, c, rw d)

  take-append : (n : ℕ) (xs ys : List A) → length xs ≡ n → take n (xs ++ ys) ≡ xs
  take-append zero [] ys h = refl
  take-append zero (x ∷ xs) ys h = absurd (omega arith)
  take-append (suc n) [] ys h = absurd (omega arith)
  take-append (suc n) (x ∷ xs) ys h = ap (◌∷◌ x) (take-append n xs ys (omega arith))

  drop-append : (n : ℕ) (xs ys : List A) → length xs ≡ n → drop n (xs ++ ys) ≡ ys
  drop-append zero [] ys h = refl
  drop-append zero (x ∷ xs) ys h = absurd (omega arith)
  drop-append (suc n) [] ys h = absurd (omega arith)
  drop-append (suc n) (x ∷ xs) ys h = drop-append n xs ys (omega arith)

  length-take : (n : ℕ) (xs : List A) → n ≤ length xs → length (take n xs) ≡ n
  length-take zero xs h = refl
  length-take (suc n) [] h = absurd (omega arith)
  length-take (suc n) (x ∷ xs) h = omega (arith, length-take n xs)

  take_all : (xs : List A) → take (length xs) xs ≡ xs
  take_all [] = refl
  take_all (x ∷ xs) = ap (◌∷◌ x) (take_all xs)

  drop_all : (xs : List A) → drop (length xs) xs ≡ []
  drop_all [] = refl
  drop_all (x ∷ xs) = drop_all xs

-- The thread is not among those named.
abbrev is_absent : String → List String → Bool
is_absent t [] = true
is_absent t (i ∷ ts) = if i == t then false else is_absent t ts

module _ {V : Type 0} (to_vec_len : SequencedEvent V → Option ℕ) (idle : List String) where
  -- What an eviction leaves alone: lifecycle events, events without a thread and the deltas of
  -- threads that are not named as idle.
  abbrev stays : Plane → Option String → Bool
  stays Plane.lifecycle thread = true
  stays Plane.delta none = true
  stays Plane.delta (some t) = is_absent t idle

  abbrev pub is_kept : SequencedEvent V → Bool
  is_kept e = stays e.plane e.thread_id

  is_absent-any : (t : String) (ts : List String) → any (λ i. i == t) ts ≡ not (is_absent t ts)
  is_absent-any t [] = refl
  is_absent-any t (i ∷ ts) = ground (arith, is_absent-any t ts)

  stays_lem :
      (plane : Plane) (thread : Option String)
      → (is_delta plane && is_some_and thread (λ t. any (λ i. i == t) idle))
        ≡ not (stays plane thread)
  stays_lem Plane.lifecycle thread = refl
  stays_lem Plane.delta none = refl
  stays_lem Plane.delta (some t) = is_absent-any t idle

  is_kept_lem : (e : SequencedEvent V) → is_kept e ≡ not (is_idle_content idle e)
  unfolding is_idle_content
  is_kept_lem e = let opposite = stays_lem e.plane e.thread_id in ground (arith, opposite)

  pub events-remove_at :
      (inner : Inner V) (n : ℕ) {y : SequencedEvent V} {rest : List (SequencedEvent V)}
      → remove_elem n inner.events ≡ some (y, rest)
      → (remove_at to_vec_len inner n).events ≡ rest
  unfolding remove_at forget
  events-remove_at inner n e = rw (e, remove_at)

  -- The same list, kept elements first, where the element between the two parts is dropped or kept.
  filter_dropped :
      (xs ys : List (SequencedEvent V)) (y : SequencedEvent V)
      → is_idle_content idle y ≡ true
      → filter is_kept (xs ++ y ∷ []) ++ ys ≡ filter is_kept xs ++ ys
  filter_dropped xs ys y e = rw (filter-append is_kept xs (y ∷ []), is_kept_lem y, e, append-nil)

  filter_retained :
      (xs ys : List (SequencedEvent V)) (y : SequencedEvent V)
      → is_idle_content idle y ≡ false
      → filter is_kept (xs ++ y ∷ []) ++ ys ≡ filter is_kept xs ++ y ∷ ys
  filter_retained xs ys y e = rw (filter-append is_kept xs (y ∷ []), is_kept_lem y, e, append_assoc)

  evict_below-suc :
      (n : ℕ) (inner : Inner V) {o : Option (SequencedEvent V)}
      → get_elem? inner.events n ≡ o
      → evict_below to_vec_len idle (suc n) inner
        ≡ evict_below to_vec_len idle n
            (if is_some_and o (is_idle_content idle) then remove_at to_vec_len inner n else inner)
  unfolding evict_below
  evict_below-suc n inner at =
      ap
        (λ o.
          evict_below to_vec_len idle n
            (if is_some_and o (is_idle_content idle) then remove_at to_vec_len inner n else inner))
        at

  evict_below-filter :
      (n : ℕ) (inner : Inner V)
      → n ≤ length inner.events
      → (evict_below to_vec_len idle n inner).events
        ≡ filter is_kept (take n inner.events) ++ drop n inner.events
  evict_below-filter zero inner h = unfold evict_below in refl
  evict_below-filter (suc n) inner h =
      let (y, at, front, back, out) = split_at n inner.events h in
      let before = take n inner.events in
      let after = drop (suc n) inner.events in
      let short : length before ≡ n = length-take n inner.events (omega arith) in
      elim (Bool-cases (is_idle_content idle y)) [
        | inl e ↦
            let shorter = events-remove_at inner n out in
            rw (
              evict_below-suc n inner at,
              e,
              front,
              filter_dropped before after y e,
              evict_below-filter n (remove_at to_vec_len inner n)
                  (rw (shorter, length-append before after, short) (omega arith)),
              shorter,
              take-append n before after short,
              drop-append n before after short,
            )
        | inr e ↦ rw (
          evict_below-suc n inner at,
          e,
          front,
          filter_retained before after y e,
          evict_below-filter n inner (omega arith),
          back,
        )
      ]

  evict_below-IsAccounted :
      (n : ℕ) (inner : Inner V)
      → IsAccounted to_vec_len inner
      → IsAccounted to_vec_len (evict_below to_vec_len idle n inner)
  unfolding evict_below
  evict_below-IsAccounted zero inner acc = acc
  evict_below-IsAccounted (suc n) inner acc =
      evict_below-IsAccounted n _
        (kept_either (is_some_and (get_elem? inner.events n) (is_idle_content idle)))
    where
      kept_either :
          (b : Bool) → IsAccounted to_vec_len (if b then remove_at to_vec_len inner n else inner)
      kept_either true = remove_at-IsAccounted to_vec_len inner n acc
      kept_either false = acc

  -- Evicting the content of idle threads removes exactly the deltas of the threads named as idle.
  -- Every lifecycle event, also of an idle thread, and every event of another thread, or of none,
  -- stays, in order, and the byte counters still agree.
  pub evict_idle_content-filter :
      (inner : Inner V)
      → IsAccounted to_vec_len inner
      → ((evict_idle_content to_vec_len idle inner).events ≡ filter is_kept inner.events)
        × IsAccounted to_vec_len (evict_idle_content to_vec_len idle inner)
  unfolding evict_idle_content
  evict_idle_content-filter inner acc = (
    rw (
      evict_below-filter (length inner.events) inner (omega arith),
      take_all,
      drop_all,
      append-nil,
    ),
    evict_below-IsAccounted (length inner.events) inner acc,
  )
