-- ===== src/Store/State.antt =====
-- `StoreConfig`, `RetentionGap`, `Inner` and `remove_at` (src/store/src/lib.rs).
use codex_warden.Prelude.{
  ℕ, zero, suc, ◌*◌, max, Bool, true, false, String, Option, none, some, get_or, List, [], ◌∷◌, Map,
  lookup, insert, string_eq, option_eq, wrapping_add, saturating_sub, if◌then◌else◌,
}
use codex_warden.Protocol.Frame.{Plane}
use codex_warden.Protocol.Event.{SequencedEvent}

-- Times in milliseconds.
pub record StoreConfig : Type 0 where
  pub retention : ℕ
  pub per_thread_bytes : ℕ
  pub global_bytes : ℕ
  pub emitted_at_tolerance : ℕ

abbrev mib : ℕ
mib = 1024 * 1024

abbrev pub default_config : StoreConfig
default_config = record {
  retention = 10 * 60 * 1000;
  per_thread_bytes = 8 * mib;
  global_bytes = 64 * mib;
  emitted_at_tolerance = 2 * 1000;
}

pub record RetentionGap : Type 0 where
  pub before_sequence : Option ℕ
  pub summarized_delta_events : ℕ
  pub evicted_lifecycle_events : ℕ

abbrev pub no_gap : RetentionGap
no_gap = record {
  before_sequence = none;
  summarized_delta_events = 0;
  evicted_lifecycle_events = 0;
}

pub record Inner (V : Type 0) : Type 0 where
  pub events : List (SequencedEvent V)
  pub bytes : ℕ
  pub thread_bytes : Map String ℕ
  pub gaps : Map (Option String) RetentionGap

abbrev pub empty : {V : Type 0} → Inner V
empty = record { events = []; bytes = 0; thread_bytes = []; gaps = [] }

-- `VecDeque::remove`: the element at a position and the others, in order.
unfoldable pub remove_elem {ℓ} : {A : Type ℓ} → ℕ → List A → Option (A × List A)
remove_elem n [] = none
remove_elem zero (x ∷ xs) = some (x, xs)
remove_elem (suc n) (x ∷ xs) = elim (remove_elem n xs) [
  | none ↦ none
  | some (y, rest) ↦ some (y, x ∷ rest)
]

abbrev pub is_delta : Plane → Bool
is_delta Plane.delta = true
is_delta Plane.lifecycle = false

-- `before_sequence.map_or(sequence, |s| s.max(sequence))`
abbrev pub before_max : Option ℕ → ℕ → ℕ
before_max none sequence = sequence
before_max (some s) sequence = max s sequence

-- The summary of a thread after one more of its events is removed.
unfoldable pub note_gap : {V : Type 0} → RetentionGap → SequencedEvent V → RetentionGap
note_gap gap e =
    let seen = before_max gap.before_sequence e.sequence in
    if is_delta e.plane
    then record gap {
      before_sequence = some seen;
      summarized_delta_events = wrapping_add gap.summarized_delta_events 1;
    }
    else record gap {
      before_sequence = some seen;
      evicted_lifecycle_events = wrapping_add gap.evicted_lifecycle_events 1;
    }

-- `*entry(thread).or_default() += size` and `-= size`, for an event of a thread
unfoldable pub add_thread : Option String → ℕ → Map String ℕ → Map String ℕ
add_thread none size m = m
add_thread (some t) size m = insert t (wrapping_add (get_or (lookup t m) 0) size) m

unfoldable pub sub_thread : Option String → ℕ → Map String ℕ → Map String ℕ
sub_thread none size m = m
sub_thread (some t) size m = insert t (saturating_sub (get_or (lookup t m) 0) size) m

-- `to_vec(self).map_or(0, |v| v.len())`, where `to_vec_len` is the length of the serialization.
unfoldable pub encoded_len : {V : Type 0} → (SequencedEvent V → Option ℕ) → SequencedEvent V → ℕ
encoded_len to_vec_len e = get_or (to_vec_len e) 0

module _ {V : Type 0} (to_vec_len : SequencedEvent V → Option ℕ) where
  -- The state without one event: the body of `remove_at` behind its guard.
  unfoldable pub forget : Inner V → SequencedEvent V → List (SequencedEvent V) → Inner V
  unfolding note_gap sub_thread
  forget inner e rest = record {
    events = rest;
    bytes = saturating_sub inner.bytes (encoded_len to_vec_len e);
    thread_bytes = sub_thread e.thread_id (encoded_len to_vec_len e) inner.thread_bytes;
    gaps =
        insert e.thread_id (note_gap (get_or (lookup e.thread_id inner.gaps) no_gap) e) inner.gaps;
  }

  unfoldable pub remove_at : Inner V → ℕ → Inner V
  unfolding forget
  remove_at inner position = elim (remove_elem position inner.events) [
    | none ↦ inner
    | some (e, rest) ↦ forget inner e rest
  ]
