-- ===== src/Streaming/Deltas.antt =====
-- What the delta stream counts (src/streaming/src/lib.rs).
use codex_warden.Prelude.{
  ℕ, ◌+◌, ◌%◌, ◌≡◌, ap, Option, none, some, List, [], ◌∷◌, ◌++◌, map, wrapping_add, word_mod, arith,
}
use codex_warden.Protocol.Event.{SequencedEvent}
use codex_warden.Streaming.{Received, DeltaStream, recv_delta}

abbrev pub sum : List ℕ → ℕ
sum [] = 0
sum (n ∷ ns) = n + sum ns

module _ {V : Type 0} where
  -- What ends a call: an event, or that the senders are gone.
  abbrev pub last_answer : Option (SequencedEvent V) → Received V
  last_answer none = Received.closed
  last_answer (some e) = Received.event e

  -- A call on the delta stream passes over every lag in front of the next event, or of the end of
  -- the channel, and returns that event, or none. The count of dropped events has grown by the sum
  -- of the lags, in a 64-bit word, and the answers behind are left for the next call.
  pub recv_delta-lags :
      (lags : List ℕ) (found : Option (SequencedEvent V)) (rest : List (Received V))
      (stream : DeltaStream)
      → stream.dropped % word_mod ≡ stream.dropped
      → recv_delta (map Received.lagged lags ++ last_answer found ∷ rest) stream
        ≡ some (found, record { dropped = (stream.dropped + sum lags) % word_mod }, rest)
  unfolding recv_delta wrapping_add
  recv_delta-lags [] none rest stream word =
      ap (λ d. some (none, record { dropped = d }, rest)) (omega (arith, word))
  recv_delta-lags [] (some e) rest stream word =
      ap (λ d. some (some e, record { dropped = d }, rest)) (omega (arith, word))
  recv_delta-lags (n ∷ lags) found rest stream word =
      rw
        (recv_delta-lags lags found rest (record { dropped = (stream.dropped + n) % word_mod })
          (omega arith))
        (ap (λ d. some (found, record { dropped = d }, rest)) (omega arith))
