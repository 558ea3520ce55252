-- ===== src/Store/Query.antt =====
-- `query_sequence` and `query_time` (src/store/src/lib.rs).
use codex_warden.Prelude.{
  ℕ, Bool, ◌&&◌, String, Option, some, get_or, is_none_or, List, lookup, option_eq, string_eq, ltb,
  leb, saturating_add, filter,
}
use codex_warden.Protocol.Event.{SequencedEvent}
use codex_warden.Store.State.{StoreConfig, RetentionGap, Inner}

pub record QueryResult (V : Type 0) : Type 0 where
  pub events : List (SequencedEvent V)
  pub gap : Option RetentionGap

module _ {V : Type 0} where
  abbrev pub of_thread : Option String → SequencedEvent V → Bool
  of_thread thread e = is_none_or thread (λ t. option_eq.beq e.thread_id (some t))

  -- the test of `query_sequence`
  abbrev pub in_range : Option String → ℕ → Option ℕ → SequencedEvent V → Bool
  in_range thread after through e =
      ltb after e.sequence && is_none_or through (λ last. leb e.sequence last) && of_thread thread e

  -- the test of `query_time`
  abbrev pub in_window : StoreConfig → Option String → ℕ → ℕ → SequencedEvent V → Bool
  in_window config thread start last e =
      let timestamp = get_or e.emitted_at_ms e.unix_receipt_ms in
      leb start (saturating_add timestamp config.emitted_at_tolerance)
      && leb timestamp (saturating_add last config.emitted_at_tolerance)
      && of_thread thread e

  unfoldable pub query_sequence : Option String → ℕ → Option ℕ → Inner V → QueryResult V
  query_sequence thread after through inner = record {
    events = filter (in_range thread after through) inner.events;
    gap = lookup thread inner.gaps;
  }

  unfoldable pub query_time : StoreConfig → Option String → ℕ → ℕ → Inner V → QueryResult V
  query_time config thread start last inner = record {
    events = filter (in_window config thread start last) inner.events;
    gap = lookup thread inner.gaps;
  }
