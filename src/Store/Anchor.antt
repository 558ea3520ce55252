-- ===== src/Store/Anchor.antt =====
-- `record_reconstructed_active_turn` (src/store/src/lib.rs).
use codex_warden.Prelude.{
  ℕ, ◌+◌, ◌<◌, ◌≡◌, ◌⊎◌, inl, inr, true, false, String, Option, some, List, ◌∷◌, Map, any,
  Bool-cases, word_mod,
}
use codex_warden.Protocol.Json.{Json, JsonLaws}
use codex_warden.Protocol.Event.{SequencedEvent}
use codex_warden.Protocol.Laws.{anchor, anchor-from_frame}
use codex_warden.Store.State.{StoreConfig, Inner, encoded_len}
use codex_warden.Store.Prune.{is_genuine_start, record_reconstructed_active_turn}
use codex_warden.Store.Accounting.{IsAccounted}
use codex_warden.Store.Order.{IsOrder}
use codex_warden.Store.Limits.{IsWithin, record_locked-IsWithin}
use codex_warden.Store.Gaps.{IsHonest, record_locked-IsHonest}

module _ {V : Type 0} {J : Json V} (laws : JsonLaws J) (to_vec_len : SequencedEvent V → Option ℕ)
    {order : Map String ℕ → Map String ℕ} (visits : IsOrder order) (config : StoreConfig) where
  -- The anchor of an active turn. Where a genuine start of the turn is retained the store is left
  -- as it was and the answer is `false`. Otherwise the write ends and the answer is `true`; the
  -- byte counters agree with the retained events, these are within the limits, and the anchor,
  -- like every event recorded before, is retained or reported by the gap of its thread.
  pub record_reconstructed_lem :
      (sequence elapsed now : ℕ) (thread turn : String) (history : List (SequencedEvent V))
      (inner : Inner V)
      → IsAccounted to_vec_len inner
      → IsHonest to_vec_len history inner
      → inner.bytes + encoded_len to_vec_len (anchor J laws sequence elapsed now thread turn)
        < word_mod
      → ((any (is_genuine_start thread turn) inner.events ≡ true)
          × (record_reconstructed_active_turn to_vec_len J order config sequence elapsed now thread
                turn inner
              ≡ some (inner, false)))
        ⊎ ((any (is_genuine_start thread turn) inner.events ≡ false)
            × ((inner' : Inner V) × (record_reconstructed_active_turn to_vec_len J order config
                    sequence elapsed now thread turn inner
                  ≡ some (inner', true))
                × IsAccounted to_vec_len inner'
                × IsWithin to_vec_len visits config inner'
                × IsHonest to_vec_len
                    (anchor J laws sequence elapsed now thread turn ∷ history)
                    inner'))
  unfolding record_reconstructed_active_turn
  record_reconstructed_lem sequence elapsed now thread turn history inner acc honest fits =
      elim (Bool-cases (any (is_genuine_start thread turn) inner.events)) [
        | inl old ↦ inl (old, rw old)
        | inr new ↦
            let e = anchor J laws sequence elapsed now thread turn in
            let made = (anchor-from_frame J laws sequence elapsed now thread turn).0 in
            let (inner', done, acc', within) =
              record_locked-IsWithin to_vec_len visits config inner e acc fits in
            inr (
              new,
              (
                inner',
                rw (new, made, done),
                acc',
                within,
                record_locked-IsHonest to_vec_len order config history inner e honest done,
              ),
            )
      ]
