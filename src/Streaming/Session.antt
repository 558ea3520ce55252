-- ===== src/Streaming/Session.antt =====
-- What a reader of the lifecycle stream is told over a session.
use codex_warden.Prelude.{ℕ, ◌≤◌, ◌≡◌, ◌⊎◌, List, [], ◌∷◌, ◌++◌, filter, length, All, In}
use codex_warden.Protocol.Event.{SequencedEvent}
use codex_warden.Reducer.State.{Reducer}
use codex_warden.Reducer.Log.{IsTail, is_lifecycle}
use codex_warden.Streaming.{Received, LifecycleItem, LifecycleStream, recv}

-- A step of a session: the channel gives its next event, or it has dropped the next events for this
-- receiver, or its senders are gone; with the reducer at that time.
pub data Step (V : Type 0) : Type 0 where
  got : SequencedEvent V → Reducer V → Step V
  fell_behind : List (SequencedEvent V) → Reducer V → Step V
  hung_up : Reducer V → Step V

module _ {V : Type 0} where
  abbrev pub run_step : Step V → LifecycleStream → LifecycleItem V × LifecycleStream
  run_step (got e r) stream = recv (Received.event e) r stream
  run_step (fell_behind skipped r) stream = recv (Received.lagged (length skipped)) r stream
  run_step (hung_up r) stream = recv Received.closed r stream

  -- the items of a session
  unfoldable pub run_session : List (Step V) → LifecycleStream → List (LifecycleItem V)
  run_session [] stream = []
  run_session (step ∷ steps) stream =
      let (item, next) = run_step step stream in item ∷ run_session steps next

  -- The published events that the channel has passed, behind `seen`.
  abbrev pub passed : List (SequencedEvent V) → List (Step V) → List (SequencedEvent V)
  passed seen [] = seen
  passed seen (got e r ∷ steps) = passed (seen ++ e ∷ []) steps
  passed seen (fell_behind skipped r ∷ steps) = passed (seen ++ skipped) steps
  passed seen (hung_up r ∷ steps) = passed seen steps

  -- The reducer has applied the published events and maybe later ones, so its log is the end of
  -- their history, and its snapshot is as recent.
  pub record HasApplied (capacity : ℕ) (sent published : List (SequencedEvent V)) (r : Reducer V)
      : Type 0 where
    pub history : List (SequencedEvent V)
    pub more : List (SequencedEvent V)
    pub later : List (SequencedEvent V)
    pub applied : filter is_lifecycle history ≡ published ++ more
    pub in_order : sent ≡ (published ++ more) ++ later
    pub tail : IsTail capacity history r.lifecycle
    pub known : All (λ e. e.sequence ≤ r.state.at_sequence) (published ++ more)

  -- The steps follow the channel: events come in the order sent, a lag skips the next of them, and
  -- the reducer was given each event before it was sent.
  abbrev pub IsSession :
      ℕ → List (SequencedEvent V) → List (SequencedEvent V) → List (Step V) → Type 0
  IsSession capacity sent seen [] = Unit
  IsSession capacity sent seen (got e r ∷ steps) =
      ((later : List (SequencedEvent V)) × (sent ≡ seen ++ e ∷ later))
      × IsSession capacity sent (seen ++ e ∷ []) steps
  IsSession capacity sent seen (fell_behind skipped r ∷ steps) =
      HasApplied capacity sent (seen ++ skipped) r × IsSession capacity sent (seen ++ skipped) steps
  IsSession capacity sent seen (hung_up r ∷ steps) = IsSession capacity sent seen steps

  -- An item accounts for a sequence: it is the event, or replays it, or is a snapshot as recent.
  abbrev pub Tells : LifecycleItem V → ℕ → Type 0
  Tells (LifecycleItem.event e) n = e.sequence ≡ n
  Tells (LifecycleItem.replay es) n = (e : SequencedEvent V) × In e es × (e.sequence ≡ n)
  Tells (LifecycleItem.gap_too_old snapshot oldest) n = n ≤ snapshot.at_sequence
  Tells LifecycleItem.closed n = ⊥

  abbrev pub SomeTells : List (LifecycleItem V) → ℕ → Type 0
  SomeTells [] n = ⊥
  SomeTells (item ∷ items) n = Tells item n ⊎ SomeTells items n
