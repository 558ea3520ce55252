-- ===== src/Transport/Gate.antt =====
-- What holds between two connections: the gate, the pause and the count (src/transport/src/lib.rs).
use codex_warden.Prelude.{
  ℕ, suc, ◌+◌, ◌<◌, ◌≡◌, refl, subst, Bool, false, String, none, List, [], ◌∷◌, Result, length,
  arith, word_mod, get_or, if◌then◌else◌,
}
use codex_warden.Protocol.Json.{Json}
use codex_warden.Transport.State.{TransportConfig, connecting, report}
use codex_warden.Transport.Connection.{
  Dial, Connection, Round, again, running, then_dial, start_connection, dial_once, connection_loop,
}
use codex_warden.Transport.Pauses.{
  is_served, IsBetween, IsAgain, shared_gate-IsAgain, greeting, dialled-IsAgain,
}

module _ {V : Type 0} (J : Json V) (from_str : String → Result V String)
    (from_slice : List ℕ → Result V String) (idle_text : ℕ → String)
    (config : TransportConfig) where
  -- Whether a try gets its connection through the handshake.
  abbrev reaches_service : Dial V → Connection V → Bool
  reaches_service dial c = is_served dial.connection (
      greeting J from_str from_slice idle_text config dial
        (record c { link = report connecting c.attempts none c.link }))

  -- What the gate has to be after the rounds: shut by each connection that went through its
  -- handshake and was lost, then as the handles stored.
  abbrev pub gate_after : List (Dial V) → Connection V → Bool → Bool
  gate_after [] c gate = gate
  gate_after (dial ∷ dials) c gate =
      gate_after dials (dial_once J from_str from_slice idle_text config dial c).1
        (get_or dial.stored (if reaches_service dial c then false else gate))

  dial_once-IsAgain :
      (tries : ℕ) (dial : Dial V) (gate : Bool) (c : Connection V)
      → tries + 1 < word_mod
      → IsBetween config tries gate c
      → IsAgain config tries
          (get_or dial.stored (if reaches_service dial c then false else gate))
          (dial_once J from_str from_slice idle_text config dial c)
  unfolding dial_once
  dial_once-IsAgain tries dial gate c fits h = shared_gate-IsAgain config tries _ dial.stored _ (
      dialled-IsAgain J from_str from_slice idle_text config tries fits dial.connection dial gate
        (record c { link = report connecting c.attempts none c.link })
        (record { gated = h.gated; bounded = h.bounded; counted = h.counted }))

  then_dial-IsBetween :
      (tries more : ℕ) (now : Bool) (later : Connection V → Bool) (step : Round × Connection V)
      (rest : Connection V → Round × Connection V)
      → IsAgain config tries now step
      → ((next : Connection V)
          → IsBetween config (suc tries) now next
          → (rest next).0 ≡ again
          → IsBetween config (suc tries + more) (later next) (rest next).1)
      → (then_dial step rest).0 ≡ again
      → IsBetween config (tries + suc more) (later step.1) (then_dial step rest).1
  then_dial-IsBetween tries more now later (again, next) rest h ih e =
      subst (λ n. IsBetween config n (later next) (rest next).1) (omega arith)
        (ih next (h refl).0 e)
  then_dial-IsBetween tries more now later (Round.ended, next) rest h ih e =
      absurd (ground (arith, e))
  then_dial-IsBetween tries more now later (running, next) rest h ih e = absurd (ground (arith, e))

  rounds-IsBetween :
      (dials : List (Dial V)) (tries : ℕ) (gate : Bool) (c : Connection V)
      → tries + length dials < word_mod
      → IsBetween config tries gate c
      → (connection_loop J from_str from_slice idle_text config dials c).0 ≡ again
      → IsBetween config
          (tries + length dials)
          (gate_after dials c gate)
          (connection_loop J from_str from_slice idle_text config dials c).1
  unfolding connection_loop
  rounds-IsBetween [] tries gate c fits h e = subst (λ n. IsBetween config n gate c) (omega arith) h
  rounds-IsBetween (dial ∷ dials) tries gate c fits h e =
      let now = get_or dial.stored (if reaches_service dial c then false else gate) in
      then_dial-IsBetween tries (length dials) now (λ next. gate_after dials next now)
        (dial_once J from_str from_slice idle_text config dial c)
        (connection_loop J from_str from_slice idle_text config dials)
        (dial_once-IsAgain tries dial gate c (omega (arith, fits)) h)
        (λ next b. rounds-IsBetween dials (suc tries) now next (omega (arith, fits)) b) e

  -- What holds between two connections. As long as the loop is to try again after any rounds, fewer
  -- than a word can count, the gate is as the handles last stored it behind the last connection
  -- that went through its handshake, and shut where they stored nothing since; so only
  -- `mark_reconciled` opens it there. The pause is at most the longer of the first and the longest
  -- one, and the reconnects that the loop reports are the rounds.
  pub connection_loop-IsBetween :
      (dials : List (Dial V))
      → length dials < word_mod
      → (connection_loop J from_str from_slice idle_text config dials (start_connection config)).0
        ≡ again
      → IsBetween config
          (length dials)
          (gate_after dials (start_connection config) false)
          (connection_loop J from_str from_slice idle_text config dials (start_connection config)).1
  connection_loop-IsBetween dials fits e =
      subst
        (λ n.
          IsBetween config n (gate_after dials (start_connection config) false)
            (connection_loop J from_str from_slice idle_text config dials
              (start_connection config)).1)
        (omega arith)
        (rounds-IsBetween dials 0 false (start_connection config) (omega (arith, fits))
          (record { gated = refl; bounded = omega arith; counted = refl }) e)
