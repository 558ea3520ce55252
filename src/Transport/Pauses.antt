-- ===== src/Transport/Pauses.antt =====
-- What a round of the connection loop does to the gate, the pause and the count
-- (src/transport/src/lib.rs).
use codex_warden.Prelude.{
  ℕ, suc, ◌+◌, ◌≤◌, ◌<◌, max, ◌≡◌, refl, ap, ◌∙◌, Bool, true, false, String, Option, none, some,
  List, Result, ok, err, arith, word_mod, wrapping_add, wrapping_add-eq, get_or, if◌then◌else◌,
}
use codex_warden.Protocol.Json.{Json}
use codex_warden.Transport.State.{
  TransportConfig, Command, request, notify, reconciled, shutdown, Link, degraded, handshaking,
  report,
}
use codex_warden.Transport.Drive.{DriveExit, shutdown_requested, disconnected, commands_closed}
use codex_warden.Transport.Handshake.{initialize}
use codex_warden.Transport.Greetings.{initialize-ready}
use codex_warden.Transport.Connection.{
  Dial, Connection, Round, again, reject_while_disconnected, rejected_by, paused, back_off, hang_up,
  shared_gate, serve, greeted, dialled,
}

-- Whether the round gets a connection through its handshake.
abbrev pub is_served : Option String → Option (Result (Unit {0}) String) → Bool
is_served (some detail) greeting = false
is_served none (some (ok u)) = true
is_served none (some (err detail)) = false
is_served none none = false

module _ {V : Type 0} (config : TransportConfig) where
  -- Before a try: the gate is as said, the pause is within its bounds, and each try that went
  -- before is counted.
  pub record IsBetween (tries : ℕ) (gate : Bool) (c : Connection V) : Type 0 where
    pub gated : c.link.ready ≡ gate
    pub bounded : c.backoff ≤ max config.retry_initial config.retry_max
    pub counted : c.attempts ≡ tries

  -- A round that is followed by another has counted itself, and reports the failure.
  abbrev pub IsAgain : ℕ → Bool → Round × Connection V → Type 0
  IsAgain tries gate (round, c) =
      round ≡ again → IsBetween (suc tries) gate c × (c.link.health.phase ≡ degraded)

  pub shared_gate-IsAgain :
      (tries : ℕ) (gate : Bool) (stored : Option Bool) (r : Round × Connection V)
      → IsAgain tries gate r
      → IsAgain tries (get_or stored gate) (shared_gate stored r)
  unfolding shared_gate
  shared_gate-IsAgain tries gate none r h = h
  shared_gate-IsAgain tries gate (some ready) r h = λ e.
      let (b, p) = h e in (record { gated = refl; bounded = b.bounded; counted = b.counted }, p)

module _ {V : Type 0} where
  reject-link :
      (c : Option (Command V)) (detail : String) (l : Link V)
      → ((reject_while_disconnected c detail l).1.ready ≡ l.ready)
        × ((reject_while_disconnected c detail l).1.health ≡ l.health)
  unfolding reject_while_disconnected
  reject-link (some (request id method params channel)) detail l = (refl, refl)
  reject-link (some (notify method params)) detail l = (refl, refl)
  reject-link (some (reconciled channel)) detail l = (refl, refl)
  reject-link (some (shutdown channel)) detail l = (refl, refl)
  reject-link none detail l = (refl, refl)

module _ {V : Type 0} (J : Json V) (from_str : String → Result V String)
    (from_slice : List ℕ → Result V String) (idle_text : ℕ → String)
    (config : TransportConfig) where
  -- how the handshake of a try ends
  abbrev pub greeting : Dial V → Connection V → Option (Result (Unit {0}) String)
  greeting dial c =
      (initialize J from_str from_slice config c.attempts dial.first_write dial.last_write
        dial.greetings (report handshaking c.attempts none c.link)).0

  rejected_by-IsAgain :
      (tries backoff : ℕ) (gate : Bool) (r : Bool × Link V)
      → r.1.ready ≡ gate
      → r.1.health.phase ≡ degraded
      → IsAgain config tries gate (rejected_by config (suc tries) backoff r)
  rejected_by-IsAgain tries backoff gate (true, l) s p = λ e. absurd (ground (arith, e))
  rejected_by-IsAgain tries backoff gate (false, l) s p =
      λ e. (record { gated = s; bounded = omega arith; counted = refl }, p)

  paused-IsAgain :
      (detail : String) (pause : Option (Option (Command V))) (tries backoff : ℕ) (gate : Bool)
      (l : Link V)
      → l.ready ≡ gate
      → l.health.phase ≡ degraded
      → IsAgain config tries gate
          (paused J from_str from_slice idle_text config detail pause (suc tries) backoff l)
  paused-IsAgain detail none tries backoff gate l s p =
      λ e. (record { gated = s; bounded = omega arith; counted = refl }, p)
  paused-IsAgain detail (some command) tries backoff gate l s p =
      let (r, h) = reject-link command detail l in
      rejected_by-IsAgain tries backoff gate (reject_while_disconnected command detail l) (r ∙ s)
        (ap (λ x. x.phase) h ∙ p)

  module _ (tries : ℕ) (fits : tries + 1 < word_mod) where
    next_try : wrapping_add tries 1 ≡ suc tries
    next_try = wrapping_add-eq tries 1 fits ∙ omega arith

    back_off-IsAgain :
        (detail : String) (pause : Option (Option (Command V))) (gate : Bool) (c : Connection V)
        → IsBetween config tries gate c
        → IsAgain config tries gate (back_off J from_str from_slice idle_text config detail pause c)
    unfolding back_off
    back_off-IsAgain detail pause gate c h =
        rw (back_off, h.counted, next_try)
          (paused-IsAgain detail pause tries c.backoff gate _ h.gated refl)

    hang_up-IsAgain :
        (exit : Option DriveExit) (c : Connection V)
        → c.backoff ≤ config.retry_initial
        → c.attempts ≡ tries
        → IsAgain config tries false (hang_up J from_str from_slice idle_text config exit c)
    unfolding hang_up
    hang_up-IsAgain none c b a = λ e. absurd (ground (arith, e))
    hang_up-IsAgain (some (shutdown_requested channel)) c b a = λ e. absurd (ground (arith, e))
    hang_up-IsAgain (some commands_closed) c b a = λ e. absurd (ground (arith, e))
    hang_up-IsAgain (some (disconnected detail)) c b a = λ e. (
      record {
        gated = refl;
        bounded = omega (arith, b);
        counted = ap (λ n. wrapping_add n 1) a ∙ next_try;
      },
      refl,
    )

    greeted-IsAgain :
        (dial : Dial V) (attempts backoff : ℕ) (gate : Bool)
        (g : Option (Result (Unit {0}) String) × Link V)
        → attempts ≡ tries
        → backoff ≤ max config.retry_initial config.retry_max
        → g.1.ready ≡ gate
        → IsAgain config tries
            (if is_served none g.0 then false else gate)
            (greeted J from_str from_slice idle_text config dial attempts backoff g)
    unfolding serve
    greeted-IsAgain dial attempts backoff gate (none, link) a b s = λ e. absurd (ground (arith, e))
    greeted-IsAgain dial attempts backoff gate (some (err detail), link) a b s =
        back_off-IsAgain detail dial.pause gate _ (record { gated = s; bounded = b; counted = a })
    greeted-IsAgain dial attempts backoff gate (some (ok u), link) a b s =
        hang_up-IsAgain _ _ (omega arith) a

    pub dialled-IsAgain :
        (connection : Option String) (dial : Dial V) (gate : Bool) (c : Connection V)
        → IsBetween config tries gate c
        → IsAgain config tries
            (if is_served connection (greeting dial c) then false else gate)
            (dialled J from_str from_slice idle_text config connection dial c)
    dialled-IsAgain (some detail) dial gate c h = back_off-IsAgain detail dial.pause gate c h
    dialled-IsAgain none dial gate c h =
        greeted-IsAgain dial c.attempts c.backoff gate _ h.counted h.bounded (
          initialize-ready J from_str from_slice config c.attempts dial.first_write dial.last_write
            dial.greetings (report handshaking c.attempts none c.link)
          ∙ h.gated)
