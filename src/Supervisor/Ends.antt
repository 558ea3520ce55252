-- ===== src/Supervisor/Ends.antt =====
-- The waits of the supervisor end (src/supervisor/src/lib.rs).
use codex_warden.Prelude.{
  ℕ, zero, suc, ◌+◌, ◌*◌, ◌≤◌, ◌≡◌, refl, ap, inl, inr, Bool, true, false, String, some, Result, ok,
  err, arith, Bool-cases, ltb,
}
use codex_warden.Supervisor.State.{
  SupervisorConfig, SupervisionState, SupervisorError, inspection, ProcessOps,
}
use codex_warden.Supervisor.Processes.{gui_running, gui_mode_enabled, has_managed_daemon}
use codex_warden.Supervisor.Run.{Run, map_error, gets, ◌>>=◌}
use codex_warden.Supervisor.Rules.{
  Returns, Ends, map_error-Returns, map_error-state, continue-Returns, Ends-attempt, Ends-then,
  ends_rules,
}
use codex_warden.Supervisor.Start.{
  ask_version, accepts, gui_attached, version_of, found_version, poll_version,
  wait_for_daemon_version, found_gui, poll_gui, wait_for_gui_attachment, quit_seen, poll_quit,
  stopped, quit_gui, own_daemon, attach_gui, require, initialize,
}

-- The clock does not go back, and a sleep lasts as long as it is asked to.
pub record IsClocked {W : Type 0} (ops : ProcessOps W) : Type 0 where
  pub sleeps : (d : ℕ) (w : W) → ops.now w + d ≤ ops.now (ops.sleep d w)
  pub listing : (w : W) → ops.now w ≤ ops.now (ops.ps_environment w).1
  pub users : (socket : String) (w : W) → ops.now w ≤ ops.now (ops.socket_users socket w).1
  pub version :
      (config : SupervisorConfig) (w : W) → ops.now w ≤ ops.now (ask_version config ops w).1

module _ {W : Type 0} (config : SupervisorConfig) (ops : ProcessOps W) where
  found_version-Returns :
      (again : String → Run W String) (r : Result String String) (w : W)
      → ((detail : String) → Returns (again detail (ops.sleep 100 w)))
      → Returns (found_version config ops again r w)
  found_version-Returns again (ok version) w h = (ok version, refl)
  found_version-Returns again (err detail) w h = h detail

  found_gui-Returns :
      (again : Run W (Unit {0})) (here : Bool) (w : W)
      → Returns (again (ops.sleep 100 w))
      → Returns (found_gui config ops again here w)
  found_gui-Returns again true w h = (ok tt, refl)
  found_gui-Returns again false w h = h

  accepts-state : (p : Result String String × W) → (accepts config ops p).1 ≡ p.1
  accepts-state (ok users, w) = refl
  accepts-state (err e, w) = refl

module _ {W : Type 0} (config : SupervisorConfig) (ops : ProcessOps W) (clock : IsClocked ops) where
  poll_version-Returns :
      (n deadline : ℕ) (detail : String) (w : W)
      → deadline ≤ ops.now w + n * 100
      → Returns (poll_version config ops (suc n) deadline detail w)
  unfolding poll_version
  poll_version-Returns zero deadline detail w h = elim (Bool-cases (ltb (ops.now w) deadline)) [
    | inr late ↦ rw (late, poll_version) (_, refl)
    | inl early ↦ absurd (ground (arith, early, h))
  ]
  poll_version-Returns (suc n) deadline detail w h = elim (Bool-cases (ltb (ops.now w) deadline)) [
    | inr late ↦ rw (late, poll_version) (_, refl)
    | inl early ↦
        let asked = ask_version config ops w in
        rw (early, poll_version)
          (found_version-Returns config ops (poll_version config ops (suc n) deadline)
            (version_of config ops asked.0) asked.1
            (λ next.
              poll_version-Returns n deadline next (ops.sleep 100 asked.1)
                (omega (arith, h, clock.sleeps 100 asked.1, clock.version config w))))
  ]

  gui_attached-listing :
      (processes : String) (w : W) → ops.now w ≤ ops.now (gui_attached config ops processes w).1
  unfolding gui_attached
  gui_attached-listing processes w =
      elim (Bool-cases (gui_mode_enabled processes config.gui_executable)) [
        | inr off ↦ rw (off, gui_attached) (omega arith)
        | inl on ↦
            rw (on, gui_attached, accepts-state config ops (ops.socket_users config.socket_path w))
              (clock.users config.socket_path w)
      ]

  poll_gui-Returns :
      (n deadline : ℕ) (w : W)
      → deadline ≤ ops.now w + n * 100
      → Returns (poll_gui config ops (suc n) deadline w)
  unfolding poll_gui
  poll_gui-Returns zero deadline w h = elim (Bool-cases (ltb (ops.now w) deadline)) [
    | inr late ↦ rw (late, poll_gui) (_, refl)
    | inl early ↦ absurd (ground (arith, early, h))
  ]
  poll_gui-Returns (suc n) deadline w h = elim (Bool-cases (ltb (ops.now w) deadline)) [
    | inr late ↦ rw (late, poll_gui) (_, refl)
    | inl early ↦
        let listed = map_error inspection (ops.ps_environment w) in
        rw (early, poll_gui)
          (continue-Returns listed _ (map_error-Returns inspection (ops.ps_environment w))
            (λ processes.
              let seen = gui_attached config ops processes listed.1 in
              found_gui-Returns config ops (poll_gui config ops (suc n) deadline) seen.0 seen.1 (
                poll_gui-Returns n deadline (ops.sleep 100 seen.1) (
                  omega (
                    arith,
                    h,
                    clock.sleeps 100 seen.1,
                    gui_attached-listing processes listed.1,
                    clock.listing w,
                    ap ops.now (map_error-state inspection (ops.ps_environment w)),
                  )))))
  ]

  quit_seen-Returns :
      (again : Run W String) (processes : String) (w : W)
      → Returns (again w)
      → Returns (quit_seen config ops again processes w)
  quit_seen-Returns again processes w h =
      elim (Bool-cases (gui_running processes config.gui_executable)) [
        | inr gone ↦ rw (gone, quit_seen) (_, refl)
        | inl here ↦ rw (here, quit_seen) h
      ]

  poll_quit-Returns :
      (n deadline : ℕ) (processes : String) (w : W)
      → deadline ≤ ops.now w + n * 100
      → Returns (poll_quit config ops (suc n) deadline processes w)
  unfolding poll_quit
  poll_quit-Returns zero deadline processes w h = elim (Bool-cases (ltb (ops.now w) deadline)) [
    | inr late ↦ rw (late, poll_quit) (_, refl)
    | inl early ↦ absurd (ground (arith, early, h))
  ]
  poll_quit-Returns (suc n) deadline processes w h = elim (Bool-cases (ltb (ops.now w) deadline)) [
    | inr late ↦ rw (late, poll_quit) (_, refl)
    | inl early ↦
        let rested = ops.sleep 100 w in
        let listed = map_error inspection (ops.ps_environment rested) in
        rw (early, poll_quit)
          (continue-Returns listed _ (map_error-Returns inspection (ops.ps_environment rested))
            (λ next. quit_seen-Returns (poll_quit config ops (suc n) deadline next) next listed.1 (
              poll_quit-Returns n deadline next listed.1 (
                omega (
                  arith,
                  h,
                  clock.sleeps 100 w,
                  clock.listing rested,
                  ap ops.now (map_error-state inspection (ops.ps_environment rested)),
                )))))
  ]

  stopped-Ends : (processes : String) → Ends (stopped config ops processes)
  stopped-Ends processes = elim (Bool-cases (gui_running processes config.gui_executable)) [
    | inr gone ↦ rw (gone, stopped) (record { at = λ w. (_, refl) })
    | inl here ↦ rw (here, stopped) (record { at = λ w. (_, refl) })
  ]

  own_daemon-Ends : (processes : String) → Ends (own_daemon config ops processes)
  unfolding own_daemon
  own_daemon-Ends processes =
      elim (Bool-cases (has_managed_daemon processes config.standalone_codex)) [
        | inl here ↦ rw (here, own_daemon) (record { at = λ w. (_, refl) })
        | inr gone ↦ rw (gone, own_daemon) (search ends_rules)
      ]

  require-Ends : (e : SupervisorError) (b : Bool) → Ends (require config ops e b)
  require-Ends e true = record { at = λ w. (_, refl) }
  require-Ends e false = record { at = λ w. (_, refl) }

  module _ (n : ℕ) (start_fits : config.startup_timeout ≤ n * 100)
      (quit_fits : config.graceful_quit_timeout ≤ n * 100) where
    wait_for_daemon_version-Ends : Ends (wait_for_daemon_version config ops (suc n))
    unfolding wait_for_daemon_version
    wait_for_daemon_version-Ends = record {
      at = λ w.
          poll_version-Returns n (ops.now w + config.startup_timeout) "" w
            (omega (arith, start_fits));
    }

    wait_for_gui_attachment-Ends : Ends (wait_for_gui_attachment config ops (suc n))
    unfolding wait_for_gui_attachment
    wait_for_gui_attachment-Ends = record {
      at = λ w.
          poll_gui-Returns n (ops.now w + config.startup_timeout) w (omega (arith, start_fits));
    }

    -- the wait for the GUI to quit, and what follows it
    quit_wait-Ends :
        (processes : String)
        → Ends (do
          deadline ← gets (λ w. (ops.now w + config.graceful_quit_timeout, w))
          after ← poll_quit config ops (suc n) deadline processes
          stopped config ops after)
    quit_wait-Ends processes = record {
      at = λ w.
          let deadline = ops.now w + config.graceful_quit_timeout in
          continue-Returns (poll_quit config ops (suc n) deadline processes w) (stopped config ops)
            (poll_quit-Returns n deadline processes w (omega (arith, quit_fits)))
            (λ after.
              (stopped-Ends after).at (poll_quit config ops (suc n) deadline processes w).1);
    }

    quit_gui-Ends : (processes : String) → Ends (quit_gui config ops (suc n) processes)
    unfolding quit_gui
    quit_gui-Ends processes = elim (Bool-cases (gui_running processes config.gui_executable)) [
      | inr gone ↦ rw (gone, quit_gui) (record { at = λ w. (_, refl) })
      | inl here ↦ rw (here, quit_gui) (Ends-then _ _ (Ends-attempt _ _) (quit_wait-Ends processes))
    ]

    attach_gui-Ends :
        (processes : String) (launch : Bool) → Ends (attach_gui config ops (suc n) processes launch)
    unfolding attach_gui
    attach_gui-Ends processes false = search ends_rules
    attach_gui-Ends processes true =
        search (ends_rules, quit_gui-Ends, wait_for_gui_attachment-Ends)

    initialize-Ends : Ends (initialize config ops (suc n))
    unfolding initialize
    initialize-Ends =
        search
          (ends_rules, require-Ends, own_daemon-Ends, wait_for_daemon_version-Ends, attach_gui-Ends)
          depth 24

    -- `initialize` ends. Where the clock does not go back and a sleep lasts as long as it is asked
    -- to, one round of each wait for every 100 milliseconds of the longer timeout, and one more,
    -- is enough: the result is a state or an error.
    pub initialize-Returns :
        (w : W)
        → (r : Result SupervisionState SupervisorError) × ((initialize config ops (suc n) w).0
            ≡ some r)
    initialize-Returns w = initialize-Ends.at w
