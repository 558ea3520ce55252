-- ===== src/Supervisor/Start.antt =====
-- `initialize` and what it waits for (src/supervisor/src/lib.rs). Each wait is on fuel, one for a
-- round of its loop.
use codex_warden.Prelude.{
  ℕ, zero, suc, ◌+◌, Bool, true, false, not, ◌&&◌, String, none, [], ◌∷◌, Result, ok, err,
  string_eq, ◌==◌, ltb, if◌then◌else◌,
}
use codex_warden.Supervisor.State.{
  SupervisorConfig, DaemonOwnership, attached, started, SupervisionState, SupervisorError,
  user_action_required, missing_standalone, missing_gui, daemon_command, incompatible_version,
  attachment_unverified, inspection, CommandOutput, ProcessOps,
}
use codex_warden.Supervisor.Processes.{
  application_bundle, has_managed_daemon, gui_running, gui_mode_enabled,
  has_accepted_socket_connection,
}
use codex_warden.Supervisor.Run.{Run, pure, fail, ◌>>=◌, ◌>>◌, attempt, gets}

-- `new` and `with_ops` only put these two together.
module _ {W : Type 0} (config : SupervisorConfig) (ops : ProcessOps W) where
  open ops use {
    exists, ps_environment, socket_users, output, spawn, graceful_quit_chatgpt, now, sleep,
  }
  open config use {standalone_codex, socket_path, gui_executable}

  -- A path that is not UTF-8 has no string, and no case here.
  unfoldable pub launch_gui : W → Result (Unit {0}) String × W
  launch_gui =
      spawn "/usr/bin/open"
        ("--env"
          ∷ "CODEX_APP_SERVER_USE_LOCAL_DAEMON=1"
          ∷ "--env"
          ∷ "CODEX_APP_SERVER_FORCE_CLI=0"
          ∷ "-a"
          ∷ application_bundle gui_executable
          ∷ [])
        []

  abbrev pub start_daemon : W → Result (Unit {0}) String × W
  start_daemon = spawn standalone_codex ("app-server" ∷ "daemon" ∷ "start" ∷ []) []

  abbrev pub ask_version : W → Result CommandOutput String × W
  ask_version = output standalone_codex ("app-server" ∷ "daemon" ∷ "version" ∷ [])

  -- whether the users of the socket, if they are known, are more than its listener
  abbrev pub accepts : Result String String × W → Bool × W
  accepts (ok users, w) = (has_accepted_socket_connection users, w)
  accepts (err e, w) = (false, w)

  unfoldable pub gui_attached : String → W → Bool × W
  gui_attached processes w = elim (gui_mode_enabled processes gui_executable) [
    | false ↦ (false, w)
    | true ↦ accepts (socket_users socket_path w)
  ]

  -- the version, or the detail of the error for the next round
  abbrev pub version_of : Result CommandOutput String → Result String String
  version_of (ok out) =
      if out.success && not (out.stdout == "")
      then ok out.stdout
      else err (if out.stderr == "" then out.stdout else out.stderr)
  version_of (err e) = err e

  -- `again` is the rest of the loop, with the detail.
  abbrev pub found_version : (String → Run W String) → Result String String → Run W String
  found_version again (ok version) w = pure version w
  found_version again (err detail) w = again detail (sleep 100 w)

  unfoldable pub poll_version : ℕ → (deadline : ℕ) → (detail : String) → Run W String
  poll_version zero deadline detail w = (none, w)
  poll_version (suc fuel) deadline detail w = elim (ltb (now w) deadline) [
    | false ↦ fail (incompatible_version detail) w
    | true ↦
        let (out, w') = ask_version w in
        found_version (poll_version fuel deadline) (version_of out) w'
  ]

  unfoldable pub wait_for_daemon_version : ℕ → Run W String
  unfolding poll_version
  wait_for_daemon_version fuel w = poll_version fuel (now w + config.startup_timeout) "" w

  abbrev pub found_gui : Run W (Unit {0}) → Bool → Run W (Unit {0})
  found_gui again true w = pure tt w
  found_gui again false w = again (sleep 100 w)

  unfoldable pub poll_gui : ℕ → (deadline : ℕ) → Run W (Unit {0})
  poll_gui zero deadline w = (none, w)
  poll_gui (suc fuel) deadline w = elim (ltb (now w) deadline) [
    | false ↦
        fail
          (attachment_unverified
            "ChatGPT did not establish an accepted connection to the managed daemon within the startup timeout")
          w
    | true ↦
        (do
          processes ← attempt inspection ps_environment
          here ← gets (gui_attached processes)
          found_gui (poll_gui fuel deadline) here)
          w
  ]

  unfoldable pub wait_for_gui_attachment : ℕ → Run W (Unit {0})
  unfolding poll_gui
  wait_for_gui_attachment fuel w = poll_gui fuel (now w + config.startup_timeout) w

  -- The processes after the wait for the GUI to quit.
  abbrev pub quit_seen : Run W String → String → Run W String
  quit_seen again processes w = elim (gui_running processes gui_executable) [
    | false ↦ pure processes w
    | true ↦ again w
  ]

  unfoldable pub poll_quit : ℕ → (deadline : ℕ) → (processes : String) → Run W String
  poll_quit zero deadline processes w = (none, w)
  poll_quit (suc fuel) deadline processes w = elim (ltb (now w) deadline) [
    | false ↦ pure processes w
    | true ↦
        (do next ← attempt inspection ps_environment; quit_seen (poll_quit fuel deadline next) next)
          (sleep 100 w)
  ]

  abbrev pub stopped : String → Run W (Unit {0})
  stopped processes = elim (gui_running processes gui_executable) [
    | false ↦ pure tt
    | true ↦ fail (
        user_action_required
          "ChatGPT ignored graceful quit; quit it manually. It was not force-killed.")
  ]

  -- A GUI that runs is quit.
  unfoldable pub quit_gui : ℕ → String → Run W (Unit {0})
  unfolding poll_quit
  quit_gui fuel processes = elim (gui_running processes gui_executable) [
    | false ↦ pure tt
    | true ↦ do
      attempt user_action_required graceful_quit_chatgpt
      deadline ← gets (λ w. (now w + config.graceful_quit_timeout, w))
      after ← poll_quit fuel deadline processes
      stopped after
  ]

  -- `restart || !attached`, where the second is only asked without the first
  unfoldable pub must_launch : String → W → Bool × W
  unfolding gui_attached
  must_launch processes w = elim config.restart_gui_on_initialize [
    | true ↦ (true, w)
    | false ↦ let (here, w') = gui_attached processes w in (not here, w')
  ]

  unfoldable pub own_daemon : String → Run W DaemonOwnership
  own_daemon processes = elim (has_managed_daemon processes standalone_codex) [
    | true ↦ pure attached
    | false ↦ do attempt daemon_command start_daemon; pure started
  ]

  unfoldable pub attach_gui : ℕ → String → Bool → Run W (Unit {0})
  unfolding quit_gui launch_gui wait_for_gui_attachment
  attach_gui fuel processes false = pure tt
  attach_gui fuel processes true = do
    quit_gui fuel processes
    attempt user_action_required launch_gui
    wait_for_gui_attachment fuel

  -- an early return where a file is missing
  abbrev pub require : SupervisorError → Bool → Run W (Unit {0})
  require e true = pure tt
  require e false = fail e

  unfoldable pub initialize : ℕ → Run W SupervisionState
  unfolding own_daemon wait_for_daemon_version must_launch attach_gui
  initialize fuel = do
    codex ← gets (exists standalone_codex)
    require (missing_standalone standalone_codex) codex
    gui ← gets (exists gui_executable)
    require (missing_gui gui_executable) gui
    processes ← attempt inspection ps_environment
    ownership ← own_daemon processes
    version ← wait_for_daemon_version fuel
    later ← attempt inspection ps_environment
    launch ← gets (must_launch later)
    attach_gui fuel later launch
    pure (record {
      daemon_ownership = ownership;
      daemon_version = version;
      gui_attached = true;
      daemon_left_running = true;
    })

  -- The daemon is not stopped.
  abbrev pub shutdown_state : SupervisionState → SupervisionState
  shutdown_state state = record state { daemon_left_running = true }
