-- ===== src/Supervisor/Check.antt =====
-- `check` and `monitor` (src/supervisor/src/lib.rs).
use codex_warden.Prelude.{Bool, true, false, String, List, [], ◌∷◌, Result, ok, err}
use codex_warden.Supervisor.State.{
  SupervisorConfig, MonitorEvent, healthy, daemon_restarted, gui_restarted, incompatible,
  user_action_required, CommandOutput, ProcessOps,
}
use codex_warden.Supervisor.Processes.{has_managed_daemon, gui_running}
use codex_warden.Supervisor.Start.{launch_gui, start_daemon, ask_version, gui_attached}

-- What `select!` takes in `monitor`, the shutdown first: a change of the flag, that its sender is
-- gone, or the end of the sleep.
pub data Wakeup : Type 0 where
  changed : Bool → Wakeup
  sender_gone slept : Wakeup

module _ {W : Type 0} (config : SupervisorConfig) (ops : ProcessOps W) where
  abbrev pub restarted : MonitorEvent → Result (Unit {0}) String × W → MonitorEvent × W
  restarted event (ok u, w) = (event, w)
  restarted event (err e, w) = (user_action_required e, w)

  abbrev pub check_gui : String → Bool × W → MonitorEvent × W
  check_gui processes (true, w) = (healthy, w)
  check_gui processes (false, w) = elim (gui_running processes config.gui_executable) [
    | false ↦ restarted gui_restarted (launch_gui config ops w)
    | true ↦ (user_action_required "ChatGPT is not attached to the shared daemon", w)
  ]

  abbrev pub check_version : String → Result CommandOutput String × W → MonitorEvent × W
  check_version processes (err e, w) = (incompatible e, w)
  check_version processes (ok out, w) = elim out.success [
    | false ↦ (incompatible out.stderr, w)
    | true ↦ check_gui processes (gui_attached config ops processes w)
  ]

  abbrev pub check_processes : Result String String × W → MonitorEvent × W
  check_processes (err e, w) = (user_action_required "cannot inspect processes", w)
  check_processes (ok processes, w) = elim (has_managed_daemon processes config.standalone_codex) [
    | false ↦ restarted daemon_restarted (start_daemon config ops w)
    | true ↦ check_version processes (ask_version config ops w)
  ]

  unfoldable pub check : W → MonitorEvent × W
  unfolding gui_attached launch_gui
  check w = check_processes (ops.ps_environment w)

  -- The events that `monitor` sends. A sleep or check that the flag interrupts is left out.
  unfoldable pub monitor : List Wakeup → W → List MonitorEvent × W
  unfolding check
  monitor [] w = ([], w)
  monitor (changed true ∷ rest) w = ([], w)
  monitor (changed false ∷ rest) w = monitor rest w
  monitor (sender_gone ∷ rest) w = ([], w)
  monitor (slept ∷ rest) w =
      let (event, w') = check (ops.sleep config.monitor_interval w) in
      let (events, last) = monitor rest w' in (event ∷ events, last)
