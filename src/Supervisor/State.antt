-- ===== src/Supervisor/State.antt =====
-- The configuration, the results and the operating system of the supervisor
-- (src/supervisor/src/lib.rs). Times are in milliseconds.
use codex_warden.Prelude.{ℕ, ◌*◌, Bool, true, String, Option, get_or, List, Result}
use Prim.Native.String.{◌++◌ as str_append}

pub record SupervisorConfig : Type 0 where
  pub standalone_codex : String
  pub socket_path : String
  pub gui_executable : String
  pub restart_gui_on_initialize : Bool
  pub startup_timeout : ℕ
  pub graceful_quit_timeout : ℕ
  pub monitor_interval : ℕ

-- The variable HOME is an argument. A path joined to `home` is put behind a slash.
abbrev pub default_supervisor : Option String → SupervisorConfig
default_supervisor home = record {
  standalone_codex =
      str_append (get_or home "/var/empty") "/.codex/packages/standalone/current/codex";
  socket_path =
      str_append (get_or home "/var/empty") "/.codex/app-server-control/app-server-control.sock";
  gui_executable = "/Applications/ChatGPT.app/Contents/MacOS/ChatGPT";
  restart_gui_on_initialize = true;
  startup_timeout = 10 * 1000;
  graceful_quit_timeout = 8 * 1000;
  monitor_interval = 5 * 1000;
}

pub data DaemonOwnership : Type 0 where
  attached started : DaemonOwnership

pub record SupervisionState : Type 0 where
  pub daemon_ownership : DaemonOwnership
  pub daemon_version : String
  pub gui_attached : Bool
  pub daemon_left_running : Bool

pub data MonitorEvent : Type 0 where
  healthy daemon_restarted gui_restarted : MonitorEvent
  incompatible user_action_required : String → MonitorEvent

pub data SupervisorError : Type 0 where
  missing_standalone missing_gui daemon_command incompatible_version attachment_unverified
        user_action_required inspection :
      String → SupervisorError

pub record CommandOutput : Type 0 where
  pub success : Bool
  pub stdout : String
  pub stderr : String

-- `ProcessOps`, the clock and the sleep, over the states `W` of the operating system.
pub record ProcessOps (W : Type 0) : Type 0 where
  pub exists : String → W → Bool × W
  pub ps_environment : W → Result String String × W
  pub socket_users : String → W → Result String String × W
  -- a program and its arguments
  pub output : String → List String → W → Result CommandOutput String × W
  -- a program, its arguments and its environment
  pub spawn : String → List String → List (String × String) → W → Result (Unit {0}) String × W
  pub graceful_quit_chatgpt : W → Result (Unit {0}) String × W
  pub now : W → ℕ
  pub sleep : ℕ → W → W
