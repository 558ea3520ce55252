-- ===== src/Tests/Daemons.antt =====
-- The supervisor (src/supervisor), over an operating system whose state is its clock.
use codex_warden.Prelude.{ℕ, ◌+◌, ◌≡◌, refl, true, false, none, some, Result, ok, arith}
use codex_warden.Supervisor.State.{
  SupervisorConfig, default_supervisor, started, SupervisionState, SupervisorError, ProcessOps,
}
use codex_warden.Supervisor.Start.{
  own_daemon, poll_version, wait_for_daemon_version, gui_attached, must_launch, attach_gui,
  initialize,
}
use codex_warden.Supervisor.Processes.{
  lines, trim_start, trim_end, has_managed_daemon, gui_mode_enabled, has_accepted_socket_connection,
}
use codex_warden.Protocol.Frame.{contains}
use codex_warden.Supervisor.Ends.{IsClocked, initialize-Returns}
use codex_warden.Supervisor.Seen.{IsVerified}
use codex_warden.Supervisor.Verified.{initialize-IsVerified}

-- The daemon has to be started, and the GUI appears with the shared mode.
abbrev system : ProcessOps ℕ
system = record {
  exists = λ path now. (true, now);
  ps_environment = λ now. (
    ok "/Applications/ChatGPT.app/Contents/MacOS/ChatGPT CODEX_APP_SERVER_USE_LOCAL_DAEMON=1",
    now + 1,
  );
  socket_users = λ socket now. (ok "COMMAND PID\ncodex 1\ncodex 2\n", now + 1);
  output = λ program arguments now.
      (ok (record { success = true; stdout = "0.1"; stderr = "" }), now + 1);
  spawn = λ program arguments environment now. (ok tt, now + 1);
  graceful_quit_chatgpt = λ now. (ok tt, now + 1);
  now = λ now. now;
  sleep = λ d now. now + d;
}

abbrev config : SupervisorConfig
config = record (default_supervisor none) { restart_gui_on_initialize = false }

clocked : IsClocked system
clocked = record {
  sleeps = λ d w. omega arith;
  listing = λ w. omega arith;
  users = λ socket w. omega arith;
  version = λ config w. omega arith;
}

initialize-Returns_example :
    (r : Result SupervisionState SupervisorError) × ((initialize config system 101 0).0 ≡ some r)
initialize-Returns_example =
    initialize-Returns config system clocked 100 (omega arith) (omega arith) 0

abbrev state : SupervisionState
state = record {
  daemon_ownership = started;
  daemon_version = "0.1";
  gui_attached = true;
  daemon_left_running = true;
}

succeeds : (initialize config system 3 0).0 ≡ some (ok state)
unfolding initialize own_daemon wait_for_daemon_version poll_version must_launch gui_attached
    attach_gui has_managed_daemon gui_mode_enabled has_accepted_socket_connection lines trim_start
    trim_end contains
succeeds = refl

initialize-IsVerified_example : IsVerified config system 0 state
initialize-IsVerified_example = initialize-IsVerified config system 0 3 state succeeds
