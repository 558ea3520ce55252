-- ===== src/Supervisor/Quitting.antt =====
-- The actions of `initialize` whose values say nothing, the quit of the GUI among them
-- (src/supervisor/src/lib.rs).
use codex_warden.Prelude.{
  ℕ, zero, suc, ◌+◌, inl, inr, Bool, true, false, String, Result, string_eq, Bool-cases, ltb,
}
use codex_warden.Supervisor.State.{
  SupervisorConfig, SupervisorError, user_action_required, daemon_command, inspection, ProcessOps,
}
use codex_warden.Supervisor.Processes.{gui_running, has_managed_daemon}
use codex_warden.Supervisor.Run.{Run, attempt, gets}
use codex_warden.Supervisor.Reached.{
  IsReached, listed, spawned, quit, slept, Leads, Leads-pure, Leads-fail, Leads-gets, Leads-attempt,
  Leads-bind, Leads-then,
}
use codex_warden.Supervisor.Start.{
  start_daemon, quit_seen, poll_quit, stopped, quit_gui, own_daemon, require,
}

module _ {W : Type 0} (config : SupervisorConfig) (ops : ProcessOps W) (from : W) where
  abbrev pub Anything : {A : Type 0} → A → Type 0
  Anything a = Unit

  -- nothing is asked of the value here
  pub attempt-Anything :
      {A : Type 0} (f : String → SupervisorError) (m : W → Result A String × W)
      → ((w : W) → IsReached ops from w → IsReached ops from (m w).1)
      → Leads ops from Anything (attempt f m)
  attempt-Anything f m h = Leads-attempt Anything f m (λ w r. (h w r, λ a e. tt))

  pub gets-Anything :
      {A : Type 0} (m : W → A × W)
      → ((w : W) → IsReached ops from w → IsReached ops from (m w).1)
      → Leads ops from Anything (gets m)
  gets-Anything m h = Leads-gets Anything m (λ w r. (h w r, tt))

  quit_seen-Anything :
      (again : Run W String) (processes : String)
      → Leads ops from Anything again
      → Leads ops from Anything (quit_seen config ops again processes)
  quit_seen-Anything again processes h =
      elim (Bool-cases (gui_running processes config.gui_executable)) [
        | inr gone ↦ rw (gone, quit_seen) (Leads-pure Anything processes tt)
        | inl here ↦ rw (here, quit_seen) (record { at = h.at })
      ]

  poll_quit-Anything :
      (fuel deadline : ℕ) (processes : String)
      → Leads ops from Anything (poll_quit config ops fuel deadline processes)
  unfolding poll_quit
  poll_quit-Anything zero deadline processes = record { at = λ w r. (r, λ a e. tt) }
  poll_quit-Anything (suc fuel) deadline processes = record {
    at = λ w r. elim (Bool-cases (ltb (ops.now w) deadline)) [
      | inr late ↦ rw (late, poll_quit) (r, λ a e. tt)
      | inl early ↦
          rw (early, poll_quit)
            ((Leads-bind Anything Anything (attempt inspection ops.ps_environment) _
                (attempt-Anything inspection ops.ps_environment listed)
                (λ next l.
                  quit_seen-Anything (poll_quit config ops fuel deadline next) next
                    (poll_quit-Anything fuel deadline next))).at
              (ops.sleep 100 w) (slept 100 w r))
    ];
  }

  stopped-Anything : (processes : String) → Leads ops from Anything (stopped config ops processes)
  stopped-Anything processes = elim (Bool-cases (gui_running processes config.gui_executable)) [
    | inr gone ↦ rw (gone, stopped) (Leads-pure Anything tt tt)
    | inl here ↦ rw (here, stopped) (Leads-fail Anything _)
  ]

  pub quit_gui-Anything :
      (fuel : ℕ) (processes : String) → Leads ops from Anything (quit_gui config ops fuel processes)
  unfolding quit_gui
  quit_gui-Anything fuel processes =
      elim (Bool-cases (gui_running processes config.gui_executable)) [
        | inr gone ↦ rw (gone, quit_gui) (Leads-pure Anything tt tt)
        | inl here ↦
            rw (here, quit_gui)
              (Leads-then Anything Anything (attempt user_action_required ops.graceful_quit_chatgpt)
                _ (attempt-Anything user_action_required ops.graceful_quit_chatgpt quit)
                (λ u v.
                  Leads-bind Anything Anything
                    (gets (λ w. (ops.now w + config.graceful_quit_timeout, w))) _
                    (gets-Anything _ (λ w r. r))
                    (λ deadline v.
                      Leads-bind Anything Anything (poll_quit config ops fuel deadline processes) _
                        (poll_quit-Anything fuel deadline processes)
                        (λ after v. stopped-Anything after))))
      ]

  pub own_daemon-Anything :
      (processes : String) → Leads ops from Anything (own_daemon config ops processes)
  unfolding own_daemon
  own_daemon-Anything processes =
      elim (Bool-cases (has_managed_daemon processes config.standalone_codex)) [
        | inl here ↦ rw (here, own_daemon) (Leads-pure Anything _ tt)
        | inr gone ↦
            rw (gone, own_daemon)
              (Leads-then Anything Anything (attempt daemon_command (start_daemon config ops)) _
                (attempt-Anything daemon_command (start_daemon config ops)
                  (λ w r. spawned _ _ _ w r))
                (λ u v. Leads-pure Anything _ tt))
      ]

  pub require-Anything :
      (e : SupervisorError) (b : Bool) → Leads ops from Anything (require config ops e b)
  require-Anything e true = Leads-pure Anything tt tt
  require-Anything e false = Leads-fail Anything e
