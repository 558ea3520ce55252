-- ===== src/Supervisor/Verified.antt =====
-- What a supervisor that is initialised has seen (src/supervisor/src/lib.rs).
use codex_warden.Prelude.{ℕ, ◌≡◌, refl, true, false, String, some, ok, string_eq}
use codex_warden.Supervisor.State.{
  SupervisorConfig, DaemonOwnership, SupervisionState, missing_standalone, missing_gui, inspection,
  ProcessOps,
}
use codex_warden.Supervisor.Run.{pure, attempt, gets, ◌>>=◌, ◌>>◌}
use codex_warden.Supervisor.Reached.{begun, looked, Leads, Leads-pure, Leads-bind, Leads-then}
use codex_warden.Supervisor.Start.{
  wait_for_daemon_version, must_launch, own_daemon, attach_gui, require, initialize,
}
use codex_warden.Supervisor.Quitting.{
  Anything, gets-Anything, own_daemon-Anything, require-Anything,
}
use codex_warden.Supervisor.Seen.{
  IsVersion, IsListing, IsAttached, IsVerified, AttachedHere, list-IsListing,
  must_launch-IsAttached, attach_gui-IsAttached, wait_for_daemon_version-IsVersion,
}

module _ {W : Type 0} (config : SupervisorConfig) (ops : ProcessOps W) (from : W) where
  -- the end of `initialize`, behind the version
  attached-IsVerified :
      (fuel : ℕ) (ownership : DaemonOwnership) (version : String)
      → IsVersion config ops from version
      → Leads ops from (IsVerified config ops from) (do
        later ← attempt inspection ops.ps_environment
        launch ← gets (must_launch config ops later)
        attach_gui config ops fuel later launch
        pure (record {
          daemon_ownership = ownership;
          daemon_version = version;
          gui_attached = true;
          daemon_left_running = true;
        }))
  attached-IsVerified fuel ownership version v =
      Leads-bind (IsListing config ops from) (IsVerified config ops from)
        (attempt inspection ops.ps_environment) _ (list-IsListing config ops from)
        (λ later l.
          Leads-bind (λ launch. launch ≡ false → IsAttached config ops from)
            (IsVerified config ops from) (gets (must_launch config ops later)) _
            (must_launch-IsAttached config ops from later l)
            (λ launch h.
              Leads-then (AttachedHere config ops from) (IsVerified config ops from)
                (attach_gui config ops fuel later launch) _
                (attach_gui-IsAttached config ops from fuel later launch h)
                (λ u a.
                  Leads-pure (IsVerified config ops from)
                    (record {
                      daemon_ownership = ownership;
                      daemon_version = version;
                      gui_attached = true;
                      daemon_left_running = true;
                    })
                    (record { version = v; attachment = a; attached = refl; kept = refl }))))

  initialize-Leads :
      (fuel : ℕ) → Leads ops from (IsVerified config ops from) (initialize config ops fuel)
  unfolding initialize
  initialize-Leads fuel =
      let goal = IsVerified config ops from in
      Leads-bind (Anything config ops from) goal (gets (ops.exists config.standalone_codex)) _
        (gets-Anything config ops from _ (λ w r. looked _ w r))
        (λ codex i.
          Leads-then (Anything config ops from) goal
            (require config ops (missing_standalone config.standalone_codex) codex) _
            (require-Anything config ops from _ codex)
            (λ u j.
              Leads-bind (Anything config ops from) goal (gets (ops.exists config.gui_executable)) _
                (gets-Anything config ops from _ (λ w r. looked _ w r))
                (λ gui k.
                  Leads-then (Anything config ops from) goal
                    (require config ops (missing_gui config.gui_executable) gui) _
                    (require-Anything config ops from _ gui)
                    (λ v l.
                      Leads-bind (IsListing config ops from) goal
                        (attempt inspection ops.ps_environment) _ (list-IsListing config ops from)
                        (λ processes m.
                          Leads-bind (Anything config ops from) goal
                            (own_daemon config ops processes) _
                            (own_daemon-Anything config ops from processes)
                            (λ ownership n.
                              Leads-bind (IsVersion config ops from) goal
                                (wait_for_daemon_version config ops fuel) _
                                (wait_for_daemon_version-IsVersion config ops from fuel)
                                (attached-IsVerified fuel ownership)))))))

  -- A supervisor that is initialised has seen what it reports. If `initialize` gives a state,
  -- then, in states of the operating system that its calls led to, a version command succeeded and
  -- printed the version reported, which is not empty, and the GUI was seen attached: by a listing
  -- of the processes it ran in the mode of the shared daemon, and the socket had an accepted
  -- connection.
  pub initialize-IsVerified :
      (fuel : ℕ) (state : SupervisionState)
      → (initialize config ops fuel from).0 ≡ some (ok state)
      → IsVerified config ops from state
  initialize-IsVerified fuel state e = ((initialize-Leads fuel).at from begun).1 state e
