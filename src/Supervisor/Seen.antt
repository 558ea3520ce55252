-- ===== src/Supervisor/Seen.antt =====
-- What the parts of `initialize` see (src/supervisor/src/lib.rs).
use codex_warden.Prelude.{
  ℕ, zero, suc, ◌+◌, ◌≡◌, ◌≢◌, refl, inl, inr, Bool, true, false, not, String, Result, ok, err,
  string_eq, arith, Bool-cases, ltb, eq_iff,
}
use codex_warden.Supervisor.State.{
  SupervisorConfig, SupervisionState, user_action_required, inspection, CommandOutput, ProcessOps,
}
use codex_warden.Supervisor.Processes.{gui_mode_enabled}
use codex_warden.Supervisor.Run.{Run, attempt, gets}
use codex_warden.Supervisor.Reached.{
  IsReached, listed, users_seen, ran, spawned, slept, Leads, Leads-pure, Leads-gets, Leads-attempt,
  Leads-bind, Leads-then,
}
use codex_warden.Supervisor.Quitting.{Anything, attempt-Anything, quit_gui-Anything}
use codex_warden.Supervisor.Start.{
  launch_gui, ask_version, accepts, gui_attached, version_of, found_version, poll_version,
  wait_for_daemon_version, found_gui, poll_gui, wait_for_gui_attachment, quit_gui, must_launch,
  attach_gui,
}

module _ {W : Type 0} (config : SupervisorConfig) (ops : ProcessOps W) (from : W) where
  -- In a state that was reached, a daemon command that succeeded printed the version.
  pub record IsVersion (version : String) : Type 0 where
    pub seen_in : W
    pub reached : IsReached ops from seen_in
    pub printed : CommandOutput
    pub answer : (ask_version config ops seen_in).0 ≡ ok printed
    pub succeeded : printed.success ≡ true
    pub shown : printed.stdout ≡ version
    pub present : version ≢ ""

  -- a listing of the processes, in a state that was reached
  pub record IsListing (processes : String) : Type 0 where
    pub listed_in : W
    pub reached : IsReached ops from listed_in
    pub answer : (ops.ps_environment listed_in).0 ≡ ok processes

  -- In a state that was reached, the GUI was seen attached, by such a listing.
  pub record IsAttached : Type 0 where
    pub seen_in : W
    pub reached : IsReached ops from seen_in
    pub processes : String
    pub listing : IsListing processes
    pub seen : (gui_attached config ops processes seen_in).0 ≡ true

  -- What `initialize` claims in its state.
  pub record IsVerified (state : SupervisionState) : Type 0 where
    pub version : IsVersion state.daemon_version
    pub attachment : IsAttached
    pub attached : state.gui_attached ≡ true
    pub kept : state.daemon_left_running ≡ true

  abbrev pub AttachedHere : Unit {0} → Type 0
  AttachedHere u = IsAttached

  pub list-IsListing : Leads ops from IsListing (attempt inspection ops.ps_environment)
  list-IsListing =
      Leads-attempt IsListing inspection ops.ps_environment
        (λ w r. (listed w r, λ processes e. record { listed_in = w; reached = r; answer = e }))

  version_of-IsVersion :
      (w : W) (r : Result CommandOutput String) (version : String)
      → IsReached ops from w
      → (ask_version config ops w).0 ≡ r
      → version_of config ops r ≡ ok version
      → IsVersion version
  version_of-IsVersion w (err e) version reached asked h = absurd (ground (arith, h))
  version_of-IsVersion w (ok out) version reached asked h = record {
    seen_in = w;
    reached = reached;
    printed = out;
    answer = asked;
    succeeded = ground (arith, h, eq_iff out.stdout "");
    shown = ground (arith, h, eq_iff out.stdout "");
    present = ground (arith, h, eq_iff out.stdout "");
  }

  found_version-IsVersion :
      (again : String → Run W String) (r : Result String String)
      → ((v : String) → r ≡ ok v → IsVersion v)
      → ((detail : String) → Leads ops from IsVersion (again detail))
      → Leads ops from IsVersion (found_version config ops again r)
  found_version-IsVersion again (ok v) here rest = record {
    at = λ w r. (r, λ version e. here version (ground (arith, e)));
  }
  found_version-IsVersion again (err detail) here rest = record {
    at = λ w r. (rest detail).at (ops.sleep 100 w) (slept 100 w r);
  }

  poll_version-IsVersion :
      (fuel deadline : ℕ) (detail : String)
      → Leads ops from IsVersion (poll_version config ops fuel deadline detail)
  unfolding poll_version
  poll_version-IsVersion zero deadline detail = record {
    at = λ w r. (r, λ a e. absurd (ground (arith, e)));
  }
  poll_version-IsVersion (suc fuel) deadline detail = record {
    at = λ w r. elim (Bool-cases (ltb (ops.now w) deadline)) [
      | inr late ↦ rw (late, poll_version) (r, λ a e. absurd (ground (arith, e)))
      | inl early ↦
          let asked = ask_version config ops w in
          rw (early, poll_version)
            ((found_version-IsVersion (poll_version config ops fuel deadline)
                (version_of config ops asked.0) (λ v. version_of-IsVersion w asked.0 v r refl)
                (poll_version-IsVersion fuel deadline)).at
              asked.1 (ran _ _ w r))
    ];
  }

  accepts-state :
      (p : Result String String × W)
      → IsReached ops from p.1
      → IsReached ops from (accepts config ops p).1
  accepts-state (ok users, w) r = r
  accepts-state (err e, w) r = r

  gui_attached-state :
      (processes : String) (w : W)
      → IsReached ops from w
      → IsReached ops from (gui_attached config ops processes w).1
  unfolding gui_attached
  gui_attached-state processes w r =
      elim (Bool-cases (gui_mode_enabled processes config.gui_executable)) [
        | inr off ↦ rw (off, gui_attached) r
        | inl on ↦
            rw (on, gui_attached)
              (accepts-state (ops.socket_users config.socket_path w)
                (users_seen config.socket_path w r))
      ]

  gui_attached-IsAttached :
      (processes : String)
      → IsListing processes
      → Leads ops from (λ here. here ≡ true → IsAttached) (gets (gui_attached config ops processes))
  gui_attached-IsAttached processes l =
      Leads-gets (λ here. here ≡ true → IsAttached) (gui_attached config ops processes)
        (λ w r. (
          gui_attached-state processes w r,
          λ t. record { seen_in = w; reached = r; processes = processes; listing = l; seen = t },
        ))

  found_gui-IsAttached :
      (again : Run W (Unit {0})) (here : Bool)
      → (here ≡ true → IsAttached)
      → Leads ops from AttachedHere again
      → Leads ops from AttachedHere (found_gui config ops again here)
  found_gui-IsAttached again true h rest = Leads-pure AttachedHere tt (h refl)
  found_gui-IsAttached again false h rest = record {
    at = λ w r. rest.at (ops.sleep 100 w) (slept 100 w r);
  }

  poll_gui-IsAttached :
      (fuel deadline : ℕ) → Leads ops from AttachedHere (poll_gui config ops fuel deadline)
  unfolding poll_gui
  poll_gui-IsAttached zero deadline = record { at = λ w r. (r, λ a e. absurd (ground (arith, e))) }
  poll_gui-IsAttached (suc fuel) deadline = record {
    at = λ w r. elim (Bool-cases (ltb (ops.now w) deadline)) [
      | inr late ↦ rw (late, poll_gui) (r, λ a e. absurd (ground (arith, e)))
      | inl early ↦
          rw (early, poll_gui)
            ((Leads-bind IsListing AttachedHere (attempt inspection ops.ps_environment) _
                list-IsListing
                (λ processes l.
                  Leads-bind (λ here. here ≡ true → IsAttached) AttachedHere
                    (gets (gui_attached config ops processes)) _
                    (gui_attached-IsAttached processes l)
                    (λ here h.
                      found_gui-IsAttached (poll_gui config ops fuel deadline) here h
                        (poll_gui-IsAttached fuel deadline)))).at
              w r)
    ];
  }

  must_launch-asked :
      (processes : String) (w : W)
      → config.restart_gui_on_initialize ≡ false
      → must_launch config ops processes w
        ≡ (let (here, w') = gui_attached config ops processes w in (not here, w'))
  unfolding must_launch
  must_launch-asked processes w e = rw (e, must_launch) refl

  pub must_launch-IsAttached :
      (processes : String)
      → IsListing processes
      → Leads ops from
          (λ launch. launch ≡ false → IsAttached)
          (gets (must_launch config ops processes))
  unfolding must_launch
  must_launch-IsAttached processes l =
      Leads-gets (λ launch. launch ≡ false → IsAttached) (must_launch config ops processes)
        (λ w r. elim (Bool-cases config.restart_gui_on_initialize) [
          | inl always ↦ rw (always, must_launch) (r, λ e. absurd (ground (arith, e)))
          | inr maybe ↦ rw (must_launch-asked processes w maybe) (
            gui_attached-state processes w r,
            λ e. record {
              seen_in = w;
              reached = r;
              processes = processes;
              listing = l;
              seen = ground (arith, e);
            },
          )
        ])

  pub attach_gui-IsAttached :
      (fuel : ℕ) (processes : String) (launch : Bool)
      → (launch ≡ false → IsAttached)
      → Leads ops from AttachedHere (attach_gui config ops fuel processes launch)
  unfolding attach_gui wait_for_gui_attachment launch_gui
  attach_gui-IsAttached fuel processes false h = Leads-pure AttachedHere tt (h refl)
  attach_gui-IsAttached fuel processes true h =
      Leads-then (Anything config ops from) AttachedHere (quit_gui config ops fuel processes) _
        (quit_gui-Anything config ops from fuel processes)
        (λ u v.
          Leads-then (Anything config ops from) AttachedHere
            (attempt user_action_required (launch_gui config ops)) _
            (attempt-Anything config ops from user_action_required (launch_gui config ops)
              (λ w r. spawned _ _ _ w r))
            (λ u v. record {
              at = λ w. (poll_gui-IsAttached fuel (ops.now w + config.startup_timeout)).at w;
            }))

  pub wait_for_daemon_version-IsVersion :
      (fuel : ℕ) → Leads ops from IsVersion (wait_for_daemon_version config ops fuel)
  unfolding wait_for_daemon_version
  wait_for_daemon_version-IsVersion fuel = record {
    at = λ w. (poll_version-IsVersion fuel (ops.now w + config.startup_timeout) "").at w;
  }
