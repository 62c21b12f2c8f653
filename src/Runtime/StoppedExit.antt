-- ===== src/Runtime/StoppedExit.antt =====
-- `HandleExit` for a container that was stopped by hand.
use kogia.Base.{
  ◌∙◌, ℤ, ℕ, Bool, true, false, ◌≡◌, refl, none, some, [], Str, lookup, insert, ok, arith,
}
use kogia.Runtime.State.{
  Container, HostConfig, RestartPolicy, PolicyMode, disabled, always, on_failure, unless_stopped,
}
use kogia.Runtime.Restart.{handle_restart_policy, should_restart, by_mode}
use kogia.Runtime.Exit.{
  ActiveContainer, Backend, Manager, lookup_pid, finish_exit, handle_exit, exited_record, wind_down,
  claim,
}
use kogia.Runtime.ExitLaws.{claim_self, handle_exit-known}

by_mode-stopped :
    (mode : PolicyMode) (limit : ℤ) (code count : ℕ) → by_mode mode limit code count true ≡ false
by_mode-stopped disabled limit code count = refl
by_mode-stopped always limit code count = refl
by_mode-stopped on_failure limit code count = ground arith
by_mode-stopped unless_stopped limit code count = refl

never_when_stopped : (p : RestartPolicy) (code count : ℕ) → should_restart p code count true ≡ false
unfolding should_restart
never_when_stopped p code count = by_mode-stopped p.name p.maximum_retry_count code count

no_restart :
    (r : Container) (h : HostConfig) (code : ℕ)
    → r.host_config ≡ some h
    → handle_restart_policy r code true ≡ none
unfolding handle_restart_policy
no_restart r h code e = ground (arith, e, never_when_stopped h.restart_policy code r.restart_count)

module _ {S E : Type 0} (backend : Backend S E) where
  finish_exit-stopped :
      (id : Str) (code : ℕ) (oom : Bool) (now : Str) (m : Manager S) (ac : ActiveContainer)
      (r : Container) (h : HostConfig) (s : S)
      → lookup id m.active ≡ some ac
      → ac.is_done ≡ false
      → ac.manually_stopped ≡ true
      → backend.get_container m.store id ≡ ok r
      → r.host_config ≡ some h
      → h.auto_remove ≡ false
      → backend.update_container m.store (exited_record r code oom now) ≡ some s
      → finish_exit backend id code oom now m ≡ (
        ok [],
        record m {
          active = insert id (record ac { is_done = true }) m.active;
          store = backend.disconnect_all s id;
        },
      )
  unfolding finish_exit
  finish_exit-stopped id code oom now m ac r h s found waits stopped read host kept stored =
      let settled = no_restart (exited_record r code oom now) h code host in
      ground (arith, found, waits, stopped, read, host, kept, stored, settled)

  -- When a container exits that was stopped by hand and is not removed on exit, nothing is started
  -- whatever its restart policy: its process and its sessions are settled, the record is stored as
  -- exited with the code, the networks are left, and `done` is closed with the code kept.
  pub handle_exit-stopped :
      (pid code : ℕ) (oom : Bool) (now : Str) (m : Manager S) (id : Str) (ac : ActiveContainer)
      (r : Container) (h : HostConfig) (s : S)
      → lookup_pid pid m.pid_map ≡ some id
      → lookup id m.active ≡ some ac
      → ac.is_done ≡ false
      → ac.manually_stopped ≡ true
      → backend.get_container m.store id ≡ ok r
      → r.host_config ≡ some h
      → h.auto_remove ≡ false
      → backend.update_container m.store (exited_record r code oom now) ≡ some s
      → handle_exit backend pid code oom now m ≡ (
        ok [],
        record (claim id pid code m) {
          active =
              insert id
                (record (wind_down code ac) { is_done = true })
                (claim id pid code m).active;
          store = backend.disconnect_all s id;
        },
      )
  unfolding claim
  handle_exit-stopped pid code oom now m id ac r h s known found waits stopped read host kept
        stored =
      handle_exit-known backend pid code oom now m id known
      ∙ finish_exit-stopped id code oom now (claim id pid code m) (wind_down code ac) r h s
          (claim_self id pid code m ac found) waits stopped read host kept stored
