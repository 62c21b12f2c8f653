-- ===== src/Runtime/Lifecycle/Start.antt =====
-- `Start` of the runtime manager.
use kogia.Base.{
  ℕ, Bool, true, false, not, ◌&&◌, Option, none, some, [], ◌∷◌, Str, if◌then◌else◌, insert, erase,
  ok, err, panic,
}
use kogia.Runtime.State.{Status, running, Container, Config}
use kogia.Runtime.Exit.{ActiveContainer, delete_pid, update_or_log}
use kogia.Runtime.Lifecycle.State.{
  mount_rootfs, open_log, close_log, open_io, close_io, crun_create, crun_start, crun_delete,
  watch_oom, store_failed, already_running, mount_failed, spec_failed, log_failed, io_failed,
  create_failed, pty_failed, pid_failed, network_failed, start_failed, Services, Runtime, Result,
  emit, erase_str,
}

-- How the calls of one `Start` end: the mount point, the rewritten spec, the log driver, the stdio,
-- `crun create`, the terminal, the PID file, `crun start`, and the time.
pub record StartAnswers : Type 0 where
  pub root_path : Option Str
  pub spec_updated : Bool
  pub log_opened : Bool
  pub io_made : Bool
  pub created : Bool
  pub pty_received : Bool
  pub pid : Option ℕ
  pub started : Bool
  pub now : Str

abbrev pub is_running_status : Status → Bool
is_running_status running = true
is_running_status status = false

abbrev pub want_tty : Option Config → Bool
want_tty none = false
want_tty (some cfg) = cfg.tty

abbrev pub want_stdin : Option Config → Bool
want_stdin none = false
want_stdin (some cfg) = cfg.open_stdin

-- The entry of the active map.
abbrev pub new_active : ℕ → ActiveContainer
new_active pid = record {
  pid = pid;
  exit_code = 0;
  manually_stopped = false;
  is_done = false;
  io_closed = false;
  oom_watched = true;
}

abbrev pub started_record : Container → ℕ → Str → Container
started_record r pid now = record r {
  state = record (r.state) {
    status = running;
    is_running = true;
    pid = pid;
    started_at = now;
    finished_at = [];
  };
}

-- `m.active[id] = ac; m.pidMap[pid] = id`, and the waiting callers are woken.
abbrev pub enter_active : {S : Type 0} → Str → ℕ → Runtime S → Runtime S
enter_active id pid m = record {
  manager = record (m.manager) {
    active = insert id (new_active pid) m.manager.active;
    pid_map = (pid, id) ∷ delete_pid pid m.manager.pid_map;
  };
  start_notify = erase_str id m.start_notify;
}

abbrev pub leave_active : {S : Type 0} → Str → ℕ → Runtime S → Runtime S
leave_active id pid m = record m {
  manager = record (m.manager) {
    active = erase id m.manager.active;
    pid_map = delete_pid pid m.manager.pid_map;
  };
}

abbrev pub with_store : {S : Type 0} → S → Runtime S → Runtime S
with_store s m = record m { manager = record (m.manager) { store = s } }

module _ {S E : Type 0} (services : Services S E) where
  abbrev pub Started : Type 0
  Started = Result E (Unit {0}) (Runtime S)

  -- The container is registered before `crun start`, and taken out again when that fails.
  unfoldable pub launch : Container → ℕ → StartAnswers → Runtime S → Started
  launch r pid ans m =
      let m1 = enter_active r.id pid m in
      let s = update_or_log services.backend m1.manager.store (started_record r pid ans.now) in
      emit (watch_oom r.id ∷ crun_start r.id ∷ []) (
        if ans.started then (ok tt, [], with_store s m1) else (
          err start_failed,
          crun_delete r.id ∷ close_io r.id ∷ [],
          leave_active r.id pid (with_store s m1),
        ))

  -- With the container created and its process known.
  unfoldable pub join_network : Container → ℕ → StartAnswers → Runtime S → Started
  join_network r pid ans m =
      let net = services.set_up_network m.manager.store r pid in
      if not net.0
      then (err network_failed, crun_delete r.id ∷ close_io r.id ∷ [], with_store net.1 m)
      else launch r pid ans (with_store net.1 m)

  unfoldable pub read_pid : Container → StartAnswers → Runtime S → Started
  read_pid r ans m = elim ans.pid [
    | none ↦ (err pid_failed, crun_delete r.id ∷ close_io r.id ∷ [], m)
    | some pid ↦ join_network r pid ans m
  ]

  -- `crun create`, and with a terminal the master's descriptor.
  unfoldable pub create_container : Container → StartAnswers → Runtime S → Started
  create_container r ans m = emit (crun_create r.id ∷ []) (
      if not ans.created
      then (err create_failed, close_io r.id ∷ [], m)
      else if want_tty r.config && not ans.pty_received
      then (err pty_failed, crun_delete r.id ∷ close_io r.id ∷ [], m)
      else read_pid r ans m)

  -- The rootfs, the spec, the log driver and the stdio.
  unfoldable pub prepare : Container → StartAnswers → Runtime S → Started
  prepare r ans m = elim ans.root_path [
    | none ↦ (err mount_failed, mount_rootfs r.id ∷ [], m)
    | some root ↦ emit (mount_rootfs r.id ∷ []) (
        if not ans.spec_updated
        then (err spec_failed, [], m)
        else if not ans.log_opened
        then (err log_failed, open_log r.id ∷ [], m)
        else if not ans.io_made
        then (err io_failed, open_log r.id ∷ close_log r.id ∷ [], m)
        else emit (open_log r.id ∷ open_io r.id (want_tty r.config) (want_stdin r.config) ∷ [])
            (create_container r ans m))
  ]

  unfoldable pub start : Str → StartAnswers → Runtime S → Started
  start id ans m = elim (services.backend.get_container m.manager.store id) [
    | err e ↦ (err (store_failed e), [], m)
    | panic ↦ (panic, [], m)
    | ok r ↦
        if is_running_status r.state.status
        then (err already_running, [], m)
        else elim (services.get_container_bundle m.manager.store r.id) [
          | err e ↦ (err (store_failed e), [], m)
          | panic ↦ (panic, [], m)
          | ok bundle ↦ prepare r ans m
        ]
  ]
