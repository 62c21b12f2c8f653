-- ===== src/Runtime/Exit.antt =====
-- `HandleExit`, `handleRestartPolicy` and `cleanupExecSessions` of internal/runtime on the state of
-- the manager. The slices `id[:12]` in log lines are left out: an ID has 64 characters.
use kogia.Base.{
  ℕ, Bool, true, false, ◌&&◌, Option, none, some, List, [], ◌∷◌, Str, str_eq, ◌==◌, if◌then◌else◌,
  lookup, insert, Outcome, ok, err, panic, ℤ, negsuc,
}
use kogia.Base.Maps.{Dict}
use kogia.Runtime.State.{exited, Container, HostConfig}
use kogia.Runtime.Restart.{handle_restart_policy}

-- `activeContainer`: `is_done` is a closed `done`, `io_closed` a closed `io`, and `oom_watched` a
-- `cancelOOM` that was not called yet.
pub record ActiveContainer : Type 0 where
  pub pid : ℕ
  pub exit_code : ℕ
  pub manually_stopped : Bool
  pub is_done : Bool
  pub io_closed : Bool
  pub oom_watched : Bool

-- `container.ExecCreateRequest`
pub record ExecConfig : Type 0 where
  pub cmd : List Str
  pub env : List Str
  pub working_dir : Str
  pub user : Str
  pub tty : Bool
  pub attach_stdin : Bool
  pub attach_stdout : Bool
  pub attach_stderr : Bool

-- `ExecSession`; `has_pty` is a `ptyMaster` that is not nil.
pub record ExecSession : Type 0 where
  pub id : Str
  pub container_id : Str
  pub config : ExecConfig
  pub exit_code : Option ℤ
  pub pid : ℕ
  pub running : Bool
  pub started : Bool
  pub has_pty : Bool

-- A goroutine that `HandleExit` starts: `Remove(id, true)`, or `Start(id)` after a delay.
pub data Task : Type 0 where
  remove_task : Str → Task
  restart_task : Str → ℕ → Task

-- The container store and the network manager, as the runtime calls them. `disconnect_all` is the
-- state that the call leaves, whether it failed, which is only logged, or not; it is the identity where
-- there is no network manager.
pub record Backend (S E : Type 0) : Type 0 where
  pub get_container : S → Str → Outcome E Container
  pub update_container : S → Container → Option S  -- `none` is an error
  pub disconnect_all : S → Str → S

pub record Manager (S : Type 0) : Type 0 where
  pub active : Dict ActiveContainer
  pub pid_map : List (ℕ × Str)
  pub exec_sessions : Dict ExecSession
  pub store : S

abbrev pub lookup_pid : ℕ → List (ℕ × Str) → Option Str
lookup_pid pid [] = none
lookup_pid pid ((p, id) ∷ m) = if p == pid then some id else lookup_pid pid m

abbrev pub delete_pid : ℕ → List (ℕ × Str) → List (ℕ × Str)
delete_pid pid [] = []
delete_pid pid ((p, id) ∷ m) =
    let rest = delete_pid pid m in if p == pid then rest else (p, id) ∷ rest

-- The sessions of the container that still run are marked as finished with -1.
unfoldable pub cleanup_exec_sessions : Str → Dict ExecSession → Dict ExecSession
cleanup_exec_sessions id [] = []
cleanup_exec_sessions id ((k, s) ∷ d) =
    (
      k,
      if str_eq s.container_id id && s.running
          then record s { running = false; exit_code = some (negsuc 0) }
          else s,
    )
    ∷ cleanup_exec_sessions id d

-- The watcher stops, the stdio is closed and the exit code is cached.
abbrev pub wind_down : ℕ → ActiveContainer → ActiveContainer
wind_down code ac = record ac { oom_watched = false; io_closed = true; exit_code = code }

-- `if ac != nil { close(ac.done) }`: closing it twice panics, which is `none`.
abbrev pub close_done :
    Str → Option ActiveContainer → Dict ActiveContainer → Option (Dict ActiveContainer)
close_done id none active = some active
close_done id (some ac) active =
    if ac.is_done then none else some (insert id (record ac { is_done = true }) active)

abbrev pub was_stopped : Option ActiveContainer → Bool
was_stopped none = false
was_stopped (some ac) = ac.manually_stopped

-- The record of an exited container.
abbrev pub exited_record : Container → ℕ → Bool → Str → Container
exited_record r code oom now = record r {
  state = record (r.state) {
    status = exited;
    is_running = false;
    pid = 0;
    exit_code = code;
    finished_at = now;
    oom_killed = oom;
  };
}

abbrev pub auto_remove : Option HostConfig → Bool
auto_remove none = false
auto_remove (some h) = h.auto_remove

-- What `HandleExit` does to its maps before it reads the record: the process is reaped, its exec
-- sessions are settled and an active container is wound down.
unfoldable pub claim : {S : Type 0} → Str → ℕ → ℕ → Manager S → Manager S
claim id pid code m = record m {
  pid_map = delete_pid pid m.pid_map;
  exec_sessions = cleanup_exec_sessions id m.exec_sessions;
  active = elim (lookup id m.active) [
    | none ↦ m.active
    | some ac ↦ insert id (wind_down code ac) m.active
  ];
}

module _ {S E : Type 0} (backend : Backend S E) where
  -- An update whose error is only logged.
  abbrev pub update_or_log : S → Container → S
  update_or_log s r = elim (backend.update_container s r) [ some s' ↦ s' | none ↦ s ]

  -- The end of `HandleExit`: what is started, and what the restart policy stores.
  abbrev pub after_exit : Str → Container → ℕ → Bool → S → List Task × S
  after_exit id r code stopped s =
      if auto_remove r.host_config
      then (remove_task id ∷ [], s)
      else elim (handle_restart_policy r code stopped) [
        | none ↦ ([], s)
        | some (r', delay) ↦ (restart_task r'.id delay ∷ [], update_or_log s r')
      ]

  -- The rest of `HandleExit` for a known process.
  unfoldable pub finish_exit : Str → ℕ → Bool → Str → Manager S → Outcome E (List Task) × Manager S
  finish_exit id code oom now m =
      let ac = lookup id m.active in
      let closed = close_done id ac m.active in
      elim (backend.get_container m.store id) [
        | panic ↦ (panic, m)
        | err _ ↦ elim closed [ none ↦ (panic, m) | some a ↦ (ok [], record m { active = a }) ]
        | ok r ↦
            let r' = exited_record r code oom now in
            let s' = backend.disconnect_all (update_or_log m.store r') id in
            let after = after_exit id r' code (was_stopped ac) s' in
            elim closed [
              | none ↦ (panic, record m { store = s' })
              | some a ↦ (ok after.0, record m { active = a; store = after.1 })
            ]
      ]

  unfoldable pub handle_exit : ℕ → ℕ → Bool → Str → Manager S → Outcome E (List Task) × Manager S
  handle_exit pid code oom now m = elim (lookup_pid pid m.pid_map) [
    | none ↦ (ok [], m)
    | some id ↦ finish_exit id code oom now (claim id pid code m)
  ]
