-- ===== src/Runtime/Exec/Tests.antt =====
-- Exec sessions at small inputs.
use kogia.Base.{ℤ, ◌≡◌, refl, true, false, some, [], ◌∷◌, Str, codes, insert, ok, err, panic, pos}
use kogia.Base.Maps.{Dict}
use kogia.Runtime.Exit.{ActiveContainer, ExecSession, cleanup_exec_sessions}
use kogia.Runtime.Exec.Process.{exec_user}
use kogia.Runtime.Exec.Sessions.{
  Sessions, already_started, new_session, claim_session, set_finished, set_running, exited_with,
  ExecAnswers, Meanwhile, run_process, exec_claimed, exec_start, ExecInspectResponse, exec_inspect,
}
use kogia.Runtime.Exec.Others.{cleanup_exec_sessions-KeepsStarted, exec_start-KeepsStarted}
use kogia.Runtime.Exec.Laws.{ShownFor, exec_start_once, exec_start-inspect}

abbrev id : Str
id = codes "0123456789abcdef"

abbrev container : Str
container = codes "c0"

abbrev session : ExecSession
session = new_session id container (record {
  cmd = codes "ls" ∷ codes "-l" ∷ [];
  env = [];
  working_dir = [];
  user = [];
  tty = true;
  attach_stdin = false;
  attach_stdout = true;
  attach_stderr = true;
})

abbrev sessions : Sessions
sessions = insert id session []

abbrev active : Dict ActiveContainer
active =
    insert container
      (record {
        pid = 7;
        exit_code = 0;
        manually_stopped = false;
        is_done = false;
        io_closed = false;
        oom_watched = true;
      })
      []

abbrev ans : ExecAnswers
ans = record {
  spec_written = true;
  spawned = some 9;
  pty_received = true;
  waited = exited_with (pos 3);
}

abbrev ended : Sessions
ended =
    insert id
      (set_finished (exited_with (pos 3)) (set_running 9 true (record session { started = true })))
      []

-- The container exits meanwhile.
abbrev exits : Meanwhile
exits = cleanup_exec_sessions container

started_ok : exec_start {E = Unit {0}} active id ans exits sessions ≡ (ok tt, ended)
unfolding exec_start claim_session exec_claimed run_process cleanup_exec_sessions
started_ok = refl

unknown_short :
    exec_start {E = Unit {0}} active (codes "0123") ans exits sessions ≡ (panic, sessions)
unfolding exec_start claim_session
unknown_short = refl

named_user_is_root :
    exec_user (codes "1000") (record { uid = 5; gid = 5 }) ≡ record { uid = 0; gid = 0 }
named_user_is_root = refl

-- Another session is started meanwhile, and the container exits during that.
abbrev busy : Meanwhile
busy s = (exec_start {E = Unit {0}} active (codes "fedcba9876543210") ans exits s).1

exec_start_once_example :
    exec_start {E = Unit {0}} active id ans exits
      (exec_start {E = Unit {0}} active id ans busy sessions).1
    ≡ (err already_started, (exec_start {E = Unit {0}} active id ans busy sessions).1)
exec_start_once_example =
    exec_start_once (Unit {0}) active active id ans ans busy exits sessions session
      (exec_start-KeepsStarted (Unit {0}) active (codes "fedcba9876543210") ans exits
        (cleanup_exec_sessions-KeepsStarted container))
      refl

exec_start-inspect_example :
    (r : ExecInspectResponse) × (exec_inspect {E = Unit {0}} id ended ≡ ok r)
    × (r.running ≡ false)
    × (code : ℤ) × (r.exit_code ≡ some code)
    × ShownFor (exited_with (pos 3)) code
exec_start-inspect_example =
    exec_start-inspect (Unit {0}) active id ans exits sessions ended session
      (cleanup_exec_sessions-KeepsStarted container) refl refl started_ok
