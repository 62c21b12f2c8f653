-- ===== src/Runtime/Exec/Sessions.antt =====
-- `ExecCreate`, `ExecStart`, `ExecInspect` and `ExecResize`. The locks make each access to the sessions
-- one step; what others do to them while the process runs is a function. An ID of the daemon's own has
-- 64 characters, so its slices `id[:12]` are left out.
use kogia.Base.{
  ℕ, Bool, true, false, not, ◌&&◌, Option, none, some, List, [], ◌∷◌, Str, if◌then◌else◌, ltb,
  length, lookup, insert, Outcome, ok, err, panic, ℤ, pos, negsuc,
}
use kogia.Base.Maps.{Dict}
use kogia.Runtime.Exit.{ActiveContainer, ExecConfig, ExecSession, Backend, Manager}
use kogia.Runtime.Lifecycle.Start.{is_running_status}

abbrev pub Sessions : Type 0
Sessions = Dict ExecSession

pub data ExecError (E : Type 0) : Type 0 where
  store_failed : E → ExecError E
  not_running id_failed not_found already_started : ExecError E
  spec_failed spawn_failed pty_failed : ExecError E

abbrev pub new_session : Str → Str → ExecConfig → ExecSession
new_session id container_id config = record {
  id = id;
  container_id = container_id;
  config = config;
  exit_code = none;
  pid = 0;
  running = false;
  started = false;
  has_pty = false;
}

-- A session is shared: it is changed where it is.
abbrev pub update_session : Str → (ExecSession → ExecSession) → Sessions → Sessions
update_session id f sessions = elim (lookup id sessions) [
  | none ↦ sessions
  | some s ↦ insert id (f s) sessions
]

-- The first part of `ExecStart`: the session is claimed. The error of an unknown session slices
-- `execID[:12]`, and the ID is the caller's.
unfoldable pub claim_session :
    {E : Type 0} → Str → Sessions → Outcome (ExecError E) ExecSession × Sessions
claim_session id sessions = elim (lookup id sessions) [
  | none ↦ (if ltb (length id) 12 then panic else err not_found, sessions)
  | some s ↦
      if s.started
      then (err already_started, sessions)
      else (ok s, insert id (record s { started = true }) sessions)
]

abbrev pub set_running : ℕ → Bool → ExecSession → ExecSession
set_running pid pty s = record s { running = true; pid = pid; has_pty = pty }

-- How `cmd.Wait()` returns: nil, an `ExitError`, or another error.
pub data Waited : Type 0 where
  succeeded : Waited
  exited_with : ℤ → Waited
  wait_failed : Waited

abbrev pub exit_code_of : Waited → ℤ
exit_code_of succeeded = pos 0
exit_code_of (exited_with code) = code
exit_code_of wait_failed = negsuc 0

-- `finishExec`
abbrev pub set_finished : Waited → ExecSession → ExecSession
set_finished waited s = record s {
  running = false;
  exit_code = some (exit_code_of waited);
  has_pty = false;
}

-- How the calls of one `ExecStart` end. With a terminal the master of it is received.
pub record ExecAnswers : Type 0 where
  pub spec_written : Bool
  pub spawned : Option ℕ
  pub pty_received : Bool
  pub waited : Waited

-- What others do to the sessions while the process runs.
abbrev pub Meanwhile : Type 0
Meanwhile = Sessions → Sessions

abbrev pub Started : Type 0 → Type 0
Started E = Outcome (ExecError E) (Unit {0}) × Sessions

-- `execWithTTY` and `execWithPipes`, from the start of the process to its end.
unfoldable pub run_process :
    {E : Type 0} → ExecSession → ExecAnswers → Meanwhile → Sessions → Started E
run_process s ans others sessions = elim ans.spawned [
  | none ↦ (err spawn_failed, sessions)
  | some pid ↦ if s.config.tty && not ans.pty_received then (err pty_failed, sessions) else (
    ok tt,
    update_session s.id (set_finished ans.waited)
        (others (update_session s.id (set_running pid s.config.tty) sessions)),
  )
]

-- The rest of `ExecStart`: the container has to be active.
unfoldable pub exec_claimed :
    {E : Type 0}
    → Dict ActiveContainer
    → ExecSession
    → ExecAnswers
    → Meanwhile
    → Sessions
    → Started E
exec_claimed active s ans others sessions = elim (lookup s.container_id active) [
  | none ↦ (err not_running, sessions)
  | some ac ↦
      if not ans.spec_written
      then (err spec_failed, sessions)
      else run_process s ans others sessions
]

abbrev pub after_claim :
    {E : Type 0}
    → Dict ActiveContainer
    → ExecAnswers
    → Meanwhile
    → Outcome (ExecError E) ExecSession × Sessions
    → Started E
after_claim active ans others (ok s, sessions) = exec_claimed active s ans others sessions
after_claim active ans others (err e, sessions) = (err e, sessions)
after_claim active ans others (panic, sessions) = (panic, sessions)

unfoldable pub exec_start :
    {E : Type 0} → Dict ActiveContainer → Str → ExecAnswers → Meanwhile → Sessions → Started E
exec_start active id ans others sessions = after_claim active ans others (claim_session id sessions)

module _ {S E : Type 0} (backend : Backend S E) where
  -- The new ID is random; it may fail.
  unfoldable pub exec_create :
      Str → ExecConfig → Option Str → Manager S → Outcome (ExecError E) Str × Manager S
  exec_create container_id config random m = elim (backend.get_container m.store container_id) [
    | err e ↦ (err (store_failed e), m)
    | panic ↦ (panic, m)
    | ok r ↦ if not (is_running_status r.state.status) then (err not_running, m) else elim random [
      | none ↦ (err id_failed, m)
      | some id ↦ (
        ok id,
        record m { exec_sessions = insert id (new_session id r.id config) m.exec_sessions },
      )
    ]
  ]

-- `container.ExecInspectResponse`
pub record ExecInspectResponse : Type 0 where
  pub id : Str
  pub container_id : Str
  pub running : Bool
  pub exit_code : Option ℤ
  pub pid : ℕ
  pub open_stdin : Bool
  pub open_stdout : Bool
  pub open_stderr : Bool
  pub tty : Bool
  pub entrypoint : Str
  pub arguments : List Str
  pub user : Str

abbrev first_or_empty : List Str → Str
first_or_empty [] = []
first_or_empty (c ∷ cmd) = c

abbrev after_first : List Str → List Str
after_first [] = []
after_first (c ∷ cmd) = cmd

abbrev pub inspected : ExecSession → ExecInspectResponse
inspected s = record {
  id = s.id;
  container_id = s.container_id;
  running = s.running;
  exit_code = s.exit_code;
  pid = s.pid;
  open_stdin = s.config.attach_stdin;
  open_stdout = s.config.attach_stdout;
  open_stderr = s.config.attach_stderr;
  tty = s.config.tty;
  entrypoint = first_or_empty s.config.cmd;
  arguments = after_first s.config.cmd;
  user = s.config.user;
}

unfoldable pub exec_inspect :
    {E : Type 0} → Str → Sessions → Outcome (ExecError E) ExecInspectResponse
exec_inspect id sessions = elim (lookup id sessions) [
  | none ↦ err not_found
  | some s ↦ ok (inspected s)
]

-- Whether the terminal is resized: without one nothing is done.
unfoldable pub exec_resize : {E : Type 0} → Str → Sessions → Outcome (ExecError E) Bool
exec_resize id sessions = elim (lookup id sessions) [ none ↦ err not_found | some s ↦ ok s.has_pty ]
