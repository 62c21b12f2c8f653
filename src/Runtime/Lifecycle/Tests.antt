-- ===== src/Runtime/Lifecycle/Tests.antt =====
-- The life cycle of one container on a store in memory, and the theorems at small inputs.
use kogia.Base.{
  ℕ, ◌≡◌, ◌≢◌, refl, inl, inr, Bool, true, false, Option, none, some, [], ◌∷◌, Str, codes,
  str_eq_refl, lookup, insert, erase, lookup-insert, lookup-erase, Outcome, ok, err, panic, pos,
  Option-cases, arith,
}
use kogia.Base.Maps.{Dict}
use kogia.Runtime.State.{Status, running, exited, Container, HostConfig, always}
use kogia.Runtime.Exit.{Backend}
use kogia.Runtime.ExitLaws.{IsLive}
use kogia.Runtime.Lifecycle.State.{
  already_running, already_paused, start_failed, Services, StoresRecords, Runtime, Result,
}
use kogia.Runtime.Lifecycle.Start.{
  StartAnswers, launch, join_network, read_pid, create_container, prepare, start,
}
use kogia.Runtime.Lifecycle.ActiveLaws.{IsNew}
use kogia.Runtime.Lifecycle.StartLaws.{opens_io, closes_io, start-closes_io, start-IsLive}
use kogia.Runtime.Lifecycle.Pause.{pause}
use kogia.Runtime.Lifecycle.Sequences.{start-failed_start, pause-start}
use kogia.Runtime.Lifecycle.Recover.{KeepsOthers}

abbrev found : {A : Type 0} → Option A → Outcome (Unit {0}) A
found none = err tt
found (some a) = ok a

-- A store in memory: the records by their IDs.
abbrev pub backend : Backend (Dict Container) (Unit {0})
backend = record {
  get_container = λ s id. found (lookup id s);
  update_container = λ s r. some (insert r.id r s);
  disconnect_all = λ s id. s;
}

abbrev pub services : Services (Dict Container) (Unit {0})
services = record {
  backend = backend;
  get_container_bundle = λ s id. ok (codes "/b");
  delete_container = λ s id name. ok (erase id s);
  set_up_network = λ s r pid. (true, s);
}

pub laws : StoresRecords backend
laws = record {
  get-update = λ s s' r e. ground (arith, e, lookup-insert r.id r.id r s, str_eq_refl r.id);
}

pub others : KeepsOthers services
others = record {
  update_other =
      λ s s' r x k e got own apart. ground (arith, e, got, apart, lookup-insert r.id k r s);
  delete_other =
      λ s s' id name x k e got own apart. ground (arith, e, got, apart, lookup-erase id k s);
}

pub reads : (s : Dict Container) (id : Str) → backend.get_container s id ≢ panic
reads s id e = elim (Option-cases (lookup id s)) [
  | inl gone ↦ absurd (ground (arith, e, gone))
  | inr (r, there) ↦ absurd (ground (arith, e, there))
]

abbrev pub host : HostConfig
host = record {
  auto_remove = false;
  restart_policy = record { name = always; maximum_retry_count = pos 0 };
}

abbrev pub with_status : Status → Bool → Bool → Container
with_status status is_running is_paused = record {
  id = codes "c1";
  name = codes "/web";
  restart_count = 0;
  host_config = some host;
  config = none;
  state = record {
    status = status;
    is_running = is_running;
    is_paused = is_paused;
    is_restarting = false;
    oom_killed = false;
    pid = 0;
    exit_code = 0;
    started_at = [];
    finished_at = [];
  };
}

-- A container that has exited, in a manager without processes.
abbrev pub idle : Container → Runtime (Dict Container)
idle r = record {
  manager = record { active = []; pid_map = []; exec_sessions = []; store = (codes "c1", r) ∷ [] };
  start_notify = codes "c1" ∷ [];
}

abbrev answers : Bool → StartAnswers
answers started = record {
  root_path = some (codes "/r");
  spec_updated = true;
  log_opened = true;
  io_made = true;
  created = true;
  pty_received = true;
  pid = some 42;
  started = started;
  now = codes "now";
}

abbrev stopped : Container
stopped = with_status exited false false

abbrev failed : Result (Unit {0}) (Unit {0}) (Runtime (Dict Container))
failed = start services (codes "c1") (answers false) (idle stopped)

failed_err : failed.0 ≡ err start_failed
unfolding start prepare create_container read_pid join_network launch
failed_err = refl

failed_opens : opens_io failed.1 ≡ true
unfolding start prepare create_container read_pid join_network launch
failed_opens = refl

start-closes_io_example : closes_io failed.1 ≡ true
start-closes_io_example =
    start-closes_io services (codes "c1") (answers false) (idle stopped) start_failed failed_err
      failed_opens

start-failed_start_example :
    start services (codes "c1") (answers true) failed.2 ≡ (err already_running, [], failed.2)
start-failed_start_example =
    start-failed_start services laws (idle stopped) stopped (answers false) (answers true)
      (λ pid given. (_, refl)) refl failed_err

idle-IsLive : (r : Container) → IsLive (idle r).manager
idle-IsLive r = record {
  active = λ p id e. absurd (cc e);
  one_process = λ p q id e e'. absurd (cc e);
}

idle-IsNew : (r : Container) (id : Str) (pid : ℕ) → IsNew id pid (idle r).manager
idle-IsNew r id pid = record { no_process = refl; no_container = λ q e. cc e }

start-IsLive_example : IsLive (start services (codes "c1") (answers true) (idle stopped)).2.manager
start-IsLive_example =
    start-IsLive services (codes "c1") (answers true) (idle stopped) (idle-IsLive stopped)
      (λ r pid got given. idle-IsNew stopped r.id pid)

abbrev pub started : Result (Unit {0}) (Unit {0}) (Runtime (Dict Container))
started = start services (codes "c1") (answers true) (idle stopped)

started_ok : started ≡ (ok tt, started.1, started.2)
unfolding start prepare create_container read_pid join_network launch
started_ok = refl

-- A container that exited while it was paused, and is started again.
abbrev held : Container
held = with_status exited false true

abbrev again : Result (Unit {0}) (Unit {0}) (Runtime (Dict Container))
again = start services (codes "c1") (answers true) (idle held)

again_ok : again.0 ≡ ok tt
unfolding start prepare create_container read_pid join_network launch
again_ok = refl

pause-start_example : pause services (codes "c1") true again.2 ≡ (err already_paused, [], again.2)
pause-start_example =
    pause-start services laws (idle held) held (answers true) true (λ pid given. (_, refl)) refl
      refl again_ok

abbrev pub runs : Container
runs = with_status running true false
