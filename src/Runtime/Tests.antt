-- ===== src/Runtime/Tests.antt =====
-- The theorems on exits and restarts at small inputs.
use kogia.Base.{ℕ, ◌-◌, ◌*◌, ◌^◌, ◌≡◌, true, false, none, some, [], ◌∷◌, codes, ok, pos}
use Prim.Native.Nat.{min}
use kogia.Runtime.State.{running, PolicyMode, always, HostConfig, Container}
use kogia.Runtime.Restart.{backoff_delay, restart_backoff_base, restart_backoff_max}
use kogia.Runtime.Backoff.{backoff_delay_closed}
use kogia.Runtime.Exit.{ActiveContainer, Backend, Manager, handle_exit}
use kogia.Runtime.ExitLaws.{handle_exit_once}

abbrev host : PolicyMode → HostConfig
host mode = record {
  auto_remove = false;
  restart_policy = record { name = mode; maximum_retry_count = pos 3 };
}

abbrev web : PolicyMode → Container
web mode = record {
  id = codes "ab12";
  name = codes "/web";
  state = record {
    status = running;
    is_running = true;
    is_paused = false;
    is_restarting = false;
    oom_killed = false;
    pid = 42;
    exit_code = 0;
    started_at = [];
    finished_at = [];
  };
  restart_count = 0;
  host_config = some (host mode);
  config = none;
}

-- A store of one record.
abbrev backend : Backend Container (Unit {0})
backend = record {
  get_container = λ s id. ok s;
  update_container = λ s r. some r;
  disconnect_all = λ s id. s;
}

abbrev active_web : ActiveContainer
active_web = record {
  pid = 42;
  exit_code = 0;
  manually_stopped = true;
  is_done = false;
  io_closed = false;
  oom_watched = true;
}

abbrev manager : Manager Container
manager = record {
  active = (codes "ab12", active_web) ∷ [];
  pid_map = (42, codes "ab12") ∷ [];
  exec_sessions = [];
  store = web always;
}

backoff_delay_closed_example :
    backoff_delay 4 ≡ min restart_backoff_max (restart_backoff_base * 2 ^ (4 - 1))
backoff_delay_closed_example = backoff_delay_closed 4

abbrev killed : ℕ
killed = 137

handle_exit_once_example :
    handle_exit backend 42 1 true
      (codes "later")
      (handle_exit backend 42 0 false (codes "now") manager).1
    ≡ (ok [], (handle_exit backend 42 0 false (codes "now") manager).1)
handle_exit_once_example =
    handle_exit_once backend 42 0 1 false true (codes "now") (codes "later") manager
