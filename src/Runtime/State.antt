-- ===== src/Runtime/State.antt =====
-- The container record that internal/runtime keeps in the store: `container.InspectResponse` as far
-- as the life cycle reads or writes it. Times are texts; a nil `HostConfig` is `none`.
use kogia.Base.{ℕ, Bool, Option, Str, ℤ}

pub data Status : Type 0 where
  created running paused restarting removing exited dead : Status

pub Status-discrete : Discrete Status
Status-discrete = hlevel

-- `container.RestartPolicyMode`; `disabled` is "no", the empty name, and any other name.
pub data PolicyMode : Type 0 where
  disabled always on_failure unless_stopped : PolicyMode

pub record RestartPolicy : Type 0 where
  pub name : PolicyMode
  pub maximum_retry_count : ℤ

pub record HostConfig : Type 0 where
  pub auto_remove : Bool
  pub restart_policy : RestartPolicy

-- `container.State`
pub record State : Type 0 where
  pub status : Status
  pub is_running : Bool
  pub is_paused : Bool
  pub is_restarting : Bool
  pub oom_killed : Bool
  pub pid : ℕ
  pub exit_code : ℕ
  pub started_at : Str
  pub finished_at : Str

-- `container.Config`, as far as the stdio depends on it.
pub record Config : Type 0 where
  pub tty : Bool
  pub open_stdin : Bool

pub record Container : Type 0 where
  pub id : Str
  pub name : Str
  pub state : State
  pub restart_count : ℕ
  pub host_config : Option HostConfig
  pub config : Option Config
