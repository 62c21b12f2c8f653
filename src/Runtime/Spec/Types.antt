-- ===== src/Runtime/Spec/Types.antt =====
-- The inputs of `GenerateSpec` and the OCI spec it makes, as far as it reads and writes them.
use kogia.Base.{ℕ, Bool, Option, List, Str, ℤ}
use kogia.Runtime.MountTypes.{OciMount}

-- `container.Config`
pub record SpecConfig : Type 0 where
  pub entrypoint : List Str
  pub cmd : List Str
  pub env : List Str
  pub working_dir : Str
  pub user : Str
  pub tty : Bool

-- `units.Ulimit`
pub record Ulimit : Type 0 where
  pub name : Str
  pub soft : ℤ
  pub hard : ℤ

-- `container.Resources`; a nil pointer is `none`.
pub record Resources : Type 0 where
  pub memory : ℤ
  pub memory_reservation : ℤ
  pub memory_swap : ℤ
  pub oom_kill_disable : Option Bool
  pub cpu_shares : ℤ
  pub cpu_quota : ℤ
  pub cpu_period : ℤ
  pub nano_cpus : ℤ
  pub cpuset_cpus : Str
  pub cpuset_mems : Str
  pub pids_limit : Option ℤ

-- `container.HostConfig`
pub record SpecHostConfig : Type 0 where
  pub cap_add : List Str
  pub cap_drop : List Str
  pub privileged : Bool
  pub readonly_rootfs : Bool
  pub ulimits : List (Option Ulimit)
  pub resources : Resources

-- `SpecOpts`; nil configurations are `none`.
pub record SpecOpts : Type 0 where
  pub config : Option SpecConfig
  pub host_config : Option SpecHostConfig
  pub image_cwd : Str
  pub image_user : Str
  pub root_path : Str
  pub hostname : Str
  pub image_env : List Str
  pub image_entrypoint : List Str
  pub image_cmd : List Str
  pub network_mode : Str
  pub network_ns_path : Str
  pub extra_bind_mounts : List OciMount

-- The contents of /etc/passwd and /etc/group in the rootfs; `none` is a file that cannot be read.
pub record RootFiles : Type 0 where
  pub passwd : Option Str
  pub group : Option Str

pub data SpecError : Type 0 where
  no_command : SpecError
  user_not_read user_not_found invalid_passwd : SpecError
  group_not_read group_not_found invalid_group : SpecError

pub record User : Type 0 where
  pub uid : ℕ
  pub gid : ℕ

pub record Capabilities : Type 0 where
  pub bounding : List Str
  pub effective : List Str
  pub permitted : List Str
  pub inheritable : List Str
  pub ambient : List Str

pub record Rlimit : Type 0 where
  pub kind : Str
  pub soft : ℕ
  pub hard : ℕ

pub record Memory : Type 0 where
  pub limit : Option ℤ
  pub reservation : Option ℤ
  pub swap : Option ℤ
  pub disable_oom_killer : Option Bool

pub record Cpu : Type 0 where
  pub shares : Option ℕ
  pub quota : Option ℤ
  pub period : Option ℕ
  pub cpus : Str
  pub mems : Str

pub record LinuxResources : Type 0 where
  pub memory : Option Memory
  pub cpu : Option Cpu
  pub pids : Option ℤ

pub data NamespaceKind : Type 0 where
  pid_namespace mount_namespace ipc_namespace uts_namespace network_namespace : NamespaceKind

pub record Namespace : Type 0 where
  pub kind : NamespaceKind
  pub path : Str

pub record Spec : Type 0 where
  pub hostname : Str
  pub terminal : Bool
  pub user : User
  pub args : List Str
  pub env : List Str
  pub cwd : Str
  pub capabilities : Capabilities
  pub rlimits : List Rlimit
  pub no_new_privileges : Bool
  pub root_path : Str
  pub root_readonly : Bool
  pub mounts : List OciMount
  pub namespaces : List Namespace
  pub masked_paths : List Str
  pub readonly_paths : List Str
  pub resources : Option LinuxResources
  pub cgroups_path : Str
