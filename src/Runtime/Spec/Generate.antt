-- ===== src/Runtime/Spec/Generate.antt =====
-- `GenerateSpec`, with the default mounts, the namespaces and the paths that are hidden.
use kogia.Base.{
  Bool, true, false, not, Option, none, some, List, [], ◌∷◌, ◌++◌, Str, codes, str_eq,
  if◌then◌else◌, Outcome, ok, err, ◌>>=◌,
}
use kogia.Runtime.MountTypes.{OciMount}
use kogia.Runtime.Spec.Types.{
  SpecConfig, SpecOpts, RootFiles, SpecError, no_command, User, Namespace, pid_namespace,
  mount_namespace, ipc_namespace, uts_namespace, network_namespace, Spec,
}
use kogia.Runtime.Spec.Process.{build_args, build_env, build_cwd}
use kogia.Runtime.Spec.User.{build_user}
use kogia.Runtime.Spec.Capabilities.{is_privileged, build_capabilities}
use kogia.Runtime.Spec.Resources.{build_rlimits, build_resources}

abbrev pub default_masked_paths : List Str
default_masked_paths =
    codes "/proc/asound"
    ∷ codes "/proc/acpi"
    ∷ codes "/proc/kcore"
    ∷ codes "/proc/keys"
    ∷ codes "/proc/latency_stats"
    ∷ codes "/proc/timer_list"
    ∷ codes "/proc/timer_stats"
    ∷ codes "/proc/sched_debug"
    ∷ codes "/proc/scsi"
    ∷ codes "/sys/firmware"
    ∷ codes "/sys/devices/virtual/powercap"
    ∷ []

abbrev pub default_readonly_paths : List Str
default_readonly_paths =
    codes "/proc/bus"
    ∷ codes "/proc/fs"
    ∷ codes "/proc/irq"
    ∷ codes "/proc/sys"
    ∷ codes "/proc/sysrq-trigger"
    ∷ []

abbrev pub mount : Str → Str → Str → List Str → OciMount
mount destination kind source options = record {
  destination = destination;
  kind = kind;
  source = source;
  options = options;
}

abbrev pub default_mounts : List OciMount
default_mounts =
    mount (codes "/proc") (codes "proc") (codes "proc")
      (codes "nosuid" ∷ codes "noexec" ∷ codes "nodev" ∷ [])
    ∷ mount (codes "/dev") (codes "tmpfs") (codes "tmpfs")
        (codes "nosuid" ∷ codes "strictatime" ∷ codes "mode=755" ∷ codes "size=65536k" ∷ [])
    ∷ mount (codes "/dev/pts") (codes "devpts") (codes "devpts") (
        codes "nosuid"
        ∷ codes "noexec"
        ∷ codes "newinstance"
        ∷ codes "ptmxmode=0666"
        ∷ codes "mode=0620"
        ∷ codes "gid=5"
        ∷ [])
    ∷ mount (codes "/dev/shm") (codes "tmpfs") (codes "shm") (
        codes "nosuid"
        ∷ codes "noexec"
        ∷ codes "nodev"
        ∷ codes "mode=1777"
        ∷ codes "size=65536k"
        ∷ [])
    ∷ mount (codes "/dev/mqueue") (codes "mqueue") (codes "mqueue")
        (codes "nosuid" ∷ codes "noexec" ∷ codes "nodev" ∷ [])
    ∷ mount (codes "/sys") (codes "sysfs") (codes "sysfs")
        (codes "nosuid" ∷ codes "noexec" ∷ codes "nodev" ∷ codes "ro" ∷ [])
    ∷ mount (codes "/sys/fs/cgroup") (codes "cgroup") (codes "cgroup")
        (codes "nosuid" ∷ codes "noexec" ∷ codes "nodev" ∷ codes "relatime" ∷ codes "ro" ∷ [])
    ∷ []

abbrev pub own_namespaces : List Namespace → List Namespace
own_namespaces network =
    record { kind = pid_namespace; path = [] }
    ∷ record { kind = mount_namespace; path = [] }
    ∷ record { kind = ipc_namespace; path = [] }
    ∷ record { kind = uts_namespace; path = [] }
    ∷ network

-- With no path crun makes a new network namespace.
unfoldable pub build_namespaces : Str → Str → List Namespace
build_namespaces network_mode ns_path =
    if str_eq network_mode (codes "host")
    then own_namespaces []
    else own_namespaces (record { kind = network_namespace; path = ns_path } ∷ [])

abbrev pub terminal_of : Option SpecConfig → Bool
terminal_of none = false
terminal_of (some cfg) = cfg.tty

abbrev pub readonly_of : SpecOpts → Bool
readonly_of opts = elim opts.host_config [ none ↦ false | some host ↦ host.readonly_rootfs ]

abbrev pub spec_of : SpecOpts → User → Spec
spec_of opts user = record {
  hostname = opts.hostname;
  terminal = terminal_of opts.config;
  user = user;
  args = build_args opts;
  env = build_env opts;
  cwd = build_cwd opts;
  capabilities = build_capabilities opts;
  rlimits = build_rlimits opts;
  no_new_privileges = not (is_privileged opts);
  root_path = opts.root_path;
  root_readonly = readonly_of opts;
  mounts = default_mounts ++ opts.extra_bind_mounts;
  namespaces = build_namespaces opts.network_mode opts.network_ns_path;
  masked_paths = if is_privileged opts then [] else default_masked_paths;
  readonly_paths = if is_privileged opts then [] else default_readonly_paths;
  resources = build_resources opts;
  cgroups_path = codes "kogia/" ++ opts.hostname;
}

abbrev pub is_empty_list : List Str → Bool
is_empty_list [] = true
is_empty_list (x ∷ xs) = false

unfoldable pub generate_spec : RootFiles → SpecOpts → Outcome SpecError Spec
generate_spec files opts =
    if is_empty_list (build_args opts)
    then err no_command
    else (build_user files opts >>= λ user. ok (spec_of opts user))
