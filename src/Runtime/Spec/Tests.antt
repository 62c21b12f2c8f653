-- ===== src/Runtime/Spec/Tests.antt =====
-- The OCI spec at small inputs.
use kogia.Base.{
  ◌≡◌, refl, true, false, not, ◌&&◌, ◌||◌, none, some, [], ◌∷◌, codes, str_eq, if◌then◌else◌,
  lookup, ok, pos,
}
use kogia.Runtime.Spec.Types.{SpecConfig, SpecHostConfig, SpecOpts, RootFiles, Spec}
use kogia.Runtime.Spec.Process.{default_path_env, build_args, env_map, env_of}
use kogia.Runtime.Spec.User.{build_user}
use kogia.Runtime.Spec.Capabilities.{contains_cap, default_caps, drop_caps, add_caps}
use kogia.Runtime.Spec.CapabilityLaws.{is_dropped, is_added, contains-add_caps-drop_caps}
use kogia.Runtime.Spec.Generate.{spec_of, generate_spec}
use kogia.Runtime.Spec.EnvLaws.{or_option, last_set, env_map-lookup}

abbrev files : RootFiles
files = record { passwd = some (codes "root:x:0:0:root:/root:/bin/sh"); group = none }

abbrev config : SpecConfig
config = record {
  entrypoint = [];
  cmd = codes "sh" ∷ [];
  env = codes "PATH=/bin" ∷ codes "A=1" ∷ codes "A=2" ∷ [];
  working_dir = [];
  user = [];
  tty = true;
}

abbrev host : SpecHostConfig
host = record {
  cap_add = codes "net_admin" ∷ [];
  cap_drop = codes "net_raw" ∷ [];
  privileged = false;
  readonly_rootfs = false;
  ulimits = none ∷ [];
  resources = record {
    memory = pos 0;
    memory_reservation = pos 0;
    memory_swap = pos 0;
    oom_kill_disable = none;
    cpu_shares = pos 0;
    cpu_quota = pos 0;
    cpu_period = pos 0;
    nano_cpus = pos 0;
    cpuset_cpus = [];
    cpuset_mems = [];
    pids_limit = none;
  };
}

abbrev opts : SpecOpts
opts = record {
  config = some config;
  host_config = some host;
  image_cwd = [];
  image_user = [];
  root_path = codes "/r";
  hostname = codes "ab12";
  image_env = codes "A=0" ∷ codes "B=0" ∷ [];
  image_entrypoint = [];
  image_cmd = [];
  network_mode = codes "bridge";
  network_ns_path = [];
  extra_bind_mounts = [];
}

env_map-lookup_example : lookup (codes "A") (env_map opts) ≡ (
    if str_eq (codes "HOSTNAME") (codes "A")
    then some opts.hostname
    else or_option (last_set (codes "A") (env_of opts.config)) (
        or_option
          (last_set (codes "A") opts.image_env)
          (if str_eq (codes "PATH") (codes "A") then some default_path_env else none)))
env_map-lookup_example = env_map-lookup opts (codes "A")

contains-add_caps-drop_caps_example :
    contains_cap
      (add_caps host.cap_add (drop_caps host.cap_drop default_caps))
      (codes "CAP_NET_RAW")
    ≡ ((contains_cap default_caps (codes "CAP_NET_RAW")
          && not (is_dropped host.cap_drop (codes "CAP_NET_RAW")))
        || is_added host.cap_add (codes "CAP_NET_RAW"))
contains-add_caps-drop_caps_example =
    contains-add_caps-drop_caps host.cap_add host.cap_drop default_caps (codes "CAP_NET_RAW")

abbrev spec : Spec
spec = spec_of opts (record { uid = 0; gid = 0 })

generated : generate_spec files opts ≡ ok spec
unfolding generate_spec build_args build_user
generated = refl
