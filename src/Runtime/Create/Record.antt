-- ===== src/Runtime/Create/Record.antt =====
-- `buildContainerRecord`: the spec and the record of a new container. `clean` is `filepath.Clean`,
-- `join` is `filepath.Join`.
use kogia.Base.{
  ℕ, zero, suc, false, not, ◌||◌, Option, none, some, List, [], ◌∷◌, ◌++◌, Str, codes, str_eq,
  has_prefix, trim_prefix, format_uint, if◌then◌else◌, Outcome, ok, err, panic, ◌>>=◌, map,
}
use kogia.Base.Maps.{Dict}
use kogia.Runtime.State.{State, created}
use kogia.Runtime.MountTypes.{OciMount, MountPoint, MountResult, Mount, MountError, VolumeResolver}
use kogia.Runtime.Mounts.{build_volume_mounts}
use kogia.Runtime.VolumesFrom.{resolve_volumes_from}
use kogia.Runtime.Spec.Types.{SpecHostConfig, SpecOpts, Spec}
use kogia.Runtime.Spec.Process.{build_args}
use kogia.Runtime.Spec.Generate.{generate_spec}
use kogia.Runtime.Create.Types.{
  CreateConfig, CreateHost, ImageConfig, InspectResponse, CreateError, placeholder_failed,
  write_failed, target_not_running, mounts_failed, target_failed, spec_failed, CreateStore,
  CreateAnswers,
}

-- `id[:12]`
abbrev pub short_id : Str → Str
short_id id = first_bytes 12 id
  where
    first_bytes : ℕ → Str → Str
    first_bytes zero s = []
    first_bytes (suc n) [] = []
    first_bytes (suc n) (c ∷ s) = c ∷ first_bytes n s

abbrev network_mode : Str → Str
network_mode mode = if str_eq mode [] || str_eq mode (codes "default") then codes "bridge" else mode

abbrev pub network_mode_of : Option CreateHost → Str
network_mode_of none = codes "bridge"
network_mode_of (some host) = network_mode host.network_mode

abbrev pub limits_of : Option CreateHost → Option SpecHostConfig
limits_of none = none
limits_of (some host) = some host.limits

abbrev pub binds_of : Option CreateHost → List Str
binds_of none = []
binds_of (some host) = host.binds

abbrev pub mounts_of : Option CreateHost → List Mount
mounts_of none = []
mounts_of (some host) = host.mounts

abbrev first_arg : List Str → Str
first_arg [] = []
first_arg (a ∷ args) = a

abbrev other_args : List Str → List Str
other_args [] = []
other_args (a ∷ args) = args

abbrev pub values : {A : Type 0} → Dict A → List A
values d = map (λ e. e.1) d

abbrev created_state : State
created_state = record {
  status = created;
  is_running = false;
  is_paused = false;
  is_restarting = false;
  oom_killed = false;
  pid = 0;
  exit_code = 0;
  started_at = [];
  finished_at = [];
}

abbrev etc_mount : Str → Str → OciMount
etc_mount destination source = record {
  destination = destination;
  kind = codes "bind";
  source = source;
  options = codes "rbind" ∷ codes "rprivate" ∷ codes "rw" ∷ [];
}

module _ {S V E : Type 0} (clean : Str → Str) (join : Str → Str → Str)
    (vr : Option (VolumeResolver V E)) (st : CreateStore S E) where
  abbrev pub etc_mounts : Str → List OciMount
  etc_mounts bundle_dir =
      etc_mount (codes "/etc/hostname") (join bundle_dir (codes "hostname"))
      ∷ etc_mount (codes "/etc/hosts") (join bundle_dir (codes "hosts"))
      ∷ etc_mount (codes "/etc/resolv.conf") (join bundle_dir (codes "resolv.conf"))
      ∷ []

  -- The binds of the containers named by `VolumesFrom` are appended to the host configuration.
  unfoldable pub with_volumes_from :
      S → Option CreateHost → Outcome (MountError E) (Option CreateHost)
  with_volumes_from store none = ok none
  with_volumes_from store (some host) =
      resolve_volumes_from (st.get_binds store) host.volumes_from [] >>= λ extra.
      ok (some (record host { binds = host.binds ++ extra }))

  -- The namespace of another container's network, for `container:<id>`.
  unfoldable pub network_ns_path : S → Str → Outcome (CreateError E) Str
  network_ns_path store mode =
      if not (has_prefix mode (codes "container:"))
      then ok []
      else elim (st.get_container store (trim_prefix mode (codes "container:"))) [
        | err e ↦ err (target_failed e)
        | panic ↦ panic
        | ok target ↦
            if target.state.is_running
            then ok (codes "/proc/" ++ format_uint target.state.pid ++ codes "/ns/net")
            else err target_not_running
      ]

  abbrev pub spec_opts :
      Str → CreateConfig → Option CreateHost → ImageConfig → Str → Str → List OciMount → SpecOpts
  spec_opts id cfg host img root_path ns_path extra = record {
    config = some cfg.process;
    host_config = limits_of host;
    image_cwd = img.working_dir;
    image_user = img.user;
    root_path = root_path;
    hostname = short_id id;
    image_env = img.env;
    image_entrypoint = img.entrypoint;
    image_cmd = img.cmd;
    network_mode = network_mode_of host;
    network_ns_path = ns_path;
    extra_bind_mounts = extra;
  }

  abbrev pub new_record :
      Str
      → Str
      → CreateConfig
      → Option CreateHost
      → Str
      → Str
      → List Str
      → List MountPoint
      → Str
      → InspectResponse
  new_record id name cfg host image_id bundle_dir args mount_points now = record {
    id = id;
    created = now;
    path = first_arg args;
    args = other_args args;
    state = created_state;
    image = image_id;
    name = name;
    driver = codes "overlay";
    platform = codes "linux";
    log_path = join bundle_dir (codes "json.log");
    config = cfg;
    host_config = host;
    mounts = mount_points;
    resolv_conf_path = join bundle_dir (codes "resolv.conf");
    hostname_path = join bundle_dir (codes "hostname");
    hosts_path = join bundle_dir (codes "hosts");
  }

  -- The spec is generated, written, and the record built.
  unfoldable pub build_spec :
      CreateAnswers
      → Str
      → Str
      → CreateConfig
      → Option CreateHost
      → ImageConfig
      → Str
      → Str
      → Str
      → S
      → List MountResult
      → Outcome (CreateError E) (Spec × InspectResponse)
  build_spec ans id name cfg host img image_id bundle_dir root_path store found =
      elim (network_ns_path store (network_mode_of host)) [
        | err e ↦ err e
        | panic ↦ panic
        | ok ns_path ↦
            let opts =
              spec_opts id cfg host img root_path ns_path
                (etc_mounts bundle_dir ++ map (λ mr. mr.oci) found) in
            elim (generate_spec ans.files opts) [
              | err e ↦ err (spec_failed e)
              | panic ↦ panic
              | ok spec ↦
                  if not ans.spec_written
                  then err write_failed
                  else ok (
                    spec,
                    new_record id name cfg host image_id bundle_dir (build_args opts)
                        (map (λ mr. mr.mount_point) found) ans.now,
                  )
            ]
      ]

  -- With a nil `HostConfig` there are no binds and no mounts.
  unfoldable pub build_container_record :
      CreateAnswers
      → Str
      → Str
      → CreateConfig
      → Option CreateHost
      → ImageConfig
      → Str
      → Str
      → Str
      → S
      → V
      → Outcome (CreateError E) (Spec × InspectResponse) × V
  build_container_record ans id name cfg host img image_id bundle_dir root_path store v =
      if not ans.placeholders
      then (err placeholder_failed, v)
      else elim (with_volumes_from store host) [
        | err e ↦ (err (mounts_failed e), v)
        | panic ↦ (panic, v)
        | ok host' ↦
            let built =
              build_volume_mounts clean vr (binds_of host') (mounts_of host') cfg.volumes v in
            elim built.0 [
              | err e ↦ (err (mounts_failed e), built.1)
              | panic ↦ (panic, built.1)
              | ok seen ↦ (
                build_spec ans id name cfg host' img image_id bundle_dir root_path store
                    (values seen),
                built.1,
              )
            ]
      ]
