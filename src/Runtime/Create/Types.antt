-- ===== src/Runtime/Create/Types.antt =====
-- What `Create` reads and makes: the configurations, the record of the container, the image storage
-- and the bundle directories.
use kogia.Base.{Bool, Option, List, Str, Outcome}
use kogia.Base.Maps.{Dict}
use kogia.Runtime.State.{State, Container}
use kogia.Runtime.MountTypes.{MountPoint, Mount, MountError}
use kogia.Runtime.Spec.Types.{SpecConfig, SpecHostConfig, RootFiles, SpecError, Spec}

-- `container.Config`; the volumes are the keys of its map.
pub record CreateConfig : Type 0 where
  pub image : Str
  pub volumes : List Str
  pub process : SpecConfig

-- `container.HostConfig`
pub record CreateHost : Type 0 where
  pub network_mode : Str
  pub volumes_from : List Str
  pub binds : List Str
  pub mounts : List Mount
  pub limits : SpecHostConfig

-- `image.Config`
pub record ImageConfig : Type 0 where
  pub env : List Str
  pub entrypoint : List Str
  pub cmd : List Str
  pub working_dir : Str
  pub user : Str

-- `container.InspectResponse` as `Create` fills it.
pub record InspectResponse : Type 0 where
  pub id : Str
  pub created : Str
  pub path : Str
  pub args : List Str
  pub state : State
  pub image : Str
  pub name : Str
  pub driver : Str
  pub platform : Str
  pub log_path : Str
  pub config : CreateConfig
  pub host_config : Option CreateHost
  pub mounts : List MountPoint
  pub resolv_conf_path : Str
  pub hostname_path : Str
  pub hosts_path : Str

pub data CreateError (E : Type 0) : Type 0 where
  id_failed no_image no_image_config layer_failed mount_failed mkdir_failed : CreateError E
  placeholder_failed write_failed target_not_running : CreateError E
  mounts_failed : MountError E → CreateError E
  target_failed persist_failed bundle_failed : E → CreateError E
  spec_failed : SpecError → CreateError E

-- The store as `Create` calls it. The errors of `DeleteContainer` are ignored; `none` is an error of
-- `ContainerNameExists`.
pub record CreateStore (S E : Type 0) : Type 0 where
  pub create_container : S → InspectResponse → Outcome E S
  pub set_container_bundle : S → Str → Str → Outcome E S
  pub delete_container : S → Str → Str → S
  pub container_name_exists : S → Str → Option Bool
  pub get_container : S → Str → Outcome E Container
  pub get_binds : S → Str → Outcome E (List Str)

-- The layers of the image storage with whether they are mounted, the bundle directories with the
-- spec in their config.json, and the daemon's store in two parts: `volumes` is its records of volumes,
-- which `EnsureVolume` adds to, and `store` is its records of containers.
pub record World (S V : Type 0) : Type 0 where
  pub layers : Dict Bool
  pub bundles : Dict (Option Spec)
  pub store : S
  pub volumes : V

-- How the calls of one `Create` end: the random ID, the names that are drawn, the last name and the
-- image, what is made, what the root file system has, and whether the clean-up works.
pub record CreateAnswers : Type 0 where
  pub id : Option Str
  pub names : List Str
  pub last_name : Str
  pub image_id : Option Str
  pub image_config : Option ImageConfig
  pub layer_made : Bool
  pub root_path : Option Str
  pub bundle_made : Bool
  pub placeholders : Bool
  pub spec_written : Bool
  pub files : RootFiles
  pub now : Str
  pub removed : Bool
  pub unmounted : Bool
  pub deleted : Bool
