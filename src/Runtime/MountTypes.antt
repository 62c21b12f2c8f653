-- ===== src/Runtime/MountTypes.antt =====
-- The records of internal/runtime/mounts.go, and those of the Docker API and of volumes it reads.
use kogia.Base.{ℕ, Bool, Option, List, Str, Outcome}

pub data MountType : Type 0 where
  bind volume tmpfs other_type : MountType

-- `ocispec.Mount`
pub record OciMount : Type 0 where
  pub destination : Str
  pub kind : Str
  pub source : Str
  pub options : List Str

-- `container.MountPoint`
pub record MountPoint : Type 0 where
  pub kind : MountType
  pub name : Str
  pub source : Str
  pub destination : Str
  pub driver : Str
  pub rw : Bool
  pub propagation : Str

-- `mountResult`
pub record MountResult : Type 0 where
  pub mount_point : MountPoint
  pub oci : OciMount

-- `volume.Record`, as far as it is used here.
pub record VolumeRecord : Type 0 where
  pub name : Str
  pub mountpoint : Str

pub data MountError (E : Type 0) : Type 0 where
  invalid_bind no_volume_resolver unsupported_mount_type : MountError E
  ensure_failed container_failed : E → MountError E

-- `VolumeResolver`: `EnsureVolume` may change the volumes `V`.
abbrev pub VolumeResolver : Type 0 → Type 0 → Type 0
VolumeResolver V E = Str → V → Outcome E VolumeRecord × V

-- `mount.Mount`; the options of a kind are `none` where they are nil.
pub record TmpfsOptions : Type 0 where
  pub size_bytes : ℕ
  pub mode : ℕ

pub record Mount : Type 0 where
  pub kind : MountType
  pub source : Str
  pub target : Str
  pub read_only : Bool
  pub bind_propagation : Option Str
  pub tmpfs_options : Option TmpfsOptions

-- A bind taken apart.
pub record BindParts : Type 0 where
  pub source : Str
  pub destination : Str
  pub rw : Bool
  pub propagation : Str
