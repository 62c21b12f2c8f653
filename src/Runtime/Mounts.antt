-- ===== src/Runtime/Mounts.antt =====
-- internal/runtime/mounts.go: from the binds, mounts and volumes of a container's configuration to
-- the mounts of its OCI spec. `clean` is `filepath.Clean`.
use kogia.Base.{
  ℕ, zero, suc, ◌+◌, ◌/◌, ◌%◌, Bool, true, false, not, ◌||◌, Option, none, some, List, [], ◌∷◌,
  ◌++◌, Str, codes, str_eq, has_prefix, format_uint, ltb, ◌==◌, if◌then◌else◌, lookup, insert,
  Outcome, ok, err, panic,
}
use kogia.Base.Maps.{Dict}
use kogia.Runtime.MountTypes.{
  bind, volume, tmpfs, other_type, MountResult, VolumeRecord, MountError, invalid_bind,
  no_volume_resolver, unsupported_mount_type, ensure_failed, VolumeResolver, TmpfsOptions, Mount,
  BindParts,
}
use kogia.Base.Split.{split, split3}

abbrev pub is_propagation : Str → Bool
is_propagation opt =
    str_eq opt (codes "rprivate")
    || str_eq opt (codes "private")
    || str_eq opt (codes "rshared")
    || str_eq opt (codes "shared")
    || str_eq opt (codes "rslave")
    || str_eq opt (codes "slave")

-- The loop over the options of a bind: whether it is writable, and its propagation.
unfoldable pub read_options : List Str → Bool × Str → Bool × Str
read_options [] (rw, propagation) = (rw, propagation)
read_options (opt ∷ opts) (rw, propagation) = read_options opts (
    if str_eq opt (codes "ro")
    then (false, propagation)
    else if str_eq opt (codes "rw")
    then (true, propagation)
    else if is_propagation opt
    then (rw, opt)
    else (rw, propagation))

abbrev pub access : Bool → Str
access true = codes "rw"
access false = codes "ro"

abbrev pub with_options : Str → Str → Str → BindParts
with_options source destination opts_str =
    let read = read_options (split b',' opts_str) (true, codes "rprivate") in
    record { source = source; destination = destination; rw = read.0; propagation = read.1 }

-- The first half of `parseBind`: "source:dest[:opts]".
unfoldable pub read_bind : Str → Option BindParts
read_bind text = elim (split3 b':' text) [
  | [] ↦ none
  | source ∷ [] ↦ none
  | source ∷ destination ∷ [] ↦ some (with_options source destination [])
  | source ∷ destination ∷ opts_str ∷ rest ↦ some (with_options source destination opts_str)
]

-- A volume that is mounted at `destination`.
abbrev pub volume_result : VolumeRecord → Str → Bool → List Str → MountResult
volume_result rec destination rw options = record {
  oci = record {
    destination = destination;
    kind = codes "bind";
    source = rec.mountpoint;
    options = options;
  };
  mount_point = record {
    kind = volume;
    name = rec.name;
    source = rec.mountpoint;
    destination = destination;
    driver = codes "local";
    rw = rw;
    propagation = [];
  };
}

-- A path of the host that is mounted at `destination`.
abbrev pub host_result : Str → Str → Bool → Str → MountResult
host_result source destination rw propagation = record {
  oci = record {
    destination = destination;
    kind = codes "bind";
    source = source;
    options = codes "rbind" ∷ propagation ∷ access rw ∷ [];
  };
  mount_point = record {
    kind = bind;
    name = [];
    source = source;
    destination = destination;
    driver = [];
    rw = rw;
    propagation = propagation;
  };
}

-- The number in base 8: 11 digits are enough for 32 bits.
octal_from : ℕ → ℕ → Str → Str
octal_from zero n acc = acc
octal_from (suc f) n acc =
    let acc' = (b'0' + n % 8) ∷ acc in
    let rest = octal_from f (n / 8) acc' in if ltb n 8 then acc' else rest

unfoldable pub tmpfs_sizes : Option TmpfsOptions → List Str
unfolding octal_from
tmpfs_sizes none = []
tmpfs_sizes (some o) =
    (if ltb 0 o.size_bytes then (codes "size=" ++ format_uint o.size_bytes) ∷ [] else [])
    ++ (if not (o.mode == 0) then (codes "mode=" ++ octal_from 11 o.mode []) ∷ [] else [])

abbrev pub or_rprivate : Option Str → Str
or_rprivate none = codes "rprivate"
or_rprivate (some []) = codes "rprivate"
or_rprivate (some (c ∷ s)) = c ∷ s

module _ {V E : Type 0} (clean : Str → Str) (vr : Option (VolumeResolver V E)) where
  -- A named volume: `EnsureVolume`, and what is made of its record.
  unfoldable pub ensure_mount :
      Str → (VolumeRecord → MountResult) → V → Outcome (MountError E) MountResult × V
  ensure_mount name make v = elim vr [
    | none ↦ (err no_volume_resolver, v)
    | some ensure ↦
        let ensured = ensure name v in
        elim ensured.0 [
          | err e ↦ (err (ensure_failed e), ensured.1)
          | panic ↦ (panic, ensured.1)
          | ok rec ↦ (ok (make rec), ensured.1)
        ]
  ]

  unfoldable pub parse_bind : Str → V → Outcome (MountError E) MountResult × V
  parse_bind text v = elim (read_bind text) [
    | none ↦ (err invalid_bind, v)
    | some p ↦
        let destination = clean p.destination in
        if has_prefix p.source (codes "/") || has_prefix p.source (codes ".")
        then (ok (host_result p.source destination p.rw p.propagation), v)
        else ensure_mount p.source
            (λ rec.
              volume_result rec destination p.rw (codes "rbind" ∷ p.propagation ∷ access p.rw ∷ []))
            v
  ]

  unfoldable pub parse_mount : Mount → V → Outcome (MountError E) MountResult × V
  parse_mount m v =
      let destination = clean m.target in
      let rw = not m.read_only in
      elim m.kind [
        | bind ↦ (ok (host_result m.source destination rw (or_rprivate m.bind_propagation)), v)
        | volume ↦
            ensure_mount m.source
              (λ rec.
                volume_result rec destination rw
                  (codes "rbind" ∷ codes "rprivate" ∷ access rw ∷ []))
              v
        | tmpfs ↦ (
          ok (record {
            oci = record {
              destination = destination;
              kind = codes "tmpfs";
              source = codes "tmpfs";
              options =
                  codes "nosuid" ∷ codes "nodev" ∷ codes "noexec" ∷ tmpfs_sizes m.tmpfs_options;
            };
            mount_point = record {
              kind = tmpfs;
              name = [];
              source = [];
              destination = destination;
              driver = [];
              rw = rw;
              propagation = [];
            };
          }),
          v,
        )
        | other_type ↦ (err unsupported_mount_type, v)
      ]

  -- `seen`: the result of each destination. A later one takes the place of an earlier one.
  abbrev pub Seen : Type 0
  Seen = Outcome (MountError E) (Dict MountResult) × V

  -- A loop of `buildVolumeMounts` over binds or mounts: the first error ends it.
  unfoldable pub add_each :
      {A : Type 0}
      → (A → V → Outcome (MountError E) MountResult × V)
      → List A
      → Dict MountResult
      → V
      → Seen
  add_each parse [] seen v = (ok seen, v)
  add_each parse (a ∷ items) seen v =
      let parsed = parse a v in
      elim parsed.0 [
        | err e ↦ (err e, parsed.1)
        | panic ↦ (panic, parsed.1)
        | ok mr ↦ add_each parse items (insert mr.oci.destination mr seen) parsed.1
      ]

  -- The anonymous volumes of the paths that nothing covers.
  unfoldable pub add_anonymous : VolumeResolver V E → List Str → Dict MountResult → V → Seen
  add_anonymous ensure [] seen v = (ok seen, v)
  add_anonymous ensure (path ∷ paths) seen v =
      let destination = clean path in
      elim (lookup destination seen) [
        | some mr ↦ add_anonymous ensure paths seen v
        | none ↦
            let ensured = ensure [] v in
            elim ensured.0 [
              | err e ↦ (err (ensure_failed e), ensured.1)
              | panic ↦ (panic, ensured.1)
              | ok rec ↦
                  add_anonymous ensure paths
                    (insert destination
                      (volume_result rec destination true
                        (codes "rbind" ∷ codes "rprivate" ∷ codes "rw" ∷ []))
                      seen)
                    ensured.1
            ]
      ]

  abbrev pub add_volumes : List Str → Dict MountResult → V → Seen
  add_volumes paths seen v = elim vr [
    | none ↦ (ok seen, v)
    | some ensure ↦ add_anonymous ensure paths seen v
  ]

  -- `buildVolumeMounts`, whose lists are empty where a configuration is nil. The results are those
  -- of `seen`, in any order.
  unfoldable pub build_volume_mounts : List Str → List Mount → List Str → V → Seen
  build_volume_mounts binds mounts volumes v =
      let bound = add_each parse_bind binds [] v in
      elim bound.0 [
        | err e ↦ bound
        | panic ↦ bound
        | ok seen ↦
            let mounted = add_each parse_mount mounts seen bound.1 in
            elim mounted.0 [
              | err e ↦ mounted
              | panic ↦ mounted
              | ok seen' ↦ add_volumes volumes seen' mounted.1
            ]
      ]
