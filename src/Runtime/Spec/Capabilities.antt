-- ===== src/Runtime/Spec/Capabilities.antt =====
-- The capabilities of the spec: `buildCapabilities`, `removeCap` and `containsCap`.
use kogia.Base.{
  Bool, false, not, ◌||◌, Option, none, some, List, [], ◌∷◌, ◌++◌, Str, codes, if◌then◌else◌,
}
use kogia.Base.Ascii.{to_upper, equal_fold}
use kogia.Runtime.Spec.Types.{SpecHostConfig, SpecOpts, Capabilities}

abbrev pub default_caps : List Str
default_caps =
    codes "CAP_CHOWN"
    ∷ codes "CAP_DAC_OVERRIDE"
    ∷ codes "CAP_FOWNER"
    ∷ codes "CAP_FSETID"
    ∷ codes "CAP_KILL"
    ∷ codes "CAP_SETGID"
    ∷ codes "CAP_SETUID"
    ∷ codes "CAP_SETPCAP"
    ∷ codes "CAP_NET_BIND_SERVICE"
    ∷ codes "CAP_NET_RAW"
    ∷ codes "CAP_SYS_CHROOT"
    ∷ codes "CAP_MKNOD"
    ∷ codes "CAP_AUDIT_WRITE"
    ∷ codes "CAP_SETFCAP"
    ∷ []

abbrev pub all_caps : List Str
all_caps =
    codes "CAP_AUDIT_CONTROL"
    ∷ codes "CAP_AUDIT_READ"
    ∷ codes "CAP_AUDIT_WRITE"
    ∷ codes "CAP_BLOCK_SUSPEND"
    ∷ codes "CAP_BPF"
    ∷ codes "CAP_CHECKPOINT_RESTORE"
    ∷ codes "CAP_CHOWN"
    ∷ codes "CAP_DAC_OVERRIDE"
    ∷ codes "CAP_DAC_READ_SEARCH"
    ∷ codes "CAP_FOWNER"
    ∷ codes "CAP_FSETID"
    ∷ codes "CAP_IPC_LOCK"
    ∷ codes "CAP_IPC_OWNER"
    ∷ codes "CAP_KILL"
    ∷ codes "CAP_LEASE"
    ∷ codes "CAP_LINUX_IMMUTABLE"
    ∷ codes "CAP_MAC_ADMIN"
    ∷ codes "CAP_MAC_OVERRIDE"
    ∷ codes "CAP_MKNOD"
    ∷ codes "CAP_NET_ADMIN"
    ∷ codes "CAP_NET_BIND_SERVICE"
    ∷ codes "CAP_NET_BROADCAST"
    ∷ codes "CAP_NET_RAW"
    ∷ codes "CAP_PERFMON"
    ∷ codes "CAP_SETFCAP"
    ∷ codes "CAP_SETGID"
    ∷ codes "CAP_SETPCAP"
    ∷ codes "CAP_SETUID"
    ∷ codes "CAP_SYS_ADMIN"
    ∷ codes "CAP_SYS_BOOT"
    ∷ codes "CAP_SYS_CHROOT"
    ∷ codes "CAP_SYS_MODULE"
    ∷ codes "CAP_SYS_NICE"
    ∷ codes "CAP_SYS_PACCT"
    ∷ codes "CAP_SYS_PTRACE"
    ∷ codes "CAP_SYS_RAWIO"
    ∷ codes "CAP_SYS_RESOURCE"
    ∷ codes "CAP_SYS_TIME"
    ∷ codes "CAP_SYS_TTY_CONFIG"
    ∷ codes "CAP_SYSLOG"
    ∷ codes "CAP_WAKE_ALARM"
    ∷ []

unfoldable pub remove_cap : List Str → Str → List Str
remove_cap [] target = []
remove_cap (c ∷ caps) target =
    let rest = remove_cap caps target in if not (equal_fold c target) then c ∷ rest else rest

unfoldable pub contains_cap : List Str → Str → Bool
contains_cap [] target = false
contains_cap (c ∷ caps) target = equal_fold c target || contains_cap caps target

abbrev pub cap_name : Str → Str
cap_name name = codes "CAP_" ++ to_upper name

-- The loop over `CapDrop`; "ALL" drops everything and ends it.
unfoldable pub drop_caps : List Str → List Str → List Str
drop_caps [] caps = caps
drop_caps (name ∷ names) caps =
    let rest = drop_caps names (remove_cap caps (cap_name name)) in
    if equal_fold name (codes "ALL") then [] else rest

-- The loop over `CapAdd`
unfoldable pub add_caps : List Str → List Str → List Str
add_caps [] caps = caps
add_caps (name ∷ names) caps =
    add_caps names
      (if not (contains_cap caps (cap_name name)) then caps ++ cap_name name ∷ [] else caps)

abbrev pub in_all_sets : List Str → Capabilities
in_all_sets caps = record {
  bounding = caps;
  effective = caps;
  permitted = caps;
  inheritable = caps;
  ambient = caps;
}

abbrev pub is_privileged : SpecOpts → Bool
is_privileged opts = elim opts.host_config [ none ↦ false | some host ↦ host.privileged ]

abbrev pub caps_of : Option SpecHostConfig → List Str
caps_of none = default_caps
caps_of (some host) = add_caps host.cap_add (drop_caps host.cap_drop default_caps)

unfoldable pub build_capabilities : SpecOpts → Capabilities
build_capabilities opts =
    if is_privileged opts then in_all_sets all_caps else in_all_sets (caps_of opts.host_config)
