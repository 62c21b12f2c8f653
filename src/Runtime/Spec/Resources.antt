-- ===== src/Runtime/Spec/Resources.antt =====
-- The limits of the spec: `buildRlimits`, `buildResources`, `buildMemoryResources` and
-- `buildCPUResources`.
use kogia.Base.{
  zero, suc, Bool, true, false, not, ◌&&◌, ◌||◌, Option, none, some, List, [], ◌∷◌, ◌++◌, codes,
  str_eq, if◌then◌else◌, ℤ, pos, negsuc,
}
use kogia.Base.Ascii.{to_upper}
use kogia.Base.Numbers.{is_positive, times, quotient, at_least_zero}
use kogia.Runtime.Spec.Types.{Ulimit, Resources, SpecOpts, Rlimit, Memory, Cpu, LinuxResources}

abbrev is_zero : ℤ → Bool
is_zero (pos zero) = true
is_zero (pos (suc n)) = false
is_zero (negsuc n) = false

abbrev is_set : {A : Type 0} → Option A → Bool
is_set none = false
is_set (some a) = true

abbrev when : {A : Type 0} → Bool → A → Option A
when true a = some a
when false a = none

-- A nil entry is skipped.
unfoldable pub rlimits_of : List (Option Ulimit) → List Rlimit
rlimits_of [] = []
rlimits_of (none ∷ us) = rlimits_of us
rlimits_of (some u ∷ us) =
    record {
      kind = codes "RLIMIT_" ++ to_upper u.name;
      soft = at_least_zero u.soft;
      hard = at_least_zero u.hard;
    }
    ∷ rlimits_of us

unfoldable pub build_rlimits : SpecOpts → List Rlimit
build_rlimits opts = elim opts.host_config [ none ↦ [] | some host ↦ rlimits_of host.ulimits ]

unfoldable pub build_memory_resources : Resources → Option Memory
build_memory_resources r =
    if not (is_positive r.memory)
      && (not (is_positive r.memory_reservation)
          && (is_zero r.memory_swap && not (is_set r.oom_kill_disable)))
    then none
    else some (record {
      limit = when (is_positive r.memory) r.memory;
      reservation = when (is_positive r.memory_reservation) r.memory_reservation;
      swap = when (not (is_zero r.memory_swap)) r.memory_swap;
      disable_oom_killer = r.oom_kill_disable;
    })

-- nanoCPUs * period / 1e9, in int64.
abbrev pub cpu_quota_of : ℤ → ℤ
cpu_quota_of nano_cpus = quotient (times nano_cpus 100000) 1000000000

abbrev no_cpu : Resources → Bool
no_cpu r =
    not (is_positive r.cpu_shares)
    && (not (is_positive r.cpu_quota)
        && (not (is_positive r.cpu_period)
            && (not (is_positive r.nano_cpus)
                && (str_eq r.cpuset_cpus [] && str_eq r.cpuset_mems []))))

unfoldable pub build_cpu_resources : Resources → Option Cpu
build_cpu_resources r =
    if no_cpu r
    then none
    else some (record {
      shares = when (is_positive r.cpu_shares) (at_least_zero r.cpu_shares);
      quota =
          if is_positive r.nano_cpus
          then some (cpu_quota_of r.nano_cpus)
          else when (is_positive r.cpu_quota) r.cpu_quota;
      period =
          if is_positive r.nano_cpus
          then some 100000
          else when (is_positive r.cpu_period) (at_least_zero r.cpu_period);
      cpus = r.cpuset_cpus;
      mems = r.cpuset_mems;
    })

abbrev pids_of : Option ℤ → Option ℤ
pids_of none = none
pids_of (some limit) = when (is_positive limit) limit

abbrev has_resources : LinuxResources → Bool
has_resources res = is_set res.memory || (is_set res.cpu || is_set res.pids)

abbrev resources_of : Resources → LinuxResources
resources_of r = record {
  memory = build_memory_resources r;
  cpu = build_cpu_resources r;
  pids = pids_of r.pids_limit;
}

unfoldable pub build_resources : SpecOpts → Option LinuxResources
build_resources opts = elim opts.host_config [
  | none ↦ none
  | some host ↦ when (has_resources (resources_of host.resources)) (resources_of host.resources)
]
