-- ===== src/Runtime/Spec/Confined.antt =====
-- What `GenerateSpec` takes away from a container.
use mathlib.Core.Path.{subst}
use kogia.Base.{
  ◌≡◌, refl, inl, inr, Bool-cases, Outcome-cases, true, false, not, ◌&&◌, ◌||◌, Option, none, some,
  List, [], Str, ok, arith,
}
use kogia.Runtime.Spec.Types.{SpecHostConfig, SpecOpts, RootFiles, User, Capabilities, Spec}
use kogia.Runtime.Spec.Process.{build_args}
use kogia.Runtime.Spec.User.{build_user}
use kogia.Runtime.Spec.Capabilities.{
  default_caps, contains_cap, is_privileged, caps_of, build_capabilities,
}
use kogia.Runtime.Spec.CapabilityLaws.{is_dropped, is_added, contains-add_caps-drop_caps}
use kogia.Runtime.Spec.Generate.{
  default_masked_paths, default_readonly_paths, spec_of, is_empty_list, generate_spec,
}

abbrev pub cap_add_of : Option SpecHostConfig → List Str
cap_add_of none = []
cap_add_of (some host) = host.cap_add

abbrev pub cap_drop_of : Option SpecHostConfig → List Str
cap_drop_of none = []
cap_drop_of (some host) = host.cap_drop

-- The five sets are one.
abbrev pub IsUniform : Capabilities → Type 0
IsUniform caps =
    (caps.effective ≡ caps.bounding)
    × (caps.permitted ≡ caps.bounding)
    × (caps.inheritable ≡ caps.bounding)
    × (caps.ambient ≡ caps.bounding)

-- No new privileges, the paths hidden, no capability but the default ones that were not dropped and
-- those that were asked for, in all five sets.
pub record IsConfined (opts : SpecOpts) (spec : Spec) : Type 0 where
  pub no_new_privileges : spec.no_new_privileges ≡ true
  pub masked : spec.masked_paths ≡ default_masked_paths
  pub readonly : spec.readonly_paths ≡ default_readonly_paths
  pub uniform : IsUniform spec.capabilities
  pub capabilities :
      (c : Str)
      → contains_cap spec.capabilities.bounding c ≡ (
          (contains_cap default_caps c && not (is_dropped (cap_drop_of opts.host_config) c))
          || is_added (cap_add_of opts.host_config) c)

caps_of_lem :
    (host : Option SpecHostConfig) (c : Str)
    → contains_cap (caps_of host) c ≡ (
        (contains_cap default_caps c && not (is_dropped (cap_drop_of host) c))
        || is_added (cap_add_of host) c)
unfolding is_dropped is_added
caps_of_lem none c = ground arith
caps_of_lem (some host) c = contains-add_caps-drop_caps host.cap_add host.cap_drop default_caps c

spec_of-IsConfined :
    (opts : SpecOpts) (user : User)
    → is_privileged opts ≡ false
    → IsConfined opts (spec_of opts user)
unfolding build_capabilities
spec_of-IsConfined opts user e = record {
  no_new_privileges = rw e refl;
  masked = rw e refl;
  readonly = rw e refl;
  uniform = rw (e, build_capabilities) (refl, refl, refl, refl);
  capabilities = λ c. rw (e, build_capabilities) (caps_of_lem opts.host_config c);
}

-- The spec of a container that is not privileged gives it no new privileges, hides and protects the
-- default paths, and holds in each of its five sets of capabilities the default ones that were not
-- dropped, those that were added, and no others.
pub generate_spec-IsConfined :
    (files : RootFiles) (opts : SpecOpts) (spec : Spec)
    → is_privileged opts ≡ false
    → generate_spec files opts ≡ ok spec
    → IsConfined opts spec
unfolding generate_spec
generate_spec-IsConfined files opts spec e made =
    elim (Bool-cases (is_empty_list (build_args opts))) [
      | inl empty ↦ absurd (cc (rw (generate_spec, empty) at made))
      | inr full ↦ elim (Outcome-cases (build_user files opts)) [
        | inr (inl (x, failed)) ↦ absurd (ground (arith, full, failed, made))
        | inr (inr bad) ↦ absurd (ground (arith, full, bad, made))
        | inl (user, found) ↦
            let same : spec_of opts user ≡ spec = ground (arith, full, found, made) in
            subst (IsConfined opts) same (spec_of-IsConfined opts user e)
      ]
    ]
