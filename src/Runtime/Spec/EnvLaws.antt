-- ===== src/Runtime/Spec/EnvLaws.antt =====
-- Which setting of an environment variable counts.
use kogia.Base.{
  ◌≡◌, refl, ap, ◌∙◌, inl, inr, Option-cases, Option, none, some, List, [], ◌∷◌, Str, codes, str_eq,
  str_eq_iff, cut, if◌then◌else◌, lookup, insert, lookup-insert, arith,
}
use kogia.Base.Maps.{Dict}
use kogia.Runtime.Spec.Types.{SpecOpts}
use kogia.Runtime.Spec.Process.{default_path_env, set_env, ensure_path, env_map, env_of}

abbrev pub or_option : {A : Type 0} → Option A → Option A → Option A
or_option none other = other
or_option (some a) other = some a

or_option_assoc :
    {A : Type 0} (a b d : Option A)
    → or_option (or_option a (or_option b none)) d ≡ or_option a (or_option b d)
or_option_assoc (some a) b d = refl
or_option_assoc none (some b) d = refl
or_option_assoc none none d = refl

-- The value of the last entry `k=v` of a list.
abbrev pub last_set : Str → List Str → Option Str
last_set k [] = none
last_set k (e ∷ es) =
    or_option (last_set k es) (if str_eq (cut e b'=').0 k then some (cut e b'=').1 else none)

set_env-lookup :
    (es : List Str) (env : Dict Str) (k : Str)
    → lookup k (set_env es env) ≡ or_option (last_set k es) (lookup k env)
unfolding set_env
set_env-lookup [] env k = refl
set_env-lookup (e ∷ es) env k = ground (
  arith,
  set_env-lookup es (insert (cut e b'=').0 (cut e b'=').1 env) k,
  lookup-insert (cut e b'=').0 k (cut e b'=').1 env,
)

ensure_path-lookup :
    (env : Dict Str) (k : Str)
    → lookup k (ensure_path env)
      ≡ or_option (lookup k env) (if str_eq (codes "PATH") k then some default_path_env else none)
ensure_path-lookup env k = elim (Option-cases (lookup (codes "PATH") env)) [
  | inl missing ↦ ground (
    arith,
    missing,
    lookup-insert (codes "PATH") k default_path_env env,
    str_eq_iff (codes "PATH") k,
  )
  | inr (v, found) ↦ ground (arith, found, str_eq_iff (codes "PATH") k)
]

-- In the environment of the process HOSTNAME is the host's name; any other variable has its last value
-- in the container's configuration, or else in the image, and PATH has a default.
pub env_map-lookup :
    (opts : SpecOpts) (k : Str)
    → lookup k (env_map opts) ≡ (
        if str_eq (codes "HOSTNAME") k
        then some opts.hostname
        else or_option (last_set k (env_of opts.config)) (
            or_option
              (last_set k opts.image_env)
              (if str_eq (codes "PATH") k then some default_path_env else none)))
unfolding env_map
env_map-lookup opts k =
    let image = set_env opts.image_env [] in
    let env = set_env (env_of opts.config) image in
    lookup-insert (codes "HOSTNAME") k opts.hostname (ensure_path env)
    ∙ ap (λ (o : Option Str). if str_eq (codes "HOSTNAME") k then some opts.hostname else o)
        (ensure_path-lookup env k
          ∙ rw (set_env-lookup (env_of opts.config) image k, set_env-lookup opts.image_env [] k)
              (or_option_assoc (last_set k (env_of opts.config)) (last_set k opts.image_env)
                (if str_eq (codes "PATH") k then some default_path_env else none)))
