-- ===== src/Runtime/Spec/Process.antt =====
-- The process of the spec: `BuildArgs`, `buildEnv` and `buildCwd`.
use kogia.Base.{Option, none, some, List, [], ◌∷◌, ◌++◌, Str, codes, cut, lookup, insert}
use kogia.Base.Maps.{Dict}
use kogia.Runtime.Spec.Types.{SpecConfig, SpecOpts}

-- `a` unless it is empty.
abbrev pub or_else : {A : Type 0} → List A → List A → List A
or_else [] b = b
or_else (x ∷ a) b = x ∷ a

abbrev pub entrypoint_of : Option SpecConfig → List Str
entrypoint_of none = []
entrypoint_of (some cfg) = cfg.entrypoint

abbrev pub cmd_of : Option SpecConfig → List Str
cmd_of none = []
cmd_of (some cfg) = cfg.cmd

abbrev pub env_of : Option SpecConfig → List Str
env_of none = []
env_of (some cfg) = cfg.env

-- The command of the image counts only where the entrypoint was not overridden.
abbrev pub default_cmd : List Str → List Str → List Str
default_cmd [] image_cmd = image_cmd
default_cmd (x ∷ entrypoint) image_cmd = []

unfoldable pub build_args : SpecOpts → List Str
build_args opts =
    or_else (entrypoint_of opts.config) opts.image_entrypoint
    ++ or_else (cmd_of opts.config) (default_cmd (entrypoint_of opts.config) opts.image_cmd)

abbrev pub default_path_env : Str
default_path_env = codes "/usr/local/sbin:/usr/local/bin:/usr/sbin:/usr/bin:/sbin:/bin"

-- for _, e := range env { k, v, _ := strings.Cut(e, "="); envMap[k] = v }
unfoldable pub set_env : List Str → Dict Str → Dict Str
set_env [] env = env
set_env (e ∷ es) env = set_env es (insert (cut e b'=').0 (cut e b'=').1 env)

abbrev pub ensure_path : Dict Str → Dict Str
ensure_path env = elim (lookup (codes "PATH") env) [
  | none ↦ insert (codes "PATH") default_path_env env
  | some v ↦ env
]

-- `envMap`
unfoldable pub env_map : SpecOpts → Dict Str
env_map opts =
    insert (codes "HOSTNAME") opts.hostname
      (ensure_path (set_env (env_of opts.config) (set_env opts.image_env [])))

-- The map is read in some order.
unfoldable pub format_env : Dict Str → List Str
format_env [] = []
format_env ((k, v) ∷ env) = (k ++ b'=' ∷ v) ∷ format_env env

abbrev pub build_env : SpecOpts → List Str
build_env opts = format_env (env_map opts)

abbrev pub working_dir_of : Option SpecConfig → Str
working_dir_of none = []
working_dir_of (some cfg) = cfg.working_dir

unfoldable pub build_cwd : SpecOpts → Str
build_cwd opts = or_else (working_dir_of opts.config) (or_else opts.image_cwd (codes "/"))
