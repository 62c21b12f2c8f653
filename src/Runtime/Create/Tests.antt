-- ===== src/Runtime/Create/Tests.antt =====
-- `Create` at small inputs, with a store that is a list of records.
use kogia.Base.{
  ◌≡◌, refl, Bool, true, false, none, some, Option, [], ◌∷◌, ◌++◌, List, Str, codes, if◌then◌else◌,
  lookup, Outcome, ok, err, pos,
}
use kogia.Runtime.Spec.Types.{Spec, SpecConfig, SpecOpts}
use kogia.Base.Split.{split, split3}
use kogia.Runtime.Mounts.{build_volume_mounts, add_each, parse_bind, read_bind, read_options}
use kogia.Runtime.VolumesFrom.{resolve_volumes_from}
use kogia.Runtime.Spec.Process.{build_args}
use kogia.Runtime.Spec.User.{build_user}
use kogia.Runtime.Spec.Generate.{generate_spec}
use kogia.Runtime.Spec.Confined.{IsConfined}
use kogia.Runtime.Create.Types.{
  CreateConfig, CreateHost, CreateError, bundle_failed, CreateStore, World, CreateAnswers,
}
use kogia.Runtime.Create.Record.{
  limits_of, build_container_record, build_spec, with_volumes_from, network_ns_path,
}
use kogia.Runtime.Create.Operation.{
  unique_name, persist, fill_bundle, make_bundle, make_layer, create,
}
use kogia.Runtime.Create.Undo.{Undone, create-Undone}
use kogia.Runtime.Create.Made.{Made, create-Made, create-IsConfined}

abbrev Store : Type 0
Store = List Str

-- The last name goes.
abbrev drop_first : Store → Store
drop_first [] = []
drop_first (n ∷ s) = s

abbrev none_there : {A : Type 0} → Store → Str → Outcome Str A
none_there s id = err id

abbrev store : Bool → CreateStore Store Str
store bundles = record {
  create_container = λ s r. ok (r.name ∷ s);
  set_container_bundle = λ s id path. if bundles then ok s else err id;
  delete_container = λ s id name. drop_first s;
  container_name_exists = λ s name. some false;
  get_container = none_there;
  get_binds = none_there;
}

abbrev process : SpecConfig
process = record {
  entrypoint = [];
  cmd = codes "sh" ∷ [];
  env = [];
  working_dir = [];
  user = [];
  tty = false;
}

abbrev config : CreateConfig
config = record { image = codes "i"; volumes = []; process = process }

abbrev host : Option CreateHost
host = some (record {
  network_mode = codes "default";
  volumes_from = [];
  binds = codes "/src:/dst:ro" ∷ [];
  mounts = [];
  limits = record {
    cap_add = [];
    cap_drop = codes "all" ∷ [];
    privileged = false;
    readonly_rootfs = true;
    ulimits = [];
    resources = record {
      memory = pos 0;
      memory_reservation = pos 0;
      memory_swap = pos 0;
      oom_kill_disable = none;
      cpu_shares = pos 0;
      cpu_quota = pos 0;
      cpu_period = pos 0;
      nano_cpus = pos 0;
      cpuset_cpus = [];
      cpuset_mems = [];
      pids_limit = none;
    };
  };
})

abbrev id : Str
id = codes "0123456789abcdef"

abbrev ans : CreateAnswers
ans = record {
  id = some id;
  names = codes "calm_orca" ∷ [];
  last_name = codes "00";
  image_id = some (codes "sha");
  image_config = some (record { env = []; entrypoint = []; cmd = []; working_dir = []; user = [] });
  layer_made = true;
  root_path = some (codes "/r");
  bundle_made = true;
  placeholders = true;
  spec_written = true;
  files = record { passwd = none; group = none };
  now = codes "t0";
  removed = true;
  unmounted = true;
  deleted = true;
}

abbrev empty : World Store (Unit {0})
empty = record { layers = []; bundles = []; store = []; volumes = tt }

abbrev clean : Str → Str
clean path = path

abbrev join : Str → Str → Str
join dir name = dir ++ b'/' ∷ name

abbrev made : Bool → Outcome (CreateError Str) Str × World Store (Unit {0})
made bundles = create clean join none (store bundles) (codes "/b") ans config host [] empty

abbrev world : World Store (Unit {0})
world = (made true).1

bundle_not_stored : (made false).0 ≡ err (bundle_failed id)
unfolding create unique_name make_layer make_bundle fill_bundle persist build_container_record
    build_spec with_volumes_from network_ns_path build_volume_mounts add_each generate_spec
    build_args build_user resolve_volumes_from parse_bind read_bind read_options split split3
bundle_not_stored = refl

all_made : made true ≡ (ok id, world)
unfolding create unique_name make_layer make_bundle fill_bundle persist build_container_record
    build_spec with_volumes_from network_ns_path build_volume_mounts add_each generate_spec
    build_args build_user resolve_volumes_from parse_bind read_bind read_options split split3
all_made = refl

create-Undone_example : Undone (store false) empty (made false).1
create-Undone_example =
    create-Undone clean join none (store false) (codes "/b") ans config host [] empty
      (bundle_failed id) (record { removed = refl; unmounted = refl; deleted = refl })
      (λ k drawn. (refl, refl)) bundle_not_stored

create-Made_example : Made clean join none (store true) (codes "/b") ans config host id empty world
create-Made_example =
    create-Made clean join none (store true) (codes "/b") ans config host [] id empty world all_made

create-IsConfined_example :
    (opts : SpecOpts) × (spec : Spec) × (lookup id world.bundles ≡ some (some spec))
    × (opts.host_config ≡ limits_of host)
    × IsConfined opts spec
create-IsConfined_example =
    create-IsConfined clean join none (store true) (codes "/b") ans config host [] id empty world
      refl all_made
