-- ===== src/Store/VolumeTests.antt =====
-- A volume in use, on the store in memory.
use kogia.Base.{◌≡◌, refl, inl, some, List, [], ◌∷◌, Str, codes}
use kogia.Store.Bolt.{Json}
use kogia.Store.Memory.{Bucket, memory, memory-BoltLaws}
use kogia.Store.Db.{Db}
use kogia.Store.Volume.{create_volume, get_volume, volume_store}
use kogia.Store.VolumeRefs.{VolumeUse, all_volume_refs, prune-all_volume_refs}
use kogia.Store.Tests.{only, only-JsonLaws, empty, archive, is_data, is_data_sound}
use kogia.Volume.Types.{Record}
use kogia.Volume.Manager.{Host, State, prune}

abbrev host : Host (List Str)
host = record {
  data_path = λ name. name;
  dir = λ path. path;
  mkdir_all = λ files path. some (path ∷ files);
  remove_all = λ files path. [];
  dir_size = λ files path. 1;
}

abbrev volumes : Json Record
volumes = only is_data archive

abbrev reader : VolumeUse
reader = record { binds = some (codes "/srv:/srv" ∷ codes "data:/var/lib" ∷ []); mount_names = [] }

abbrev containers : Json VolumeUse
containers = record { marshal = λ used. some (codes "{}"); unmarshal = λ d. some reader }

abbrev db : Db Bucket
db = record (create_volume memory volumes archive empty).1 {
  containers = record { pairs = (codes "ab", codes "{}") ∷ []; sorted = (tt, tt) };
}

abbrev st : State (Db Bucket) (List Str)
st = record { store = db; files = codes "data" ∷ [] }

prune-all_volume_refs_example :
    get_volume memory volumes
      (codes "data")
      (prune (volume_store memory volumes) host (all_volume_refs memory containers db) st).1.store
    ≡ get_volume memory volumes (codes "data") db
prune-all_volume_refs_example =
    prune-all_volume_refs memory memory-BoltLaws volumes
      (only-JsonLaws is_data archive is_data_sound) containers host st (codes "ab") (codes "{}")
      reader (codes "data") refl refl
      (inl (codes "/srv:/srv" ∷ [], [], codes "data:/var/lib", refl, refl, refl))
