-- ===== src/Volume/Tests.antt =====
-- The volume manager over records in memory, and the theorems at small inputs.
use kogia.Base.{
  ◌≡◌, refl, false, Option, none, some, List, [], ◌∷◌, codes, str_eq_refl, lookup, insert, erase,
  lookup-insert, lookup-erase, Outcome, ok, err, arith,
}
use kogia.Base.Maps.{Dict}
use kogia.Volume.Types.{Record}
use kogia.Volume.Manager.{VolumeStore, VolumeStoreLaws, Host, State, Chance, create, create_new}

abbrev or_missing : Option Record → Outcome (Unit {0}) Record
or_missing none = err tt
or_missing (some r) = ok r

abbrev values : Dict Record → List Record
values [] = []
values ((k, r) ∷ d) = r ∷ values d

abbrev store : VolumeStore (Dict Record) (Unit {0})
store = record {
  get_volume = λ name s. or_missing (lookup name s);
  create_volume = λ rec s. (ok tt, insert rec.name rec s);
  delete_volume = λ name s. (ok tt, erase name s);
  list_volumes = λ s. ok (values s);
}

laws : VolumeStoreLaws store
laws = record {
  get-create = λ rec s name e. ground (arith, lookup-insert rec.name name rec s);
  create_err = λ rec s e. absurd (cc e);
  get-delete_ne = λ name other s differs. ground (arith, lookup-erase name other s);
  get-delete = λ name s e. ground (arith, lookup-erase name name s, str_eq_refl name);
}

abbrev host : Host (Unit {0})
host = record {
  data_path = λ name. name;
  dir = λ path. path;
  mkdir_all = λ files path. some files;
  remove_all = λ files path. files;
  dir_size = λ files path. 1;
}

abbrev chance : Chance
chance = record { random_hex = none; now = [] }

abbrev before : State (Dict Record) (Unit {0})
before = record { store = []; files = tt }

abbrev archive : Record
archive = record {
  created_at = [];
  labels = [];
  options = [];
  name = codes "data";
  driver = codes "local";
  mountpoint = codes "data";
  anonymous = false;
}

abbrev after : State (Dict Record) (Unit {0})
after = record { store = (codes "data", archive) ∷ []; files = tt }

made : create store host chance (codes "data") [] [] [] before ≡ (ok archive, after)
unfolding create create_new
made = refl
