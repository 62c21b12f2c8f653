-- ===== src/Volume/Manager.antt =====
-- `Manager` of internal/volume/manager.go over a store of records and the host's file system. The
-- mutex makes each operation one step. `path/filepath`, `os` and the random names are parameters.
use kogia.Base.{
  ℕ, ◌+◌, ◌%◌, ◌^◌, Bool, true, false, not, Option, none, some, List, [], ◌∷◌, ◌++◌, Str, codes,
  str_eq, if◌then◌else◌, lookup, Outcome, ok, err, panic, ◌≡◌,
}
use kogia.Base.Maps.{Dict}
use kogia.Volume.Types.{Record}

-- `Store`: the records, and what a caller may rely on.
pub record VolumeStore (S E : Type 0) : Type 0 where
  pub get_volume : Str → S → Outcome E Record
  pub create_volume : Record → S → Outcome E (Unit {0}) × S
  pub delete_volume : Str → S → Outcome E (Unit {0}) × S
  pub list_volumes : S → Outcome E (List Record)

abbrev pub is_ok : {E A : Type 0} → Outcome E A → Bool
is_ok (ok a) = true
is_ok (err e) = false
is_ok panic = false

pub record VolumeStoreLaws {S E : Type 0} (store : VolumeStore S E) : Type 0 where
  pub get-create :
      (rec : Record) (s : S) (name : Str)
      → (store.create_volume rec s).0 ≡ ok tt
      → store.get_volume name (store.create_volume rec s).1
        ≡ (if str_eq rec.name name then ok rec else store.get_volume name s)
  pub create_err :
      (rec : Record) (s : S)
      → is_ok (store.create_volume rec s).0 ≡ false
      → (store.create_volume rec s).1 ≡ s
  pub get-delete_ne :
      (name other : Str) (s : S)
      → str_eq name other ≡ false
      → store.get_volume other (store.delete_volume name s).1 ≡ store.get_volume other s
  pub get-delete :
      (name : Str) (s : S)
      → (store.delete_volume name s).0 ≡ ok tt
      → is_ok (store.get_volume name (store.delete_volume name s).1) ≡ false

-- The host: `filepath.Join(rootDir, name, "_data")`, `filepath.Dir`, `os.MkdirAll`, `os.RemoveAll`
-- with its error ignored, and `dirSize`.
pub record Host (F : Type 0) : Type 0 where
  pub data_path : Str → Str
  pub dir : Str → Str
  pub mkdir_all : F → Str → Option F
  pub remove_all : F → Str → F
  pub dir_size : F → Str → ℕ

pub data VolumeError (E : Type 0) : Type 0 where
  unsupported_driver name_failed mkdir_failed : VolumeError E
  store_error : E → VolumeError E

pub record State (S F : Type 0) : Type 0 where
  pub store : S
  pub files : F

-- What the environment answers during a call: a random name, if it could be read, and the time.
pub record Chance : Type 0 where
  pub random_hex : Option Str
  pub now : Str

abbrev pub or_local : Str → Str
or_local [] = codes "local"
or_local (c ∷ driver) = c ∷ driver

-- The name of the volume, and whether it is anonymous.
abbrev pub choose_name : Chance → Str → Option (Str × Bool)
choose_name chance [] = elim chance.random_hex [ none ↦ none | some n ↦ some (n, true) ]
choose_name chance (c ∷ name) = some (c ∷ name, false)

abbrev pub new_record :
    {F : Type 0} → Host F → Chance → Str → Bool → Str → Dict Str → Dict Str → Record
new_record host chance name anonymous driver labels opts = record {
  created_at = chance.now;
  labels = labels;
  options = opts;
  name = name;
  driver = driver;
  mountpoint = host.data_path name;
  anonymous = anonymous;
}

module _ {S E F : Type 0} (store : VolumeStore S E) (host : Host F) where
  -- `Create` after the check for an existing record.
  unfoldable pub create_new :
      Chance
      → Str
      → Bool
      → Str
      → Dict Str
      → Dict Str
      → State S F
      → Outcome (VolumeError E) Record × State S F
  create_new chance name anonymous driver labels opts st =
      let mountpoint = host.data_path name in
      elim (host.mkdir_all st.files mountpoint) [
        | none ↦ (err mkdir_failed, st)
        | some files' ↦
            let rec = new_record host chance name anonymous driver labels opts in
            let created = store.create_volume rec st.store in
            let st' : State S F = record { store = created.1; files = files' } in
            elim created.0 [
              | ok _ ↦ (ok rec, st')
              | err e ↦ (err (store_error e), st')
              | panic ↦ (panic, st')
            ]
      ]

  unfoldable pub create :
      Chance
      → Str
      → Str
      → Dict Str
      → Dict Str
      → State S F
      → Outcome (VolumeError E) Record × State S F
  create chance name driver labels opts st =
      if not (str_eq (or_local driver) (codes "local"))
      then (err unsupported_driver, st)
      else elim (choose_name chance name) [
        | none ↦ (err name_failed, st)
        | some (n, anonymous) ↦ elim (store.get_volume n st.store) [
          | ok existing ↦ (ok existing, st)
          | err _ ↦ create_new chance n anonymous (or_local driver) labels opts st
          | panic ↦ (panic, st)
        ]
      ]

  unfoldable pub ensure_volume :
      Chance → Str → State S F → Outcome (VolumeError E) Record × State S F
  ensure_volume chance [] st = create chance [] (codes "local") [] [] st
  ensure_volume chance (c ∷ name) st = elim (store.get_volume (c ∷ name) st.store) [
    | ok rec ↦ (ok rec, st)
    | err _ ↦ create chance (c ∷ name) (codes "local") [] [] st
    | panic ↦ (panic, st)
  ]

  unfoldable pub remove : Str → State S F → Outcome (VolumeError E) (Unit {0}) × State S F
  remove name st = elim (store.get_volume name st.store) [
    | err e ↦ (err (store_error e), st)
    | panic ↦ (panic, st)
    | ok rec ↦
        let deleted = store.delete_volume name st.store in
        let st' = record st { store = deleted.1 } in
        elim deleted.0 [
          | err e ↦ (err (store_error e), st')
          | panic ↦ (panic, st')
          | ok _ ↦
              (ok tt, record st' { files = host.remove_all st.files (host.dir rec.mountpoint) })
        ]
  ]

  -- The loop of `Prune` over the listed records: the names removed and the bytes, a uint64.
  unfoldable pub prune_loop :
      Dict (Unit {0}) → List Record → List Str → ℕ → State S F → (List Str × ℕ) × State S F
  prune_loop refs [] deleted bytes st = ((deleted, bytes), st)
  prune_loop refs (rec ∷ all) deleted bytes st =
      let size = host.dir_size st.files (host.dir rec.mountpoint) in
      let removed = remove rec.name st in
      elim (lookup rec.name refs) [
        | some _ ↦ prune_loop refs all deleted bytes st
        | none ↦ elim (is_ok removed.0) [
          | true ↦
              prune_loop refs all (deleted ++ rec.name ∷ []) ((bytes + size) % 2 ^ 64) removed.1
          | false ↦ prune_loop refs all deleted bytes removed.1
        ]
      ]

  -- `Prune`, which locks only each removal: no other call comes between its parts here.
  unfoldable pub prune :
      Outcome E (Dict (Unit {0})) → State S F → Outcome (VolumeError E) (List Str × ℕ) × State S F
  prune listed st = elim listed [
    | err e ↦ (err (store_error e), st)
    | panic ↦ (panic, st)
    | ok refs ↦ elim (store.list_volumes st.store) [
      | err e ↦ (err (store_error e), st)
      | panic ↦ (panic, st)
      | ok all ↦ let result = prune_loop refs all [] 0 st in (ok result.0, result.1)
    ]
  ]
