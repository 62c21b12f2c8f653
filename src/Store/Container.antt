-- ===== src/Store/Container.antt =====
-- internal/store/container.go: containers by ID, by name and by ID prefix, and their bundles.
use kogia.Base.{
  ℕ, zero, suc, Bool, true, false, ◌&&◌, not, Option, none, some, List, [], ◌∷◌, Str, codes, ◌++◌,
  str_eq, length, ltb, if◌then◌else◌, Outcome, ok, err, ◌>>=◌,
}
use kogia.Base.Maps.{Dict}
use kogia.Store.Bolt.{Bolt, Json}
use kogia.Store.Prefix.{
  StoreError, not_found, name_in_use, marshal_failed, unmarshal_failed, prefix_match,
}
use kogia.Store.Db.{Db, put_in, delete_in, update}
use kogia.Store.Filters.{Container, ContainerFilters, matches_filters}

-- `json.Unmarshal`, whose error ends the call.
abbrev pub decode : {A : Type 0} → Json A → Str → Outcome StoreError A
decode json d = elim (json.unmarshal d) [ none ↦ err unmarshal_failed | some c ↦ ok c ]

module _ {B : Type 0} (bolt : Bolt B) where
  -- The record behind a name, if the index knows the name and the record is there.
  unfoldable pub by_name : Db B → Str → Option Str
  by_name db name = elim (bolt.get db.cont_names name) [
    | none ↦ none
    | some id ↦ bolt.get db.containers id
  ]

  -- The data that `GetContainer` decodes: by ID, by name, by name with "/", by ID prefix.
  unfoldable pub find_container : Str → Db B → Outcome StoreError Str
  find_container key db = elim (bolt.get db.containers key) [
    | some v ↦ ok v
    | none ↦ elim (by_name db key) [
      | some v ↦ ok v
      | none ↦ elim (by_name db (codes "/" ++ key)) [
        | some v ↦ ok v
        | none ↦ prefix_match key (bolt.seek db.containers key)
      ]
    ]
  ]

  -- The error of the bundle's deletion is dropped.
  abbrev delete_bundle : Str → Db B → Db B
  delete_bundle id db = elim (bolt.delete db.cont_bundles id) [
    | none ↦ db
    | some bundles' ↦ record db { cont_bundles = bundles' }
  ]

  abbrev delete_name : Str → Db B → Outcome StoreError (Db B)
  delete_name [] db = ok db
  delete_name (c ∷ name) db =
      delete_in bolt db.cont_names (c ∷ name) >>= λ names'. ok (record db { cont_names = names' })

  unfoldable pub delete_container : Str → Str → Db B → Outcome StoreError (Unit {0}) × Db B
  delete_container id name db =
      update
        (delete_in bolt db.containers id >>= λ containers'.
          delete_name name (record db { containers = containers' }) >>= λ db'.
          ok (delete_bundle id db'))
        db

  unfoldable pub container_name_exists : Str → Db B → Bool
  container_name_exists name db = elim (bolt.get db.cont_names name) [
    | none ↦ false
    | some _ ↦ true
  ]

  unfoldable pub set_container_bundle : Str → Str → Db B → Outcome StoreError (Unit {0}) × Db B
  set_container_bundle id path db =
      update
        (put_in bolt db.cont_bundles id path >>= λ bundles'.
          ok (record db { cont_bundles = bundles' }))
        db

  unfoldable pub get_container_bundle : Str → Db B → Outcome StoreError Str
  get_container_bundle id db = elim (bolt.get db.cont_bundles id) [
    | none ↦ err not_found
    | some path ↦ ok path
  ]

module _ {B : Type 0} (bolt : Bolt B) (json : Json Container) where
  create_tx : Container → Str → Db B → Outcome StoreError (Db B)
  create_tx c d db = elim (bolt.get db.cont_names c.name) [
    | some _ ↦ err name_in_use
    | none ↦ put_in bolt db.containers c.id d >>= λ containers'.
        put_in bolt db.cont_names c.name c.id >>= λ names'.
        ok (record db { containers = containers'; cont_names = names' })
  ]

  unfoldable pub create_container : Container → Db B → Outcome StoreError (Unit {0}) × Db B
  unfolding create_tx
  create_container c db = elim (json.marshal c) [
    | none ↦ (err marshal_failed, db)
    | some d ↦ update (create_tx c d db) db
  ]

  unfoldable pub get_container : Str → Db B → Outcome StoreError Container
  get_container key db = find_container bolt key db >>= decode json

  update_tx : Container → Str → Db B → Outcome StoreError (Db B)
  update_tx c d db = elim (bolt.get db.containers c.id) [
    | none ↦ err not_found
    | some _ ↦ put_in bolt db.containers c.id d >>= λ containers'.
        ok (record db { containers = containers' })
  ]

  unfoldable pub update_container : Container → Db B → Outcome StoreError (Unit {0}) × Db B
  unfolding update_tx
  update_container c db = elim (json.marshal c) [
    | none ↦ (err marshal_failed, db)
    | some d ↦ update (update_tx c d db) db
  ]

abbrev pub is_running : Option Str → Bool
is_running none = false
is_running (some s) = str_eq s (codes "running")

-- `results = append(results, &c)` for the records that pass.
abbrev pub keep : ContainerFilters → Container → Bool
keep f c =
    if not f.all && not (is_running c.status)
    then false
    else if not (matches_filters c f)
    then false
    else true

unfoldable pub list_loop :
    Json Container
    → ContainerFilters
    → Dict Str
    → List Container
    → Outcome StoreError (List Container)
list_loop json f [] results = ok results
list_loop json f ((k, v) ∷ d) results =
    let next =
      λ (c : Container). list_loop json f d (if keep f c then results ++ c ∷ [] else results) in
    elim (json.unmarshal v) [ none ↦ err unmarshal_failed | some c ↦ next c ]

abbrev pub take : ℕ → List Container → List Container
take zero xs = []
take (suc n) [] = []
take (suc n) (x ∷ xs) = x ∷ take n xs

module _ {B : Type 0} (bolt : Bolt B) (json : Json Container) where
  unfoldable pub list_containers : ContainerFilters → Db B → Outcome StoreError (List Container)
  unfolding list_loop
  list_containers f db = list_loop json f (bolt.entries db.containers) [] >>= λ results.
      ok (if ltb 0 f.limit && ltb f.limit (length results) then take f.limit results else results)
