-- ===== src/Store/Network.antt =====
-- internal/store/network.go: networks, endpoints and IPAM bitmaps.
use kogia.Base.{
  Option, none, some, List, [], ◌∷◌, Str, codes, ◌++◌, str_eq, has_prefix, if◌then◌else◌, Outcome,
  ok, err, ◌>>=◌,
}
use kogia.Base.Maps.{Dict}
use kogia.Store.Bolt.{Bolt, Json}
use kogia.Store.Prefix.{
  StoreError, not_found, name_in_use, marshal_failed, unmarshal_failed, prefix_match,
}
use kogia.Store.Db.{Db, put_in, delete_in, update}
use kogia.Store.Container.{decode}
use kogia.Network.Types.{Record, EndpointRecord}
use kogia.Network.Ipam.Bitmap.{Bitmap}
use kogia.Network.Ipam.Allocator.{IpamStore}

-- `endpointKey`
unfoldable pub endpoint_key : Str → Str → Str
endpoint_key network_id container_id = network_id ++ (codes "/" ++ container_id)

-- All records of a `ForEach`, or the error of the first that does not decode.
unfoldable pub decode_all : {A : Type 0} → Json A → Dict Str → List A → Outcome StoreError (List A)
decode_all json [] results = ok results
decode_all {A} json ((k, v) ∷ d) results =
    let next = λ (a : A). decode_all json d (results ++ a ∷ []) in
    elim (json.unmarshal v) [ none ↦ err unmarshal_failed | some a ↦ next a ]

-- for k, v := c.Seek(prefix); k != nil && HasPrefix(k, prefix); k, v = c.Next()
unfoldable pub endpoints_loop :
    Json EndpointRecord
    → Str
    → Dict Str
    → List EndpointRecord
    → Outcome StoreError (List EndpointRecord)
endpoints_loop json prefix [] results = ok results
endpoints_loop json prefix ((k, v) ∷ d) results =
    let next = λ (ep : EndpointRecord). endpoints_loop json prefix d (results ++ ep ∷ []) in
    if has_prefix k prefix
    then elim (json.unmarshal v) [ none ↦ err unmarshal_failed | some ep ↦ next ep ]
    else ok results

unfoldable pub container_endpoints_loop :
    Json EndpointRecord
    → Str
    → Dict Str
    → List EndpointRecord
    → Outcome StoreError (List EndpointRecord)
container_endpoints_loop json container_id [] results = ok results
container_endpoints_loop json container_id ((k, v) ∷ d) results =
    let next = λ (ep : EndpointRecord).
      container_endpoints_loop json container_id d
        (if str_eq ep.container_id container_id then results ++ ep ∷ [] else results) in
    elim (json.unmarshal v) [ none ↦ err unmarshal_failed | some ep ↦ next ep ]

module _ {B : Type 0} (bolt : Bolt B) where
  network_tx : Record → Str → Db B → Outcome StoreError (Db B)
  network_tx rec d db = elim (bolt.get db.network_names rec.name) [
    | some _ ↦ err name_in_use
    | none ↦ put_in bolt db.networks rec.id d >>= λ networks'.
        put_in bolt db.network_names rec.name rec.id >>= λ names'.
        ok (record db { networks = networks'; network_names = names' })
  ]

  unfoldable pub create_network : Json Record → Record → Db B → Outcome StoreError (Unit {0}) × Db B
  unfolding network_tx
  create_network json rec db = elim (json.marshal rec) [
    | none ↦ (err marshal_failed, db)
    | some d ↦ update (network_tx rec d db) db
  ]

  unfoldable pub network_by_name : Db B → Str → Option Str
  network_by_name db name = elim (bolt.get db.network_names name) [
    | none ↦ none
    | some id ↦ bolt.get db.networks id
  ]

  -- The data that `GetNetwork` decodes: by ID, by name, by ID prefix.
  unfoldable pub find_network : Str → Db B → Outcome StoreError Str
  find_network key db = elim (bolt.get db.networks key) [
    | some v ↦ ok v
    | none ↦ elim (network_by_name db key) [
      | some v ↦ ok v
      | none ↦ prefix_match key (bolt.seek db.networks key)
    ]
  ]

  unfoldable pub get_network : Json Record → Str → Db B → Outcome StoreError Record
  get_network json key db = find_network key db >>= decode json

  update_network_tx : Record → Str → Db B → Outcome StoreError (Db B)
  update_network_tx rec d db = elim (bolt.get db.networks rec.id) [
    | none ↦ err not_found
    | some _ ↦
        put_in bolt db.networks rec.id d >>= λ networks'. ok (record db { networks = networks' })
  ]

  unfoldable pub update_network : Json Record → Record → Db B → Outcome StoreError (Unit {0}) × Db B
  unfolding update_network_tx
  update_network json rec db = elim (json.marshal rec) [
    | none ↦ (err marshal_failed, db)
    | some d ↦ update (update_network_tx rec d db) db
  ]

  abbrev delete_network_name : Str → Db B → Outcome StoreError (Db B)
  delete_network_name [] db = ok db
  delete_network_name (c ∷ name) db = delete_in bolt db.network_names (c ∷ name) >>= λ names'.
      ok (record db { network_names = names' })

  unfoldable pub delete_network : Str → Str → Db B → Outcome StoreError (Unit {0}) × Db B
  delete_network id name db =
      update
        (delete_in bolt db.networks id >>= λ networks'.
          delete_network_name name (record db { networks = networks' }))
        db

  unfoldable pub list_networks : Json Record → Db B → Outcome StoreError (List Record)
  list_networks json db = decode_all json (bolt.entries db.networks) []

  unfoldable pub create_endpoint :
      Json EndpointRecord → EndpointRecord → Db B → Outcome StoreError (Unit {0}) × Db B
  create_endpoint json ep db = elim (json.marshal ep) [
    | none ↦ (err marshal_failed, db)
    | some d ↦
        update
          (put_in bolt db.endpoints (endpoint_key ep.network_id ep.container_id) d >>= λ endpoints'.
            ok (record db { endpoints = endpoints' }))
          db
  ]

  unfoldable pub get_endpoint :
      Json EndpointRecord → Str → Str → Db B → Outcome StoreError EndpointRecord
  get_endpoint json network_id container_id db =
      elim (bolt.get db.endpoints (endpoint_key network_id container_id)) [
        | none ↦ err not_found
        | some d ↦ decode json d
      ]

  unfoldable pub delete_endpoint : Str → Str → Db B → Outcome StoreError (Unit {0}) × Db B
  delete_endpoint network_id container_id db =
      update
        (delete_in bolt db.endpoints (endpoint_key network_id container_id) >>= λ endpoints'.
          ok (record db { endpoints = endpoints' }))
        db

  unfoldable pub list_endpoints :
      Json EndpointRecord → Str → Db B → Outcome StoreError (List EndpointRecord)
  list_endpoints json network_id db =
      let prefix = network_id ++ codes "/" in
      endpoints_loop json prefix (bolt.seek db.endpoints prefix) []

  unfoldable pub list_container_endpoints :
      Json EndpointRecord → Str → Db B → Outcome StoreError (List EndpointRecord)
  list_container_endpoints json container_id db =
      container_endpoints_loop json container_id (bolt.entries db.endpoints) []

  -- A subnet without a bitmap is not an error.
  unfoldable pub get_ipam_bitmap : Db B → Str → Outcome StoreError (Option Bitmap)
  get_ipam_bitmap db subnet = ok (bolt.get db.ipam subnet)

  unfoldable pub put_ipam_bitmap : Db B → Str → Bitmap → Outcome StoreError (Db B)
  put_ipam_bitmap db subnet bitmap =
      put_in bolt db.ipam subnet bitmap >>= λ ipam'. ok (record db { ipam = ipam' })

  unfoldable pub delete_ipam_bitmap : Db B → Str → Outcome StoreError (Db B)
  delete_ipam_bitmap db subnet =
      delete_in bolt db.ipam subnet >>= λ ipam'. ok (record db { ipam = ipam' })

  -- The store as `IPAMStore`.
  abbrev pub ipam_store : IpamStore (Db B) StoreError
  ipam_store = record {
    get_ipam_bitmap = get_ipam_bitmap;
    put_ipam_bitmap = put_ipam_bitmap;
    delete_ipam_bitmap = delete_ipam_bitmap;
  }
