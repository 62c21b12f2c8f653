-- ===== src/Store/NetworkBackend.antt =====
-- internal/store/network.go as the store that the network manager calls.
use kogia.Base.{
  ◌≡◌, ◌≢◌, refl, ◌∙◌, inl, inr, none, some, Str, str_eq_refl, ok, err, panic, Outcome,
  Option-cases, arith,
}
use kogia.Store.Bolt.{Bolt, BoltLaws, Json, JsonLaws}
use kogia.Store.Prefix.{StoreError}
use kogia.Store.Db.{Db}
use kogia.Store.Network.{
  ipam_store, get_ipam_bitmap, put_ipam_bitmap, endpoint_key, create_network, find_network,
  network_by_name, get_network, delete_network, list_networks, create_endpoint, get_endpoint,
  delete_endpoint, list_endpoints, list_container_endpoints,
}
use kogia.Store.NetworkLaws.{ipam_store-IpamStoreLaws, get-create_endpoint}
use kogia.Network.Types.{Record, EndpointRecord}
use kogia.Network.Ipam.Bitmap.{Bitmap}
use kogia.Network.Manager.State.{ManagerStore}
use kogia.Network.Manager.RoundTrip.{ManagerStoreLaws}

-- What a caller of `db.Update` sees: the state after a write that succeeded, or its error.
abbrev written : {B : Type 0} → Outcome StoreError (Unit {0}) × Db B → Outcome StoreError (Db B)
written (ok u, db) = ok db
written (err e, db) = err e
written (panic, db) = panic

module _ {B : Type 0} (bolt : Bolt B) (networks : Json Record)
    (endpoints : Json EndpointRecord) where
  unfoldable pub manager_store : ManagerStore (Db B) StoreError
  manager_store = record {
    ipam = ipam_store bolt;
    create_network = λ rec db. written (create_network bolt networks rec db);
    get_network = get_network bolt networks;
    delete_network = λ id name db. written (delete_network bolt id name db);
    list_networks = list_networks bolt networks;
    create_endpoint = λ ep db. written (create_endpoint bolt endpoints ep db);
    get_endpoint = get_endpoint bolt endpoints;
    delete_endpoint = λ n c db. written (delete_endpoint bolt n c db);
    list_endpoints = list_endpoints bolt endpoints;
    list_container_endpoints = list_container_endpoints bolt endpoints;
  }

module _ {B : Type 0} (bolt : Bolt B) where
  put_ipam_bitmap_lem :
      (db db' : Db B) (k : Str) (b : Bitmap)
      → put_ipam_bitmap bolt db k b ≡ ok db'
      → (ipam' : B) × (db' ≡ record db { ipam = ipam' })
  unfolding put_ipam_bitmap
  put_ipam_bitmap_lem db db' k b e = elim (Option-cases (bolt.put db.ipam k b)) [
    | inl bad ↦ absurd (ground (arith, bad, e))
    | inr (ipam', put) ↦ (ipam', ground (arith, put, e))
  ]

  create_endpoint_lem :
      (json : Json EndpointRecord) (db db' : Db B) (ep : EndpointRecord)
      → written (create_endpoint bolt json ep db) ≡ ok db'
      → (create_endpoint bolt json ep db ≡ (ok tt, db'))
        × ((endpoints' : B) × (db' ≡ record db { endpoints = endpoints' }))
  unfolding create_endpoint
  create_endpoint_lem json db db' ep e = elim (Option-cases (json.marshal ep)) [
    | inl bad ↦ absurd (ground (arith, bad, e))
    | inr (d, ed) ↦
        elim (Option-cases (bolt.put db.endpoints (endpoint_key ep.network_id ep.container_id) d)) [
          | inl bad ↦ absurd (ground (arith, ed, bad, e))
          | inr (b, put) ↦ (ground (arith, ed, put, e), (b, ground (arith, ed, put, e)))
        ]
  ]

  delete_endpoint_lem :
      (db db' : Db B) (n c : Str)
      → written (delete_endpoint bolt n c db) ≡ ok db'
      → (endpoints' : B) × (bolt.delete db.endpoints (endpoint_key n c) ≡ some endpoints')
        × (db' ≡ record db { endpoints = endpoints' })
  unfolding delete_endpoint
  delete_endpoint_lem db db' n c e =
      elim (Option-cases (bolt.delete db.endpoints (endpoint_key n c))) [
        | inl bad ↦ absurd (ground (arith, bad, e))
        | inr (b, deleted) ↦ (b, deleted, ground (arith, deleted, e))
      ]

  network-ipam :
      (json : Json Record) (db : Db B) (ipam' : B) (j : Str)
      → get_network bolt json j (record db { ipam = ipam' }) ≡ get_network bolt json j db
  unfolding get_network find_network network_by_name
  network-ipam json db ipam' j = refl

  endpoint-ipam :
      (json : Json EndpointRecord) (db : Db B) (ipam' : B) (n c : Str)
      → get_endpoint bolt json n c (record db { ipam = ipam' }) ≡ get_endpoint bolt json n c db
  unfolding get_endpoint
  endpoint-ipam json db ipam' n c = refl

  network-endpoints :
      (json : Json Record) (db : Db B) (endpoints' : B) (j : Str)
      → get_network bolt json j (record db { endpoints = endpoints' }) ≡ get_network bolt json j db
  unfolding get_network find_network network_by_name
  network-endpoints json db endpoints' j = refl

  bitmap-endpoints :
      (db : Db B) (endpoints' : B) (k : Str)
      → get_ipam_bitmap bolt (record db { endpoints = endpoints' }) k ≡ get_ipam_bitmap bolt db k
  unfolding get_ipam_bitmap
  bitmap-endpoints db endpoints' k = refl

module _ {B : Type 0} (bolt : Bolt B) (laws : BoltLaws bolt) (networks : Json Record)
    (endpoints : Json EndpointRecord) (endpoints_laws : JsonLaws endpoints) where
  get-delete_endpoint :
      (db db' : Db B) (n c : Str)
      → written (delete_endpoint bolt n c db) ≡ ok db'
      → (ep : EndpointRecord) → get_endpoint bolt endpoints n c db' ≢ ok ep
  unfolding get_endpoint
  get-delete_endpoint db db' n c e ep found =
      let (b, deleted, left) = delete_endpoint_lem bolt db db' n c e in
      let key = endpoint_key n c in
      let gone : bolt.get b key ≡ none =
        laws.get-delete db.endpoints b key key deleted ∙ rw (str_eq_refl key) refl in
      let there : get_endpoint bolt endpoints n c (record db { endpoints = b }) ≡ ok ep =
        rw (← left) found in
      absurd (ground (arith, gone, there))

  -- The database keeps the promises that the network manager relies on: a write of a bitmap or of an
  -- endpoint leaves the records of the other kinds, a created endpoint is read back, and a deleted one
  -- is not found.
  pub manager_store-ManagerStoreLaws : ManagerStoreLaws (manager_store bolt networks endpoints)
  unfolding manager_store
  manager_store-ManagerStoreLaws = record {
    ipam_laws = ipam_store-IpamStoreLaws bolt laws;
    network-put_ipam_bitmap = λ db db' k b j e.
        let (ipam', same) = put_ipam_bitmap_lem bolt db db' k b e in
        rw same (network-ipam bolt networks db ipam' j);
    network-create_endpoint = λ db db' ep j e.
        let (made, (es, same)) = create_endpoint_lem bolt endpoints db db' ep e in
        rw same (network-endpoints bolt networks db es j);
    network-delete_endpoint = λ db db' n c j e.
        let (es, deleted, same) = delete_endpoint_lem bolt db db' n c e in
        rw same (network-endpoints bolt networks db es j);
    endpoint-put_ipam_bitmap = λ db db' k b n c e.
        let (ipam', same) = put_ipam_bitmap_lem bolt db db' k b e in
        rw same (endpoint-ipam bolt endpoints db ipam' n c);
    bitmap-create_endpoint = λ db db' ep k e.
        let (made, (es, same)) = create_endpoint_lem bolt endpoints db db' ep e in
        rw same (bitmap-endpoints bolt db es k);
    bitmap-delete_endpoint = λ db db' n c k e.
        let (es, deleted, same) = delete_endpoint_lem bolt db db' n c e in
        rw same (bitmap-endpoints bolt db es k);
    get-create_endpoint = λ db db' ep e.
        let (made, (es, same)) = create_endpoint_lem bolt endpoints db db' ep e in
        let key = endpoint_key ep.network_id ep.container_id in
        get-create_endpoint bolt laws endpoints endpoints_laws ep db db' ep.network_id
          ep.container_id made
        ∙ rw (str_eq_refl key) refl;
    get-delete_endpoint = get-delete_endpoint;
  }
