-- ===== src/Store/NetworkLaws.antt =====
-- The network store keeps what IPAM and the network manager rely on.
use kogia.Base.{
  false, ◌≡◌, refl, ◌≢◌, inl, inr, none, some, List, [], ◌∷◌, ◌++◌, Str, codes, str_eq, str_eq_iff,
  str_eq_refl, has_prefix, if◌then◌else◌, ok, panic, Bool-cases, Option-cases, All, str_ltb, ap,
  ◌∙◌, arith,
}
use kogia.Base.Maps.{Dict}
use kogia.Store.Bolt.{Bolt, BoltLaws, IsSorted, drop_below, Json, JsonLaws}
use kogia.Store.Prefix.{with_prefix, none_past, none_below, drop_below-IsSorted, drop_below-from}
use kogia.Store.Db.{Db}
use kogia.Store.Network.{
  ipam_store, get_ipam_bitmap, put_ipam_bitmap, delete_ipam_bitmap, endpoint_key, create_endpoint,
  get_endpoint, endpoints_loop, list_endpoints, decode_all,
}
use kogia.Network.Types.{EndpointRecord}
use kogia.Network.Ipam.Bitmap.{Bitmap}
use kogia.Network.Ipam.View.{IpamStoreLaws}

module _ {B : Type 0} (bolt : Bolt B) (laws : BoltLaws bolt) where
  put_lem :
      (db db' : Db B) (k : Str) (m : Bitmap)
      → put_ipam_bitmap bolt db k m ≡ ok db'
      → (j : Str) → bolt.get db'.ipam j ≡ (if str_eq k j then some m else bolt.get db.ipam j)
  unfolding put_ipam_bitmap
  put_lem db db' k m e j = elim (Option-cases (bolt.put db.ipam k m)) [
    | inl bad ↦ absurd (ground arith)
    | inr (b, eb) ↦ ground (arith, laws.get-put db.ipam b k m j eb)
  ]

  delete_lem :
      (db db' : Db B) (k : Str)
      → delete_ipam_bitmap bolt db k ≡ ok db'
      → (j : Str) → bolt.get db'.ipam j ≡ (if str_eq k j then none else bolt.get db.ipam j)
  unfolding delete_ipam_bitmap
  delete_lem db db' k e j = elim (Option-cases (bolt.delete db.ipam k)) [
    | inl bad ↦ absurd (ground arith)
    | inr (b, eb) ↦ ground (arith, laws.get-delete db.ipam b k j eb)
  ]

  put_safe : (db : Db B) (k : Str) (m : Bitmap) → put_ipam_bitmap bolt db k m ≢ panic
  unfolding put_ipam_bitmap
  put_safe db k m e = elim (Option-cases (bolt.put db.ipam k m)) [
    | inl bad ↦ absurd (ground arith)
    | inr (b, eb) ↦ absurd (ground arith)
  ]

  -- The database keeps the promises that the IP allocator relies on.
  pub ipam_store-IpamStoreLaws : IpamStoreLaws (ipam_store bolt)
  unfolding get_ipam_bitmap
  ipam_store-IpamStoreLaws = record {
    get-put_self = λ db db' k m e. ap ok (put_lem db db' k m e k ∙ rw (str_eq_refl k));
    get-put_ne =
        λ db db' k j m e ne. ap ok (put_lem db db' k m e j ∙ ground (arith, str_eq_iff k j));
    get-delete_self = λ db db' k e. ap ok (delete_lem db db' k e k ∙ rw (str_eq_refl k));
    put_safe = put_safe;
  }

-- The loop over the cursor decodes all the pairs that have the prefix.
endpoints_loop-from :
    (json : Json EndpointRecord) (p : Str) (d : Dict Str) (results : List EndpointRecord)
    → IsSorted d
    → All (λ e. str_ltb e.0 p ≡ false) d
    → endpoints_loop json p d results ≡ decode_all json (with_prefix p d) results
unfolding endpoints_loop decode_all
endpoints_loop-from json p [] results sorted from = refl
endpoints_loop-from json p ((k, v) ∷ d) results sorted from = elim (Bool-cases (has_prefix k p)) [
  | inr miss ↦ ground (arith, none_past k p d from.0 miss sorted.0)
  | inl hit ↦ elim (Option-cases (json.unmarshal v)) [
    | inl bad ↦ ground arith
    | inr (ep, e) ↦
        ground (arith, endpoints_loop-from json p d (results ++ ep ∷ []) sorted.1 from.1)
  ]
]

module _ {B : Type 0} (bolt : Bolt B) (laws : BoltLaws bolt) (json : Json EndpointRecord) where
  -- `ListEndpoints` returns the records of all keys that start with the network's ID and a slash.
  pub list_endpoints-eq-decode_all :
      (network_id : Str) (db : Db B)
      → list_endpoints bolt json network_id db
        ≡ decode_all json (with_prefix (network_id ++ codes "/") (bolt.entries db.endpoints)) []
  unfolding list_endpoints
  list_endpoints-eq-decode_all network_id db =
      let p = network_id ++ codes "/" in
      let d = bolt.entries db.endpoints in
      let sorted = laws.entries-IsSorted db.endpoints in
      ap (λ (w : Dict Str). endpoints_loop json p w []) (laws.seek-entries db.endpoints p)
      ∙ endpoints_loop-from json p (drop_below p d) [] (drop_below-IsSorted p d sorted)
          (drop_below-from p d sorted)
      ∙ ap (λ (w : Dict Str). decode_all json w []) (none_below p d)

  -- A created endpoint is read back under its two IDs, and what is read under another key stays.
  pub get-create_endpoint :
      JsonLaws json
      → (ep : EndpointRecord) (db db' : Db B) (n c : Str)
      → create_endpoint bolt json ep db ≡ (ok tt, db')
      → get_endpoint bolt json n c db' ≡ (
          if str_eq (endpoint_key ep.network_id ep.container_id) (endpoint_key n c)
          then ok ep
          else get_endpoint bolt json n c db)
  unfolding create_endpoint get_endpoint
  get-create_endpoint json_laws ep db db' n c e = elim (Option-cases (json.marshal ep)) [
    | inl bad ↦ absurd (ground arith)
    | inr (d, ed) ↦
        let key = endpoint_key ep.network_id ep.container_id in
        elim (Option-cases (bolt.put db.endpoints key d)) [
          | inl bad ↦ absurd (ground arith)
          | inr (b, eb) ↦ ground (
            arith,
            laws.get-put db.endpoints b key d (endpoint_key n c) eb,
            json_laws.unmarshal-marshal ep d ed,
          )
        ]
  ]

-- A text without a slash.
abbrev pub HasNoSlash : Str → Type 0
HasNoSlash [] = Unit
HasNoSlash (c ∷ s) = (c ≢ b'/') × HasNoSlash s

-- Two endpoints whose network IDs hold no slash have the same key only if both of their IDs agree.
pub endpoint_key-injective :
    (n n' c c' : Str)
    → HasNoSlash n
    → HasNoSlash n'
    → endpoint_key n c ≡ endpoint_key n' c'
    → (n ≡ n') × (c ≡ c')
unfolding endpoint_key
endpoint_key-injective [] [] c c' h h' e = ground arith
endpoint_key-injective [] (x ∷ n') c c' h h' e = absurd (ground arith)
endpoint_key-injective (x ∷ n) [] c c' h h' e = absurd (ground arith)
endpoint_key-injective (x ∷ n) (y ∷ n') c c' h h' e =
    let rest : endpoint_key n c ≡ endpoint_key n' c' = ground arith in
    let (same, same') = endpoint_key-injective n n' c c' h.1 h'.1 rest in (ground arith, same')
