-- ===== src/Store/Volume.antt =====
-- internal/store/volume.go: the records of the volumes.
use kogia.Base.{
  none, some, List, [], Str, str_eq, if◌then◌else◌, Outcome, ok, err, ◌>>=◌, ◌≡◌, false,
  Option-cases, Outcome-cases, str_eq_refl, inl, inr, arith,
}
use kogia.Store.Bolt.{Bolt, BoltLaws, Json, JsonLaws}
use kogia.Store.Prefix.{StoreError, not_found, name_in_use, marshal_failed}
use kogia.Store.Db.{Db, put_in, delete_in, update}
use kogia.Store.Container.{decode}
use kogia.Store.Network.{decode_all}
use kogia.Volume.Types.{Record}
use kogia.Volume.Manager.{VolumeStore, VolumeStoreLaws, is_ok}

module _ {B : Type 0} (bolt : Bolt B) (json : Json Record) where
  unfoldable pub volume_tx : Record → Str → Db B → Outcome StoreError (Db B)
  volume_tx rec d db = elim (bolt.get db.volume_names rec.name) [
    | some _ ↦ err name_in_use
    | none ↦ put_in bolt db.volumes rec.name d >>= λ volumes'.
        put_in bolt db.volume_names rec.name rec.name >>= λ names'.
        ok (record db { volumes = volumes'; volume_names = names' })
  ]

  unfoldable pub create_volume : Record → Db B → Outcome StoreError (Unit {0}) × Db B
  create_volume rec db = elim (json.marshal rec) [
    | none ↦ (err marshal_failed, db)
    | some d ↦ update (volume_tx rec d db) db
  ]

  unfoldable pub get_volume : Str → Db B → Outcome StoreError Record
  get_volume name db = elim (bolt.get db.volumes name) [
    | none ↦ err not_found
    | some d ↦ decode json d
  ]

  unfoldable pub delete_volume : Str → Db B → Outcome StoreError (Unit {0}) × Db B
  delete_volume name db =
      update
        (delete_in bolt db.volumes name >>= λ volumes'.
          delete_in bolt db.volume_names name >>= λ names'.
          ok (record db { volumes = volumes'; volume_names = names' }))
        db

  unfoldable pub list_volumes : Db B → Outcome StoreError (List Record)
  list_volumes db = decode_all json (bolt.entries db.volumes) []

  -- The store as the volume manager calls it.
  unfoldable pub volume_store : VolumeStore (Db B) StoreError
  volume_store = record {
    get_volume = get_volume;
    create_volume = create_volume;
    delete_volume = delete_volume;
    list_volumes = list_volumes;
  }

module _ {B : Type 0} (bolt : Bolt B) (laws : BoltLaws bolt) (json : Json Record)
    (json_laws : JsonLaws json) where
  get-create_volume :
      (rec : Record) (db : Db B) (name : Str)
      → (create_volume bolt json rec db).0 ≡ ok tt
      → get_volume bolt json name (create_volume bolt json rec db).1
        ≡ (if str_eq rec.name name then ok rec else get_volume bolt json name db)
  unfolding create_volume get_volume volume_tx
  get-create_volume rec db name e = elim (Option-cases (json.marshal rec)) [
    | inl bad ↦ absurd (ground (arith, bad, e))
    | inr (d, ed) ↦ elim (Option-cases (bolt.get db.volume_names rec.name)) [
      | inr (v, taken) ↦ absurd (ground (arith, ed, taken, e))
      | inl free ↦ elim (Option-cases (bolt.put db.volumes rec.name d)) [
        | inl bad ↦ absurd (ground (arith, ed, free, bad, e))
        | inr (b, eb) ↦ elim (Option-cases (bolt.put db.volume_names rec.name rec.name)) [
          | inl bad ↦ absurd (ground (arith, ed, free, eb, bad, e))
          | inr (b', eb') ↦ ground (
            arith,
            ed,
            free,
            eb,
            eb',
            laws.get-put db.volumes b rec.name d name eb,
            json_laws.unmarshal-marshal rec d ed,
          )
        ]
      ]
    ]
  ]

  create_volume_err :
      (rec : Record) (db : Db B)
      → is_ok (create_volume bolt json rec db).0 ≡ false
      → (create_volume bolt json rec db).1 ≡ db
  unfolding create_volume
  create_volume_err rec db e = elim (Option-cases (json.marshal rec)) [
    | inl bad ↦ ground (arith, bad)
    | inr (d, ed) ↦ elim (Outcome-cases (volume_tx bolt json rec d db)) [
      | inl (db', t) ↦ absurd (ground (arith, ed, t, e))
      | inr (inl (reason, t)) ↦ ground (arith, ed, t)
      | inr (inr t) ↦ ground (arith, ed, t)
    ]
  ]

  get-delete_volume_ne :
      (name other : Str) (db : Db B)
      → str_eq name other ≡ false
      → get_volume bolt json other (delete_volume bolt json name db).1
        ≡ get_volume bolt json other db
  unfolding delete_volume get_volume
  get-delete_volume_ne name other db e = elim (Option-cases (bolt.delete db.volumes name)) [
    | inl bad ↦ ground (arith, bad)
    | inr (b, eb) ↦ elim (Option-cases (bolt.delete db.volume_names name)) [
      | inl bad ↦ ground (arith, eb, bad)
      | inr (b', eb') ↦ ground (arith, eb, eb', laws.get-delete db.volumes b name other eb, e)
    ]
  ]

  get-delete_volume :
      (name : Str) (db : Db B)
      → (delete_volume bolt json name db).0 ≡ ok tt
      → is_ok (get_volume bolt json name (delete_volume bolt json name db).1) ≡ false
  unfolding delete_volume get_volume
  get-delete_volume name db e = elim (Option-cases (bolt.delete db.volumes name)) [
    | inl bad ↦ absurd (ground (arith, bad, e))
    | inr (b, eb) ↦ elim (Option-cases (bolt.delete db.volume_names name)) [
      | inl bad ↦ absurd (ground (arith, eb, bad, e))
      | inr (b', eb') ↦
          ground (arith, eb, eb', laws.get-delete db.volumes b name name eb, str_eq_refl name)
    ]
  ]

  -- The database keeps what the volume manager relies on.
  pub volume_store-VolumeStoreLaws : VolumeStoreLaws (volume_store bolt json)
  unfolding volume_store
  volume_store-VolumeStoreLaws = record {
    get-create = get-create_volume;
    create_err = create_volume_err;
    get-delete_ne = get-delete_volume_ne;
    get-delete = get-delete_volume;
  }
