-- ===== src/Store/Db.antt =====
-- The `Store` of internal/store/db.go: its buckets and the transactions. All the buckets that `New`
-- creates exist, so a bucket is a field. The untyped `Put`, `Get` and `Delete` are not here.
use kogia.Base.{none, some, Str, Outcome, ok, err, panic}
use kogia.Store.Bolt.{Bolt}
use kogia.Store.Prefix.{StoreError, bolt_failed}

pub record Db (B : Type 0) : Type 0 where
  pub meta : B
  pub containers : B
  pub cont_names : B
  pub cont_bundles : B
  pub networks : B
  pub network_names : B
  pub endpoints : B
  pub ipam : B
  pub volumes : B
  pub volume_names : B

module _ {B : Type 0} (bolt : Bolt B) where
  -- A write inside a transaction: the library's error ends it.
  abbrev pub put_in : B → Str → Str → Outcome StoreError B
  put_in b k v = elim (bolt.put b k v) [ none ↦ err bolt_failed | some b' ↦ ok b' ]

  abbrev pub delete_in : B → Str → Outcome StoreError B
  delete_in b k = elim (bolt.delete b k) [ none ↦ err bolt_failed | some b' ↦ ok b' ]

  -- `New` on a fresh file: every bucket is there and empty.
  unfoldable pub new : Db B
  new = record {
    meta = bolt.empty;
    containers = bolt.empty;
    cont_names = bolt.empty;
    cont_bundles = bolt.empty;
    networks = bolt.empty;
    network_names = bolt.empty;
    endpoints = bolt.empty;
    ipam = bolt.empty;
    volumes = bolt.empty;
    volume_names = bolt.empty;
  }

-- `db.Update`: a transaction that returns an error is rolled back.
abbrev pub update :
    {B : Type 0} → Outcome StoreError (Db B) → Db B → Outcome StoreError (Unit {0}) × Db B
update (ok db') db = (ok tt, db')
update (err e) db = (err e, db)
update panic db = (panic, db)
