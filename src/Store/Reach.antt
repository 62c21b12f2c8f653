-- ===== src/Store/Reach.antt =====
-- The container store over any sequence of its operations, in the way the runtime calls them: a
-- created container has a fresh ID, an update keeps the name, a delete gives the record's own name.
use kogia.Base.{
  ℕ, ◌≡◌, inl, inr, none, some, ◌∷◌, Str, str_eq, str_eq_iff, if◌then◌else◌, ok, Bool-cases,
  Option-cases, ◌∙◌, ap, sym, arith,
}
use kogia.Store.Bolt.{Bolt, BoltLaws, Json, JsonLaws}
use kogia.Store.Db.{Db, new}
use kogia.Store.Filters.{Container}
use kogia.Store.Container.{create_container, update_container, delete_container}
use kogia.Store.Index.{
  IsIndexed, keep_Holds, create_container-IsIndexed, update_container-IsIndexed,
}

module _ {B : Type 0} (bolt : Bolt B) (laws : BoltLaws bolt) where
  -- A delete that returns nil has removed the record and the name, and no others.
  pub delete_container_lem :
      (id : Str) (c : ℕ) (n : Str) (db db' : Db B)
      → delete_container bolt id (c ∷ n) db ≡ (ok tt, db')
      → ((j : Str)
          → bolt.get db'.containers j ≡ (if str_eq id j then none else bolt.get db.containers j))
        × ((j : Str)
            → bolt.get db'.cont_names j
              ≡ (if str_eq (c ∷ n) j then none else bolt.get db.cont_names j))
  unfolding delete_container
  delete_container_lem id c n db db' e = elim (Option-cases (bolt.delete db.containers id)) [
    | inl bad ↦ absurd (ground arith)
    | inr (b, eb) ↦ elim (Option-cases (bolt.delete db.cont_names (c ∷ n))) [
      | inl bad ↦ absurd (ground arith)
      | inr (m, em) ↦ elim (Option-cases (bolt.delete db.cont_bundles id)) [
        | inl lost ↦ (
          λ j. ground (arith, laws.get-delete db.containers b id j eb),
          λ j. ground (arith, laws.get-delete db.cont_names m (c ∷ n) j em),
        )
        | inr (u, eu) ↦ (
          λ j. ground (arith, laws.get-delete db.containers b id j eb),
          λ j. ground (arith, laws.get-delete db.cont_names m (c ∷ n) j em),
        )
      ]
    ]
  ]

module _ {B : Type 0} (bolt : Bolt B) (laws : BoltLaws bolt) (json : Json Container)
    (json_laws : JsonLaws json) where
  abbrev Indexed : Db B → Type 0
  Indexed = IsIndexed bolt laws json json_laws

  delete_container-IsIndexed :
      (id : Str) (c : ℕ) (n : Str) (db db' : Db B)
      → ((d : Str) (old : Container)
          → bolt.get db.containers id ≡ some d
          → json.unmarshal d ≡ some old
          → old.name ≡ c ∷ n)
      → delete_container bolt id (c ∷ n) db ≡ (ok tt, db')
      → Indexed db
      → Indexed db'
  delete_container-IsIndexed id c n db db' own_name e h name i at =
      let (records, names) = delete_container_lem bolt laws id c n db db' e in
      elim (Bool-cases (str_eq (c ∷ n) name)) [
        | inl gone ↦ absurd (ground (arith, names name, at, gone))
        | inr other ↦
            let was = h name i (ground (arith, names name, at, other)) in
            elim (Bool-cases (str_eq id i)) [
              | inr apart ↦
                  keep_Holds bolt laws json json_laws db db' name i
                    (ground (arith, records i, apart)) was
              | inl same ↦
                  let own =
                    own_name was.encoded was.container
                      (ap (bolt.get db.containers) ((str_eq_iff id i).0 same) ∙ was.stored)
                      was.decoded in
                  let clash : c ∷ n ≡ name = sym own ∙ was.its_name in
                  absurd (cc (other, (str_eq_iff (c ∷ n) name).1 clash))
            ]
      ]

  -- One successful operation of the store.
  pub data Step (db db' : Db B) : Type 0 where
    create :
        (c : Container)
        → bolt.get db.containers c.id ≡ none
        → create_container bolt json c db ≡ (ok tt, db')
        → Step db db'
    update :
        (c : Container)
        → ((d : Str) (old : Container)
            → bolt.get db.containers c.id ≡ some d
            → json.unmarshal d ≡ some old
            → old.name ≡ c.name)
        → update_container bolt json c db ≡ (ok tt, db')
        → Step db db'
    delete :
        (id : Str) (c : ℕ) (n : Str)
        → ((d : Str) (old : Container)
            → bolt.get db.containers id ≡ some d
            → json.unmarshal d ≡ some old
            → old.name ≡ c ∷ n)
        → delete_container bolt id (c ∷ n) db ≡ (ok tt, db')
        → Step db db'

  -- What a sequence of operations reaches from `New` on a fresh file.
  pub data Reach : Db B → Type 0 where
    start : Reach (new bolt)
    step : {db db' : Db B} → Reach db → Step db db' → Reach db'

  Step-IsIndexed : {db db' : Db B} → Step db db' → Indexed db → Indexed db'
  Step-IsIndexed {db} {db'} (create c fresh e) h =
      create_container-IsIndexed bolt laws json json_laws c db db' fresh e h
  Step-IsIndexed {db} {db'} (update c same e) h =
      update_container-IsIndexed bolt laws json json_laws c db db' same e h
  Step-IsIndexed {db} {db'} (delete id c n own e) h =
      delete_container-IsIndexed id c n db db' own e h

  -- After any sequence of creations with fresh IDs, updates that keep the name and deletions by
  -- the own name, all of them successful, every name in the index leads to the record of a
  -- container that has this name and this ID.
  pub Reach-IsIndexed :
      {db : Db B} → ((k : Str) → bolt.get bolt.empty k ≡ none) → Reach db → Indexed db
  unfolding new
  Reach-IsIndexed empty start = λ name id at. absurd (cc (empty name, at))
  Reach-IsIndexed empty (step r s) = Step-IsIndexed s (Reach-IsIndexed empty r)
