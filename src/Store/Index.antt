-- ===== src/Store/Index.antt =====
-- The container store keeps its name index in step with its records, and finds what it stored.
use kogia.Base.{
  ◌≡◌, ◌⊎◌, inl, inr, none, some, Str, codes, ◌++◌, str_eq, str_eq_iff, str_eq_refl, ok, err,
  Bool-cases, Option-cases, ◌∙◌, ap, sym, arith,
}
use kogia.Store.Bolt.{Bolt, BoltLaws, Json, JsonLaws}
use kogia.Store.Prefix.{not_found, name_in_use, with_prefix, only_one, prefix_match-seek}
use kogia.Store.Db.{Db}
use kogia.Store.Filters.{Container}
use kogia.Store.Container.{
  create_container, by_name, find_container, get_container, update_container,
}

module _ {B : Type 0} (bolt : Bolt B) (laws : BoltLaws bolt) (json : Json Container)
    (json_laws : JsonLaws json) where
  -- What a creation that returns nil has done.
  pub record Created (c : Container) (db db' : Db B) : Type 0 where
    pub encoded : Str
    pub marshalled : json.marshal c ≡ some encoded
    pub name_was_free : bolt.get db.cont_names c.name ≡ none
    pub names : B
    pub records : B
    pub put_record : bolt.put db.containers c.id encoded ≡ some records
    pub put_name : bolt.put db.cont_names c.name c.id ≡ some names
    pub state : db' ≡ record db { containers = records; cont_names = names }

  create_container-Created :
      (c : Container) (db db' : Db B)
      → create_container bolt json c db ≡ (ok tt, db')
      → Created c db db'
  unfolding create_container
  create_container-Created c db db' e = elim (Option-cases (json.marshal c)) [
    | inl bad ↦ absurd (ground arith)
    | inr (d, ed) ↦ elim (Option-cases (bolt.get db.cont_names c.name)) [
      | inr (i, taken) ↦ absurd (ground arith)
      | inl free ↦ elim (Option-cases (bolt.put db.containers c.id d)) [
        | inl bad ↦ absurd (ground arith)
        | inr (b, eb) ↦ elim (Option-cases (bolt.put db.cont_names c.name c.id)) [
          | inl bad ↦ absurd (ground arith)
          | inr (n, en) ↦ record {
            encoded = d;
            marshalled = ed;
            name_was_free = free;
            names = n;
            records = b;
            put_record = eb;
            put_name = en;
            state = ground arith;
          }
        ]
      ]
    ]
  ]

  -- A name that is taken is refused, and nothing changes.
  pub create_container-name_in_use :
      (c : Container) (db : Db B) (d id : Str)
      → json.marshal c ≡ some d
      → bolt.get db.cont_names c.name ≡ some id
      → create_container bolt json c db ≡ (err name_in_use, db)
  unfolding create_container
  create_container-name_in_use c db d id ed taken = ground arith

  -- A created container is found by its ID, and by its name unless that is some other
  -- container's ID.
  pub get-create_container :
      (c : Container) (db db' : Db B) (key : Str)
      → create_container bolt json c db ≡ (ok tt, db')
      → (key ≡ c.id) ⊎ ((key ≡ c.name) × (bolt.get db.containers c.name ≡ none))
      → get_container bolt json key db' ≡ ok c
  unfolding get_container find_container by_name
  get-create_container c db db' key e which =
      let r = create_container-Created c db db' e in
      let back = json_laws.unmarshal-marshal c r.encoded r.marshalled in
      let at = λ (j : Str). laws.get-put db.containers r.records c.id r.encoded j r.put_record in
      let name_at = λ (j : Str). laws.get-put db.cont_names r.names c.name c.id j r.put_name in
      elim which [
        | inl same ↦ rw same (ground (arith, r.state, at c.id, str_eq_refl c.id, back))
        | inr (same, other) ↦ rw same (
            ground (
              arith,
              r.state,
              at c.name,
              at c.id,
              name_at c.name,
              str_eq_refl c.id,
              str_eq_refl c.name,
              back,
              other,
            ))
      ]

  -- A key that is no ID and no name, with or without "/", is looked up as an ID prefix: the
  -- answer is the one record whose ID starts with it, and an error if there is none or more than
  -- one.
  pub find_container-prefix :
      (key : Str) (db : Db B)
      → bolt.get db.containers key ≡ none
      → by_name bolt db key ≡ none
      → by_name bolt db (codes "/" ++ key) ≡ none
      → find_container bolt key db ≡ only_one (with_prefix key (bolt.entries db.containers))
  unfolding find_container
  find_container-prefix key db no_id no_name no_slash =
      rw (no_id, find_container)
        (rw (no_name) (
          rw no_slash (
            rw (laws.seek-entries db.containers key) (
              prefix_match-seek key (bolt.entries db.containers)
                (laws.entries-IsSorted db.containers)))))

  -- The record that the index promises for a name.
  pub record Holds (db : Db B) (name id : Str) : Type 0 where
    pub encoded : Str
    pub container : Container
    pub stored : bolt.get db.containers id ≡ some encoded
    pub decoded : json.unmarshal encoded ≡ some container
    pub its_name : container.name ≡ name
    pub its_id : container.id ≡ id

  -- Every name in the index leads to the record of a container that has this name and this ID.
  abbrev pub IsIndexed : Db B → Type 0
  IsIndexed db = (name id : Str) → bolt.get db.cont_names name ≡ some id → Holds db name id

  -- The record of `id` in `db` is carried over to `db'`.
  pub keep_Holds :
      (db db' : Db B) (name id : Str)
      → bolt.get db'.containers id ≡ bolt.get db.containers id
      → Holds db name id
      → Holds db' name id
  keep_Holds db db' name id same h = record {
    encoded = h.encoded;
    container = h.container;
    stored = same ∙ h.stored;
    decoded = h.decoded;
    its_name = h.its_name;
    its_id = h.its_id;
  }

  pub create_container-IsIndexed :
      (c : Container) (db db' : Db B)
      → bolt.get db.containers c.id ≡ none
      → create_container bolt json c db ≡ (ok tt, db')
      → IsIndexed db
      → IsIndexed db'
  create_container-IsIndexed c db db' fresh e h name id at =
      let r = create_container-Created c db db' e in
      let put = λ (j : Str). laws.get-put db.containers r.records c.id r.encoded j r.put_record in
      let name_put = laws.get-put db.cont_names r.names c.name c.id name r.put_name in
      elim (Bool-cases (str_eq c.name name)) [
        | inl same ↦
            let here : c.name ≡ name = (str_eq_iff c.name name).0 same in
            let id_here : c.id ≡ id = ground (arith, r.state, name_put, at, same) in
            record {
              encoded = r.encoded;
              container = c;
              stored = ground (arith, r.state, put id, str_eq_iff c.id id, id_here);
              decoded = json_laws.unmarshal-marshal c r.encoded r.marshalled;
              its_name = here;
              its_id = id_here;
            }
        | inr other ↦
            let old = h name id (ground (arith, r.state, name_put, at, other)) in
            keep_Holds db db' name id
              (ground (arith, r.state, put id, str_eq_iff c.id id, old.stored, fresh)) old
      ]

  -- An update that returns nil has written the new record under its ID, and nothing else.
  pub update_container_lem :
      (c : Container) (db db' : Db B)
      → update_container bolt json c db ≡ (ok tt, db')
      → (old d : Str) × (b : B) × (bolt.get db.containers c.id ≡ some old)
        × (json.marshal c ≡ some d)
        × (bolt.put db.containers c.id d ≡ some b)
        × (db' ≡ record db { containers = b })
  unfolding update_container
  update_container_lem c db db' e = elim (Option-cases (json.marshal c)) [
    | inl bad ↦ absurd (ground arith)
    | inr (d, ed) ↦ elim (Option-cases (bolt.get db.containers c.id)) [
      | inl gone ↦ absurd (ground arith)
      | inr (old, eo) ↦ elim (Option-cases (bolt.put db.containers c.id d)) [
        | inl bad ↦ absurd (ground arith)
        | inr (b, eb) ↦ (old, d, b, eo, ed, eb, ground arith)
      ]
    ]
  ]

  -- An update of a record that is not there is refused, and nothing changes.
  pub update_container-not_found :
      (c : Container) (db : Db B) (d : Str)
      → json.marshal c ≡ some d
      → bolt.get db.containers c.id ≡ none
      → update_container bolt json c db ≡ (err not_found, db)
  unfolding update_container
  update_container-not_found c db d ed gone = ground arith

  pub update_container-IsIndexed :
      (c : Container) (db db' : Db B)
      → ((d : Str) (old : Container)
          → bolt.get db.containers c.id ≡ some d
          → json.unmarshal d ≡ some old
          → old.name ≡ c.name)
      → update_container bolt json c db ≡ (ok tt, db')
      → IsIndexed db
      → IsIndexed db'
  update_container-IsIndexed c db db' same_name e h name id at =
      let (old, d, b, eo, ed, eb, state) = update_container_lem c db db' e in
      let put = laws.get-put db.containers b c.id d id eb in
      let was = h name id (ground (arith, state, at)) in
      elim (Bool-cases (str_eq c.id id)) [
        | inr other ↦ keep_Holds db db' name id (ground (arith, state, put, other)) was
        | inl here ↦
            let id_here : c.id ≡ id = (str_eq_iff c.id id).0 here in
            let agrees =
              same_name was.encoded was.container (ap (bolt.get db.containers) id_here ∙ was.stored)
                was.decoded in
            record {
              encoded = d;
              container = c;
              stored = ground (arith, state, put, here);
              decoded = json_laws.unmarshal-marshal c d ed;
              its_name = sym agrees ∙ was.its_name;
              its_id = id_here;
            }
      ]
