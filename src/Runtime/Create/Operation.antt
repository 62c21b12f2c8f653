-- ===== src/Runtime/Create/Operation.antt =====
-- `Create` with `generateUniqueName`. What was made is taken back where a later step fails.
use kogia.Base.{
  ℕ, zero, suc, Bool, true, false, not, Option, none, some, List, [], ◌∷◌, ◌++◌, Str, codes,
  has_prefix, if◌then◌else◌, insert, erase, Outcome, ok, err, panic,
}
use kogia.Runtime.MountTypes.{VolumeResolver}
use kogia.Runtime.Create.Types.{
  CreateConfig, CreateHost, ImageConfig, InspectResponse, CreateError, id_failed, no_image,
  no_image_config, layer_failed, mount_failed, mkdir_failed, persist_failed, bundle_failed,
  CreateStore, World, CreateAnswers,
}
use kogia.Runtime.Create.Record.{build_container_record}

-- The first of the names that is free; an error of the store ends the search.
unfoldable pub unique_name : (Str → Option Bool) → ℕ → List Str → Str → Str
unique_name exists zero names fallback = fallback
unique_name exists (suc n) [] fallback = fallback
unique_name exists (suc n) (name ∷ names) fallback =
    let rest = unique_name exists n names fallback in
    elim (exists (b'/' ∷ name)) [ none ↦ fallback | some taken ↦ if taken then rest else name ]

abbrev pub generate_unique_name : (Str → Option Bool) → List Str → Str → Str
generate_unique_name exists names last_name =
    unique_name exists 10 names (codes "container_" ++ last_name)

-- A name has a leading slash.
abbrev pub slashed : Str → Str
slashed name = if has_prefix name (codes "/") then name else b'/' ∷ name

abbrev pub given_or : Str → Str → Str
given_or [] generated = generated
given_or (c ∷ name) generated = c ∷ name

module _ {S V : Type 0} where
  -- `Unmount(id, true)` and `DeleteContainer(id)` of the image storage, `RemoveAll(bundleDir)`.
  unfoldable pub unmount_layer : CreateAnswers → Str → World S V → World S V
  unmount_layer ans id w =
      if ans.unmounted then record w { layers = insert id false w.layers } else w

  unfoldable pub delete_layer : CreateAnswers → Str → World S V → World S V
  delete_layer ans id w = if ans.deleted then record w { layers = erase id w.layers } else w

  abbrev pub drop_layer : CreateAnswers → Str → World S V → World S V
  drop_layer ans id w = delete_layer ans id (unmount_layer ans id w)

  unfoldable pub remove_bundle : CreateAnswers → Str → World S V → World S V
  remove_bundle ans id w = if ans.removed then record w { bundles = erase id w.bundles } else w

  abbrev pub discard : CreateAnswers → Str → World S V → World S V
  discard ans id w = drop_layer ans id (remove_bundle ans id w)

module _ {S V E : Type 0} (clean : Str → Str) (join : Str → Str → Str)
    (vr : Option (VolumeResolver V E)) (st : CreateStore S E) (bundle_root : Str) where
  abbrev pub Created : Type 0
  Created = Outcome (CreateError E) Str × World S V

  -- The record is stored, then the path of its bundle.
  unfoldable pub persist : CreateAnswers → Str → Str → InspectResponse → World S V → Created
  persist ans id name r w = elim (st.create_container w.store r) [
    | err e ↦ (err (persist_failed e), discard ans id w)
    | panic ↦ (panic, w)
    | ok stored ↦ elim (st.set_container_bundle stored id (join bundle_root id)) [
      | err e ↦ (
        err (bundle_failed e),
        discard ans id (record w { store = st.delete_container stored id name }),
      )
      | panic ↦ (panic, record w { store = stored })
      | ok stored' ↦ (ok id, record w { store = stored' })
    ]
  ]

  -- With the bundle directory made.
  unfoldable pub fill_bundle :
      CreateAnswers
      → Str
      → Str
      → CreateConfig
      → Option CreateHost
      → Str
      → ImageConfig
      → Str
      → World S V
      → Created
  fill_bundle ans id name cfg host image_id img root_path w =
      let built =
        build_container_record clean join vr st ans id name cfg host img image_id
          (join bundle_root id) root_path w.store w.volumes in
      let w' = record w { volumes = built.1 } in
      elim built.0 [
        | err e ↦ (err e, discard ans id w')
        | panic ↦ (panic, w')
        | ok (spec, r) ↦
            persist ans id name r (record w' { bundles = insert id (some spec) w'.bundles })
      ]

  -- With the layer mounted.
  unfoldable pub make_bundle :
      CreateAnswers
      → Str
      → Str
      → CreateConfig
      → Option CreateHost
      → Str
      → ImageConfig
      → Str
      → World S V
      → Created
  make_bundle ans id name cfg host image_id img root_path w =
      if not ans.bundle_made
      then (err mkdir_failed, drop_layer ans id w)
      else fill_bundle ans id name cfg host image_id img root_path
          (record w { bundles = insert id none w.bundles })

  -- With the image resolved. The layer is made under the container's ID.
  unfoldable pub make_layer :
      CreateAnswers
      → Str
      → Str
      → CreateConfig
      → Option CreateHost
      → Str
      → ImageConfig
      → World S V
      → Created
  make_layer ans id name cfg host image_id img w =
      if not ans.layer_made then (err layer_failed, w) else elim ans.root_path [
        | none ↦
            (err mount_failed, delete_layer ans id (record w { layers = insert id false w.layers }))
        | some root_path ↦
            make_bundle ans id name cfg host image_id img root_path
              (record w { layers = insert id true w.layers })
      ]

  unfoldable pub create :
      CreateAnswers → CreateConfig → Option CreateHost → Str → World S V → Created
  create ans cfg host name w = elim ans.id [
    | none ↦ (err id_failed, w)
    | some id ↦
        let full_name = slashed (
          given_or name
            (generate_unique_name (st.container_name_exists w.store) ans.names ans.last_name)) in
        elim ans.image_id [
          | none ↦ (err no_image, w)
          | some image_id ↦ elim ans.image_config [
            | none ↦ (err no_image_config, w)
            | some img ↦ make_layer ans id full_name cfg host image_id img w
          ]
        ]
  ]
