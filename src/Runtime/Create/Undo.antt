-- ===== src/Runtime/Create/Undo.antt =====
-- A `Create` that fails takes back the layer, the bundle and the record.
use kogia.Base.{
  ◌≡◌, refl, ◌∙◌, inl, inr, ◌⊎◌, Bool, Bool-cases, Option-cases, Outcome-cases, true, false, Option,
  none, some, Str, lookup, insert, Outcome, ok, err,
}
use kogia.Runtime.MountTypes.{VolumeResolver}
use kogia.Runtime.Create.Types.{
  CreateConfig, CreateHost, ImageConfig, InspectResponse, CreateError, CreateStore, World,
  CreateAnswers,
}
use kogia.Runtime.Create.Record.{build_container_record}
use kogia.Runtime.Create.Built.{build_container_record-Built}
use kogia.Runtime.Create.Operation.{
  persist, fill_bundle, make_bundle, make_layer, create, delete_layer, drop_layer, discard, slashed,
  given_or, generate_unique_name,
}
use kogia.Runtime.Create.Discard.{
  SameBut, CleansUp, Held, erase-gone, erase-insert, delete_layer-Held, drop_layer-Held,
  discard-Held,
}

module _ {S E : Type 0} (st : CreateStore S E) where
  -- The records of containers are as they were, or they are what `DeleteContainer` left of those with
  -- the one that `CreateContainer` had added.
  abbrev pub TakenBack : S → S → Type 0
  TakenBack s s' =
      (s' ≡ s)
      ⊎ ((r : InspectResponse) × (made : S) × (st.create_container s r ≡ ok made)
          × (s' ≡ st.delete_container made r.id r.name))

  -- The layers and the bundles are those of `w`, and the container's record is taken back.
  pub record Undone {V : Type 0} (w w' : World S V) : Type 0 where
    pub layers : w'.layers ≡ w.layers
    pub bundles : w'.bundles ≡ w.bundles
    pub store : TakenBack w.store w'.store

  SameBut-Undone : {V : Type 0} → (w w' : World S V) → SameBut w w' → Undone w w'
  SameBut-Undone w w' same = record {
    layers = same.layers;
    bundles = same.bundles;
    store = inl same.store;
  }

module _ {S V E : Type 0} (clean : Str → Str) (join : Str → Str → Str)
    (vr : Option (VolumeResolver V E)) (st : CreateStore S E) (bundle_root : Str) where
  -- An error leaves all but the volumes as in `w`, the store as `TakenBack` says.
  Undoes : World S V → Outcome (CreateError E) Str × World S V → Type 0
  Undoes w o = (e : CreateError E) → o.0 ≡ err e → Undone st w o.1

  module _ (ans : CreateAnswers) (id : Str) (clean_up : CleansUp ans) (cfg : CreateConfig)
      (host : Option CreateHost) (name image_id : Str) (img : ImageConfig) where
    persist-Undoes :
        (r : InspectResponse) (w w' : World S V)
        → r.id ≡ id
        → r.name ≡ name
        → Held id w w'
        → Undoes w (persist clean join vr st bundle_root ans id name r w')
    unfolding persist Undoes
    persist-Undoes r w w' own named h = elim (Outcome-cases (st.create_container w'.store r)) [
      | inr (inl (x, failed)) ↦
          rw (Undoes, persist, failed)
            (λ e given.
              SameBut-Undone st w (discard ans id w') (discard-Held ans id clean_up w w' h))
      | inr (inr bad) ↦ rw (Undoes, persist, bad) (λ e given. absurd (cc given))
      | inl (stored, done) ↦
          elim (Outcome-cases (st.set_container_bundle stored id (join bundle_root id))) [
            | inl (stored', done') ↦
                rw (Undoes, persist, done, done') (λ e given. absurd (cc given))
            | inr (inr bad) ↦ rw (Undoes, persist, done, bad) (λ e given. absurd (cc given))
            | inr (inl (x, failed)) ↦
                let left = st.delete_container stored id name in
                let same =
                  discard-Held ans id clean_up (record w { store = left })
                    (record w' { store = left })
                    (record { layers = h.layers; bundles = h.bundles; store = refl }) in
                rw (Undoes, persist, done, failed)
                  (λ e given. record {
                    layers = same.layers;
                    bundles = same.bundles;
                    store = inr (r, stored, rw (← h.store) done, rw (own, named) (same.store));
                  })
          ]
    ]

    fill_bundle-Undoes :
        (root_path : Str) (w w' : World S V)
        → Held id w w'
        → Undoes w (
            fill_bundle clean join vr st bundle_root ans id name cfg host image_id img root_path w')
    unfolding fill_bundle Undoes
    fill_bundle-Undoes root_path w w' h =
        let bundle_dir = join bundle_root id in
        let built =
          build_container_record clean join vr st ans id name cfg host img image_id bundle_dir
            root_path w'.store w'.volumes in
        let held : Held id w (record w' { volumes = built.1 }) = record {
          layers = h.layers;
          bundles = h.bundles;
          store = h.store;
        } in
        elim (Outcome-cases built.0) [
          | inr (inl (x, failed)) ↦
              rw (Undoes, fill_bundle, failed)
                (λ e given.
                  SameBut-Undone st w (discard ans id (record w' { volumes = built.1 }))
                    (discard-Held ans id clean_up w (record w' { volumes = built.1 }) held))
          | inr (inr bad) ↦ rw (Undoes, fill_bundle, bad) (λ e given. absurd (cc given))
          | inl ((spec, r), done) ↦
              let b =
                build_container_record-Built clean join vr st ans id name cfg host img image_id
                  bundle_dir root_path w'.store w'.volumes spec r done in
              rw (fill_bundle, done)
                (persist-Undoes r w
                  (record w' { volumes = built.1; bundles = insert id (some spec) w'.bundles })
                  b.own_id b.own_name
                  (record {
                    layers = h.layers;
                    bundles = erase-insert id (some spec) w'.bundles ∙ h.bundles;
                    store = h.store;
                  }))
        ]

    make_layer-Undoes :
        (w : World S V)
        → lookup id w.layers ≡ none
        → lookup id w.bundles ≡ none
        → Undoes w (make_layer clean join vr st bundle_root ans id name cfg host image_id img w)
    unfolding make_layer make_bundle Undoes
    make_layer-Undoes w no_layer no_bundle = elim (Bool-cases ans.layer_made) [
      | inr lost ↦
          simp (Undoes, make_layer, lost)
            (λ e given. record { layers = refl; bundles = refl; store = inl refl })
      | inl made ↦ elim (Option-cases ans.root_path) [
        | inl lost ↦
            simp (Undoes, make_layer, made, lost)
              (λ e given.
                SameBut-Undone st w
                  (delete_layer ans id (record w { layers = insert id false w.layers }))
                  (delete_layer-Held ans id clean_up w
                    (record w { layers = insert id false w.layers }) (added false) refl))
        | inr (root_path, mounted) ↦
            let w1 = record w { layers = insert id true w.layers } in
            elim (Bool-cases ans.bundle_made) [
              | inr lost ↦
                  simp (Undoes, make_layer, make_bundle, made, mounted, lost)
                    (λ e given.
                      SameBut-Undone st w (drop_layer ans id w1)
                        (drop_layer-Held ans id clean_up w w1 (added true) refl))
              | inl bundled ↦
                  simp (make_layer, make_bundle, made, mounted, bundled)
                    (fill_bundle-Undoes root_path w
                      (record w1 { bundles = insert id none w.bundles })
                      (record {
                        layers = (added true).layers;
                        bundles =
                            erase-insert id none w.bundles ∙ erase-gone id w.bundles no_bundle;
                        store = refl;
                      }))
            ]
      ]
    ]
      where
        added : (mounted : Bool) → Held id w (record w { layers = insert id mounted w.layers })
        added mounted = record {
          layers = erase-insert id mounted w.layers ∙ erase-gone id w.layers no_layer;
          bundles = erase-gone id w.bundles no_bundle;
          store = refl;
        }

  -- A `Create` that returns an error leaves the layers of the image storage and the bundle directories
  -- as they were, and the records of containers as they were or, where the new one was stored, as
  -- `DeleteContainer` of it leaves them, if the clean-up works and no layer and no bundle has the random
  -- ID. The volumes that it ensured stay.
  pub create-Undone :
      (ans : CreateAnswers) (cfg : CreateConfig) (host : Option CreateHost) (name : Str)
      (w : World S V) (e : CreateError E)
      → CleansUp ans
      → ((id : Str) → ans.id ≡ some id → (lookup id w.layers ≡ none) × (lookup id w.bundles ≡ none))
      → (create clean join vr st bundle_root ans cfg host name w).0 ≡ err e
      → Undone st w (create clean join vr st bundle_root ans cfg host name w).1
  unfolding create Undoes
  create-Undone ans cfg host name w e clean_up fresh given = elim (Option-cases ans.id) [
    | inl lost ↦ simp (create, lost) same
    | inr (id, drawn) ↦ elim (Option-cases ans.image_id) [
      | inl lost ↦ simp (create, drawn, lost) same
      | inr (image_id, found) ↦ elim (Option-cases ans.image_config) [
        | inl lost ↦ simp (create, drawn, found, lost) same
        | inr (img, read) ↦
            let (no_layer, no_bundle) = fresh id drawn in
            let full_name = slashed (
              given_or name (
                generate_unique_name (st.container_name_exists w.store) ans.names ans.last_name)) in
            simp (create, drawn, found, read)
              (make_layer-Undoes ans id clean_up cfg host full_name image_id img w no_layer
                no_bundle e (simp (create, drawn, found, read) at given))
      ]
    ]
  ]
    where
      same : Undone st w w
      same = record { layers = refl; bundles = refl; store = inl refl }
