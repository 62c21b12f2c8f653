-- ===== src/Runtime/Create/Made.antt =====
-- What a `Create` that succeeds has made.
use kogia.Base.{
  refl, some, ◌≡◌, refl, ap, ◌∙◌, inl, inr, Bool, Bool-cases, Option-cases, Outcome-cases, true,
  false, Option, none, some, Str, str_eq_refl, lookup, insert, lookup-insert, ok, arith,
}
use kogia.Runtime.State.{created}
use kogia.Runtime.MountTypes.{VolumeResolver}
use kogia.Runtime.Spec.Types.{Spec, SpecOpts}
use kogia.Runtime.Spec.Capabilities.{is_privileged}
use kogia.Runtime.Spec.Generate.{generate_spec}
use kogia.Runtime.Spec.Confined.{IsConfined, generate_spec-IsConfined}
use kogia.Runtime.Create.Types.{
  CreateConfig, CreateHost, ImageConfig, InspectResponse, CreateStore, World, CreateAnswers,
}
use kogia.Runtime.Create.Record.{short_id, limits_of, build_container_record}
use kogia.Runtime.Create.Built.{build_container_record-Built}
use kogia.Runtime.Create.Operation.{
  slashed, given_or, generate_unique_name, persist, fill_bundle, make_bundle, make_layer, create,
}

abbrev pub is_privileged_host : Option CreateHost → Bool
is_privileged_host none = false
is_privileged_host (some host) = host.limits.privileged

-- The options of `GenerateSpec` take their privileges from the host configuration.
unprivileged :
    (host : Option CreateHost) (opts : SpecOpts)
    → opts.host_config ≡ limits_of host
    → is_privileged_host host ≡ false
    → is_privileged opts ≡ false
unprivileged none opts e plain = ground (arith, e)
unprivileged (some host) opts e plain = ground (arith, e, plain)

module _ {S V E : Type 0} (clean : Str → Str) (join : Str → Str → Str)
    (vr : Option (VolumeResolver V E)) (st : CreateStore S E) (bundle_root : Str) where
  -- The layer is mounted, the bundle has a spec that was generated with the process and the limits
  -- asked for, and a record with the ID, of a container that was created, went into the store with the bundle's path.
  pub record Made (ans : CreateAnswers) (cfg : CreateConfig) (host : Option CreateHost) (id : Str)
      (w w' : World S V) : Type 0 where
    pub spec : Spec
    pub opts : SpecOpts
    pub response : InspectResponse
    pub stored : S
    pub layer : lookup id w'.layers ≡ some true
    pub bundle : lookup id w'.bundles ≡ some (some spec)
    pub generated : generate_spec ans.files opts ≡ ok spec
    pub limits : opts.host_config ≡ limits_of host
    pub process : opts.config ≡ some cfg.process
    pub hostname : opts.hostname ≡ short_id id
    pub own_id : response.id ≡ id
    pub status : response.state.status ≡ created
    pub recorded : st.create_container w.store response ≡ ok stored
    pub bundled : st.set_container_bundle stored id (join bundle_root id) ≡ ok w'.store

  persisted :
      (ans : CreateAnswers) (id id' name : Str) (r : InspectResponse) (w w' : World S V)
      → persist clean join vr st bundle_root ans id name r w ≡ (ok id', w')
      → (stored : S) × (st.create_container w.store r ≡ ok stored)
        × (st.set_container_bundle stored id (join bundle_root id) ≡ ok w'.store)
        × (w'.layers ≡ w.layers)
        × (w'.bundles ≡ w.bundles)
        × (id' ≡ id)
  unfolding persist
  persisted ans id id' name r w w' e = elim (Outcome-cases (st.create_container w.store r)) [
    | inr (inl (x, failed)) ↦ absurd (ground (arith, e, failed))
    | inr (inr bad) ↦ absurd (ground (arith, e, bad))
    | inl (stored, done) ↦
        elim (Outcome-cases (st.set_container_bundle stored id (join bundle_root id))) [
          | inr (inl (x, failed)) ↦ absurd (ground (arith, e, done, failed))
          | inr (inr bad) ↦ absurd (ground (arith, e, done, bad))
          | inl (stored', done') ↦
              let same : (w' ≡ record w { store = stored' }) × (id' ≡ id) =
                ground (arith, e, done, done') in
              (stored, done, rw same.0 done', rw same.0 refl, rw same.0 refl, same.1)
        ]
  ]

  module _ (ans : CreateAnswers) (id : Str) (cfg : CreateConfig) (host : Option CreateHost)
      (name image_id : Str) (img : ImageConfig) where
    fill_bundle-Made :
        (root_path id' : Str) (w w0 w' : World S V)
        → lookup id w.layers ≡ some true
        → w.store ≡ w0.store
        → fill_bundle clean join vr st bundle_root ans id name cfg host image_id img root_path w
          ≡ (ok id', w')
        → Made ans cfg host id w0 w' × (id' ≡ id)
    unfolding fill_bundle
    fill_bundle-Made root_path id' w w0 w' layer store e =
        let bundle_dir = join bundle_root id in
        let built =
          build_container_record clean join vr st ans id name cfg host img image_id bundle_dir
            root_path w.store w.volumes in
        elim (Outcome-cases built.0) [
          | inr (inl (x, failed)) ↦ absurd (ground (arith, e, failed))
          | inr (inr bad) ↦ absurd (ground (arith, e, bad))
          | inl ((spec, r), done) ↦
              let b =
                build_container_record-Built clean join vr st ans id name cfg host img image_id
                  bundle_dir root_path w.store w.volumes spec r done in
              let bundles = insert id (some spec) w.bundles in
              let (stored, recorded, done', layers, kept, own) =
                persisted ans id id' name r (record w { volumes = built.1; bundles = bundles }) w'
                  (rw (fill_bundle, done) at e) in
              (
                record {
                  spec = spec;
                  opts = b.opts;
                  response = r;
                  stored = stored;
                  layer = ap (lookup id) layers ∙ layer;
                  bundle =
                      ap (lookup id) kept
                      ∙ ground (arith, lookup-insert id id (some spec) w.bundles, str_eq_refl id);
                  generated = b.generated;
                  limits = b.limits;
                  process = b.process;
                  hostname = b.hostname;
                  own_id = b.own_id;
                  status = b.status;
                  recorded = rw (← store) recorded;
                  bundled = done';
                },
                own,
              )
        ]

    make_layer-Made :
        (id' : Str) (w w' : World S V)
        → make_layer clean join vr st bundle_root ans id name cfg host image_id img w ≡ (ok id', w')
        → Made ans cfg host id w w' × (id' ≡ id)
    unfolding make_layer make_bundle
    make_layer-Made id' w w' e = elim (Bool-cases ans.layer_made) [
      | inr lost ↦ absurd (ground (arith, e, lost))
      | inl made ↦ elim (Option-cases ans.root_path) [
        | inl lost ↦ absurd (ground (arith, e, made, lost))
        | inr (root_path, mounted) ↦ elim (Bool-cases ans.bundle_made) [
          | inr lost ↦ absurd (ground (arith, e, made, mounted, lost))
          | inl bundled ↦
              fill_bundle-Made root_path id'
                (record w { layers = insert id true w.layers; bundles = insert id none w.bundles })
                w w' (ground (arith, lookup-insert id id true w.layers, str_eq_refl id)) refl
                (simp (make_layer, make_bundle, made, mounted, bundled) at e)
        ]
      ]
    ]

  -- A `Create` that returns an ID has mounted a layer of that ID, written into its bundle a spec that
  -- was generated from the process and the limits asked for, with the short ID as the host name, and
  -- stored a record of it, in state created, with the path of the bundle.
  pub create-Made :
      (ans : CreateAnswers) (cfg : CreateConfig) (host : Option CreateHost) (name id : Str)
      (w w' : World S V)
      → create clean join vr st bundle_root ans cfg host name w ≡ (ok id, w')
      → Made ans cfg host id w w'
  unfolding create
  create-Made ans cfg host name id w w' e = elim (Option-cases ans.id) [
    | inl lost ↦ absurd (ground (arith, e, lost))
    | inr (id0, drawn) ↦ elim (Option-cases ans.image_id) [
      | inl lost ↦ absurd (ground (arith, e, drawn, lost))
      | inr (image_id, found) ↦ elim (Option-cases ans.image_config) [
        | inl lost ↦ absurd (ground (arith, e, drawn, found, lost))
        | inr (img, read) ↦
            let full_name = slashed (
              given_or name (
                generate_unique_name (st.container_name_exists w.store) ans.names ans.last_name)) in
            let (made, own) =
              make_layer-Made ans id0 cfg host full_name image_id img id w w'
                (simp (create, drawn, found, read) at e) in
            rw own made
      ]
    ]
  ]

  -- The spec that `Create` leaves in the bundle of a container without privileges gives it no new
  -- privileges, hides and protects the default paths, and holds in each set of capabilities the default
  -- ones that no name of `CapDrop` drops ("ALL", or the capability without its prefix "CAP_"), those
  -- that a name of `CapAdd` is without that prefix, and no others. A name that has the prefix itself
  -- drops nothing.
  pub create-IsConfined :
      (ans : CreateAnswers) (cfg : CreateConfig) (host : Option CreateHost) (name id : Str)
      (w w' : World S V)
      → is_privileged_host host ≡ false
      → create clean join vr st bundle_root ans cfg host name w ≡ (ok id, w')
      → (opts : SpecOpts) × (spec : Spec) × (lookup id w'.bundles ≡ some (some spec))
        × (opts.host_config ≡ limits_of host)
        × IsConfined opts spec
  create-IsConfined ans cfg host name id w w' plain e =
      let made = create-Made ans cfg host name id w w' e in
      (
        made.opts,
        made.spec,
        made.bundle,
        made.limits,
        generate_spec-IsConfined ans.files made.opts made.spec
            (unprivileged host made.opts made.limits plain) made.generated,
      )
