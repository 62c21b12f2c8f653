-- ===== src/Runtime/Create/Built.antt =====
-- What `buildContainerRecord` returns where it succeeds.
use kogia.Base.{
  refl, some, ◌≡◌, ◌∙◌, inl, inr, Bool-cases, Outcome-cases, Option, none, some, List, [], ◌++◌,
  Str, ok, arith, map,
}
use kogia.Runtime.State.{created}
use kogia.Runtime.MountTypes.{MountResult, VolumeResolver}
use kogia.Runtime.Mounts.{build_volume_mounts}
use kogia.Runtime.VolumesFrom.{resolve_volumes_from}
use kogia.Runtime.Spec.Types.{Spec, SpecOpts}
use kogia.Runtime.Spec.Generate.{generate_spec}
use kogia.Runtime.Create.Types.{
  CreateConfig, CreateHost, ImageConfig, InspectResponse, CreateStore, CreateAnswers,
}
use kogia.Runtime.Create.Record.{
  short_id, network_mode_of, limits_of, binds_of, mounts_of, values, etc_mounts, with_volumes_from,
  network_ns_path, spec_opts, build_spec, build_container_record,
}

module _ {S V E : Type 0} (clean : Str → Str) (join : Str → Str → Str)
    (vr : Option (VolumeResolver V E)) (st : CreateStore S E) (ans : CreateAnswers) (id name : Str)
    (cfg : CreateConfig) (host : Option CreateHost) (img : ImageConfig)
    (image_id bundle_dir root_path : Str) where
  -- The spec is that of options with the process and the limits that were asked for, and the record is of a container
  -- that was created and not started.
  pub record Built (spec : Spec) (r : InspectResponse) : Type 0 where
    pub opts : SpecOpts
    pub generated : generate_spec ans.files opts ≡ ok spec
    pub limits : opts.host_config ≡ limits_of host
    pub process : opts.config ≡ some cfg.process
    pub hostname : opts.hostname ≡ short_id id
    pub own_id : r.id ≡ id
    pub own_name : r.name ≡ name
    pub status : r.state.status ≡ created

  with_volumes_from-limits :
      (store : S) (host' : Option CreateHost)
      → with_volumes_from clean join vr st store host ≡ ok host'
      → limits_of host' ≡ limits_of host
  unfolding with_volumes_from
  with_volumes_from-limits store host' e = go host e
    where
      go :
          (h : Option CreateHost)
          → with_volumes_from clean join vr st store h ≡ ok host'
          → limits_of host' ≡ limits_of h
      go none e = ground (arith, e)
      go (some h) e =
          elim (Outcome-cases (resolve_volumes_from (st.get_binds store) h.volumes_from [])) [
            | inl (extra, found) ↦ ground (arith, e, found)
            | inr (inl (x, failed)) ↦ absurd (ground (arith, e, failed))
            | inr (inr bad) ↦ absurd (ground (arith, e, bad))
          ]

  build_spec-Built :
      (host' : Option CreateHost) (store : S) (found : List MountResult) (spec : Spec)
      (r : InspectResponse)
      → limits_of host' ≡ limits_of host
      → build_spec clean join vr st ans id name cfg host' img image_id bundle_dir root_path store
          found
        ≡ ok (spec, r)
      → Built spec r
  unfolding build_spec
  build_spec-Built host' store found spec r limits e =
      elim (Outcome-cases (network_ns_path clean join vr st store (network_mode_of host'))) [
        | inr (inl (x, failed)) ↦ absurd (ground (arith, e, failed))
        | inr (inr bad) ↦ absurd (ground (arith, e, bad))
        | inl (ns_path, there) ↦
            let opts =
              spec_opts clean join vr st id cfg host' img root_path ns_path
                (etc_mounts clean join vr st bundle_dir ++ map (λ mr. mr.oci) found) in
            elim (Outcome-cases (generate_spec ans.files opts)) [
              | inr (inl (x, failed)) ↦ absurd (ground (arith, e, there, failed))
              | inr (inr bad) ↦ absurd (ground (arith, e, there, bad))
              | inl (spec', made) ↦ elim (Bool-cases ans.spec_written) [
                | inr lost ↦ absurd (ground (arith, e, there, made, lost))
                | inl written ↦ record {
                  opts = opts;
                  generated = made ∙ ground (arith, e, there, made, written);
                  limits = limits;
                  process = refl;
                  hostname = refl;
                  own_id = ground (arith, e, there, made, written);
                  own_name = ground (arith, e, there, made, written);
                  status = ground (arith, e, there, made, written);
                }
              ]
            ]
      ]

  pub build_container_record-Built :
      (store : S) (v : V) (spec : Spec) (r : InspectResponse)
      → (build_container_record clean join vr st ans id name cfg host img image_id bundle_dir
          root_path store v).0
        ≡ ok (spec, r)
      → Built spec r
  unfolding build_container_record
  build_container_record-Built store v spec r e = elim (Bool-cases ans.placeholders) [
    | inr lost ↦ absurd (ground (arith, e, lost))
    | inl there ↦ elim (Outcome-cases (with_volumes_from clean join vr st store host)) [
      | inr (inl (x, failed)) ↦ absurd (ground (arith, e, there, failed))
      | inr (inr bad) ↦ absurd (ground (arith, e, there, bad))
      | inl (host', bound) ↦
          let built =
            build_volume_mounts clean vr (binds_of host') (mounts_of host') cfg.volumes v in
          elim (Outcome-cases built.0) [
            | inr (inl (x, failed)) ↦ absurd (ground (arith, e, there, bound, failed))
            | inr (inr bad) ↦ absurd (ground (arith, e, there, bound, bad))
            | inl (seen, mounted) ↦
                build_spec-Built host' store (values seen) spec r
                  (with_volumes_from-limits store host' bound)
                  (ground (arith, e, there, bound, mounted))
          ]
    ]
  ]
