-- ===== src/Store/VolumeRefs.antt =====
-- `AllVolumeRefs` of internal/store/volume.go, as `Prune` of the volume manager uses it.
use kogia.Base.{
  ◌≡◌, ◌⊎◌, inl, inr, Bool, true, false, not, ◌&&◌, Bool-cases, Option-cases, Option, none, some,
  List, [], ◌∷◌, ◌++◌, Str, codes, str_eq, str_eq_refl, has_prefix, cut, if◌then◌else◌, lookup,
  insert, lookup-insert, Outcome, ok, arith,
}
use kogia.Base.Maps.{Dict}
use kogia.Store.Bolt.{Bolt, BoltLaws, Json, JsonLaws}
use kogia.Store.Prefix.{StoreError}
use kogia.Store.Db.{Db}
use kogia.Store.Volume.{volume_store, volume_store-VolumeStoreLaws, get_volume}
use kogia.Volume.Types.{Record}
use kogia.Volume.Manager.{Host, State, prune}
use kogia.Volume.Laws.{prune_keeps}

abbrev pub Refs : Type 0
Refs = Dict (Unit {0})

-- The record of a container as far as it names volumes: `HostConfig.Binds`, where a nil `HostConfig`
-- is `none`, and the names of `Mounts`.
pub record VolumeUse : Type 0 where
  pub binds : Option (List Str)
  pub mount_names : List Str

abbrev is_empty : Str → Bool
is_empty [] = true
is_empty (c ∷ s) = false

-- The source of a bind is a volume's name: it is not empty and not a path.
abbrev pub names_volume : Str → Bool
names_volume src =
    not (is_empty src) && not (has_prefix src (codes "/")) && not (has_prefix src (codes "."))

unfoldable pub add_binds : List Str → Refs → Refs
add_binds [] refs = refs
add_binds (bind ∷ binds) refs =
    let src = (cut bind b':').0 in
    add_binds binds (if names_volume src then insert src tt refs else refs)

unfoldable pub add_mounts : List Str → Refs → Refs
add_mounts [] refs = refs
add_mounts (name ∷ names) refs =
    add_mounts names (if not (is_empty name) then insert name tt refs else refs)

abbrev pub add_host_binds : Option (List Str) → Refs → Refs
add_host_binds none refs = refs
add_host_binds (some binds) refs = add_binds binds refs

abbrev pub add_container : VolumeUse → Refs → Refs
add_container used refs = add_mounts used.mount_names (add_host_binds used.binds refs)

-- `ForEach` over the containers: a record that cannot be decoded is skipped.
unfoldable pub refs_loop : Json VolumeUse → Dict Str → Refs → Refs
refs_loop json [] refs = refs
refs_loop json ((k, v) ∷ d) refs = elim (json.unmarshal v) [
  | none ↦ refs_loop json d refs
  | some used ↦ refs_loop json d (add_container used refs)
]

unfoldable pub all_volume_refs :
    {B : Type 0} → Bolt B → Json VolumeUse → Db B → Outcome StoreError Refs
all_volume_refs bolt json db = ok (refs_loop json (bolt.entries db.containers) [])

-- One of the container's binds starts with the name of the volume.
abbrev pub Binds : VolumeUse → Str → Type 0
Binds used name =
    (before : List Str) × (after : List Str) × (bind : Str) × (used.binds
      ≡ some (before ++ bind ∷ after))
    × ((cut bind b':').0 ≡ name)
    × (names_volume name ≡ true)

-- One of its mounts is of the volume.
abbrev pub Mounts : VolumeUse → Str → Type 0
Mounts used name =
    (before : List Str) × (after : List Str) × (used.mount_names ≡ before ++ name ∷ after)
    × (is_empty name ≡ false)

abbrev Has : Refs → Str → Type 0
Has refs name = lookup name refs ≡ some tt

insert-keeps : (refs : Refs) (k name : Str) → Has refs name → Has (insert k tt refs) name
insert-keeps refs k name h = ground (arith, lookup-insert k name tt refs)

insert_if-keeps :
    (b : Bool) (refs : Refs) (k name : Str)
    → Has refs name
    → Has (if b then insert k tt refs else refs) name
insert_if-keeps true refs k name h = insert-keeps refs k name h
insert_if-keeps false refs k name h = h

insert-Has : (refs : Refs) (name : Str) → Has (insert name tt refs) name
insert-Has refs name = ground (arith, lookup-insert name name tt refs, str_eq_refl name)

add_binds-keeps :
    (binds : List Str) (refs : Refs) (name : Str) → Has refs name → Has (add_binds binds refs) name
unfolding add_binds
add_binds-keeps [] refs name h = h
add_binds-keeps (bind ∷ binds) refs name h =
    let src = (cut bind b':').0 in
    add_binds-keeps binds (if names_volume src then insert src tt refs else refs) name
      (insert_if-keeps (names_volume src) refs src name h)

add_mounts-keeps :
    (names : List Str) (refs : Refs) (name : Str) → Has refs name → Has (add_mounts names refs) name
unfolding add_mounts
add_mounts-keeps [] refs name h = h
add_mounts-keeps (k ∷ names) refs name h =
    add_mounts-keeps names (if not (is_empty k) then insert k tt refs else refs) name
      (insert_if-keeps (not (is_empty k)) refs k name h)

add_host_binds-keeps :
    (binds : Option (List Str)) (refs : Refs) (name : Str)
    → Has refs name
    → Has (add_host_binds binds refs) name
add_host_binds-keeps none refs name h = h
add_host_binds-keeps (some binds) refs name h = add_binds-keeps binds refs name h

add_container-keeps :
    (used : VolumeUse) (refs : Refs) (name : Str)
    → Has refs name
    → Has (add_container used refs) name
add_container-keeps used refs name h =
    add_mounts-keeps used.mount_names (add_host_binds used.binds refs) name
      (add_host_binds-keeps used.binds refs name h)

add_binds-Has :
    (before : List Str) (after : List Str) (bind : Str) (refs : Refs) (name : Str)
    → (cut bind b':').0 ≡ name
    → names_volume name ≡ true
    → Has (add_binds (before ++ bind ∷ after) refs) name
unfolding add_binds
add_binds-Has [] after bind refs name src volume =
    add_binds-keeps after
      (if names_volume (cut bind b':').0 then insert (cut bind b':').0 tt refs else refs) name
      (rw (src, volume) (insert-Has refs name))
add_binds-Has (b ∷ before) after bind refs name src volume =
    add_binds-Has before after bind
      (if names_volume (cut b b':').0 then insert (cut b b':').0 tt refs else refs) name src volume

add_mounts-Has :
    (before : List Str) (after : List Str) (refs : Refs) (name : Str)
    → is_empty name ≡ false
    → Has (add_mounts (before ++ name ∷ after) refs) name
unfolding add_mounts
add_mounts-Has [] after refs name full =
    add_mounts-keeps after (if not (is_empty name) then insert name tt refs else refs) name
      (rw full (insert-Has refs name))
add_mounts-Has (k ∷ before) after refs name full =
    add_mounts-Has before after (if not (is_empty k) then insert k tt refs else refs) name full

add_container-Has :
    (used : VolumeUse) (refs : Refs) (name : Str)
    → Binds used name ⊎ Mounts used name
    → Has (add_container used refs) name
add_container-Has used refs name (inl (before, after, bind, at, src, volume)) = rw at (
    add_mounts-keeps used.mount_names (add_binds (before ++ bind ∷ after) refs) name
      (add_binds-Has before after bind refs name src volume))
add_container-Has used refs name (inr (before, after, at, full)) =
    rw at (add_mounts-Has before after (add_host_binds used.binds refs) name full)

module _ (json : Json VolumeUse) where
  refs_loop-keeps :
      (d : Dict Str) (refs : Refs) (name : Str) → Has refs name → Has (refs_loop json d refs) name
  unfolding refs_loop
  refs_loop-keeps [] refs name h = h
  refs_loop-keeps ((k, v) ∷ d) refs name h = elim (Option-cases (json.unmarshal v)) [
    | inl e ↦ rw (refs_loop, e) (refs_loop-keeps d refs name h)
    | inr (used, e) ↦
        rw (refs_loop, e)
          (refs_loop-keeps d (add_container used refs) name (add_container-keeps used refs name h))
  ]

  refs_loop-Has :
      (d : Dict Str) (refs : Refs) (id v : Str) (used : VolumeUse) (name : Str)
      → lookup id d ≡ some v
      → json.unmarshal v ≡ some used
      → Binds used name ⊎ Mounts used name
      → Has (refs_loop json d refs) name
  unfolding refs_loop
  refs_loop-Has [] refs id v used name at read uses = absurd (cc at)
  refs_loop-Has ((k, w) ∷ d) refs id v used name at read uses = elim (Bool-cases (str_eq k id)) [
    | inl same ↦
        let here : w ≡ v = ground (arith, at, same) in
        rw (refs_loop, here, read)
          (refs_loop-keeps d (add_container used refs) name (add_container-Has used refs name uses))
    | inr differs ↦
        let later : lookup id d ≡ some v = ground (arith, at, differs) in
        elim (Option-cases (json.unmarshal w)) [
          | inl e ↦ rw (refs_loop, e) (refs_loop-Has d refs id v used name later read uses)
          | inr (other, e) ↦
              rw (refs_loop, e)
                (refs_loop-Has d (add_container other refs) id v used name later read uses)
        ]
  ]

module _ {B F : Type 0} (bolt : Bolt B) (laws : BoltLaws bolt) (volumes : Json Record)
    (volumes_laws : JsonLaws volumes) (containers : Json VolumeUse) (host : Host F) where
  -- `Prune`, with the references that `AllVolumeRefs` collects, leaves the record of every volume that
  -- a bind or a mount of a container in the database names, if the container's record can be decoded.
  pub prune-all_volume_refs :
      (st : State (Db B) F) (id v : Str) (used : VolumeUse) (name : Str)
      → bolt.get st.store.containers id ≡ some v
      → containers.unmarshal v ≡ some used
      → Binds used name ⊎ Mounts used name
      → get_volume bolt volumes name
          (prune
            (volume_store bolt volumes)
            host
            (all_volume_refs bolt containers st.store)
            st).1.store
        ≡ get_volume bolt volumes name st.store
  unfolding volume_store all_volume_refs
  prune-all_volume_refs st id v used name at read uses =
      prune_keeps (volume_store bolt volumes)
        (volume_store-VolumeStoreLaws bolt laws volumes volumes_laws) host
        (refs_loop containers (bolt.entries st.store.containers) []) st name
        (refs_loop-Has containers (bolt.entries st.store.containers) [] id v used name
          (rw (← laws.get-entries st.store.containers id) at) read uses)
