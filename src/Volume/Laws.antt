-- ===== src/Volume/Laws.antt =====
-- What the operations of the volume manager leave in the store.
use kogia.Base.{
  ℕ, ◌+◌, ◌%◌, ◌^◌, Bool, false, none, some, List, [], ◌∷◌, ◌++◌, Str, codes, str_eq, str_eq_iff,
  if◌then◌else◌, lookup, ok, ◌≡◌, refl, ap, inl, inr, arith, Bool-cases, Option-cases,
  Outcome-cases,
}
use kogia.Base.Maps.{Dict}
use kogia.Volume.Types.{Record}
use kogia.Volume.Manager.{
  VolumeStore, VolumeStoreLaws, Host, State, Chance, create, create_new, new_record, ensure_volume,
  remove, prune, prune_loop, or_local,
}

not_used :
    (a b : Str) (refs : Dict (Unit {0}))
    → lookup a refs ≡ none
    → lookup b refs ≡ some tt
    → str_eq a b ≡ false
not_used a b refs e used = elim (Bool-cases (str_eq a b)) [
  | inl same ↦ ground (arith, (str_eq_iff a b).0 same)
  | inr differs ↦ differs
]

module _ {S E F : Type 0} (store : VolumeStore S E) (laws : VolumeStoreLaws store)
    (host : Host F) where
  create_new-stored :
      (chance : Chance) (name : Str) (anonymous : Bool) (driver : Str) (labels opts : Dict Str)
      (st st' : State S F) (rec : Record)
      → create_new store host chance name anonymous driver labels opts st ≡ (ok rec, st')
      → (rec.name ≡ name)
        × ((other : Str)
            → store.get_volume other st'.store
              ≡ (if str_eq name other then ok rec else store.get_volume other st.store))
  unfolding create_new
  create_new-stored chance name anonymous driver labels opts st st' rec e =
      let r = new_record host chance name anonymous driver labels opts in
      elim (Option-cases (host.mkdir_all st.files (host.data_path name))) [
        | inl m ↦ absurd (ground (arith, m, e))
        | inr (files, m) ↦
            let created : (store.create_volume r st.store).0 ≡ ok tt = ground (arith, m, e) in
            let same : rec ≡ r = ground (arith, m, e) in
            let left : st'.store ≡ (store.create_volume r st.store).1 = ground (arith, m, e) in
            (
              ap (λ (x : Record). x.name) same,
              λ other. ground (arith, left, same, laws.get-create r st.store other created),
            )
      ]

  -- A volume that `Create` returns can be read back under its name, and the other volumes stay.
  pub create-stored :
      (chance : Chance) (c : ℕ) (name driver : Str) (labels opts : Dict Str) (st st' : State S F)
      (rec : Record) (other : Str)
      → create store host chance (c ∷ name) driver labels opts st ≡ (ok rec, st')
      → store.get_volume other st'.store
        ≡ (if str_eq (c ∷ name) other then ok rec else store.get_volume other st.store)
  unfolding create
  create-stored chance c name driver labels opts st st' rec other e =
      elim (Bool-cases (str_eq (or_local driver) (codes "local"))) [
        | inr remote ↦ absurd (ground (arith, remote, e))
        | inl l ↦ elim (Outcome-cases (store.get_volume (c ∷ name) st.store)) [
          | inl (old, g) ↦
              let kept : st ≡ st' = ground (arith, l, g, e) in
              let same : old ≡ rec = ground (arith, l, g, e) in
              rw (← kept) (ground (arith, g, same, str_eq_iff (c ∷ name) other))
          | inr (inl (reason, g)) ↦
              let made : create_new store host chance (c ∷ name) false (or_local driver) labels opts
                    st
                  ≡ (ok rec, st') =
                ground (arith, l, g, e) in
              (create_new-stored chance (c ∷ name) false (or_local driver) labels opts st st' rec
                  made).1
                other
          | inr (inr g) ↦ absurd (ground (arith, l, g, e))
        ]
      ]

  -- Asked again for a volume that is there, `Create` and `EnsureVolume` return it and change nothing.
  pub create_again :
      (chance : Chance) (c : ℕ) (name : Str) (labels opts : Dict Str) (st : State S F)
      (rec : Record)
      → store.get_volume (c ∷ name) st.store ≡ ok rec
      → (create store host chance (c ∷ name) (codes "local") labels opts st ≡ (ok rec, st))
        × (ensure_volume store host chance (c ∷ name) st ≡ (ok rec, st))
  unfolding create ensure_volume
  create_again chance c name labels opts st rec g = (ground (arith, g), ground (arith, g))

  remove-other :
      (name other : Str) (st : State S F)
      → str_eq name other ≡ false
      → store.get_volume other (remove store host name st).1.store ≡ store.get_volume other st.store
  unfolding remove
  remove-other name other st differs =
      ground (arith, laws.get-delete_ne name other st.store differs)

  prune_loop-keeps :
      (refs : Dict (Unit {0})) (all : List Record) (deleted : List Str) (bytes : ℕ) (st : State S F)
      (name : Str)
      → lookup name refs ≡ some tt
      → store.get_volume name (prune_loop store host refs all deleted bytes st).1.store
        ≡ store.get_volume name st.store
  unfolding prune_loop
  prune_loop-keeps refs [] deleted bytes st name used = refl
  prune_loop-keeps refs (rec ∷ all) deleted bytes st name used =
      elim (Option-cases (lookup rec.name refs)) [
        | inr (u, e) ↦ ground (arith, e, prune_loop-keeps refs all deleted bytes st name used)
        | inl e ↦
            let st' = (remove store host rec.name st).1 in
            let differs = not_used rec.name name refs e used in
            let size = host.dir_size st.files (host.dir rec.mountpoint) in
            let one = remove-other rec.name name st differs in
            let went =
              prune_loop-keeps refs all (deleted ++ rec.name ∷ []) ((bytes + size) % 2 ^ 64) st'
                name used in
            let stayed = prune_loop-keeps refs all deleted bytes st' name used in
            ground (arith, e, one, went, stayed)
      ]

  -- `Prune` keeps every volume whose name is in the list of references.
  pub prune_keeps :
      (refs : Dict (Unit {0})) (st : State S F) (name : Str)
      → lookup name refs ≡ some tt
      → store.get_volume name (prune store host (ok refs) st).1.store
        ≡ store.get_volume name st.store
  unfolding prune
  prune_keeps refs st name used = elim (Outcome-cases (store.list_volumes st.store)) [
    | inl (all, e) ↦ ground (arith, e, prune_loop-keeps refs all [] 0 st name used)
    | inr (inl (reason, e)) ↦ ground (arith, e)
    | inr (inr e) ↦ ground (arith, e)
  ]
