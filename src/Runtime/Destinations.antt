-- ===== src/Runtime/Destinations.antt =====
-- The mounts of a container: one at each destination, and one for each volume of its configuration.
use mathlib.Core.Path.{subst}
use kogia.Base.{
  has_prefix, codes, not, ◌||◌, ◌≡◌, refl, ap, inl, inr, false, Option, List, [], ◌∷◌, Str, All,
  str_eq, str_eq_iff, lookup, insert, Outcome, ok, Bool-cases, Option-cases, Outcome-cases, arith,
}
use kogia.Base.Maps.{Dict}
use kogia.Runtime.MountTypes.{
  VolumeRecord, bind, volume, tmpfs, other_type, MountType, MountResult, Mount, MountError,
  VolumeResolver,
}
use kogia.Runtime.Mounts.{
  read_bind, ensure_mount, host_result, volume_result, access, add_each, add_anonymous,
  build_volume_mounts, parse_bind, parse_mount,
}

-- Each entry is a mount at its key, which is a clean path, and no key comes twice.
abbrev pub OneEach : (Str → Str) → Dict MountResult → Type 0
OneEach clean [] = Unit
OneEach clean ((k, mr) ∷ d) =
    ((mr.oci.destination ≡ k) × (clean k ≡ k))
    × (All (λ e. str_eq k e.0 ≡ false) d × OneEach clean d)

insert-fresh :
    (j k : Str) (mr : MountResult) (d : Dict MountResult)
    → str_eq j k ≡ false
    → All (λ e. str_eq j e.0 ≡ false) d
    → All (λ e. str_eq j e.0 ≡ false) (insert k mr d)
insert-fresh j k mr [] apart h = (apart, tt)
insert-fresh j k mr ((i, w) ∷ d) apart h = elim (Bool-cases (str_eq i k)) [
  | inl same ↦ rw same (apart, h.1)
  | inr other ↦ rw other (h.0, insert-fresh j k mr d apart h.1)
]

insert-OneEach :
    (clean : Str → Str) (k : Str) (mr : MountResult) (d : Dict MountResult)
    → (mr.oci.destination ≡ k) × (clean k ≡ k)
    → OneEach clean d
    → OneEach clean (insert k mr d)
insert-OneEach clean k mr [] own h = (own, (tt, tt))
insert-OneEach clean k mr ((i, w) ∷ d) own (its, (fresh, h)) = elim (Bool-cases (str_eq i k)) [
  | inl same ↦ rw same (own, (rw (← (str_eq_iff i k).0 same) fresh, h))
  | inr other ↦
      rw other (its, (insert-fresh i k mr d other fresh, insert-OneEach clean k mr d own h))
]

ok_first :
    {V E A : Type 0} {a b : A} {v w : V} → ◌≡◌ {A = Outcome E A × V} (ok a, v) (ok b, w) → a ≡ b
ok_first e = ground (arith, e)

module _ {V E : Type 0} (clean : Str → Str) (vr : Option (VolumeResolver V E))
    (clean_twice : (p : Str) → clean (clean p) ≡ clean p) where
  -- What a parser returns is at a clean path.
  abbrev ParsesClean : {A : Type 0} → (A → V → Outcome (MountError E) MountResult × V) → Type 0
  ParsesClean {A} parse =
      (a : A) (v : V) (mr : MountResult)
      → (parse a v).0 ≡ ok mr
      → clean mr.oci.destination ≡ mr.oci.destination

  ensure_mount-clean :
      (name dest : Str) (make : VolumeRecord → MountResult) (v : V) (mr : MountResult)
      → ((rec : VolumeRecord) → (make rec).oci.destination ≡ clean dest)
      → (ensure_mount clean vr name make v).0 ≡ ok mr
      → clean mr.oci.destination ≡ mr.oci.destination
  unfolding ensure_mount
  ensure_mount-clean name dest make v mr at e = elim (Option-cases vr) [
    | inl bare ↦ absurd (ground (arith, e, bare))
    | inr (ensure, given) ↦ elim (Outcome-cases (ensure name v).0) [
      | inl (rec, made) ↦
          let same : make rec ≡ mr = ground (arith, e, given, made) in
          rw (← same, at rec) (clean_twice dest)
      | inr (inl (x, failed)) ↦ absurd (ground (arith, e, given, failed))
      | inr (inr p) ↦ absurd (ground (arith, e, given, p))
    ]
  ]

  parse_bind-clean : ParsesClean (parse_bind clean vr)
  unfolding parse_bind
  parse_bind-clean text v mr e = elim (Option-cases (read_bind text)) [
    | inl bad ↦ absurd (ground (arith, e, bad))
    | inr (p, fine) ↦
        elim (Bool-cases (has_prefix p.source (codes "/") || has_prefix p.source (codes "."))) [
          | inl host ↦
              let same : host_result p.source (clean p.destination) p.rw p.propagation ≡ mr =
                ground (arith, e, fine, host) in
              rw (← same) (clean_twice p.destination)
          | inr named ↦
              ensure_mount-clean p.source p.destination
                (λ rec.
                  volume_result rec (clean p.destination) p.rw
                    (codes "rbind" ∷ p.propagation ∷ access p.rw ∷ []))
                v mr (λ rec. refl) (rw (fine, named, parse_bind) at e)
        ]
  ]

  ok-clean :
      (dest : Str) (made mr : MountResult)
      → made.oci.destination ≡ clean dest
      → ◌≡◌ {A = Outcome (MountError E) MountResult} (ok made) (ok mr)
      → clean mr.oci.destination ≡ mr.oci.destination
  ok-clean dest made mr at e =
      let same : made ≡ mr = ground (arith, e) in rw (← same, at) (clean_twice dest)

  parse_mount-clean : ParsesClean (parse_mount clean vr)
  unfolding parse_mount
  parse_mount-clean m v mr e = of_kind m.kind refl
    where
      of_kind : (kind : MountType) → m.kind ≡ kind → clean mr.oci.destination ≡ mr.oci.destination
      of_kind bind k = ok-clean m.target _ mr refl (rw (k, parse_mount) at e)
      of_kind volume k =
          ensure_mount-clean m.source m.target
            (λ rec.
              volume_result rec (clean m.target) (not m.read_only)
                (codes "rbind" ∷ codes "rprivate" ∷ access (not m.read_only) ∷ []))
            v mr (λ rec. refl) (rw (k, parse_mount) at e)
      of_kind tmpfs k = ok-clean m.target _ mr refl (rw (k, parse_mount) at e)
      of_kind other_type k = absurd (ground (arith, e, k))

  add_each-OneEach :
      {A : Type 0} (parse : A → V → Outcome (MountError E) MountResult × V) (items : List A)
      (seen seen' : Dict MountResult) (v v' : V)
      → ParsesClean parse
      → OneEach clean seen
      → add_each clean vr parse items seen v ≡ (ok seen', v')
      → OneEach clean seen'
  unfolding add_each
  add_each-OneEach parse [] seen seen' v v' parses h e = subst (OneEach clean) (ok_first e) h
  add_each-OneEach parse (a ∷ items) seen seen' v v' parses h e =
      elim (Outcome-cases (parse a v).0) [
        | inl (mr, parsed) ↦
            add_each-OneEach parse items (insert mr.oci.destination mr seen) seen' (parse a v).1 v'
              parses
              (insert-OneEach clean mr.oci.destination mr seen (refl, parses a v mr parsed) h)
              (rw (parsed, add_each) at e)
        | inr (inl (x, failed)) ↦ absurd (ground (arith, e, failed))
        | inr (inr p) ↦ absurd (ground (arith, e, p))
      ]

  add_anonymous-OneEach :
      (ensure : VolumeResolver V E) (paths : List Str) (seen seen' : Dict MountResult) (v v' : V)
      → OneEach clean seen
      → add_anonymous clean vr ensure paths seen v ≡ (ok seen', v')
      → OneEach clean seen'
  unfolding add_anonymous
  add_anonymous-OneEach ensure [] seen seen' v v' h e = subst (OneEach clean) (ok_first e) h
  add_anonymous-OneEach ensure (path ∷ paths) seen seen' v v' h e =
      elim (Option-cases (lookup (clean path) seen)) [
        | inr (mr, covered) ↦
            add_anonymous-OneEach ensure paths seen seen' v v' h (rw (covered, add_anonymous) at e)
        | inl bare ↦ elim (Outcome-cases (ensure [] v).0) [
          | inl (rec, made) ↦
              add_anonymous-OneEach ensure paths _ seen' (ensure [] v).1 v'
                (insert-OneEach clean (clean path) _ seen (refl, clean_twice path) h)
                (rw made at (rw (bare, add_anonymous) at e))
          | inr (inl (x, failed)) ↦ absurd (ground (arith, e, bare, failed))
          | inr (inr p) ↦ absurd (ground (arith, e, bare, p))
        ]
      ]

  -- The mounts that a container's binds, mounts and volumes give, if none of them is refused, are each
  -- at its own destination, a clean path: no two share one, those that are spelled in two ways
  -- included. To clean a path again has to change nothing.
  pub build_volume_mounts-OneEach :
      (binds : List Str) (mounts : List Mount) (volumes : List Str) (v v' : V)
      (seen : Dict MountResult)
      → build_volume_mounts clean vr binds mounts volumes v ≡ (ok seen, v')
      → OneEach clean seen
  unfolding build_volume_mounts
  build_volume_mounts-OneEach binds mounts volumes v v' seen e =
      let bound = add_each clean vr (parse_bind clean vr) binds [] v in
      elim (Outcome-cases bound.0) [
        | inr (inl (x, failed)) ↦ absurd (ground (arith, e, failed))
        | inr (inr p) ↦ absurd (ground (arith, e, p))
        | inl (seen1, bound_ok) ↦
            let mounted = add_each clean vr (parse_mount clean vr) mounts seen1 bound.1 in
            let one =
              add_each-OneEach (parse_bind clean vr) binds [] seen1 v bound.1 parse_bind-clean tt
                (ap (λ (o : Outcome (MountError E) (Dict MountResult)). (o, bound.1)) bound_ok) in
            elim (Outcome-cases mounted.0) [
              | inr (inl (x, failed)) ↦ absurd (ground (arith, e, bound_ok, failed))
              | inr (inr p) ↦ absurd (ground (arith, e, bound_ok, p))
              | inl (seen2, mounted_ok) ↦
                  let two =
                    add_each-OneEach (parse_mount clean vr) mounts seen1 seen2 bound.1 mounted.1
                      parse_mount-clean one
                      (ap (λ (o : Outcome (MountError E) (Dict MountResult)). (o, mounted.1))
                        mounted_ok) in
                  elim (Option-cases vr) [
                    | inl bare ↦
                        let same : seen2 ≡ seen = ground (arith, e, bound_ok, mounted_ok, bare) in
                        subst (OneEach clean) same two
                    | inr (ensure, given) ↦
                        add_anonymous-OneEach ensure volumes seen2 seen mounted.1 v' two
                          (ground (arith, e, bound_ok, mounted_ok, given))
                  ]
            ]
      ]
