-- ===== src/Runtime/BindOptions.antt =====
-- The options of a bind, before and after `forceReadOnly`.
use kogia.Base.{
  ◌≡◌, ◌≢◌, refl, inl, inr, Bool, true, false, not, ◌||◌, List, [], ◌∷◌, ◌++◌, Str, codes, All,
  str_eq, str_eq_iff, Bool-cases, arith,
}
use kogia.Base.Split.{Lacks}
use kogia.Runtime.Mounts.{read_options, is_propagation}
use kogia.Runtime.VolumesFrom.{replace_rw}

not_both : (opt : Str) → str_eq opt (codes "rw") ≡ true → str_eq opt (codes "ro") ≡ false
not_both opt h = rw ((str_eq_iff opt (codes "rw")).0 h) refl

-- What one option does.
data OptionKind (opt : Str) : Type 0 where
  is_ro : str_eq opt (codes "ro") ≡ true → str_eq opt (codes "rw") ≡ false → OptionKind opt
  is_rw : str_eq opt (codes "ro") ≡ false → str_eq opt (codes "rw") ≡ true → OptionKind opt
  is_other :
      (next : Str → Str)
      → str_eq opt (codes "rw") ≡ false
      → str_eq opt (codes "ro") ≡ false
      → ((opts : List Str) (b : Bool) (p : Str)
          → read_options (opt ∷ opts) (b, p) ≡ read_options opts (b, next p))
      → OptionKind opt

OptionKind-cases : (opt : Str) → OptionKind opt
unfolding read_options
OptionKind-cases opt = elim (Bool-cases (str_eq opt (codes "rw"))) [
  | inl writable ↦ is_rw (not_both opt writable) writable
  | inr other ↦ elim (Bool-cases (str_eq opt (codes "ro"))) [
    | inl read_only ↦ is_ro read_only other
    | inr neither ↦ elim (Bool-cases (is_propagation opt)) [
      | inl named ↦
          is_other (λ p. opt) other neither
            (λ opts b p. rw (neither, read_options) (rw other (rw named refl)))
      | inr unknown ↦
          is_other (λ p. p) other neither
            (λ opts b p. rw (neither, read_options) (rw other (rw unknown refl)))
    ]
  ]
]

pub read_ro :
    (opt : Str) (opts : List Str) (b : Bool) (p : Str)
    → str_eq opt (codes "ro") ≡ true
    → read_options (opt ∷ opts) (b, p) ≡ read_options opts (false, p)
unfolding read_options
read_ro opt opts b p h = rw (h, read_options) refl

read_rw :
    (opt : Str) (opts : List Str) (b : Bool) (p : Str)
    → str_eq opt (codes "ro") ≡ false
    → str_eq opt (codes "rw") ≡ true
    → read_options (opt ∷ opts) (b, p) ≡ read_options opts (true, p)
unfolding read_options
read_rw opt opts b p h k = rw (h, read_options) (rw k refl)

replace_writable :
    (opt : Str) (opts : List Str)
    → str_eq opt (codes "rw") ≡ true
    → replace_rw (opt ∷ opts) ≡ (codes "ro" ∷ (replace_rw opts).0, true)
unfolding replace_rw
replace_writable opt opts h = rw (h, replace_rw) refl

replace_other :
    (opt : Str) (opts : List Str)
    → str_eq opt (codes "rw") ≡ false
    → replace_rw (opt ∷ opts)
      ≡ (opt ∷ (replace_rw opts).0, str_eq opt (codes "ro") || (replace_rw opts).1)
unfolding replace_rw
replace_other opt opts h = rw (h, replace_rw) refl

replace_none : replace_rw [] ≡ ([], false)
unfolding replace_rw
replace_none = refl

pub read_none : (b : Bool) (p : Str) → read_options [] (b, p) ≡ (b, p)
unfolding read_options
read_none b p = refl

read_none_replaced :
    (b : Bool) (p : Str)
    → not b || (replace_rw []).1 ≡ true
    → (read_options (replace_rw []).0 (b, p)).0 ≡ false
unfolding read_options replace_rw
read_none_replaced b p h = ground (arith, h)

-- The propagation does not depend on the access, nor on "rw" having become "ro".
pub read_options-propagation :
    (opts : List Str) (b b' : Bool) (p : Str)
    → (read_options (replace_rw opts).0 (b, p)).1 ≡ (read_options opts (b', p)).1
read_options-propagation [] b b' p = rw (replace_none, read_none b p, read_none b' p) refl
read_options-propagation (opt ∷ opts) b b' p = elim (OptionKind-cases opt) [
  | is_rw not_ro writable ↦
      rw
        (
          replace_writable opt opts writable,
          read_rw opt opts b' p not_ro writable,
          read_ro (codes "ro") (replace_rw opts).0 b p refl,
        )
        (read_options-propagation opts false true p)
  | is_ro read_only other ↦
      rw
        (
          replace_other opt opts other,
          read_ro opt opts b' p read_only,
          read_ro opt (replace_rw opts).0 b p read_only,
        )
        (read_options-propagation opts false false p)
  | is_other next other neither reads ↦
      rw (replace_other opt opts other, reads opts b' p, reads (replace_rw opts).0 b p)
        (read_options-propagation opts b b' (next p))
]

-- With "rw" replaced, an access that is read-only stays so, and a "ro" makes it so.
pub read_options-replaced :
    (opts : List Str) (b : Bool) (p : Str)
    → not b || (replace_rw opts).1 ≡ true
    → (read_options (replace_rw opts).0 (b, p)).0 ≡ false
read_options-replaced [] b p h = read_none_replaced b p h
read_options-replaced (opt ∷ opts) b p h = elim (OptionKind-cases opt) [
  | is_rw not_ro writable ↦
      rw (replace_writable opt opts writable, read_ro (codes "ro") (replace_rw opts).0 b p refl)
        (read_options-replaced opts false p refl)
  | is_ro read_only other ↦
      rw (replace_other opt opts other, read_ro opt (replace_rw opts).0 b p read_only)
        (read_options-replaced opts false p refl)
  | is_other next other neither reads ↦
      let left : not b || (replace_rw opts).1 ≡ true =
        ground (arith, h, replace_other opt opts other, neither) in
      rw (replace_other opt opts other, reads (replace_rw opts).0 b p)
        (read_options-replaced opts b (next p) left)
]

pub read_options-append :
    (opts : List Str) (b : Bool) (p : Str)
    → read_options (opts ++ codes "ro" ∷ []) (b, p) ≡ (false, (read_options opts (b, p)).1)
read_options-append [] b p =
    rw (read_ro (codes "ro") [] b p refl, read_none b p, read_none false p) refl
read_options-append (opt ∷ opts) b p = elim (OptionKind-cases opt) [
  | is_rw not_ro writable ↦
      rw
        (
          read_rw opt (opts ++ codes "ro" ∷ []) b p not_ro writable,
          read_rw opt opts b p not_ro writable,
        )
        (read_options-append opts true p)
  | is_ro read_only other ↦
      rw (read_ro opt (opts ++ codes "ro" ∷ []) b p read_only, read_ro opt opts b p read_only)
        (read_options-append opts false p)
  | is_other next other neither reads ↦
      rw (reads (opts ++ codes "ro" ∷ []) b p, reads opts b p) (read_options-append opts b (next p))
]

pub replace_rw-Lacks :
    (opts : List Str) → All (Lacks b',') opts → All (Lacks b',') (replace_rw opts).0
unfolding replace_rw
replace_rw-Lacks [] h = tt
replace_rw-Lacks (opt ∷ opts) h = elim (Bool-cases (str_eq opt (codes "rw"))) [
  | inl writable ↦ rw writable ((refl, (refl, tt)), replace_rw-Lacks opts h.1)
  | inr other ↦ rw other (h.0, replace_rw-Lacks opts h.1)
]

pub replace_rw-not_empty : (opts : List Str) → opts ≢ [] → (replace_rw opts).0 ≢ []
unfolding replace_rw
replace_rw-not_empty [] full e = full refl
replace_rw-not_empty (opt ∷ opts) full e = absurd (ground (arith, e))

pub append-Lacks :
    (opts : List Str) → All (Lacks b',') opts → All (Lacks b',') (opts ++ codes "ro" ∷ [])
append-Lacks [] h = ((refl, (refl, tt)), tt)
append-Lacks (opt ∷ opts) h = (h.0, append-Lacks opts h.1)

pub append_not_empty : (opts : List Str) → opts ++ codes "ro" ∷ [] ≢ []
append_not_empty [] e = cc
append_not_empty (opt ∷ opts) e = cc
