-- ===== src/Runtime/Spec/CapabilityLaws.antt =====
-- Which capabilities a container has that is not privileged.
use kogia.Base.{
  ◌≡◌, refl, sym, ap, ◌∙◌, inl, inr, Bool, Bool-cases, true, false, not, ◌&&◌, ◌||◌, List, [], ◌∷◌,
  ◌++◌, Str, codes, str_eq, str_eq_iff, arith,
}
use kogia.Base.Ascii.{to_lower, to_upper, equal_fold}
use kogia.Runtime.Spec.Capabilities.{remove_cap, contains_cap, cap_name, drop_caps, add_caps}

-- A name of `CapDrop` or `CapAdd` stands for a capability: it is the capability without its prefix
-- "CAP_", in any case. A name that has the prefix itself stands for none.
unfoldable pub names_cap : Str → Str → Bool
names_cap name target = equal_fold (codes "CAP_" ++ name) target

-- One of `CapDrop` is "ALL", or stands for the capability.
unfoldable pub is_dropped : List Str → Str → Bool
is_dropped [] target = false
is_dropped (name ∷ names) target =
    equal_fold name (codes "ALL") || (names_cap name target || is_dropped names target)

-- One of `CapAdd` stands for the capability.
unfoldable pub is_added : List Str → Str → Bool
is_added [] target = false
is_added (name ∷ names) target = names_cap name target || is_added names target

to_lower-to_upper : (s : Str) → to_lower (to_upper s) ≡ to_lower s
unfolding to_lower to_upper
to_lower-to_upper [] = refl
to_lower-to_upper (c ∷ s) = ground (arith, to_lower-to_upper s)

equal_fold-cap_name :
    (name target : Str) → equal_fold (cap_name name) target ≡ names_cap name target
unfolding equal_fold names_cap to_lower
equal_fold-cap_name name target = rw (to_lower-to_upper name) refl

equal_fold_swap : (s t u : Str) → equal_fold s t ≡ true → equal_fold s u ≡ equal_fold t u
unfolding equal_fold
equal_fold_swap s t u e =
    ap (λ (v : Str). str_eq v (to_lower u)) ((str_eq_iff (to_lower s) (to_lower t)).0 e)

equal_fold_ne :
    (s t u : Str) → equal_fold s t ≡ false → equal_fold t u ≡ true → equal_fold s u ≡ false
unfolding equal_fold
equal_fold_ne s t u e e' =
    let same = (str_eq_iff (to_lower t) (to_lower u)).0 e' in
    ap (str_eq (to_lower s)) (sym same) ∙ e

contains-remove_cap :
    (caps : List Str) (name target : Str)
    → contains_cap (remove_cap caps name) target
      ≡ (contains_cap caps target && not (equal_fold name target))
unfolding contains_cap remove_cap
contains-remove_cap [] name target = refl
contains-remove_cap (c ∷ caps) name target =
    let ih = contains-remove_cap caps name target in
    elim (Bool-cases (equal_fold c name)) [
      | inl e ↦ ground (arith, ih, e, equal_fold_swap c name target e)
      | inr e ↦ elim (Bool-cases (equal_fold name target)) [
        | inl e' ↦ ground (arith, ih, e, e', equal_fold_ne c name target e e')
        | inr e' ↦ ground (arith, ih, e, e')
      ]
    ]

contains-append :
    (caps : List Str) (name target : Str)
    → contains_cap (caps ++ name ∷ []) target ≡ (contains_cap caps target || equal_fold name target)
unfolding contains_cap
contains-append [] name target = ground arith
contains-append (c ∷ caps) name target = ground (arith, contains-append caps name target)

contains_fold :
    (caps : List Str) (name target : Str)
    → equal_fold name target ≡ true
    → contains_cap caps name ≡ contains_cap caps target
unfolding contains_cap equal_fold
contains_fold [] name target e = refl
contains_fold (c ∷ caps) name target e =
    let same = (str_eq_iff (to_lower name) (to_lower target)).0 e in
    rw same (
      ap (λ (b : Bool). str_eq (to_lower c) (to_lower target) || b)
        (contains_fold caps name target e))

contains-drop_caps :
    (names caps : List Str) (target : Str)
    → contains_cap (drop_caps names caps) target
      ≡ (contains_cap caps target && not (is_dropped names target))
unfolding drop_caps is_dropped contains_cap
contains-drop_caps [] caps target = ground arith
contains-drop_caps (name ∷ names) caps target = elim (Bool-cases (equal_fold name (codes "ALL"))) [
  | inl e ↦ rw (e, contains_cap) (ground arith)
  | inr e ↦ ground (
    arith,
    e,
    contains-drop_caps names (remove_cap caps (cap_name name)) target,
    contains-remove_cap caps (cap_name name) target,
    equal_fold-cap_name name target,
  )
]

contains-add_caps :
    (names caps : List Str) (target : Str)
    → contains_cap (add_caps names caps) target
      ≡ (contains_cap caps target || is_added names target)
unfolding add_caps is_added
contains-add_caps [] caps target = ground arith
contains-add_caps (name ∷ names) caps target =
    elim (Bool-cases (contains_cap caps (cap_name name))) [
      | inl e ↦ elim (Bool-cases (equal_fold (cap_name name) target)) [
        | inl e' ↦ ground (
          arith,
          e,
          e',
          contains-add_caps names caps target,
          contains_fold caps (cap_name name) target e',
          equal_fold-cap_name name target,
        )
        | inr e' ↦
            ground
              (arith, e, e', contains-add_caps names caps target, equal_fold-cap_name name target)
      ]
      | inr e ↦ ground (
        arith,
        e,
        contains-add_caps names (caps ++ cap_name name ∷ []) target,
        contains-append caps (cap_name name) target,
        equal_fold-cap_name name target,
      )
    ]

-- A capability that is left after the two loops was among the first ones and not dropped, or was
-- added, and every such capability is left: dropped where a name of `CapDrop` is "ALL" or is the
-- capability without its prefix "CAP_", added where a name of `CapAdd` is. Upper and lower case are the
-- same, and a name that has the prefix itself neither drops nor adds the capability.
pub contains-add_caps-drop_caps :
    (adds drops caps : List Str) (target : Str)
    → contains_cap (add_caps adds (drop_caps drops caps)) target
      ≡ ((contains_cap caps target && not (is_dropped drops target)) || is_added adds target)
contains-add_caps-drop_caps adds drops caps target =
    contains-add_caps adds (drop_caps drops caps) target
    ∙ ap (λ (b : Bool). b || is_added adds target) (contains-drop_caps drops caps target)
