-- ===== src/Store/Prefix.antt =====
-- The lookup by prefix in `GetContainer` and `GetNetwork` of internal/store, and what it finds.
use kogia.Base.{
  true, false, ◌≡◌, refl, Option, none, some, [], ◌∷◌, All, Str, has_prefix, str_ltb, if◌then◌else◌,
  Dict, Outcome, ok, err, panic, Bool-cases, inl, inr, arith, has_prefix-not-lt, has_prefix_past,
  str_ltb_trans, ap, ◌∙◌,
}
use kogia.Store.Bolt.{IsSorted, drop_below}

-- The errors of internal/store. `bolt_failed` is an error of the database.
pub data StoreError : Type 0 where
  not_found name_in_use ambiguous_prefix marshal_failed unmarshal_failed bolt_failed : StoreError

-- for k, v := c.Seek(prefix); k != nil && strings.HasPrefix(k, idOrName); k, v = c.Next()
unfoldable pub prefix_loop : Str → Dict Str → Option Str → Outcome StoreError (Option Str)
prefix_loop id [] found = ok found
prefix_loop id ((k, v) ∷ rest) found =
    let more = prefix_loop id rest (some v) in
    if has_prefix k id then elim found [ some _ ↦ err ambiguous_prefix | none ↦ more ] else ok found

unfoldable pub prefix_match : Str → Dict Str → Outcome StoreError Str
unfolding prefix_loop
prefix_match id walk = elim (prefix_loop id walk none) [
  | ok none ↦ err not_found
  | ok (some v) ↦ ok v
  | err e ↦ err e
  | panic ↦ panic
]

-- The pairs whose key has the prefix.
abbrev pub with_prefix : Str → Dict Str → Dict Str
with_prefix p [] = []
with_prefix p ((k, v) ∷ d) =
    let rest = with_prefix p d in if has_prefix k p then (k, v) ∷ rest else rest

-- The answer for the pairs that have the prefix: there must be exactly one.
abbrev pub only_one : Dict Str → Outcome StoreError Str
only_one [] = err not_found
only_one ((k, v) ∷ []) = ok v
only_one ((k, v) ∷ e ∷ d) = err ambiguous_prefix

pub none_past :
    (k p : Str) (d : Dict Str)
    → str_ltb k p ≡ false
    → has_prefix k p ≡ false
    → All (λ e. str_ltb k e.0 ≡ true) d
    → with_prefix p d ≡ []
none_past k p [] at miss later = refl
none_past k p ((j, v) ∷ d) at miss later =
    rw (has_prefix_past k j p at miss later.0) (none_past k p d at miss later.1)

-- From the first key not below the prefix on, the loop sees all pairs that have it.
prefix_match-from :
    (p : Str) (d : Dict Str)
    → IsSorted d
    → All (λ e. str_ltb e.0 p ≡ false) d
    → prefix_match p d ≡ only_one (with_prefix p d)
unfolding prefix_match
prefix_match-from p [] sorted from = refl
prefix_match-from p ((k, v) ∷ []) sorted from = ground arith
prefix_match-from p ((k, v) ∷ (j, w) ∷ d) sorted from = elim (Bool-cases (has_prefix k p)) [
  | inr miss ↦ ground (arith, none_past k p ((j, w) ∷ d) from.0 miss sorted.0)
  | inl hit ↦ elim (Bool-cases (has_prefix j p)) [
    | inl again ↦ ground arith
    | inr miss ↦ ground (arith, none_past j p d from.1.0 miss sorted.1.0)
  ]
]

pub none_below : (p : Str) (d : Dict Str) → with_prefix p (drop_below p d) ≡ with_prefix p d
none_below p [] = refl
none_below p ((k, v) ∷ d) = ground (arith, has_prefix-not-lt k p, none_below p d)

pub drop_below-IsSorted : (p : Str) (d : Dict Str) → IsSorted d → IsSorted (drop_below p d)
drop_below-IsSorted p [] s = tt
drop_below-IsSorted p ((k, v) ∷ d) s = elim (Bool-cases (str_ltb k p)) [
  | inl below ↦ rw below (drop_below-IsSorted p d s.1)
  | inr from ↦ rw from s
]

later_from :
    (k p : Str) (d : Dict Str)
    → str_ltb k p ≡ false
    → All (λ e. str_ltb k e.0 ≡ true) d
    → All (λ e. str_ltb e.0 p ≡ false) d
later_from k p [] from later = tt
later_from k p ((j, v) ∷ d) from later =
    (ground (arith, str_ltb_trans k j p), later_from k p d from later.1)

pub drop_below-from :
    (p : Str) (d : Dict Str) → IsSorted d → All (λ e. str_ltb e.0 p ≡ false) (drop_below p d)
drop_below-from p [] s = tt
drop_below-from p ((k, v) ∷ d) s = elim (Bool-cases (str_ltb k p)) [
  | inl below ↦ rw below (drop_below-from p d s.1)
  | inr from ↦ rw from (from, later_from k p d from s.0)
]

-- The loop from `Seek` on answers as if it had looked at every key of the bucket.
pub prefix_match-seek :
    (p : Str) (d : Dict Str)
    → IsSorted d
    → prefix_match p (drop_below p d) ≡ only_one (with_prefix p d)
prefix_match-seek p d s =
    prefix_match-from p (drop_below p d) (drop_below-IsSorted p d s) (drop_below-from p d s)
    ∙ ap only_one (none_below p d)
