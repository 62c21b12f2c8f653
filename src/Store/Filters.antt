-- ===== src/Store/Filters.antt =====
-- The filters of `ListContainers` in internal/store/container.go, and the record they look at.
use kogia.Base.{
  ℕ, Bool, true, false, ◌&&◌, ◌||◌, not, Option, none, some, List, [], ◌∷◌, Str, str_eq, has_prefix,
  cut, if◌then◌else◌, lookup,
}
use kogia.Base.Maps.{Dict}

-- `container.Config`, as far as this package reads it; nil labels are `none`.
pub record Config : Type 0 where
  pub image : Str
  pub labels : Option (Dict Str)

-- `container.InspectResponse`, as far as this package reads it.
pub record Container : Type 0 where
  pub id : Str
  pub name : Str
  pub image : Str
  pub status : Option Str  -- `State.Status`, `none` without a `State`
  pub config : Option Config

pub record ContainerFilters : Type 0 where
  pub id : List Str
  pub name : List Str
  pub status : List Str
  pub label : List Str
  pub ancestor : List Str
  pub limit : ℕ
  pub all : Bool

unfoldable pub matches_any_prefix : Str → List Str → Bool
matches_any_prefix value [] = false
matches_any_prefix value (p ∷ ps) = has_prefix value p || matches_any_prefix value ps

unfoldable pub matches_any : Str → List Str → Bool
matches_any value [] = false
matches_any value (c ∷ cs) = str_eq value c || matches_any value cs

-- One label filter, "key" or "key=value".
unfoldable pub matches_label : Dict Str → Str → Bool
matches_label labels l =
    let (k, v, has_value) = cut l b'=' in
    elim (lookup k labels) [
      | none ↦ false
      | some got ↦ if has_value && not (str_eq got v) then false else true
    ]

all_labels : Dict Str → List Str → Bool
unfolding matches_label
all_labels labels [] = true
all_labels labels (l ∷ ls) = matches_label labels l && all_labels labels ls

unfoldable pub matches_labels : Option Config → List Str → Bool
unfolding all_labels
matches_labels none ls = false
matches_labels (some cfg) ls = elim cfg.labels [ none ↦ false | some labels ↦ all_labels labels ls ]

unfoldable pub matches_any_ancestor : Str → Str → List Str → Bool
matches_any_ancestor image_name image_id [] = false
matches_any_ancestor image_name image_id (a ∷ as') =
    (str_eq image_name a || str_eq image_id a || has_prefix image_id a)
    || matches_any_ancestor image_name image_id as'

abbrev pub is_empty {ℓ} : {A : Type ℓ} → List A → Bool
is_empty [] = true
is_empty (x ∷ xs) = false

unfoldable pub matches_filters : Container → ContainerFilters → Bool
unfolding matches_any_prefix matches_any matches_labels matches_any_ancestor
matches_filters c f =
    if not (is_empty f.id) && not (matches_any_prefix c.id f.id)
    then false
    else if not (is_empty f.name) && not (matches_any c.name f.name)
    then false
    else if not (is_empty f.status)
        && elim c.status [ none ↦ true | some s ↦ not (matches_any s f.status) ]
    then false
    else if not (is_empty f.label) && not (matches_labels c.config f.label)
    then false
    else if not (is_empty f.ancestor) && elim c.config [
      | none ↦ true
      | some cfg ↦ not (matches_any_ancestor cfg.image c.image f.ancestor)
    ]
    then false
    else true
