-- ===== src/Events/Filters.antt =====
-- `Filters`, `ParseFilters` and `matchesFilters` of internal/events/bus.go.
use kogia.Base.{
  ℕ, Bool, true, false, ◌&&◌, ◌||◌, not, Option, none, some, List, [], ◌∷◌, Str, codes, str_eq,
  has_prefix, cut, if◌then◌else◌, lookup,
}
use kogia.Base.Maps.{Dict}

-- `events.Actor` and `events.Message`; `type` and `action` are texts there. A time before 1970 is
-- left out.
pub record Actor : Type 0 where
  pub id : Str
  pub attributes : Dict Str

pub record Message : Type 0 where
  pub type : Str
  pub action : Str
  pub actor : Actor
  pub scope : Str
  pub time : ℕ
  pub time_nano : ℕ

pub record Filters : Type 0 where
  pub types : List Str
  pub actions : List Str
  pub containers : List Str
  pub images : List Str
  pub networks : List Str
  pub volumes : List Str
  pub labels : List Str

abbrev pub no_filters : Filters
no_filters = record {
  types = [];
  actions = [];
  containers = [];
  images = [];
  networks = [];
  volumes = [];
  labels = [];
}

-- A missing key of a Go map of slices reads as nil.
abbrev pub values : Option (List Str) → List Str
values none = []
values (some vs) = vs

-- `ParseFilters` on the value of the query's `filters`; `unmarshal` is `json.Unmarshal` into a map.
unfoldable pub parse_filters : (Str → Option (Dict (List Str))) → Str → Filters
parse_filters unmarshal [] = no_filters
parse_filters unmarshal (c ∷ raw) = elim (unmarshal (c ∷ raw)) [
  | none ↦ no_filters
  | some parsed ↦ record {
    types = values (lookup (codes "type") parsed);
    actions = values (lookup (codes "event") parsed);
    containers = values (lookup (codes "container") parsed);
    images = values (lookup (codes "image") parsed);
    networks = values (lookup (codes "network") parsed);
    volumes = values (lookup (codes "volume") parsed);
    labels = values (lookup (codes "label") parsed);
  }
]

-- `containsType` and `containsAction`
unfoldable pub contains_text : List Str → Str → Bool
contains_text [] t = false
contains_text (v ∷ list) t = str_eq v t || contains_text list t

abbrev pub or_empty : Option Str → Str
or_empty none = []
or_empty (some s) = s

unfoldable pub matches_actor : List Str → Actor → Bool
matches_actor [] actor = false
matches_actor (f ∷ filter) actor =
    let rest = matches_actor filter actor in
    if str_eq actor.id f || has_prefix actor.id f
    then true
    else if str_eq (or_empty (lookup (codes "name") actor.attributes)) f
    then true
    else rest

-- One label filter, "key" or "key=value".
unfoldable pub has_label : Dict Str → Str → Bool
has_label attrs lf =
    let (k, v, has_value) = cut lf b'=' in
    elim (lookup k attrs) [ none ↦ false | some got ↦ not (has_value && not (str_eq got v)) ]

unfoldable pub matches_labels : List Str → Dict Str → Bool
unfolding has_label
matches_labels [] attrs = true
matches_labels (lf ∷ filter) attrs =
    let rest = matches_labels filter attrs in if not (has_label attrs lf) then false else rest

abbrev pub is_empty {ℓ} : {A : Type ℓ} → List A → Bool
is_empty [] = true
is_empty (x ∷ xs) = false

-- The filter that is about the actors of the message's type.
unfoldable pub actor_filter : Str → Filters → List Str
actor_filter type f =
    if str_eq type (codes "container")
    then f.containers
    else if str_eq type (codes "image")
    then f.images
    else if str_eq type (codes "network")
    then f.networks
    else if str_eq type (codes "volume")
    then f.volumes
    else []

unfoldable pub matches_actor_filter : Message → Filters → Bool
unfolding actor_filter matches_actor
matches_actor_filter msg f =
    let filter = actor_filter msg.type f in
    if is_empty filter then true else matches_actor filter msg.actor

unfoldable pub matches_filters : Message → Filters → Bool
unfolding contains_text matches_actor_filter matches_labels
matches_filters msg f =
    if not (is_empty f.types) && not (contains_text f.types msg.type)
    then false
    else if not (is_empty f.actions) && not (contains_text f.actions msg.action)
    then false
    else if not (matches_actor_filter msg f)
    then false
    else if not (is_empty f.labels) && not (matches_labels f.labels msg.actor.attributes)
    then false
    else true
