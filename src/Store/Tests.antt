-- ===== src/Store/Tests.antt =====
-- The store in memory, and the theorems at small inputs.
use kogia.Base.{
  not, ◌≡◌, refl, Bool, true, false, inl, inr, Option, none, some, List, [], ◌∷◌, ◌++◌, Str, codes,
  str_eq, if◌then◌else◌, ok, arith, ◌&&◌, ◌⊎◌, ap, sym, Bool-cases, str_eq_iff,
}
use kogia.Store.Bolt.{Json, JsonLaws}
use kogia.Store.Memory.{Bucket, memory, memory-BoltLaws, put_sorted}
use kogia.Store.Prefix.{with_prefix, only_one}
use kogia.Store.Db.{Db, new}
use kogia.Store.Filters.{Container}
use kogia.Store.Container.{create_container, find_container, by_name}
use kogia.Store.Index.{IsIndexed, find_container-prefix}
use kogia.Store.Reach.{create, Reach, start, step, Reach-IsIndexed}
use kogia.Volume.Types.{Record}

-- A codec that writes one value only.
abbrev pub only : {A : Type 0} → (A → Bool) → A → Json A
only same a = record {
  marshal = λ b. if same b then some (1 ∷ []) else none;
  unmarshal = λ d. some a;
}

pub only-JsonLaws :
    {A : Type 0} (same : A → Bool) (a : A)
    → ((b : A) → same b ≡ true → b ≡ a)
    → JsonLaws (only same a)
only-JsonLaws same a sound = record { unmarshal-marshal = λ b d e. go b d (Bool-cases (same b)) e }
  where
    go :
        (b : _) (d : Str)
        → (same b ≡ true) ⊎ (same b ≡ false)
        → (if same b then some (1 ∷ []) else none) ≡ some d
        → some a ≡ some b
    go b d (inl yes_same) e = ap some (sym (sound b yes_same))
    go b d (inr other) e = absurd (cc (rw other at e))

abbrev pub is_none : {A : Type 0} → Option A → Bool
is_none none = true
is_none (some a) = false

abbrev web : Container
web = record {
  id = codes "ab12";
  name = codes "/web";
  image = codes "nginx";
  status = none;
  config = none;
}

abbrev is_web : Container → Bool
is_web c =
    str_eq c.id web.id
    && (str_eq c.name web.name
        && (str_eq c.image web.image && (is_none c.status && is_none c.config)))

pub none_of : {A : Type 0} (o : Option A) → is_none o ≡ true → o ≡ none
none_of none e = refl
none_of (some a) e = cc

is_web_sound : (c : Container) → is_web c ≡ true → c ≡ web
is_web_sound c e = ground (
  arith,
  str_eq_iff c.id web.id,
  str_eq_iff c.name web.name,
  str_eq_iff c.image web.image,
  none_of c.status,
  none_of c.config,
)

abbrev json : Json Container
json = only is_web web

json_laws : JsonLaws json
json_laws = only-JsonLaws is_web web is_web_sound

abbrev pub empty : Db Bucket
empty = new memory

abbrev with_web : Db Bucket
with_web = (create_container memory json web empty).1

created : create_container memory json web empty ≡ (ok tt, with_web)
unfolding create_container new
created = refl

prefix_no_id : memory.get with_web.containers (codes "ab") ≡ none
unfolding create_container new put_sorted
prefix_no_id = refl

prefix_no_name : by_name memory with_web (codes "ab") ≡ none
unfolding by_name create_container new put_sorted
prefix_no_name = refl

prefix_no_slash : by_name memory with_web (codes "/" ++ codes "ab") ≡ none
unfolding by_name create_container new put_sorted
prefix_no_slash = refl

find_container-prefix_example :
    find_container memory (codes "ab") with_web
    ≡ only_one (with_prefix (codes "ab") (memory.entries with_web.containers))
find_container-prefix_example =
    find_container-prefix memory memory-BoltLaws json json_laws (codes "ab") with_web prefix_no_id
      prefix_no_name prefix_no_slash

no_web_id : memory.get (new memory).containers web.id ≡ none
unfolding new
no_web_id = refl

reached : Reach memory memory-BoltLaws json json_laws with_web
reached = step start (create web no_web_id created)

nothing_in_empty : (k : Str) → memory.get memory.empty k ≡ none
nothing_in_empty k = refl

Reach-IsIndexed_example : IsIndexed memory memory-BoltLaws json json_laws with_web
Reach-IsIndexed_example =
    Reach-IsIndexed memory memory-BoltLaws json json_laws nothing_in_empty reached

abbrev pub nothing : {A : Type 0} → List A → Bool
nothing [] = true
nothing (a ∷ as') = false

pub nothing_of : {A : Type 0} (xs : List A) → nothing xs ≡ true → xs ≡ []
nothing_of [] e = refl
nothing_of (x ∷ xs) e = cc

abbrev pub archive : Record
archive = record {
  created_at = [];
  labels = [];
  options = [];
  name = codes "data";
  driver = codes "local";
  mountpoint = [];
  anonymous = false;
}

abbrev pub is_data : Record → Bool
is_data v =
    nothing v.created_at
    && (nothing v.labels
        && (nothing v.options
            && (str_eq v.name archive.name
                && (str_eq v.driver archive.driver && (nothing v.mountpoint && not v.anonymous)))))

pub is_data_sound : (v : Record) → is_data v ≡ true → v ≡ archive
is_data_sound v same = ground (
  arith,
  nothing_of v.created_at,
  nothing_of v.labels,
  nothing_of v.options,
  str_eq_iff v.name archive.name,
  str_eq_iff v.driver archive.driver,
  nothing_of v.mountpoint,
)
