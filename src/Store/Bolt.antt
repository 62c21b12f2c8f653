-- ===== src/Store/Bolt.antt =====
-- A bbolt bucket, the library under internal/store, behind what the store relies on: keys and
-- values are byte strings, and a cursor walks the keys in byte order.
use kogia.Base.{
  true, ◌≡◌, Option, none, some, [], ◌∷◌, All, Str, str_eq, str_ltb, if◌then◌else◌, Dict, lookup,
}

pub record Bolt (B : Type 0) : Type 0 where
  pub empty : B
  pub get : B → Str → Option Str
  -- `none` is an error of the library, such as an empty key.
  pub put : B → Str → Str → Option B
  pub delete : B → Str → Option B
  -- `ForEach`: all pairs, in the order of the keys.
  pub entries : B → Dict Str
  -- The pairs that a cursor reads after `Seek(key)`: from the first key that is not below `key`.
  pub seek : B → Str → Dict Str

abbrev pub IsSorted : Dict Str → Type 0
IsSorted [] = Unit
IsSorted ((k, v) ∷ d) = All (λ e. str_ltb k e.0 ≡ true) d × IsSorted d

abbrev pub drop_below : Str → Dict Str → Dict Str
drop_below p [] = []
drop_below p ((k, v) ∷ d) = if str_ltb k p then drop_below p d else (k, v) ∷ d

pub record BoltLaws {B : Type 0} (bolt : Bolt B) : Type 0 where
  pub get-put :
      (b b' : B) (k v j : Str)
      → bolt.put b k v ≡ some b'
      → bolt.get b' j ≡ (if str_eq k j then some v else bolt.get b j)
  pub get-delete :
      (b b' : B) (k j : Str)
      → bolt.delete b k ≡ some b'
      → bolt.get b' j ≡ (if str_eq k j then none else bolt.get b j)
  pub get-entries : (b : B) (k : Str) → bolt.get b k ≡ lookup k (bolt.entries b)
  pub entries-IsSorted : (b : B) → IsSorted (bolt.entries b)
  pub seek-entries : (b : B) (k : Str) → bolt.seek b k ≡ drop_below k (bolt.entries b)

-- `encoding/json` at one type.
pub record Json (A : Type 0) : Type 0 where
  pub marshal : A → Option Str
  pub unmarshal : Str → Option A

-- What is written is read back.
pub record JsonLaws {A : Type 0} (json : Json A) : Type 0 where
  pub unmarshal-marshal : (a : A) (d : Str) → json.marshal a ≡ some d → json.unmarshal d ≡ some a
