-- ===== src/Runtime/Create/Discard.antt =====
-- The clean-up of `Create` takes back what was added under one ID.
use kogia.Base.{
  ◌≡◌, refl, ap, ◌∙◌, inl, inr, Bool-cases, true, false, none, [], ◌∷◌, Str, str_eq, str_eq_refl,
  lookup, insert, erase, arith,
}
use kogia.Base.Maps.{Dict}
use kogia.Runtime.Create.Types.{World, CreateAnswers}
use kogia.Runtime.Create.Operation.{unmount_layer, delete_layer, drop_layer, remove_bundle, discard}

pub erase-gone : {V : Type 0} → (k : Str) (d : Dict V) → lookup k d ≡ none → erase k d ≡ d
erase-gone k [] gone = refl
erase-gone k ((j, w) ∷ d) gone = elim (Bool-cases (str_eq j k)) [
  | inl same ↦ absurd (ground (arith, same, gone))
  | inr other ↦
      rw other (ap (λ (t : Dict _). (j, w) ∷ t) (erase-gone k d (ground (arith, other, gone))))
]

pub erase-insert :
    {V : Type 0} → (k : Str) (v : V) (d : Dict V) → erase k (insert k v d) ≡ erase k d
erase-insert k v [] = rw (str_eq_refl k) refl
erase-insert k v ((j, w) ∷ d) = elim (Bool-cases (str_eq j k)) [
  | inl same ↦ rw (same, str_eq_refl k) refl
  | inr other ↦ ground (arith, other, erase-insert k v d)
]

erase_twice : {V : Type 0} → (k : Str) (d : Dict V) → erase k (erase k d) ≡ erase k d
erase_twice k [] = refl
erase_twice k ((j, w) ∷ d) = elim (Bool-cases (str_eq j k)) [
  | inl same ↦ ground (arith, same, erase_twice k d)
  | inr other ↦ ground (arith, other, erase_twice k d)
]

-- The layers, the bundles and the store are those of another world.
pub record SameBut {S V : Type 0} (w w' : World S V) : Type 0 where
  pub layers : w'.layers ≡ w.layers
  pub bundles : w'.bundles ≡ w.bundles
  pub store : w'.store ≡ w.store

-- Every clean-up works.
pub record CleansUp (ans : CreateAnswers) : Type 0 where
  pub removed : ans.removed ≡ true
  pub unmounted : ans.unmounted ≡ true
  pub deleted : ans.deleted ≡ true

-- What was added to a world is the layer and the bundle of one ID.
pub record Held {S V : Type 0} (id : Str) (w w' : World S V) : Type 0 where
  pub layers : erase id w'.layers ≡ w.layers
  pub bundles : erase id w'.bundles ≡ w.bundles
  pub store : w'.store ≡ w.store

module _ {S V : Type 0} (ans : CreateAnswers) (id : Str) (clean_up : CleansUp ans) where
  pub delete_layer-Held :
      (w w' : World S V)
      → Held id w w'
      → w'.bundles ≡ w.bundles
      → SameBut w (delete_layer ans id w')
  unfolding delete_layer
  delete_layer-Held w w' h bundles =
      rw clean_up.deleted (record { layers = h.layers; bundles = bundles; store = h.store })

  pub drop_layer-Held :
      (w w' : World S V) → Held id w w' → w'.bundles ≡ w.bundles → SameBut w (drop_layer ans id w')
  unfolding unmount_layer delete_layer
  drop_layer-Held w w' h bundles = rw clean_up.unmounted (
      delete_layer-Held w (record w' { layers = insert id false w'.layers })
        (record {
          layers = erase-insert id false w'.layers ∙ h.layers;
          bundles = h.bundles;
          store = h.store;
        })
        bundles)

  pub discard-Held : (w w' : World S V) → Held id w w' → SameBut w (discard ans id w')
  unfolding remove_bundle unmount_layer delete_layer
  discard-Held w w' h = rw clean_up.removed (
      drop_layer-Held w (record w' { bundles = erase id w'.bundles })
        (record {
          layers = h.layers;
          bundles = rw (erase_twice id w'.bundles) h.bundles;
          store = h.store;
        })
        h.bundles)
