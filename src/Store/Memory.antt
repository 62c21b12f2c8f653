-- ===== src/Store/Memory.antt =====
-- A bucket in memory, as a list sorted by its keys: it meets what the store relies on.
use mathlib.Core.Option.{some-injective}
use kogia.Base.{
  true, ◌≡◌, refl, inl, inr, some, [], ◌∷◌, All, Str, str_eq, str_eq_iff, str_ltb, str_ltb_trans,
  str_ltb_total, if◌then◌else◌, lookup, erase, lookup-erase, Bool-cases, ap, sym, ◌∙◌, arith,
}
use kogia.Base.Maps.{Dict}
use kogia.Store.Bolt.{Bolt, BoltLaws, IsSorted, drop_below}

unfoldable pub put_sorted : Str → Str → Dict Str → Dict Str
put_sorted k v [] = (k, v) ∷ []
put_sorted k v ((j, w) ∷ d) =
    let rest = put_sorted k v d in
    if str_eq j k then (k, v) ∷ d else if str_ltb j k then (j, w) ∷ rest else (k, v) ∷ (j, w) ∷ d

lookup-put_sorted :
    (k v j : Str) (d : Dict Str)
    → lookup j (put_sorted k v d) ≡ (if str_eq k j then some v else lookup j d)
unfolding put_sorted
lookup-put_sorted k v j [] = refl
lookup-put_sorted k v j ((i, w) ∷ d) =
    ground (arith, str_eq_iff k j, str_eq_iff i k, str_eq_iff i j, lookup-put_sorted k v j d)

All-put_sorted :
    (i k v : Str) (d : Dict Str)
    → str_ltb i k ≡ true
    → All (λ e. str_ltb i e.0 ≡ true) d
    → All (λ e. str_ltb i e.0 ≡ true) (put_sorted k v d)
unfolding put_sorted
All-put_sorted i k v [] h a = (h, tt)
All-put_sorted i k v ((j, w) ∷ d) h a = elim (Bool-cases (str_eq j k)) [
  | inl same ↦ rw same (h, a.1)
  | inr apart ↦ elim (Bool-cases (str_ltb j k)) [
    | inl below ↦ rw (apart, below) (a.0, All-put_sorted i k v d h a.1)
    | inr above ↦ rw (apart, above) (h, a)
  ]
]

All-later :
    (i k : Str) (d : Dict Str)
    → str_ltb i k ≡ true
    → All (λ e. str_ltb k e.0 ≡ true) d
    → All (λ e. str_ltb i e.0 ≡ true) d
All-later i k [] h a = tt
All-later i k ((j, w) ∷ d) h a = (str_ltb_trans i k j h a.0, All-later i k d h a.1)

pub put_sorted-IsSorted : (k v : Str) (d : Dict Str) → IsSorted d → IsSorted (put_sorted k v d)
unfolding put_sorted
put_sorted-IsSorted k v [] h = (tt, tt)
put_sorted-IsSorted k v ((j, w) ∷ d) h = elim (Bool-cases (str_eq j k)) [
  | inl same ↦ let e = (str_eq_iff j k).0 same in rw same (rw e at h.0, h.1)
  | inr apart ↦ elim (Bool-cases (str_ltb j k)) [
    | inl below ↦
        rw (apart, below) (All-put_sorted j k v d below h.0, put_sorted-IsSorted k v d h.1)
    | inr above ↦
        let lt = str_ltb_total j k above apart in
        rw (apart, above) ((lt, All-later k j d lt h.0), h)
  ]
]

All-erase :
    (i k : Str) (d : Dict Str)
    → All (λ e. str_ltb i e.0 ≡ true) d
    → All (λ e. str_ltb i e.0 ≡ true) (erase k d)
All-erase i k [] a = tt
All-erase i k ((j, w) ∷ d) a = elim (Bool-cases (str_eq j k)) [
  | inl same ↦ rw same (All-erase i k d a.1)
  | inr apart ↦ rw apart (a.0, All-erase i k d a.1)
]

pub erase-IsSorted : (k : Str) (d : Dict Str) → IsSorted d → IsSorted (erase k d)
erase-IsSorted k [] h = tt
erase-IsSorted k ((j, w) ∷ d) h = elim (Bool-cases (str_eq j k)) [
  | inl same ↦ rw same (erase-IsSorted k d h.1)
  | inr apart ↦ rw apart (All-erase j k d h.0, erase-IsSorted k d h.1)
]

pub record Bucket : Type 0 where
  pub pairs : Dict Str
  pub sorted : IsSorted pairs

abbrev pub memory : Bolt Bucket
memory = record {
  empty = record { pairs = []; sorted = tt };
  get = λ b k. lookup k b.pairs;
  put = λ b k v. some (record {
    pairs = put_sorted k v b.pairs;
    sorted = put_sorted-IsSorted k v b.pairs b.sorted;
  });
  delete =
      λ b k. some (record { pairs = erase k b.pairs; sorted = erase-IsSorted k b.pairs b.sorted });
  entries = λ b. b.pairs;
  seek = λ b k. drop_below k b.pairs;
}

pub memory-BoltLaws : BoltLaws memory
memory-BoltLaws = record {
  get-put = λ b b' k v j e.
      sym (ap (λ (c : Bucket). lookup j c.pairs) (some-injective _ _ e))
      ∙ (lookup-put_sorted k v j b.pairs);
  get-delete = λ b b' k j e.
      sym (ap (λ (c : Bucket). lookup j c.pairs) (some-injective _ _ e))
      ∙ (lookup-erase k j b.pairs);
  get-entries = λ b k. refl;
  entries-IsSorted = λ b. b.sorted;
  seek-entries = λ b k. refl;
}
