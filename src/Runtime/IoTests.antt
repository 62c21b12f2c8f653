-- ===== src/Runtime/IoTests.antt =====
-- The theorems on mounts and on the output of a container at small inputs.
use kogia.Base.{
  ℕ, ◌==◌, if◌then◌else◌, Bool-cases, inl, inr, ap, ◌⊎◌, ◌≢◌, ◌≡◌, refl, true, some, List, [], ◌∷◌,
  ◌++◌, Str, codes, ok, err, panic,
}
use kogia.Base.Maps.{Dict}
use kogia.Base.Split.{split, split3}
use kogia.Runtime.MountTypes.{BindParts, MountResult, VolumeResolver}
use kogia.Runtime.Mounts.{
  read_options, read_bind, ensure_mount, parse_bind, add_each, add_anonymous, build_volume_mounts,
}
use kogia.Runtime.Destinations.{OneEach, build_volume_mounts-OneEach}
use kogia.Runtime.Stdio.{log_chunks}
use kogia.Runtime.StdioLaws.{Cut, log_chunks-concat}

abbrev bind : Str
bind = codes "data:/var:rw,shared"

-- The same destination, spelled in another way.
abbrev again : Str
again = codes "data:/var/:ro"

abbrev parts : BindParts
parts = record {
  source = codes "data";
  destination = codes "/var";
  rw = true;
  propagation = codes "shared";
}

-- A resolver that has every volume.
abbrev every_volume : VolumeResolver (Unit {0}) (Unit {0})
every_volume name v = (ok (record { name = name; mountpoint = codes "/vol/" ++ name }), v)

-- A path without the slashes at its end.
abbrev add_char : ℕ → Str → Str
add_char c [] = if c == b'/' then [] else c ∷ []
add_char c (d ∷ s) = c ∷ d ∷ s

abbrev clean : Str → Str
clean [] = []
clean (c ∷ path) = add_char c (clean path)

add_char-clean : (c : ℕ) (s : Str) → clean s ≡ s → clean (add_char c s) ≡ add_char c s
add_char-clean c [] e = elim (Bool-cases (c == b'/')) [
  | inl slash ↦ rw slash refl
  | inr other ↦ rw (other, other) refl
]
add_char-clean c (d ∷ s) e = ap (add_char c) e

clean_twice : (path : Str) → clean (clean path) ≡ clean path
clean_twice [] = refl
clean_twice (c ∷ path) = add_char-clean c (clean path) (clean_twice path)

abbrev mounts : Dict MountResult
mounts =
    elim (build_volume_mounts clean (some every_volume) (bind ∷ again ∷ []) [] (codes "/log" ∷ [])
      tt).0 [ ok seen ↦ seen | err e ↦ [] | panic ↦ [] ]

mounts_built :
    build_volume_mounts clean (some every_volume) (bind ∷ again ∷ []) [] (codes "/log" ∷ []) tt
    ≡ (ok mounts, tt)
unfolding build_volume_mounts add_each add_anonymous parse_bind ensure_mount read_bind read_options
    split split3
mounts_built = refl

build_volume_mounts-OneEach_example : OneEach clean mounts
build_volume_mounts-OneEach_example =
    build_volume_mounts-OneEach clean (some every_volume) clean_twice (bind ∷ again ∷ []) []
      (codes "/log" ∷ []) tt tt mounts mounts_built

log_chunks-concat_example :
    (lines : List Str) × (left : Str) × Cut (codes "a\nbc\nd") lines left
    × (((left ≡ []) × (log_chunks (codes "a\nb" ∷ codes "c\nd" ∷ []) [] ≡ lines))
        ⊎ ((left ≢ [])
            × (log_chunks (codes "a\nb" ∷ codes "c\nd" ∷ []) []
                ≡ lines ++ (left ++ codes "\n") ∷ [])))
log_chunks-concat_example = log_chunks-concat (codes "a\nb" ∷ codes "c\nd" ∷ [])

abbrev early : List (Str × Str)
early = (codes "hello\n", codes "stdout") ∷ []
