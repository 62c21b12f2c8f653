-- ===== src/Base/Order.antt =====
-- The byte order of keys, and what a prefix means in it.
use mathlib.Core.Path.{◌≡◌, refl}
use mathlib.Core.Bool.{Bool, true, false}
use mathlib.Core.List.{[], ◌∷◌}
use native.Mathlib.Omega.{arith}
use kogia.Base.Tests.{ltb, ◌==◌, if◌then◌else◌}
use kogia.Base.Text.{Str, str_eq, has_prefix}

abbrev pub str_ltb : Str → Str → Bool
str_ltb s [] = false
str_ltb [] (d ∷ t) = true
str_ltb (c ∷ s) (d ∷ t) = if c == d then str_ltb s t else ltb c d

pub str_ltb_irrefl : (s : Str) → str_ltb s s ≡ false
str_ltb_irrefl [] = refl
str_ltb_irrefl (c ∷ s) = ground (arith, str_ltb_irrefl s)

pub str_ltb_trans : (s t u : Str) → str_ltb s t ≡ true → str_ltb t u ≡ true → str_ltb s u ≡ true
str_ltb_trans s t [] h k = k
str_ltb_trans s [] (e ∷ u) h k = cc
str_ltb_trans [] (d ∷ t) (e ∷ u) h k = refl
str_ltb_trans (c ∷ s) (d ∷ t) (e ∷ u) h k = ground (arith, str_ltb_trans s t u)

-- Two keys that are not ordered either way are equal.
pub str_ltb_total : (s t : Str) → str_ltb s t ≡ false → str_eq s t ≡ false → str_ltb t s ≡ true
str_ltb_total [] [] h k = cc
str_ltb_total [] (d ∷ t) h k = cc
str_ltb_total (c ∷ s) [] h k = refl
str_ltb_total (c ∷ s) (d ∷ t) h k = ground (arith, str_ltb_total s t)

-- A key with prefix `p` does not come before `p`.
pub has_prefix-not-lt : (k p : Str) → has_prefix k p ≡ true → str_ltb k p ≡ false
has_prefix-not-lt k [] h = refl
has_prefix-not-lt [] (d ∷ p) h = cc
has_prefix-not-lt (c ∷ k) (d ∷ p) h = ground (arith, has_prefix-not-lt k p)

-- Past the keys with prefix `p` there are no more of them.
pub has_prefix_past :
    (k j p : Str)
    → str_ltb k p ≡ false
    → has_prefix k p ≡ false
    → str_ltb k j ≡ true
    → has_prefix j p ≡ false
has_prefix_past k j [] a b c = b
has_prefix_past k [] (d ∷ p) a b c = refl
has_prefix_past [] (y ∷ j) (d ∷ p) a b c = cc
has_prefix_past (x ∷ k) (y ∷ j) (d ∷ p) a b c = ground (arith, has_prefix_past k j p)
