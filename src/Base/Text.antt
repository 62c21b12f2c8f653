-- ===== src/Base/Text.antt =====
-- Go strings: lists of bytes, with the functions of packages `strings` and `strconv` that the
-- sources use.
use Prim.Native.Char.{code}
use Prim.Native.String.{String}
use Prim.Native.Nat.{ℕ, zero, suc, ◌+◌, ◌/◌, ◌%◌}
use mathlib.Core.Path.{◌≡◌, refl}
use mathlib.Core.Logic.{◌↔◌}
use mathlib.Core.Bool.{Bool, true, false, ◌&&◌}
use mathlib.Core.List.{List, [], ◌∷◌}
use native.Mathlib.Omega.{arith}
use kogia.Base.Tests.{ltb, ◌==◌, if◌then◌else◌}

abbrev pub Str : Type 0
Str = List ℕ

-- The bytes of an ASCII literal.
abbrev pub codes : String → Str
codes String.[] = []
codes (String.◌∷◌ c s) = code c ∷ codes s

abbrev pub str_eq : Str → Str → Bool
str_eq [] [] = true
str_eq [] (d ∷ t) = false
str_eq (c ∷ s) [] = false
str_eq (c ∷ s) (d ∷ t) = c == d && str_eq s t

pub str_eq_refl : (s : Str) → str_eq s s ≡ true
str_eq_refl [] = refl
str_eq_refl (c ∷ s) = ground (arith, str_eq_refl s)

pub eq_of_str_eq : (s t : Str) → str_eq s t ≡ true → s ≡ t
eq_of_str_eq [] [] h = refl
eq_of_str_eq [] (d ∷ t) h = cc
eq_of_str_eq (c ∷ s) [] h = cc
eq_of_str_eq (c ∷ s) (d ∷ t) h = ground (arith, eq_of_str_eq s t)

pub str_eq_iff : (s t : Str) → (str_eq s t ≡ true) ↔ (s ≡ t)
str_eq_iff s t = (eq_of_str_eq s t, λ e. rw e (str_eq_refl t))

-- `strings.HasPrefix(s, p)`
abbrev pub has_prefix : Str → Str → Bool
has_prefix s [] = true
has_prefix [] (d ∷ p) = false
has_prefix (c ∷ s) (d ∷ p) = c == d && has_prefix s p

-- `strings.TrimPrefix(s, p)`
abbrev pub strip : Str → Str → Str
strip s [] = s
strip [] (d ∷ p) = []
strip (c ∷ s) (d ∷ p) = strip s p

abbrev pub trim_prefix : Str → Str → Str
trim_prefix s p = if has_prefix s p then strip s p else s

-- `strings.Cut(s, sep)` at a separator of one byte: before, after, found.
abbrev pub cut : Str → ℕ → Str × Str × Bool
cut [] sep = ([], [], false)
cut (c ∷ s) sep =
    let (before, after, found) = cut s sep in
    if c == sep then ([], s, true) else (c ∷ before, after, found)

-- `strconv.FormatUint(n, 10)`: an unsigned 64-bit number has 20 digits at most.
unfoldable pub digits_from : ℕ → ℕ → Str → Str
digits_from zero n acc = acc
digits_from (suc f) n acc =
    let acc' = (b'0' + n % 10) ∷ acc in
    let rest = digits_from f (n / 10) acc' in if ltb n 10 then acc' else rest

unfoldable pub format_uint : ℕ → Str
unfolding digits_from
format_uint n = digits_from 20 n []
