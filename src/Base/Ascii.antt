-- ===== src/Base/Ascii.antt =====
-- `ToLower`, `ToUpper`, `EqualFold`, `TrimSpace` and `HasSuffix` of package strings, on ASCII texts.
use Prim.Native.Nat.{ℕ, ◌+◌, ◌-◌}
use mathlib.Core.Bool.{Bool, ◌&&◌, ◌||◌}
use mathlib.Core.List.{[], ◌∷◌}
use kogia.Base.Tests.{leb, ◌==◌, if◌then◌else◌}
use kogia.Base.Text.{Str, str_eq}

abbrev pub lower : ℕ → ℕ
lower c = if leb b'A' c && leb c b'Z' then c + 32 else c

abbrev pub upper : ℕ → ℕ
upper c = if leb b'a' c && leb c b'z' then c - 32 else c

unfoldable pub to_lower : Str → Str
to_lower [] = []
to_lower (c ∷ s) = lower c ∷ to_lower s

unfoldable pub to_upper : Str → Str
to_upper [] = []
to_upper (c ∷ s) = upper c ∷ to_upper s

unfoldable pub equal_fold : Str → Str → Bool
equal_fold s t = str_eq (to_lower s) (to_lower t)

abbrev pub is_space : ℕ → Bool
is_space c = c == 32 || (leb 9 c && leb c 13)

unfoldable pub trim_left : Str → Str
trim_left [] = []
trim_left (c ∷ s) = let rest = trim_left s in if is_space c then rest else c ∷ s

-- Spaces at the end go.
unfoldable pub trim_right : Str → Str
trim_right [] = []
trim_right (c ∷ s) = elim (trim_right s) [
  | [] ↦ if is_space c then [] else c ∷ []
  | d ∷ t ↦ c ∷ d ∷ t
]

unfoldable pub trim_space : Str → Str
trim_space s = trim_right (trim_left s)

-- The text without its last byte, if that is `c`.
abbrev pub last_byte : ℕ → Str → ℕ
last_byte c [] = c
last_byte c (d ∷ s) = last_byte d s

unfoldable pub drop_last : Str → Str
drop_last [] = []
drop_last (c ∷ []) = []
drop_last (c ∷ d ∷ s) = c ∷ drop_last (d ∷ s)
