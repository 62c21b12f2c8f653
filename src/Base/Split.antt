-- ===== src/Base/Split.antt =====
-- `strings.Split`, `strings.SplitN` and `strings.Join` at a separator of one byte.
use Prim.Native.Nat.{ℕ}
use mathlib.Core.Path.{◌≡◌, refl, ap, ◌∙◌}
use mathlib.Core.Logic.{inl, inr, ◌≢◌}
use mathlib.Core.Bool.{true, false}
use mathlib.Core.List.{List, [], ◌∷◌, ◌++◌}
use native.Mathlib.Omega.{arith}
use kogia.Base.Tests.{◌==◌, ==_iff, if◌then◌else◌, Bool-cases}
use kogia.Base.Lists.{All, append_assoc}
use kogia.Base.Text.{Str, cut}

abbrev add_byte : ℕ → List Str → List Str
add_byte c [] = (c ∷ []) ∷ []
add_byte c (part ∷ parts) = (c ∷ part) ∷ parts

-- `strings.Split(s, sep)`
unfoldable pub split : ℕ → Str → List Str
split sep [] = [] ∷ []
split sep (c ∷ s) = let rest = split sep s in if c == sep then [] ∷ rest else add_byte c rest

-- `strings.SplitN(s, sep, 3)`
unfoldable pub split3 : ℕ → Str → List Str
split3 sep s =
    let (a, rest, more) = cut s sep in
    let (b, c, more') = cut rest sep in
    if more then (if more' then a ∷ b ∷ c ∷ [] else a ∷ b ∷ []) else a ∷ []

-- `strings.Join(parts, sep)`
unfoldable pub join : ℕ → List Str → Str
join sep [] = []
join sep (part ∷ []) = part
join sep (part ∷ next ∷ parts) = part ++ sep ∷ join sep (next ∷ parts)

-- The byte is not in the text.
abbrev pub Lacks : ℕ → Str → Type 0
Lacks sep [] = Unit
Lacks sep (c ∷ s) = ((c == sep) ≡ false) × Lacks sep s

pub split-Lacks : (sep : ℕ) (s : Str) → All (Lacks sep) (split sep s)
unfolding split
split-Lacks sep [] = (tt, tt)
split-Lacks sep (c ∷ s) = elim (Bool-cases (c == sep)) [
  | inl here ↦ rw (here, split) (tt, split-Lacks sep s)
  | inr other ↦ rw (other, split) (add_byte-Lacks sep c (split sep s) other (split-Lacks sep s))
]
  where
    add_byte-Lacks :
        (sep c : ℕ) (parts : List Str)
        → (c == sep) ≡ false
        → All (Lacks sep) parts
        → All (Lacks sep) (add_byte c parts)
    add_byte-Lacks sep c [] e h = ((e, tt), tt)
    add_byte-Lacks sep c (part ∷ parts) e h = ((e, h.0), h.1)

split_part : (sep : ℕ) (part : Str) → Lacks sep part → split sep part ≡ part ∷ []
unfolding split
split_part sep [] h = refl
split_part sep (c ∷ part) h = rw (h.0, split) (rw (split_part sep part h.1) refl)

pub split_append :
    (sep : ℕ) (part s : Str) → Lacks sep part → split sep (part ++ sep ∷ s) ≡ part ∷ split sep s
unfolding split
split_append sep [] s h = ground arith
split_append sep (c ∷ part) s h = rw (h.0, split) (rw (split_append sep part s h.1) refl)

-- Joined parts are split again.
pub split-join :
    (sep : ℕ) (part : Str) (parts : List Str)
    → All (Lacks sep) (part ∷ parts)
    → split sep (join sep (part ∷ parts)) ≡ part ∷ parts
unfolding join
split-join sep part [] h = split_part sep part h.0
split-join sep part (next ∷ parts) h =
    split_append sep part (join sep (next ∷ parts)) h.0
    ∙ ap (λ (t : List Str). part ∷ t) (split-join sep next parts h.1)

pub cut-Lacks : (sep : ℕ) (s : Str) → Lacks sep (cut s sep).0
cut-Lacks sep [] = tt
cut-Lacks sep (c ∷ s) = elim (Bool-cases (c == sep)) [
  | inl here ↦ rw here tt
  | inr other ↦ rw other (other, cut-Lacks sep s)
]

pub cut-append : (sep : ℕ) (a s : Str) → Lacks sep a → cut (a ++ sep ∷ s) sep ≡ (a, s, true)
cut-append sep [] s h = ground arith
cut-append sep (c ∷ a) s h = ground (arith, h.0, cut-append sep a s h.1)

-- A text that was cut is its two sides.
pub cut_found :
    (sep : ℕ) (s : Str) → (cut s sep).2 ≡ true → s ≡ (cut s sep).0 ++ sep ∷ (cut s sep).1
cut_found sep [] h = cc
cut_found sep (c ∷ s) h = elim (Bool-cases (c == sep)) [
  | inl here ↦ rw here (ap (λ (b : ℕ). b ∷ s) ((==_iff c sep).0 here))
  | inr other ↦ rw other (ap (λ (t : Str). c ∷ t) (cut_found sep s (rw other at h)))
]

-- A text in which the byte was not found.
pub cut_missing : (sep : ℕ) (s : Str) → (cut s sep).2 ≡ false → Lacks sep s × ((cut s sep).0 ≡ s)
cut_missing sep [] h = (tt, refl)
cut_missing sep (c ∷ s) h = elim (Bool-cases (c == sep)) [
  | inl here ↦ absurd (ground (arith, here, h))
  | inr other ↦
      let (lacks, same) = cut_missing sep s (rw other at h) in
      ((other, lacks), rw other (ap (λ (t : Str). c ∷ t) same))
]

-- The three parts of a text that is put together of them.
pub split3-join :
    (sep : ℕ) (a b c : Str)
    → Lacks sep a
    → Lacks sep b
    → split3 sep (a ++ sep ∷ (b ++ sep ∷ c)) ≡ a ∷ b ∷ c ∷ []
unfolding split3
split3-join sep a b c la lb =
    ground (arith, cut-append sep a (b ++ sep ∷ c) la, cut-append sep b c lb)

-- What a text with two parts, or with three, looks like.
pub split3_two :
    (sep : ℕ) (s a b : Str)
    → split3 sep s ≡ a ∷ b ∷ []
    → Lacks sep a × Lacks sep b × ((c : Str) → s ++ sep ∷ c ≡ a ++ sep ∷ (b ++ sep ∷ c))
unfolding split3
split3_two sep s a b h = elim (Bool-cases (cut s sep).2) [
  | inr one ↦ absurd (ground (arith, h, one))
  | inl more ↦ elim (Bool-cases (cut (cut s sep).1 sep).2) [
    | inl three ↦ absurd (ground (arith, h, more, three))
    | inr two ↦
        let (lb, same) = cut_missing sep (cut s sep).1 two in
        let parts : (cut s sep).0 ∷ (cut (cut s sep).1 sep).0 ∷ [] ≡ a ∷ b ∷ [] =
          ground (arith, h, more, two) in
        let first : (cut s sep).0 ≡ a = ground (arith, parts) in
        let second : (cut s sep).1 ≡ b = ground (arith, parts, same) in
        (
          rw (← first) (cut-Lacks sep s),
          rw (← second) lb,
          λ c.
              rw (← first, ← second)
                (ap (λ (t : Str). t ++ sep ∷ c) (cut_found sep s more)
                  ∙ append_assoc (cut s sep).0 (sep ∷ (cut s sep).1) (sep ∷ c)),
        )
  ]
]

pub split3_three :
    (sep : ℕ) (s a b c : Str) (rest : List Str)
    → split3 sep s ≡ a ∷ b ∷ c ∷ rest
    → Lacks sep a × Lacks sep b
unfolding split3
split3_three sep s a b c rest h = elim (Bool-cases (cut s sep).2) [
  | inr one ↦ absurd (ground (arith, h, one))
  | inl more ↦ elim (Bool-cases (cut (cut s sep).1 sep).2) [
    | inr two ↦ absurd (ground (arith, h, more, two))
    | inl three ↦
        let parts : (cut s sep).0 ∷ (cut (cut s sep).1 sep).0 ∷ (cut (cut s sep).1 sep).1 ∷ []
            ≡ a ∷ b ∷ c ∷ rest =
          ground (arith, h, more, three) in
        let first : (cut s sep).0 ≡ a = ground (arith, parts) in
        let second : (cut (cut s sep).1 sep).0 ≡ b = ground (arith, parts) in
        (rw (← first) (cut-Lacks sep s), rw (← second) (cut-Lacks sep (cut s sep).1))
  ]
]

pub split_not_empty : (sep : ℕ) (s : Str) → split sep s ≢ []
unfolding split
split_not_empty sep [] e = cc
split_not_empty sep (c ∷ s) e = elim (Bool-cases (c == sep)) [
  | inl here ↦ absurd (ground (arith, here, e))
  | inr other ↦ add_byte_not_empty c (split sep s) (rw (other, split) at e)
]
  where
    add_byte_not_empty : (c : ℕ) (parts : List Str) → add_byte c parts ≢ []
    add_byte_not_empty c [] e = cc
    add_byte_not_empty c (part ∷ parts) e = cc

pub split-join_parts :
    (sep : ℕ) (parts : List Str)
    → All (Lacks sep) parts
    → parts ≢ []
    → split sep (join sep parts) ≡ parts
split-join_parts sep [] h full = absurd (full refl)
split-join_parts sep (part ∷ parts) h full = split-join sep part parts h
