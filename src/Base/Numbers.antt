-- ===== src/Base/Numbers.antt =====
-- Numbers in texts, as package strconv reads them.
use Prim.Native.Nat.{ℕ, zero, suc, ◌≤◌, ◌+◌, ◌-◌, ◌*◌, ◌/◌, ◌%◌, ◌^◌, ◌<◌}
use mathlib.Core.Bool.{Bool, true, false, ◌&&◌}
use mathlib.Core.List.{[], ◌∷◌}
use mathlib.Core.Option.{Option, none, some}
use kogia.Base.Tests.{leb, ltb, ◌==◌, if◌then◌else◌, Bool-cases}
use kogia.Base.Text.{Str, digits_from, format_uint}
use mathlib.Core.Path.{◌≡◌, refl, ap, ◌∙◌}
use mathlib.Core.Logic.{inl, inr, ◌≢◌, ◌⊎◌}
use kogia.Base.Split.{Lacks}
use native.Mathlib.Omega.{arith}
use kogia.Base.Int.{ℤ, pos, negsuc}

-- The value of a text of digits, after the digits of `n`.
unfoldable pub read_digits : Str → ℕ → Option ℕ
read_digits [] n = some n
read_digits (c ∷ s) n =
    let rest = read_digits s (n * 10 + (c - b'0')) in
    if leb b'0' c && leb c b'9' then rest else none

-- `strconv.ParseUint(s, 10, bits)`: no sign, and below 2 ^ bits.
unfoldable pub parse_uint : ℕ → Str → Option ℕ
parse_uint bits [] = none
parse_uint bits (c ∷ s) = elim (read_digits (c ∷ s) 0) [
  | none ↦ none
  | some n ↦ if ltb n (2 ^ bits) then some n else none
]

-- How the reading of a signed number ends.
pub data Number : Type 0 where
  malformed : Number
  too_large : Bool → Number  -- with its sign: whether it is negative
  number : ℤ → Number

abbrev pub negate : ℕ → ℤ
negate n = if n == 0 then pos 0 else negsuc (n - 1)

abbrev signed : Bool → Option ℕ → Number
signed neg none = malformed
signed false (some n) = if ltb n (2 ^ 63) then number (pos n) else too_large false
signed true (some n) = if leb n (2 ^ 63) then number (negate n) else too_large true

abbrev unsigned : Str → Option ℕ
unsigned [] = none
unsigned (c ∷ s) = read_digits (c ∷ s) 0

-- `strconv.ParseInt(s, 10, 64)`, and `strconv.Atoi`.
unfoldable pub parse_int : Str → Number
unfolding read_digits
parse_int [] = malformed
parse_int (c ∷ s) =
    if c == b'-'
    then signed true (unsigned s)
    else if c == b'+'
    then signed false (unsigned s)
    else signed false (unsigned (c ∷ s))

-- The value that `strconv.Atoi` returns, its error ignored: one that is out of range is the nearest.
abbrev pub value_of : Number → ℤ
value_of malformed = pos 0
value_of (too_large false) = pos (2 ^ 63 - 1)
value_of (too_large true) = negsuc (2 ^ 63 - 1)
value_of (number n) = n

-- A product in int64, which wraps around.
abbrev of_bits : ℕ → ℤ
of_bits r = if ltb r (2 ^ 63) then pos r else negsuc (2 ^ 64 - 1 - r)

abbrev pub times : ℤ → ℕ → ℤ
times (pos n) k = of_bits (n * k % 2 ^ 64)
times (negsuc n) k = of_bits ((2 ^ 64 - (n + 1) * k % 2 ^ 64) % 2 ^ 64)

-- A quotient, which Go rounds towards 0.
abbrev pub quotient : ℤ → ℕ → ℤ
quotient (pos n) k = pos (n / k)
quotient (negsuc n) k = negate ((n + 1) / k)

-- `uint64(max(n, 0))`
abbrev pub is_positive : ℤ → Bool
is_positive (pos zero) = false
is_positive (pos (suc n)) = true
is_positive (negsuc n) = false

abbrev pub at_least_zero : ℤ → ℕ
at_least_zero (pos n) = n
at_least_zero (negsuc n) = 0

abbrev tens : ℕ → ℕ
tens zero = 1
tens (suc f) = tens f * 10

abbrev IsDigits : Str → Type 0
IsDigits [] = Unit
IsDigits (c ∷ s) = (b'0' ≤ c) × (c ≤ b'9') × IsDigits s

read_digits-cons :
    (d : ℕ) (s : Str) (n : ℕ) → d < 10 → read_digits ((b'0' + d) ∷ s) n ≡ read_digits s (n * 10 + d)
unfolding read_digits
read_digits-cons d s n lt = ground arith

-- The digits of a number, read again.
read_digits-digits_from :
    (f n : ℕ) (acc : Str)
    → n < tens f * 10
    → read_digits (digits_from (suc f) n acc) 0 ≡ read_digits acc n
unfolding digits_from
read_digits-digits_from zero n acc lt =
    let small : ltb n 10 ≡ true = ground arith in
    rw (small, read_digits-cons (n % 10) acc 0 (omega arith)) (ap (read_digits acc) (omega arith))
read_digits-digits_from (suc f) n acc lt = elim (Bool-cases (ltb n 10)) [
  | inl small ↦
      rw (small, read_digits-cons (n % 10) acc 0 (omega arith))
        (ap (read_digits acc) (ground (arith, small)))
  | inr big ↦
      rw (digits_from, big)
        (read_digits-digits_from f (n / 10) ((b'0' + n % 10) ∷ acc) (omega (arith, lt))
          ∙ read_digits-cons (n % 10) acc (n / 10) (omega arith)
          ∙ ap (read_digits acc) (omega arith))
]

digits_from-not_empty : (f n : ℕ) (acc : Str) → acc ≢ [] → digits_from f n acc ≢ []
unfolding digits_from
digits_from-not_empty zero n acc h = h
digits_from-not_empty (suc f) n acc h = elim (Bool-cases (ltb n 10)) [
  | inl small ↦ λ e. absurd (cc (rw small at e))
  | inr big ↦ λ e.
      digits_from-not_empty f (n / 10) ((b'0' + n % 10) ∷ acc) (λ e'. absurd (cc e')) (rw big at e)
]

pub format_uint-not_empty : (n : ℕ) → format_uint n ≢ []
unfolding format_uint digits_from
format_uint-not_empty n = elim (Bool-cases (ltb n 10)) [
  | inl small ↦ λ e. absurd (cc (rw small at e))
  | inr big ↦ λ e.
      digits_from-not_empty 19 (n / 10) ((b'0' + n % 10) ∷ []) (λ e'. absurd (cc e')) (rw big at e)
]

parse_uint_lem :
    (bits : ℕ) (s : Str) (n : ℕ)
    → s ≢ []
    → read_digits s 0 ≡ some n
    → n < 2 ^ bits
    → parse_uint bits s ≡ some n
unfolding parse_uint
parse_uint_lem bits [] n full e lt = absurd (full refl)
parse_uint_lem bits (c ∷ s) n full e lt = ground (arith, e, lt)

-- A number of up to 64 bits is read back from its decimal text.
pub parse_uint-format_uint :
    (bits n : ℕ) → n < 2 ^ 64 → n < 2 ^ bits → parse_uint bits (format_uint n) ≡ some n
unfolding format_uint read_digits
parse_uint-format_uint bits n small lt =
    parse_uint_lem bits (format_uint n) n (format_uint-not_empty n)
      (read_digits-digits_from 19 n [] (omega arith)) lt

-- Only digits: no byte above '9' or below '0'.
digits_from-Lacks :
    (sep f n : ℕ) (acc : Str)
    → (sep < b'0') ⊎ (b'9' < sep)
    → Lacks sep acc
    → Lacks sep (digits_from f n acc)
unfolding digits_from
digits_from-Lacks sep zero n acc out h = h
digits_from-Lacks sep (suc f) n acc out h =
    let digit : ((b'0' + n % 10) == sep) ≡ false = ground (arith, out) in
    elim (Bool-cases (ltb n 10)) [
      | inl small ↦ rw small (digit, h)
      | inr big ↦ rw big (digits_from-Lacks sep f (n / 10) ((b'0' + n % 10) ∷ acc) out (digit, h))
    ]

pub format_uint-Lacks : (sep n : ℕ) → (sep < b'0') ⊎ (b'9' < sep) → Lacks sep (format_uint n)
unfolding format_uint
format_uint-Lacks sep n out = digits_from-Lacks sep 20 n [] out tt
