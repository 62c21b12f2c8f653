-- ===== src/Network/Ipam/Bitmap.antt =====
-- The bitmap of internal/network/ipam.go: `getBit`, `setBit`, `clearBit` and `findFirstUnset`.
use mathlib.Core.Option
use kogia.Base.{
  ℕ, zero, suc, ◌+◌, ◌*◌, ◌/◌, ◌%◌, ◌<◌, Bool, Option, none, some, List, length, get_elem?, set,
  All, ltb, leb, ◌==◌, if◌then◌else◌,
}
use kogia.Base.Bits.{test_bit, or_bit, and_not_bit, inverted_from, trailing_zeros8}

-- `[]byte`
abbrev pub Bitmap : Type 0
Bitmap = List ℕ

abbrev pub IsBitmap : Bitmap → Type 0
IsBitmap m = All (λ b. b < 256) m

-- `none` is the panic of an index out of range.
unfoldable pub get_bit : Bitmap → ℕ → Option Bool
get_bit m offset = Option.map (λ b. test_bit b (offset % 8)) (get_elem? m (offset / 8))

unfoldable pub set_bit : Bitmap → ℕ → Option Bitmap
set_bit m offset =
    Option.map (λ b. set m (offset / 8) (or_bit b (offset % 8))) (get_elem? m (offset / 8))

unfoldable pub clear_bit : Bitmap → ℕ → Option Bitmap
clear_bit m offset =
    Option.map (λ b. set m (offset / 8) (and_not_bit b (offset % 8))) (get_elem? m (offset / 8))

-- The loop of `findFirstUnset` on fuel: `none` is fuel that ran out, and `some none` is -1. A read
-- outside the bitmap is the test `byteIdx >= len(bitmap)`.
unfoldable pub scan : ℕ → Bitmap → ℕ → ℕ → Option (Option ℕ)
scan zero m i max_bits = none
scan (suc f) m i max_bits =
    let skip = scan f m ((i / 8 + 1) * 8) max_bits in
    if ltb i max_bits
    then elim (get_elem? m (i / 8)) [
      | none ↦ some none
      | some b ↦
          let inverted = inverted_from b (i % 8) in
          let offset = i / 8 * 8 + (i % 8 + trailing_zeros8 inverted) in
          if b == 0xff
          then skip
          else if inverted == 0
          then skip
          else if leb max_bits offset
          then some none
          else some (some offset)
    ]
    else some none

-- Each round goes on to the next byte, so one round more than there are bytes is enough.
unfoldable pub find_first_unset : Bitmap → ℕ → ℕ → Option ℕ
find_first_unset m start max_bits = elim (scan (length m + 1) m start max_bits) [
  | none ↦ none
  | some r ↦ r
]
