-- ===== src/Base/Bits.antt =====
-- The operations on one byte that the Go sources use, and their laws, checked at all 256 values.
use Prim.Native.Nat.{
  ℕ, zero, suc, ◌+◌, ◌/◌, ◌%◌, ◌^◌, ◌<◌, ◌≤◌, bit_and, bit_or, bit_xor, bit_and-bitwise,
}
use mathlib.Core.Path.{◌≡◌, refl}
use mathlib.Core.Logic.{◌≢◌}
use mathlib.Core.Bool.{Bool, true, false, ◌&&◌, ◌||◌, not}
use native.Mathlib.Omega.{arith}
use kogia.Base.Tests.{ltb, leb, ◌==◌, if◌then◌else◌}

-- `b & (1 << k) != 0`
unfoldable pub test_bit : ℕ → ℕ → Bool
test_bit b k = not (bit_and b (2 ^ k) == 0)

pub test_bit-zero : (k : ℕ) → test_bit 0 k ≡ false
unfolding test_bit
test_bit-zero k = rw (bit_and-bitwise 0 (2 ^ k))

-- `b |= 1 << k`
unfoldable pub or_bit : ℕ → ℕ → ℕ
or_bit b k = bit_or b (2 ^ k)

-- `b &^= 1 << k`
unfoldable pub and_not_bit : ℕ → ℕ → ℕ
and_not_bit b k = bit_and b (bit_xor (2 ^ k) 255)

-- `^b >> s` at type byte
unfoldable pub inverted_from : ℕ → ℕ → ℕ
inverted_from b s = bit_xor b 255 / 2 ^ s

-- `bits.TrailingZeros8`: 8 at zero.
trailing_zeros_from : ℕ → ℕ → ℕ
trailing_zeros_from zero x = 0
trailing_zeros_from (suc f) x = if x % 2 == 1 then 0 else suc (trailing_zeros_from f (x / 2))

unfoldable pub trailing_zeros8 : ℕ → ℕ
unfolding trailing_zeros_from
trailing_zeros8 x = trailing_zeros_from 8 x

-- The test holds of every number under the bound.
unfoldable pub every_below : (bound : ℕ) → (ℕ → Bool) → Bool
every_below zero test = true
every_below (suc top) test = every_below top test && test top

pub every_below_at :
    (bound : ℕ) (test : ℕ → Bool) (i : ℕ)
    → every_below bound test ≡ true
    → i < bound
    → test i ≡ true
unfolding every_below
every_below_at (suc top) test i all under = ground (arith, every_below_at top test i)
every_below_at zero test i all under = absurd (omega arith)

beq : Bool → Bool → Bool
beq true b = b
beq false b = not b

beq_eq : (a b : Bool) → beq a b ≡ true → a ≡ b
unfolding beq
beq_eq a b h = ground arith

-- A test of every byte with every pair of bit positions.
for_all_bits : (ℕ → ℕ → ℕ → Bool) → Bool
for_all_bits p = every_below 256 (λ b. every_below 8 (λ j. every_below 8 (p b j)))

for_all_bits_sound :
    (p : ℕ → ℕ → ℕ → Bool)
    → for_all_bits p ≡ true
    → (b j k : ℕ) → b < 256
    → j < 8
    → k < 8
    → p b j k ≡ true
unfolding for_all_bits
for_all_bits_sound p h b j k hb hj hk =
    every_below_at 8 (p b j) k
      (every_below_at 8 (λ i. every_below 8 (p b i)) j
        (every_below_at 256 (λ c. every_below 8 (λ i. every_below 8 (p c i))) b h hb) hj)
      hk

set_row : ℕ → ℕ → ℕ → Bool
unfolding or_bit test_bit beq
set_row b j k = beq (test_bit (or_bit b j) k) (j == k || test_bit b k) && ltb (or_bit b j) 256

clear_row : ℕ → ℕ → ℕ → Bool
unfolding and_not_bit test_bit beq
clear_row b j k =
    beq (test_bit (and_not_bit b j) k) (not (j == k) && test_bit b k) && ltb (and_not_bit b j) 256

undo_row : ℕ → ℕ → ℕ → Bool
unfolding or_bit and_not_bit test_bit
undo_row b j k = test_bit b j || and_not_bit (or_bit b j) j == b

-- The first free bit from `s` on, as the scan of one byte computes it.
scan_row : ℕ → ℕ → ℕ → Bool
unfolding inverted_from trailing_zeros8 test_bit
scan_row b s k =
    let x = inverted_from b s in
    if x == 0
    then ltb k s || test_bit b k
    else ltb (s + trailing_zeros8 x) 8
      && not (test_bit b (s + trailing_zeros8 x))
      && (ltb k s || leb (s + trailing_zeros8 x) k || test_bit b k)

set_table : for_all_bits set_row ≡ true
unfolding for_all_bits every_below set_row
set_table = refl

clear_table : for_all_bits clear_row ≡ true
unfolding for_all_bits every_below clear_row
clear_table = refl

undo_table : for_all_bits undo_row ≡ true
unfolding for_all_bits every_below undo_row
undo_table = refl

scan_table : for_all_bits scan_row ≡ true
unfolding for_all_bits every_below scan_row
scan_table = refl

pub test_bit-or_bit :
    (b j k : ℕ)
    → b < 256
    → j < 8
    → k < 8
    → (test_bit (or_bit b j) k ≡ (j == k || test_bit b k)) × (or_bit b j < 256)
unfolding set_row
test_bit-or_bit b j k hb hj hk =
    let h = for_all_bits_sound set_row set_table b j k hb hj hk in
    ground (arith, beq_eq (test_bit (or_bit b j) k) (j == k || test_bit b k))

pub test_bit-and_not_bit :
    (b j k : ℕ)
    → b < 256
    → j < 8
    → k < 8
    → (test_bit (and_not_bit b j) k ≡ (not (j == k) && test_bit b k)) × (and_not_bit b j < 256)
unfolding clear_row
test_bit-and_not_bit b j k hb hj hk =
    let h = for_all_bits_sound clear_row clear_table b j k hb hj hk in
    ground (arith, beq_eq (test_bit (and_not_bit b j) k) (not (j == k) && test_bit b k))

pub and_not_bit-or_bit :
    (b j : ℕ) → b < 256 → j < 8 → test_bit b j ≡ false → and_not_bit (or_bit b j) j ≡ b
unfolding undo_row
and_not_bit-or_bit b j hb hj free =
    let h = for_all_bits_sound undo_row undo_table b j 0 hb hj (omega arith) in ground arith

module _ (b s : ℕ) (hb : b < 256) (hs : s < 8) where
  -- Nothing is left of the inverted byte: every bit from `s` on is set.
  pub inverted_zero : inverted_from b s ≡ 0 → (k : ℕ) → s ≤ k → k < 8 → test_bit b k ≡ true
  unfolding scan_row
  inverted_zero e k sk hk =
      let h = for_all_bits_sound scan_row scan_table b s k hb hs hk in ground arith

  -- Otherwise its trailing zeros lead to the first bit that is not set.
  pub inverted_first :
      inverted_from b s ≢ 0
      → (s + trailing_zeros8 (inverted_from b s) < 8)
        × (test_bit b (s + trailing_zeros8 (inverted_from b s)) ≡ false)
  unfolding scan_row
  inverted_first e =
      let h = for_all_bits_sound scan_row scan_table b s 0 hb hs (omega arith) in ground arith

  pub inverted_before :
      inverted_from b s ≢ 0
      → (k : ℕ) → s ≤ k
      → k < s + trailing_zeros8 (inverted_from b s)
      → test_bit b k ≡ true
  unfolding scan_row
  inverted_before e k sk hk =
      let h =
        for_all_bits_sound scan_row scan_table b s k hb hs (omega (arith, inverted_first e)) in
      ground arith
