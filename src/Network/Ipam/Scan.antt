-- ===== src/Network/Ipam/Scan.antt =====
-- `findFirstUnset` finds the lowest clear bit, although it skips whole bytes.
use kogia.Base.{
  ℕ, zero, suc, ◌+◌, ◌*◌, ◌/◌, ◌%◌, ◌<◌, ◌≤◌, ◌≡◌, ◌≢◌, true, false, Option, none, some, length,
  get_elem?, ltb, leb, ◌==◌, if◌then◌else◌, inl, inr, get_elem?_of_lt, lt_of_get_elem?,
  Option-cases, Bool-cases, ==_iff, arith,
}
use kogia.Base.Bits.{
  test_bit, inverted_from, trailing_zeros8, inverted_zero, inverted_first, inverted_before,
}
use kogia.Network.Ipam.Bitmap.{Bitmap, IsBitmap, get_bit, scan, find_first_unset}
use kogia.Network.Ipam.BitLaws.{All-get_elem?, get_bit_of_byte}

-- Every bit of the bitmap from `i` up to `j` is set.
abbrev pub AllSet : Bitmap → ℕ → ℕ → Type 0
AllSet m i j = (k : ℕ) → i ≤ k → k < j → k < 8 * length m → get_bit m k ≡ some true

-- What a scan from `i` up to `max_bits` returns: the lowest clear bit, or -1 if there is none.
abbrev pub FirstUnset : Bitmap → ℕ → ℕ → Option ℕ → Type 0
FirstUnset m i max_bits none = AllSet m i max_bits
FirstUnset m i max_bits (some o) =
    (i ≤ o) × (o < max_bits) × (o < 8 * length m) × (get_bit m o ≡ some false) × AllSet m i o

abbrev Scanned : Bitmap → ℕ → ℕ → Option (Option ℕ) → Type 0
Scanned m i max_bits none = ⊥
Scanned m i max_bits (some r) = FirstUnset m i max_bits r

module _ (m : Bitmap) (i b : ℕ) (h : IsBitmap m) (e : get_elem? m (i / 8) ≡ some b) where
  small : b < 256
  small = All-get_elem? m (i / 8) b h e

  bit_here : (k : ℕ) → k / 8 ≡ i / 8 → get_bit m k ≡ some (test_bit b (k % 8))
  bit_here k p = get_bit_of_byte m k b (rw p e)

  -- A byte with nothing clear from `i` on is skipped.
  skipped : inverted_from b (i % 8) ≡ 0 → AllSet m i ((i / 8 + 1) * 8)
  skipped z k ik kj _ =
      let same : k / 8 ≡ i / 8 = omega arith in
      rw (bit_here k same)
        (rw (inverted_zero b (i % 8) small (omega arith) z (k % 8) (omega arith) (omega arith)))

  -- The offset that the trailing zeros give is the first clear bit.
  hit :
      inverted_from b (i % 8) ≢ 0
      → let o = i / 8 * 8 + (i % 8 + trailing_zeros8 (inverted_from b (i % 8))) in
        (i ≤ o) × (o < 8 * length m) × (get_bit m o ≡ some false) × AllSet m i o
  hit nz =
      let t = trailing_zeros8 (inverted_from b (i % 8)) in
      let first = inverted_first b (i % 8) small (omega arith) nz in
      let len = lt_of_get_elem? m (i / 8) b e in
      let low : (i / 8 * 8 + (i % 8 + t)) % 8 ≡ i % 8 + t = omega (arith, first.0) in
      (
        omega arith,
        omega (arith, first.0, len),
        rw (bit_here (i / 8 * 8 + (i % 8 + t)) (omega (arith, first.0))) (rw low (rw (first.1))),
        λ k ik ko _. rw (bit_here k (omega (arith, first.0))) (
            rw (
              inverted_before b (i % 8) small (omega arith) nz (k % 8) (omega (arith, first.0))
                (omega (arith, first.0)))),
      )

-- A full byte is the special case of one with nothing clear.
full_byte : (s : ℕ) → inverted_from 255 s ≡ 0
unfolding inverted_from
full_byte s = omega arith

AllSet-trans : (m : Bitmap) (i j n : ℕ) → AllSet m i j → AllSet m j n → AllSet m i n
AllSet-trans m i j n p q k ik kn len = elim (Bool-cases (ltb k j)) [
  | inl below ↦ p k ik (ground arith) len
  | inr above ↦ q k (ground arith) kn len
]

FirstUnset-skip :
    (m : Bitmap) (i j n : ℕ) (r : Option ℕ)
    → i ≤ j
    → AllSet m i j
    → FirstUnset m j n r
    → FirstUnset m i n r
FirstUnset-skip m i j n none le p q = AllSet-trans m i j n p q
FirstUnset-skip m i j n (some o) le p q = (omega arith, q.1, q.2, q.3, AllSet-trans m i j o p q.4)

Scanned-skip :
    (m : Bitmap) (i j n : ℕ) (r : Option (Option ℕ))
    → i ≤ j
    → AllSet m i j
    → Scanned m j n r
    → Scanned m i n r
Scanned-skip m i j n none le p q = q
Scanned-skip m i j n (some r) le p q = FirstUnset-skip m i j n r le p q

outside : (m : Bitmap) (i n : ℕ) → get_elem? m (i / 8) ≡ none → AllSet m i n
outside m i n e k ik _ len =
    let (b, e') = get_elem?_of_lt m (i / 8) (omega arith) in absurd (cc (e, e'))

-- The byte at `i` is there: the four ways that one round can go.
round-Scanned :
    (m : Bitmap) (i n b : ℕ) (next : Option (Option ℕ))
    → IsBitmap m
    → get_elem? m (i / 8) ≡ some b
    → Scanned m ((i / 8 + 1) * 8) n next
    → let inverted = inverted_from b (i % 8) in
      let offset = i / 8 * 8 + (i % 8 + trailing_zeros8 inverted) in
      Scanned m i n (
        if b == 0xff
        then next
        else if inverted == 0
        then next
        else if leb n offset
        then some none
        else some (some offset))
round-Scanned m i n b next h e rest = elim (Bool-cases (b == 0xff)) [
  | inl full ↦
      let z : inverted_from b (i % 8) ≡ 0 = rw ((==_iff b 0xff).0 full) (full_byte (i % 8)) in
      rw full (Scanned-skip m i ((i / 8 + 1) * 8) n next (omega arith) (skipped m i b h e z) rest)
  | inr not_full ↦ elim (Bool-cases (inverted_from b (i % 8) == 0)) [
    | inl z ↦
        rw (not_full, z)
          (Scanned-skip m i ((i / 8 + 1) * 8) n next (omega arith)
            (skipped m i b h e ((==_iff (inverted_from b (i % 8)) 0).0 z)) rest)
    | inr nz ↦
        let (low, len, clear, before) = hit m i b h e (λ p. ground arith) in
        let offset = i / 8 * 8 + (i % 8 + trailing_zeros8 (inverted_from b (i % 8))) in
        elim (Bool-cases (leb n offset)) [
          | inl past ↦ rw (not_full, nz, past) (λ k ik kn. before k ik (ground arith))
          | inr fits ↦ rw (not_full, nz, fits) (low, ground arith, len, clear, before)
        ]
  ]
]

-- With a round for each byte left, and one more, the scan ends with the lowest clear bit.
scan-Scanned :
    (f : ℕ) (m : Bitmap) (i n : ℕ)
    → IsBitmap m
    → 0 < f
    → length m < f + i / 8
    → Scanned m i n (scan f m i n)
unfolding scan
scan-Scanned zero m i n h some_left enough = absurd (omega arith)
scan-Scanned (suc f) m i n h some_left enough = elim (Bool-cases (ltb i n)) [
  | inr past ↦ rw past (λ k ik kn _. absurd (ground arith))
  | inl in_range ↦ elim (Option-cases (get_elem? m (i / 8))) [
    | inl out ↦ rw (in_range, out) (outside m i n out)
    | inr (b, e) ↦
        let len = lt_of_get_elem? m (i / 8) b e in
        rw (in_range, e)
          (round-Scanned m i n b (scan f m ((i / 8 + 1) * 8) n) h e
            (scan-Scanned f m ((i / 8 + 1) * 8) n h (omega arith) (omega arith)))
  ]
]

-- In a bitmap of bytes `findFirstUnset` returns the lowest clear bit from `start` on and below
-- `maxBits`, or -1 when every bit of the bitmap there is set.
pub find_first_unset-FirstUnset :
    (m : Bitmap) (start n : ℕ) → IsBitmap m → FirstUnset m start n (find_first_unset m start n)
unfolding find_first_unset
find_first_unset-FirstUnset m start n h = go (scan (length m + 1) m start n) done
  where
    done : Scanned m start n (scan (length m + 1) m start n)
    done = scan-Scanned (length m + 1) m start n h (omega arith) (omega arith)

    go :
        (r : Option (Option ℕ))
        → Scanned m start n r
        → FirstUnset m start n (elim r as (λ x. Option ℕ) [ none ↦ none | some o ↦ o ])
    go none bad = absurd bad
    go (some o) good = good
