-- ===== src/Network/Ipam/BitLaws.antt =====
-- Reading a bitmap after a write.
use kogia.Base.{
  ℕ, zero, suc, ◌*◌, ◌/◌, ◌%◌, ◌<◌, ◌≡◌, Bool, true, false, some, [], ◌∷◌, length, get_elem?, set,
  ◌==◌, if◌then◌else◌, inl, inr, get_elem?-set_self, get_elem?-set_ne, lt_of_get_elem?,
  get_elem?_of_lt, length-set, set-set, set_same, Option-cases, Bool-cases, ==_iff, arith,
}
use kogia.Base.Bits.{
  test_bit, or_bit, and_not_bit, test_bit-or_bit, test_bit-and_not_bit, and_not_bit-or_bit,
}
use kogia.Network.Ipam.Bitmap.{Bitmap, IsBitmap, get_bit, set_bit, clear_bit}

pub All-get_elem? : (m : Bitmap) (i b : ℕ) → IsBitmap m → get_elem? m i ≡ some b → b < 256
All-get_elem? [] i b h e = cc
All-get_elem? (x ∷ m) zero b h e = ground arith
All-get_elem? (x ∷ m) (suc i) b h e = All-get_elem? m i b h.1 e

pub set-IsBitmap : (m : Bitmap) (i b : ℕ) → IsBitmap m → b < 256 → IsBitmap (set m i b)
set-IsBitmap [] i b h e = tt
set-IsBitmap (x ∷ m) zero b h e = (e, h.1)
set-IsBitmap (x ∷ m) (suc i) b h e = (h.0, set-IsBitmap m i b h.1 e)

-- A read of byte `offset / 8` gives the bit.
pub get_bit_of_byte :
    (m : Bitmap) (k b : ℕ) → get_elem? m (k / 8) ≡ some b → get_bit m k ≡ some (test_bit b (k % 8))
unfolding get_bit
get_bit_of_byte m k b h = rw h

-- What one write of byte `i / 8` does to the bit `k`.
get_bit-set :
    (m : Bitmap) (i k b c : ℕ)
    → get_elem? m (i / 8) ≡ some b
    → get_bit (set m (i / 8) c) k
      ≡ (if i / 8 == k / 8 then some (test_bit c (k % 8)) else get_bit m k)
unfolding get_bit
get_bit-set m i k b c h = elim (Bool-cases (i / 8 == k / 8)) [
  | inl e ↦
      let e' : i / 8 ≡ k / 8 = (==_iff (i / 8) (k / 8)).0 e in
      rw e (rw (← e') (rw (get_elem?-set_self m (i / 8) c (lt_of_get_elem? m (i / 8) b h))))
  | inr e ↦ rw e (rw (get_elem?-set_ne m (i / 8) (k / 8) c (λ p. ground arith)))
]

-- Inside the bitmap no index panics.
pub byte_in_range :
    (m : Bitmap) (i : ℕ) → i < 8 * length m → (b : ℕ) × (get_elem? m (i / 8) ≡ some b)
byte_in_range m i h = get_elem?_of_lt m (i / 8) (omega arith)

pub get_bit_in_range : (m : Bitmap) (i : ℕ) → i < 8 * length m → (v : Bool) × (get_bit m i ≡ some v)
get_bit_in_range m i h =
    let (b, e) = byte_in_range m i h in (test_bit b (i % 8), get_bit_of_byte m i b e)

pub set_bit_in_range :
    (m : Bitmap) (i : ℕ) → i < 8 * length m → (m' : Bitmap) × (set_bit m i ≡ some m')
unfolding set_bit
set_bit_in_range m i h =
    let (b, e) = byte_in_range m i h in (set m (i / 8) (or_bit b (i % 8)), rw e)

pub clear_bit_in_range :
    (m : Bitmap) (i : ℕ) → i < 8 * length m → (m' : Bitmap) × (clear_bit m i ≡ some m')
unfolding clear_bit
clear_bit_in_range m i h =
    let (b, e) = byte_in_range m i h in (set m (i / 8) (and_not_bit b (i % 8)), rw e)

-- What a write that did not panic has done.
pub record Written (m m' : Bitmap) (i : ℕ) (v : Bool) : Type 0 where
  pub valid : IsBitmap m'
  pub size : length m' ≡ length m
  pub bits : (k : ℕ) → get_bit m' k ≡ (if i == k then some v else get_bit m k)

set_bit_one :
    (m : Bitmap) (i b k : ℕ)
    → IsBitmap m
    → get_elem? m (i / 8) ≡ some b
    → get_bit (set m (i / 8) (or_bit b (i % 8))) k ≡ (if i == k then some true else get_bit m k)
set_bit_one m i b k h e = ground (
  arith,
  get_bit-set m i k b (or_bit b (i % 8)) e,
  get_bit_of_byte m k b,
  All-get_elem? m (i / 8) b h e,
  test_bit-or_bit b (i % 8) (k % 8),
)

clear_bit_one :
    (m : Bitmap) (i b k : ℕ)
    → IsBitmap m
    → get_elem? m (i / 8) ≡ some b
    → get_bit (set m (i / 8) (and_not_bit b (i % 8))) k
      ≡ (if i == k then some false else get_bit m k)
clear_bit_one m i b k h e = ground (
  arith,
  get_bit-set m i k b (and_not_bit b (i % 8)) e,
  get_bit_of_byte m k b,
  All-get_elem? m (i / 8) b h e,
  test_bit-and_not_bit b (i % 8) (k % 8),
)

pub set_bit-Written :
    (m m' : Bitmap) (i : ℕ) → IsBitmap m → set_bit m i ≡ some m' → Written m m' i true
unfolding set_bit
set_bit-Written m m' i h e = elim (Option-cases (get_elem? m (i / 8))) [
  | inl out ↦ absurd (ground arith)
  | inr (b, eb) ↦
      let c = or_bit b (i % 8) in
      let e' : set m (i / 8) c ≡ m' = ground arith in
      let small : c < 256 =
        (test_bit-or_bit b (i % 8) 0 (All-get_elem? m (i / 8) b h eb) (omega arith)
          (omega arith)).1 in
      rw (← e') (record {
        valid = set-IsBitmap m (i / 8) c h small;
        size = length-set m (i / 8) c;
        bits = λ k. set_bit_one m i b k h eb;
      })
]

pub clear_bit-Written :
    (m m' : Bitmap) (i : ℕ) → IsBitmap m → clear_bit m i ≡ some m' → Written m m' i false
unfolding clear_bit
clear_bit-Written m m' i h e = elim (Option-cases (get_elem? m (i / 8))) [
  | inl out ↦ absurd (ground arith)
  | inr (b, eb) ↦
      let c = and_not_bit b (i % 8) in
      let e' : set m (i / 8) c ≡ m' = ground arith in
      let small : c < 256 =
        (test_bit-and_not_bit b (i % 8) 0 (All-get_elem? m (i / 8) b h eb) (omega arith)
          (omega arith)).1 in
      rw (← e') (record {
        valid = set-IsBitmap m (i / 8) c h small;
        size = length-set m (i / 8) c;
        bits = λ k. clear_bit_one m i b k h eb;
      })
]

-- Clearing a bit that was just set, where it was clear before, gives the bitmap back.
pub clear_bit-set_bit :
    (m m' : Bitmap) (i : ℕ)
    → IsBitmap m
    → get_bit m i ≡ some false
    → set_bit m i ≡ some m'
    → clear_bit m' i ≡ some m
unfolding get_bit set_bit clear_bit
clear_bit-set_bit m m' i h free e = elim (Option-cases (get_elem? m (i / 8))) [
  | inl out ↦ absurd (ground arith)
  | inr (b, eb) ↦
      let c = or_bit b (i % 8) in
      let e' : set m (i / 8) c ≡ m' = ground arith in
      let clear : test_bit b (i % 8) ≡ false = ground arith in
      let back : and_not_bit c (i % 8) ≡ b =
        and_not_bit-or_bit b (i % 8) (All-get_elem? m (i / 8) b h eb) (omega arith) clear in
      rw (← e') (
        rw (get_elem?-set_self m (i / 8) c (lt_of_get_elem? m (i / 8) b eb))
          (rw (set-set m (i / 8) c) (rw (back, set_same m (i / 8) b eb))))
]
