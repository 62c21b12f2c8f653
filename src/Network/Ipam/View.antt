-- ===== src/Network/Ipam/View.antt =====
-- What the store says of one subnet, as the set of its reserved offsets, and how each operation of
-- the allocator changes that set.
use kogia.Base.{
  ℕ, zero, suc, ◌+◌, ◌*◌, ◌/◌, ◌%◌, ◌<◌, ◌≤◌, ◌≡◌, refl, ◌≢◌, Bool, false, ◌||◌, none, some, length,
  replicate, get_elem?, length-replicate, ◌==◌, if◌then◌else◌, ok, panic, Str, ap, arith,
}
use kogia.Base.Bits.{test_bit-zero}
use kogia.Network.Ipam.Bitmap.{Bitmap, IsBitmap, get_bit}
use kogia.Network.Ipam.BitLaws.{set_bit-Written, set_bit_in_range}
use kogia.Network.Ipam.Address.{Prefix, subnet_size}
use kogia.Network.Ipam.AddressLaws.{subnet_size_bounds}
use kogia.Network.Ipam.Allocator.{IpamStore, prefix_string, new_bitmap, grow, load_or_create_bitmap}

-- What a store promises: a bitmap that was put is read back, and no other subnet is touched.
pub record IpamStoreLaws {S E : Type 0} (store : IpamStore S E) : Type 0 where
  pub get-put_self :
      (s s' : S) (k : Str) (m : Bitmap)
      → store.put_ipam_bitmap s k m ≡ ok s'
      → store.get_ipam_bitmap s' k ≡ ok (some m)
  pub get-put_ne :
      (s s' : S) (k j : Str) (m : Bitmap)
      → store.put_ipam_bitmap s k m ≡ ok s'
      → k ≢ j
      → store.get_ipam_bitmap s' j ≡ store.get_ipam_bitmap s j
  pub get-delete_self :
      (s s' : S) (k : Str)
      → store.delete_ipam_bitmap s k ≡ ok s'
      → store.get_ipam_bitmap s' k ≡ ok none
  -- The store returns errors, and does not panic.
  pub put_safe : (s : S) (k : Str) (m : Bitmap) → store.put_ipam_bitmap s k m ≢ panic

-- The reserved offsets of a subnet.
abbrev pub Offsets : Type 0
Offsets = ℕ → Bool

abbrev pub mark : ℕ → Bool → Offsets → Offsets
mark o v used k = if o == k then v else used k

-- A new subnet: the network address and the gateway.
abbrev pub initial : Offsets
initial k = k == 0 || k == 1

module _ {S E : Type 0} (store : IpamStore S E) where
  -- The bitmap of subnet `p` loads, covers the subnet, and holds the set `used`.
  pub record Views (s : S) (p : Prefix) (used : Offsets) : Type 0 where
    pub bitmap : Bitmap
    pub loaded : load_or_create_bitmap store p (subnet_size p) s ≡ ok bitmap
    pub valid : IsBitmap bitmap
    pub covers : (subnet_size p + 7) / 8 ≤ length bitmap
    pub agrees : (k : ℕ) → k < subnet_size p → get_bit bitmap k ≡ some (used k)

zeros-IsBitmap : (n : ℕ) → IsBitmap (replicate n 0)
zeros-IsBitmap zero = tt
zeros-IsBitmap (suc n) = (omega arith, zeros-IsBitmap n)

get_elem?-replicate : (n i : ℕ) → i < n → get_elem? {A = ℕ} (replicate n 0) i ≡ some 0
get_elem?-replicate zero i h = elim h [ ]
get_elem?-replicate (suc n) zero h = refl
get_elem?-replicate (suc n) (suc i) h = get_elem?-replicate n i (omega arith)

get_bit-replicate : (n k : ℕ) → k < 8 * n → get_bit (replicate n 0) k ≡ some false
unfolding get_bit
get_bit-replicate n k h =
    rw (get_elem?-replicate n (k / 8) (omega arith)) (ap some (test_bit-zero (k % 8)))

-- A new bitmap is the one with the first two offsets reserved.
new_bitmap_lem :
    (n : ℕ)
    → 1 ≤ n
    → (m : Bitmap) × (new_bitmap n ≡ some m)
      × IsBitmap m
      × (length m ≡ n)
      × ((k : ℕ) → k < 8 * n → get_bit m k ≡ some (initial k))
unfolding new_bitmap
new_bitmap_lem n h =
    let len = length-replicate {A = ℕ} n 0 in
    let (m, e) = set_bit_in_range (replicate n 0) 0 (omega (arith, len)) in
    let w = set_bit-Written (replicate n 0) m 0 (zeros-IsBitmap n) e in
    let (m', e') = set_bit_in_range m 1 (omega (arith, len, w.size)) in
    let w' = set_bit-Written m m' 1 w.valid e' in
    (
      m',
      rw (e, new_bitmap) e',
      w'.valid,
      omega (arith, len, w.size, w'.size),
      λ k lt. ground (arith, w'.bits k, w.bits k, get_bit-replicate n k lt),
    )

grow_enough : (m : Bitmap) (n : ℕ) → n ≤ length m → grow m n ≡ m
unfolding grow
grow_enough m n h = ground arith

module _ {S E : Type 0} (store : IpamStore S E) (p : Prefix) where
  -- The bitmap of a new subnet has just the bytes that the subnet needs.
  pub load_new :
      (s : S)
      → store.get_ipam_bitmap s (prefix_string p) ≡ ok none
      → (m : Bitmap) × (load_or_create_bitmap store p (subnet_size p) s ≡ ok m)
        × (length m ≡ (subnet_size p + 7) / 8)
  unfolding load_or_create_bitmap
  load_new s e =
      let size = subnet_size_bounds p in
      let (m, new, valid, len, bits) =
        new_bitmap_lem ((subnet_size p + 7) / 8) (omega (arith, size)) in
      (
        m,
        rw (e, load_or_create_bitmap)
            (rw new (rw (grow_enough m ((subnet_size p + 7) / 8) (omega (arith, len))))),
        len,
      )

  -- A subnet with no bitmap yet has its network address and its gateway reserved.
  pub Views-new :
      (s : S) → store.get_ipam_bitmap s (prefix_string p) ≡ ok none → Views store s p initial
  unfolding load_or_create_bitmap
  Views-new s e =
      let size = subnet_size_bounds p in
      let (m, new, valid, len, bits) =
        new_bitmap_lem ((subnet_size p + 7) / 8) (omega (arith, size)) in
      record {
        bitmap = m;
        loaded =
            rw (e, load_or_create_bitmap)
              (rw new (rw (grow_enough m ((subnet_size p + 7) / 8) (omega (arith, len)))));
        valid = valid;
        covers = omega (arith, len);
        agrees = λ k lt. bits k (omega arith);
      }

  -- After a write of the bitmap the store shows what the bitmap holds.
  pub Views-put :
      IpamStoreLaws store
      → (s s' : S) (m : Bitmap) (used : Offsets)
      → store.put_ipam_bitmap s (prefix_string p) m ≡ ok s'
      → IsBitmap m
      → (subnet_size p + 7) / 8 ≤ length m
      → ((k : ℕ) → k < subnet_size p → get_bit m k ≡ some (used k))
      → Views store s' p used
  unfolding load_or_create_bitmap
  Views-put laws s s' m used e valid covers agrees = record {
    bitmap = m;
    loaded =
        rw (laws.get-put_self s s' (prefix_string p) m e, load_or_create_bitmap)
          (rw (grow_enough m ((subnet_size p + 7) / 8) covers));
    valid = valid;
    covers = covers;
    agrees = agrees;
  }
