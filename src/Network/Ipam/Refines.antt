-- ===== src/Network/Ipam/Refines.antt =====
-- Each operation of the allocator does to the set of reserved offsets what it promises. A store
-- may fail at any write: then the call returns that error and nothing has changed.
use kogia.Base.{
  ℕ, ◌+◌, ◌/◌, ◌<◌, ◌≤◌, ◌≡◌, refl, ◌⊎◌, inl, inr, Bool, true, false, Option, none, some, length,
  Outcome, ok, err, panic, Bool-cases, ap, ◌∙◌, arith,
}
use kogia.Network.Ipam.Bitmap.{Bitmap, IsBitmap, get_bit, find_first_unset}
use kogia.Network.Ipam.BitLaws.{
  Written, set_bit-Written, clear_bit-Written, set_bit_in_range, clear_bit_in_range,
}
use kogia.Network.Ipam.Scan.{FirstUnset, find_first_unset-FirstUnset}
use kogia.Network.Ipam.Address.{Addr, Prefix, subnet_size, offset_to_ip, ip_to_offset}
use kogia.Network.Ipam.Allocator.{
  IpamStore, IpamError, prefix_string, persist_bitmap, no_available_ip, already_allocated,
  write_back, allocate, allocate_at, allocate_specific, reserve_at, release, release_at,
}
use kogia.Network.Ipam.View.{IpamStoreLaws, Offsets, mark, Views, Views-put}

module _ {S E : Type 0} (store : IpamStore S E) (laws : IpamStoreLaws store) (p : Prefix) where
  -- How a write ends: the call returns `a` and the set is `used`, or the store's error is passed
  -- on and the state is the old one.
  abbrev pub Commits : {A : Type 0} → A → Offsets → S → Outcome (IpamError E) A × S → Type 0
  Commits a used s r =
      ((r.0 ≡ ok a) × Views store r.1 p used) ⊎ ((e : E) × (r ≡ (err (persist_bitmap e), s)))

  commit :
      {A : Type 0} (a : A) (s : S) (m : Bitmap) (used : Offsets)
      → IsBitmap m
      → (subnet_size p + 7) / 8 ≤ length m
      → ((k : ℕ) → k < subnet_size p → get_bit m k ≡ some (used k))
      → Commits a used s
          (write_back store persist_bitmap a s (store.put_ipam_bitmap s (prefix_string p) m))
  commit a s m used valid covers agrees = go (store.put_ipam_bitmap s (prefix_string p) m) refl
    where
      go :
          (r : Outcome E S)
          → store.put_ipam_bitmap s (prefix_string p) m ≡ r
          → Commits a used s (write_back store persist_bitmap a s r)
      go (ok s') e = inl (refl, Views-put store p laws s s' m used e valid covers agrees)
      go (err x) e = inr (x, refl)
      go panic e = absurd (laws.put_safe s (prefix_string p) m e)

  written :
      {A : Type 0} (a : A) (s : S) (used : Offsets) (v : Views store s p used) (m : Bitmap) (o : ℕ)
      (b : Bool)
      → Written v.bitmap m o b
      → Commits a
          (mark o b used)
          s
          (write_back store persist_bitmap a s (store.put_ipam_bitmap s (prefix_string p) m))
  written a s used v m o b w =
      commit a s m (mark o b used) w.valid (rw w.size v.covers)
        (λ k lt. ground (arith, w.bits k, v.agrees k lt))

  -- What `Allocate` promises of its outcome `r`.
  abbrev pub Allocates : Offsets → S → Outcome (IpamError E) Addr × S → Type 0
  Allocates used s r =
      ((o : ℕ) × (2 ≤ o)
        × (o < subnet_size p)
        × (used o ≡ false)
        × ((k : ℕ) → 2 ≤ k → k < o → used k ≡ true)
        × Commits (offset_to_ip p o) (mark o true used) s r)
      ⊎ (((k : ℕ) → 2 ≤ k → k < subnet_size p → used k ≡ true) × (r ≡ (err no_available_ip, s)))

  allocate_at-Allocates :
      (s : S) (used : Offsets) (v : Views store s p used) (r : Option ℕ)
      → FirstUnset v.bitmap 2 (subnet_size p) r
      → Allocates used s (allocate_at store p v.bitmap r s)
  allocate_at-Allocates s used v none full =
      inr (λ k low lt. ground (arith, full k low lt (omega (arith, v.covers)), v.agrees k lt), refl)
  allocate_at-Allocates s used v (some o) (low, lt, len, clear, before) =
      let (m, e) = set_bit_in_range v.bitmap o len in
      let w = set_bit-Written v.bitmap m o v.valid e in
      inl (
        o,
        low,
        lt,
        ground (arith, v.agrees o lt),
        λ k two below.
            ground (arith, before k two below (omega (arith, len)), v.agrees k (omega arith)),
        rw (e, allocate_at) (written (offset_to_ip p o) s used v m o true w),
      )

  -- Where the bitmap of a subnet loads and holds a set of reserved offsets, `Allocate` reserves
  -- the lowest free offset from 2 on and returns its address, or returns the error of the store
  -- and changes nothing; if no offset from 2 on is free, it returns ErrNoAvailableIP and changes
  -- nothing.
  pub allocate-Allocates :
      (s : S) (used : Offsets) → Views store s p used → Allocates used s (allocate store p s)
  unfolding allocate
  allocate-Allocates s used v =
      rw (v.loaded, allocate)
        (allocate_at-Allocates s used v (find_first_unset v.bitmap 2 (subnet_size p))
          (find_first_unset-FirstUnset v.bitmap 2 (subnet_size p) v.valid))

  -- What `AllocateSpecific` promises for an address at offset `o`.
  abbrev pub Reserves : ℕ → Offsets → S → Outcome (IpamError E) (Unit {0}) × S → Type 0
  Reserves o used s r =
      ((used o ≡ true) × (r ≡ (err already_allocated, s)))
      ⊎ ((used o ≡ false) × Commits tt (mark o true used) s r)

  reserve_at-Reserves :
      (s : S) (used : Offsets) (v : Views store s p used) (o : ℕ)
      → o < subnet_size p
      → Reserves o used s (reserve_at store p v.bitmap o s)
  reserve_at-Reserves s used v o lt = elim (Bool-cases (used o)) [
    | inl taken ↦
        let bit : get_bit v.bitmap o ≡ some true = v.agrees o lt ∙ ap some taken in
        inl (taken, rw (bit, reserve_at) refl)
    | inr free ↦
        let bit : get_bit v.bitmap o ≡ some false = v.agrees o lt ∙ ap some free in
        let (m, e) = set_bit_in_range v.bitmap o (omega (arith, v.covers)) in
        let w = set_bit-Written v.bitmap m o v.valid e in
        inr (free, rw (bit, reserve_at) (rw e (written tt s used v m o true w)))
  ]

  -- `AllocateSpecific` of an address whose offset lies in the bitmap refuses an offset that is
  -- reserved, with no change, and reserves one that is free, or returns the error of the store
  -- with no change.
  pub allocate_specific-Reserves :
      (s : S) (used : Offsets) (ip : Addr) (o : ℕ)
      → Views store s p used
      → ip_to_offset p ip ≡ some o
      → o < subnet_size p
      → Reserves o used s (allocate_specific store p ip s)
  unfolding allocate_specific
  allocate_specific-Reserves s used ip o v at lt =
      rw (at, allocate_specific) (rw v.loaded (reserve_at-Reserves s used v o lt))

  -- `Release` of an address whose offset lies in the bitmap makes that offset free and touches no
  -- other, or returns the error of the store with no change.
  pub release-Commits :
      (s : S) (used : Offsets) (ip : Addr) (o : ℕ)
      → Views store s p used
      → ip_to_offset p ip ≡ some o
      → o < subnet_size p
      → Commits tt (mark o false used) s (release store p ip s)
  unfolding release
  release-Commits s used ip o v at lt =
      let (m, e) = clear_bit_in_range v.bitmap o (omega (arith, v.covers)) in
      let w = clear_bit-Written v.bitmap m o v.valid e in
      rw (at, release) (rw v.loaded (rw (e, release_at) (written tt s used v m o false w)))
