-- ===== src/Network/Ipam/Faults.antt =====
-- Inputs for which the allocator of internal/network/ipam.go does not keep what it promises.
use native.Mathlib.Nat.{div-add-mod, mod-lt}
use kogia.Base.{
  ℕ, ◌+◌, ◌*◌, ◌/◌, ◌%◌, ◌<◌, ◌≤◌, ◌≡◌, refl, ◌≢◌, ap, ◌⊎◌, Outcome, inl, inr, true, false, none,
  some, ltb, ◌==◌, length, get_elem?, ok, err, panic, Bool-cases, Option-cases, lt_of_get_elem?,
  arith, ==_iff,
}
use kogia.Network.Ipam.Bitmap.{Bitmap, get_bit}
use kogia.Network.Ipam.Address.{
  Addr, Prefix, block, contains, subnet_size, offset_to_ip, ip_to_offset, to_u32, u32,
  to_u32-of_u32,
}
use kogia.Network.Ipam.AddressLaws.{subnet_size_bounds}
use kogia.Network.Ipam.Allocator.{
  IpamStore, IpamError, persist_bitmap, prefix_string, allocate, allocate_specific, reserve_at,
  release, ip_out_of_range,
}
use kogia.Network.Ipam.View.{IpamStoreLaws, Offsets, Views, load_new}
use kogia.Network.Ipam.Refines.{allocate-Allocates}
use kogia.Network.Ipam.Sequences.{allocate-Allocated}

get_bit_outside : (m : Bitmap) (o : ℕ) → 8 * length m ≤ o → get_bit m o ≡ none
unfolding get_bit
get_bit_outside m o h = elim (Option-cases (get_elem? m (o / 8))) [
  | inl out ↦ rw out
  | inr (b, e) ↦ absurd (omega (arith, lt_of_get_elem? m (o / 8) b e))
]

module _ {S E : Type 0} (store : IpamStore S E) (p : Prefix) where
  -- In a subnet that has no bitmap stored yet, asking for an address that lies at least eight past
  -- the end of the offsets (2^20 in a subnet wider than that) is answered by an index panic, not by an
  -- error.
  pub allocate_specific_past_cap :
      (s : S) (ip : Addr) (o : ℕ)
      → store.get_ipam_bitmap s (prefix_string p) ≡ ok none
      → ip_to_offset p ip ≡ some o
      → subnet_size p + 8 ≤ o
      → allocate_specific store p ip s ≡ (panic, s)
  unfolding allocate_specific
  allocate_specific_past_cap s ip o new at past =
      let (m, loaded, len) = load_new store p s new in
      rw (at, allocate_specific)
        (rw loaded (rw (get_bit_outside m o (omega (arith, len)), reserve_at) refl))

-- An address past the end of its block, reached from an address inside it.
next_block : (base o B : ℕ) → o < B → B ≤ base % B + o → (base + o) / B ≢ base / B
next_block base o B lt past same =
    grind (arith, div-add-mod base B, div-add-mod (base + o) B, mod-lt (base + o))

module _ {S E : Type 0} (store : IpamStore S E) (laws : IpamStoreLaws store) (p : Prefix) where
  -- An address that `Allocate` returns once the offsets inside the subnet are taken.
  unmasked_outside :
      (s s' : S) (used : Offsets) (ip : Addr)
      → to_u32 p.addr + block p ≤ 4294967296
      → Views store s p used
      → ((k : ℕ) → 2 ≤ k → k + to_u32 p.addr % block p < block p → used k ≡ true)
      → allocate store p s ≡ (ok ip, s')
      → (contains p ip ≡ false) × (release store p ip s' ≡ (err ip_out_of_range, s'))
  unfolding contains release ip_to_offset offset_to_ip
  unmasked_outside s s' used ip fits v full e =
      let a = allocate-Allocated store laws p s s' used ip v e in
      let o = a.offset in
      let lt : o < block p = omega (arith, a.high, subnet_size_bounds p) in
      let past : block p ≤ to_u32 p.addr % block p + o =
        elim (Bool-cases (ltb (o + to_u32 p.addr % block p) (block p))) [
          | inl inside ↦ absurd (cc (a.free, full o a.low (ground arith)))
          | inr outside ↦ ground arith
        ] in
      let value : to_u32 ip ≡ to_u32 p.addr + o =
        let small : u32 (to_u32 p.addr + o) ≡ to_u32 p.addr + o = omega arith in
        rw a.address (rw small (to_u32-of_u32 (to_u32 p.addr + o) (omega arith))) in
      let ne = next_block (to_u32 p.addr) o (block p) lt past in
      let out : (to_u32 ip / block p == to_u32 p.addr / block p) ≡ false =
        elim (Bool-cases (to_u32 ip / block p == to_u32 p.addr / block p)) [
          | inr apart ↦ apart
          | inl same ↦
              absurd
                (ne (rw value at ((==_iff (to_u32 ip / block p) (to_u32 p.addr / block p)).0 same)))
        ] in
      (out, rw (out, release))

  -- With a prefix that was given with host bits, the allocator runs past the end of the subnet: once
  -- the offsets inside it are taken, while one past its end is free, `Allocate` returns an address
  -- outside it, which `Release` refuses, or the store's error. The block of addresses that starts at
  -- the one given has to end within the 32 bits.
  pub allocate_unmasked :
      (s : S) (used : Offsets) (o : ℕ)
      → to_u32 p.addr + block p ≤ 4294967296
      → Views store s p used
      → ((k : ℕ) → 2 ≤ k → k + to_u32 p.addr % block p < block p → used k ≡ true)
      → 2 ≤ o
      → o < subnet_size p
      → used o ≡ false
      → ((ip : Addr) × (s' : S) × (allocate store p s ≡ (ok ip, s'))
          × (contains p ip ≡ false)
          × (release store p ip s' ≡ (err ip_out_of_range, s')))
        ⊎ ((e : E) × (allocate store p s ≡ (err (persist_bitmap e), s)))
  allocate_unmasked s used o fits v full low lt free =
      elim (allocate-Allocates store laws p s used v) [
        | inr (none_free, failed) ↦ absurd (cc (none_free o low lt, free))
        | inl (i, two, high, clear, before, inr (x, failed)) ↦ inr (x, failed)
        | inl (i, two, high, clear, before, inl (done, after)) ↦
            let s' = (allocate store p s).1 in
            let ip = offset_to_ip p i in
            let e : allocate store p s ≡ (ok ip, s') =
              ap (λ (r : Outcome (IpamError E) Addr). (r, s')) done in
            let (outside, refused) = unmasked_outside s s' used ip fits v full e in
            inl (ip, s', e, outside, refused)
      ]
