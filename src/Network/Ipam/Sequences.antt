-- ===== src/Network/Ipam/Sequences.antt =====
-- Several calls of the allocator after one another.
use mathlib.Core.Path.{subst}
use kogia.Base.{
  ℕ, zero, suc, ◌+◌, ◌-◌, ◌<◌, ◌≤◌, ◌≡◌, refl, ◌≢◌, inl, inr, Bool, true, false, some, ◌==◌,
  if◌then◌else◌, ok, sub_ℕ, Bool-cases, ap, sym, ◌∙◌, arith, ==_iff,
}
use kogia.Network.Ipam.Bitmap.{Bitmap, get_bit}
use kogia.Network.Ipam.Address.{
  Addr, Prefix, IsSubnet, contains, subnet_size, offset_to_ip, ip_to_offset,
}
use kogia.Network.Ipam.AddressLaws.{subnet_size_bounds, ip_to_offset-offset_to_ip}
use kogia.Network.Ipam.Allocator.{IpamStore, allocate, release, count, count_from}
use kogia.Network.Ipam.View.{IpamStoreLaws, Offsets, mark, Views}
use kogia.Network.Ipam.Refines.{allocate-Allocates, release-Commits}

-- The number of reserved offsets among the `n` from `i` on.
pub reserved : ℕ → ℕ → Offsets → ℕ
reserved zero i used = 0
reserved (suc n) i used = (if used i then 1 else 0) + reserved n (i + 1) used

count_from-eq-reserved :
    (n : ℕ) (m : Bitmap) (i acc : ℕ) (used : Offsets)
    → ((k : ℕ) → i ≤ k → k < i + n → get_bit m k ≡ some (used k))
    → count_from n m i acc ≡ some (acc + reserved n i used)
unfolding count_from reserved
count_from-eq-reserved zero m i acc used h = ap some (omega arith)
count_from-eq-reserved (suc n) m i acc used h =
    rw (h i (omega arith) (omega arith), count_from)
      (count_from-eq-reserved n m (i + 1) (if used i then acc + 1 else acc) used
          (λ k le lt. h k (omega arith) (omega arith))
        ∙ ap some (ground arith))

-- Marks outside the range do not show, and a new mark inside it counts once.
reserved-mark_out :
    (n i o : ℕ) (v : Bool) (used : Offsets)
    → o < i
    → reserved n i (mark o v used) ≡ reserved n i used
unfolding reserved
reserved-mark_out zero i o v used h = refl
reserved-mark_out (suc n) i o v used h =
    ground (arith, reserved-mark_out n (i + 1) o v used (omega arith))

reserved-mark_in :
    (n i o : ℕ) (used : Offsets)
    → i ≤ o
    → o < i + n
    → used o ≡ false
    → reserved n i (mark o true used) ≡ suc (reserved n i used)
unfolding reserved
reserved-mark_in zero i o used low high free = absurd (omega arith)
reserved-mark_in (suc n) i o used low high free = elim (Bool-cases (o == i)) [
  | inl here ↦
      let same = (==_iff o i).0 here in
      ground (arith, reserved-mark_out n (i + 1) o true used (omega arith))
  | inr later ↦ ground (arith, reserved-mark_in n (i + 1) o used (ground arith) (omega arith) free)
]

pub mark_undo :
    (o : ℕ) (used : Offsets) → used o ≡ false → (k : ℕ) → mark o false (mark o true used) k ≡ used k
mark_undo o used free k = elim (Bool-cases (o == k)) [
  | inl here ↦ let same = (==_iff o k).0 here in rw here (rw (← same) (sym free))
  | inr there ↦ rw there
]

mark_taken : (o k : ℕ) (used : Offsets) → mark o true used k ≡ false → o ≢ k
mark_taken o k used free same = absurd (ground arith)

module _ {S E : Type 0} (store : IpamStore S E) (laws : IpamStoreLaws store) (p : Prefix) where
  -- `Count` reports how many of the usable offsets are reserved, and how many offsets there are
  -- besides the first two.
  pub count-eq-reserved :
      (s : S) (used : Offsets)
      → Views store s p used
      → count store p s ≡ ok (reserved (subnet_size p - 2) 2 used, sub_ℕ (subnet_size p) 2)
  unfolding count
  count-eq-reserved s used v =
      rw (v.loaded, count)
        (rw
          (count_from-eq-reserved (subnet_size p - 2) v.bitmap 2 0 used
            (λ k le lt. v.agrees k (omega arith)))
          (ap (λ (n : ℕ). ok (n, sub_ℕ (subnet_size p) 2)) (omega arith)))

  pub Views-ext :
      (s : S) (used used' : Offsets)
      → ((k : ℕ) → used k ≡ used' k)
      → Views store s p used
      → Views store s p used'
  Views-ext s used used' same v = record {
    bitmap = v.bitmap;
    loaded = v.loaded;
    valid = v.valid;
    covers = v.covers;
    agrees = λ k lt. v.agrees k lt ∙ ap some (same k);
  }

  -- What a call of `Allocate` that returns an address has done.
  pub record Allocated (s : S) (used : Offsets) (ip : Addr) (s' : S) : Type 0 where
    pub offset : ℕ
    pub low : 2 ≤ offset
    pub high : offset < subnet_size p
    pub free : used offset ≡ false
    pub address : ip ≡ offset_to_ip p offset
    pub after : Views store s' p (mark offset true used)

  pub allocate-Allocated :
      (s s' : S) (used : Offsets) (ip : Addr)
      → Views store s p used
      → allocate store p s ≡ (ok ip, s')
      → Allocated s used ip s'
  allocate-Allocated s s' used ip v e = elim (allocate-Allocates store laws p s used v) [
    | inr (full, failed) ↦ absurd (cc (e, failed))
    | inl (o, low, high, free, before, inr (x, failed)) ↦ absurd (cc (e, failed))
    | inl (o, low, high, free, before, inl (done, after)) ↦ record {
      offset = o;
      low = low;
      high = high;
      free = free;
      address = cc (e, done);
      after = subst (λ t. Views store t p (mark o true used)) (ap (λ r. r.1) e) after;
    }
  ]

  module _ (h : IsSubnet p) (s s' : S) (used : Offsets) (ip : Addr) (v : Views store s p used) where
    pub offset_reads_back : (a : Allocated s used ip s') → ip_to_offset p ip ≡ some a.offset
    offset_reads_back a =
        rw a.address
          (ip_to_offset-offset_to_ip p h a.offset (omega (arith, a.high, subnet_size_bounds p)))

    -- In a masked subnet, an address that `Allocate` returns lies in the subnet.
    pub allocate_inside : allocate store p s ≡ (ok ip, s') → contains p ip ≡ true
    unfolding ip_to_offset
    allocate_inside e =
        let back = offset_reads_back (allocate-Allocated s s' used ip v e) in
        elim (Bool-cases (contains p ip)) [
          | inl inside ↦ inside
          | inr out ↦ absurd (cc (rw out at back))
        ]

    -- `Count` reports one more after a call of `Allocate` that returned an address.
    pub count-allocate :
        allocate store p s ≡ (ok ip, s')
        → (n : ℕ) × (count store p s ≡ ok (n, sub_ℕ (subnet_size p) 2))
          × (count store p s' ≡ ok (suc n, sub_ℕ (subnet_size p) 2))
    count-allocate e =
        let a = allocate-Allocated s s' used ip v e in
        (
          reserved (subnet_size p - 2) 2 used,
          count-eq-reserved s used v,
          rw (count-eq-reserved s' (mark a.offset true used) a.after) (
              rw (
                reserved-mark_in (subnet_size p - 2) 2 a.offset used a.low
                  (omega (arith, a.high, a.low)) a.free)),
        )

    -- In a masked subnet, releasing the address that was just allocated gives the set of reserved
    -- offsets back.
    pub release-allocate :
        (s'' : S)
        → allocate store p s ≡ (ok ip, s')
        → release store p ip s' ≡ (ok tt, s'')
        → Views store s'' p used
    release-allocate s'' e e' =
        let a = allocate-Allocated s s' used ip v e in
        elim (release-Commits store laws p s' (mark a.offset true used) ip a.offset a.after
          (offset_reads_back a) a.high) [
            | inr (x, failed) ↦ absurd (cc (e', failed))
            | inl (done, after) ↦
                Views-ext s'' (mark a.offset false (mark a.offset true used)) used
                  (λ k. mark_undo a.offset used a.free k)
                  (subst (λ t. Views store t p (mark a.offset false (mark a.offset true used)))
                    (ap (λ r. r.1) e') after)
          ]

    -- In a masked subnet, two calls of `Allocate` after one another that both return an address
    -- return different addresses.
    pub allocate_twice :
        (s'' : S) (ip' : Addr)
        → allocate store p s ≡ (ok ip, s')
        → allocate store p s' ≡ (ok ip', s'')
        → ip ≢ ip'
    allocate_twice s'' ip' e e' same =
        let a = allocate-Allocated s s' used ip v e in
        let b = allocate-Allocated s' s'' (mark a.offset true used) ip' a.after e' in
        let size = subnet_size_bounds p in
        let back = ip_to_offset-offset_to_ip p h b.offset (omega (arith, b.high, size)) in
        let equal : some a.offset ≡ some b.offset =
          sym (offset_reads_back a) ∙ ap (ip_to_offset p) (same ∙ b.address) ∙ back in
        mark_taken a.offset b.offset used b.free (cc equal)
