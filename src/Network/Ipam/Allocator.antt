-- ===== src/Network/Ipam/Allocator.antt =====
-- The allocator of internal/network/ipam.go over its store: `Allocate`, `AllocateSpecific`,
-- `Release`, `Count`, `ReleaseSubnet`. The mutex makes each of them one step. A call that fails
-- leaves the store as it was.
use kogia.Base.{
  ℕ, zero, suc, ◌+◌, ◌-◌, ◌/◌, true, false, Option, none, some, ◌++◌, length, replicate, ltb,
  if◌then◌else◌, Outcome, ok, err, panic, ◌>>=◌, or_panic, Str, codes, format_uint, ℤ, sub_ℕ,
}
use kogia.Network.Ipam.Bitmap.{Bitmap, get_bit, set_bit, clear_bit, find_first_unset}
use kogia.Network.Ipam.Address.{Addr, Prefix, subnet_size, offset_to_ip, ip_to_offset}

-- `IPAMStore`: `S` is the state behind it, `E` its errors.
pub record IpamStore (S E : Type 0) : Type 0 where
  pub get_ipam_bitmap : S → Str → Outcome E (Option Bitmap)
  pub put_ipam_bitmap : S → Str → Bitmap → Outcome E S
  pub delete_ipam_bitmap : S → Str → Outcome E S

pub data IpamError (E : Type 0) : Type 0 where
  no_available_ip already_allocated ip_out_of_range : IpamError E
  load_bitmap persist_bitmap release_subnet_failed : E → IpamError E

-- `netip.Prefix.String`
unfoldable pub prefix_string : Prefix → Str
unfolding format_uint
prefix_string p =
    format_uint p.addr.b0
    ++ (codes "."
        ++ (format_uint p.addr.b1
            ++ (codes "."
                ++ (format_uint p.addr.b2
                    ++ (codes "."
                        ++ (format_uint p.addr.b3 ++ (codes "/" ++ format_uint p.bits)))))))

-- A new bitmap has offsets 0 and 1 reserved.
unfoldable pub new_bitmap : ℕ → Option Bitmap
new_bitmap bytes = elim (set_bit (replicate bytes 0) 0) [ none ↦ none | some m ↦ set_bit m 1 ]

-- `if len(bitmap) < bitmapBytes`
unfoldable pub grow : Bitmap → ℕ → Bitmap
grow m bytes = if ltb (length m) bytes then m ++ replicate (bytes - length m) 0 else m

module _ {S E : Type 0} (store : IpamStore S E) where
  -- A store call inside an operation: its failure is wrapped, and nothing has changed.
  abbrev pub write_back :
      {A : Type 0} → (E → IpamError E) → A → S → Outcome E S → Outcome (IpamError E) A × S
  write_back wrap a s (ok s') = (ok a, s')
  write_back wrap a s (err e) = (err (wrap e), s)
  write_back wrap a s panic = (panic, s)

  -- `loadOrCreateBitmap`
  unfoldable pub load_or_create_bitmap : Prefix → ℕ → S → Outcome (IpamError E) Bitmap
  load_or_create_bitmap p total s = elim (store.get_ipam_bitmap s (prefix_string p)) [
    | err e ↦ err (load_bitmap e)
    | panic ↦ panic
    | ok none ↦ or_panic (new_bitmap ((total + 7) / 8)) >>= λ m. ok (grow m ((total + 7) / 8))
    | ok (some m) ↦ ok (grow m ((total + 7) / 8))
  ]

  -- The rest of `Allocate` once the bitmap is loaded and scanned.
  abbrev pub allocate_at : Prefix → Bitmap → Option ℕ → S → Outcome (IpamError E) Addr × S
  allocate_at p m none s = (err no_available_ip, s)
  allocate_at p m (some offset) s = elim (set_bit m offset) [
    | none ↦ (panic, s)
    | some m' ↦
        write_back persist_bitmap (offset_to_ip p offset) s
          (store.put_ipam_bitmap s (prefix_string p) m')
  ]

  unfoldable pub allocate : Prefix → S → Outcome (IpamError E) Addr × S
  allocate p s = elim (load_or_create_bitmap p (subnet_size p) s) [
    | err e ↦ (err e, s)
    | panic ↦ (panic, s)
    | ok m ↦ allocate_at p m (find_first_unset m 2 (subnet_size p)) s
  ]

  -- `AllocateSpecific` with the offset and the bitmap at hand.
  abbrev pub reserve_at : Prefix → Bitmap → ℕ → S → Outcome (IpamError E) (Unit {0}) × S
  reserve_at p m offset s = elim (get_bit m offset) [
    | none ↦ (panic, s)
    | some true ↦ (err already_allocated, s)
    | some false ↦ elim (set_bit m offset) [
      | none ↦ (panic, s)
      | some m' ↦ write_back persist_bitmap tt s (store.put_ipam_bitmap s (prefix_string p) m')
    ]
  ]

  unfoldable pub allocate_specific : Prefix → Addr → S → Outcome (IpamError E) (Unit {0}) × S
  allocate_specific p ip s = elim (ip_to_offset p ip) [
    | none ↦ (err ip_out_of_range, s)
    | some offset ↦ elim (load_or_create_bitmap p (subnet_size p) s) [
      | err e ↦ (err e, s)
      | panic ↦ (panic, s)
      | ok m ↦ reserve_at p m offset s
    ]
  ]

  -- `Release` with the offset and the bitmap at hand.
  abbrev pub release_at : Prefix → Bitmap → ℕ → S → Outcome (IpamError E) (Unit {0}) × S
  release_at p m offset s = elim (clear_bit m offset) [
    | none ↦ (panic, s)
    | some m' ↦ write_back persist_bitmap tt s (store.put_ipam_bitmap s (prefix_string p) m')
  ]

  unfoldable pub release : Prefix → Addr → S → Outcome (IpamError E) (Unit {0}) × S
  release p ip s = elim (ip_to_offset p ip) [
    | none ↦ (err ip_out_of_range, s)
    | some offset ↦ elim (load_or_create_bitmap p (subnet_size p) s) [
      | err e ↦ (err e, s)
      | panic ↦ (panic, s)
      | ok m ↦ release_at p m offset s
    ]
  ]

  unfoldable pub release_subnet : Prefix → S → Outcome (IpamError E) (Unit {0}) × S
  release_subnet p s =
      write_back release_subnet_failed tt s (store.delete_ipam_bitmap s (prefix_string p))

-- The loop of `Count`, with the rounds left: `for i := 2; i < totalIPs; i++`.
unfoldable pub count_from : ℕ → Bitmap → ℕ → ℕ → Option ℕ
count_from zero m i allocated = some allocated
count_from (suc n) m i allocated = elim (get_bit m i) [
  | none ↦ none
  | some v ↦ count_from n m (i + 1) (if v then allocated + 1 else allocated)
]

module _ {S E : Type 0} (store : IpamStore S E) where
  -- A store that fails counts as nothing allocated. The total is negative for a /32.
  unfoldable pub count : Prefix → S → Outcome E (ℕ × ℤ)
  count p s = elim (load_or_create_bitmap store p (subnet_size p) s) [
    | err e ↦ ok (0, sub_ℕ (subnet_size p) 2)
    | panic ↦ panic
    | ok m ↦ or_panic (count_from (subnet_size p - 2) m 2 0) >>= λ allocated.
        ok (allocated, sub_ℕ (subnet_size p) 2)
  ]
