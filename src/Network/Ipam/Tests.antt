-- ===== src/Network/Ipam/Tests.antt =====
-- The allocator on a database in memory, and the theorems at small inputs.
use kogia.Base.{
  ℕ, ◌<◌, ◌≤◌, ◌≡◌, refl, ◌⊎◌, ◌+◌, ◌%◌, true, false, none, some, [], ◌∷◌, ok, err, panic,
  format_uint, arith,
}
use kogia.Base.Bits.{or_bit, and_not_bit, inverted_from, trailing_zeros8}
use kogia.Network.Ipam.Bitmap.{find_first_unset, get_bit, set_bit, clear_bit, scan}
use kogia.Network.Ipam.Scan.{FirstUnset, find_first_unset-FirstUnset}
use kogia.Network.Ipam.Address.{
  Addr, Prefix, block, subnet_size, offset_to_ip, ip_to_offset, contains, to_u32, of_u32,
}
use kogia.Network.Ipam.Allocator.{
  IpamStore, persist_bitmap, prefix_string, allocate, allocate_specific, release, ip_out_of_range,
  load_or_create_bitmap, new_bitmap, grow,
}
use kogia.Network.Ipam.View.{IpamStoreLaws, initial, Views, Views-new}
use kogia.Network.Ipam.Refines.{Allocates, allocate-Allocates, Reserves, allocate_specific-Reserves}
use kogia.Network.Ipam.Faults.{allocate_specific_past_cap, allocate_unmasked}
use kogia.Store.Prefix.{StoreError}
use kogia.Store.Db.{Db, new}
use kogia.Store.Memory.{Bucket, memory, memory-BoltLaws, put_sorted}
use kogia.Store.Network.{ipam_store, get_ipam_bitmap, put_ipam_bitmap}
use kogia.Store.NetworkLaws.{ipam_store-IpamStoreLaws}

abbrev store : IpamStore (Db Bucket) StoreError
store = ipam_store memory

abbrev address : ℕ → ℕ → ℕ → ℕ → Addr
address a b c d = record { b0 = a; b1 = b; b2 = c; b3 = d }

-- 10.0.0.0/29
abbrev net : Prefix
net = record { addr = address 10 0 0 0; bits = 29 }

abbrev fresh : Db Bucket
fresh = new memory

find_first_unset-FirstUnset_example :
    FirstUnset (3 ∷ 0 ∷ []) 2 8 (find_first_unset (3 ∷ 0 ∷ []) 2 8)
find_first_unset-FirstUnset_example =
    find_first_unset-FirstUnset (3 ∷ 0 ∷ []) 2 8 (omega arith, (omega arith, tt))

fresh-Views : Views store fresh net initial
unfolding new get_ipam_bitmap
fresh-Views = Views-new store net fresh refl

laws : IpamStoreLaws store
laws = ipam_store-IpamStoreLaws memory memory-BoltLaws

-- The state after one call of `Allocate`, and the address it returned.
abbrev one : Db Bucket
one = (allocate store net fresh).1

abbrev two : Db Bucket
two = (allocate store net one).1

first : allocate store net fresh ≡ (ok (address 10 0 0 2), one)
unfolding allocate new load_or_create_bitmap get_ipam_bitmap put_ipam_bitmap prefix_string
    format_uint subnet_size new_bitmap grow set_bit get_bit find_first_unset scan offset_to_ip
    to_u32 of_u32 put_sorted or_bit inverted_from trailing_zeros8
first = refl

second : allocate store net one ≡ (ok (address 10 0 0 3), two)
unfolding allocate new load_or_create_bitmap get_ipam_bitmap put_ipam_bitmap prefix_string
    format_uint subnet_size new_bitmap grow set_bit get_bit find_first_unset scan offset_to_ip
    to_u32 of_u32 put_sorted or_bit inverted_from trailing_zeros8
second = refl

allocate-Allocates_example : Allocates store laws net initial fresh (allocate store net fresh)
allocate-Allocates_example = allocate-Allocates store laws net fresh initial fresh-Views

abbrev back : Db Bucket
back = (release store net (address 10 0 0 2) one).1

released : release store net (address 10 0 0 2) one ≡ (ok tt, back)
unfolding allocate release clear_bit and_not_bit ip_to_offset contains new load_or_create_bitmap
    get_ipam_bitmap put_ipam_bitmap prefix_string format_uint subnet_size new_bitmap grow set_bit
    get_bit find_first_unset scan offset_to_ip to_u32 of_u32 put_sorted or_bit inverted_from
    trailing_zeros8
released = refl

five_at : ip_to_offset net (address 10 0 0 5) ≡ some 5
unfolding ip_to_offset contains to_u32
five_at = refl

five_inside : 5 < subnet_size net
unfolding subnet_size
five_inside = omega arith

allocate_specific-Reserves_example :
    Reserves store laws net 5 initial fresh (allocate_specific store net (address 10 0 0 5) fresh)
allocate_specific-Reserves_example =
    allocate_specific-Reserves store laws net fresh initial (address 10 0 0 5) 5 fresh-Views five_at
      five_inside

-- 10.0.0.0/8, and the address 10.32.0.0 past the cap.
abbrev wide : Prefix
wide = record { addr = address 10 0 0 0; bits = 8 }

past_at : ip_to_offset wide (address 10 32 0 0) ≡ some 2097152
unfolding ip_to_offset contains to_u32
past_at = refl

wide_new : store.get_ipam_bitmap fresh (prefix_string wide) ≡ ok none
unfolding new get_ipam_bitmap
wide_new = refl

past_cap : subnet_size wide + 8 ≤ 2097152
unfolding subnet_size
past_cap = omega arith

allocate_specific_past_cap_example :
    allocate_specific store wide (address 10 32 0 0) fresh ≡ (panic, fresh)
allocate_specific_past_cap_example =
    allocate_specific_past_cap store wide fresh (address 10 32 0 0) 2097152 wide_new past_at
      past_cap

-- 10.0.0.2/30: offsets 2 and 3 lie past the end of the subnet.
abbrev host_bits : Prefix
host_bits = record { addr = address 10 0 0 2; bits = 30 }

host_bits-Views : Views store fresh host_bits initial
unfolding new get_ipam_bitmap
host_bits-Views = Views-new store host_bits fresh refl

host_bits_fit : to_u32 host_bits.addr + block host_bits ≤ 4294967296
unfolding to_u32
host_bits_fit = omega arith

host_bits_full :
    (k : ℕ)
    → 2 ≤ k
    → k + to_u32 host_bits.addr % block host_bits < block host_bits
    → initial k ≡ true
unfolding to_u32
host_bits_full k low inside = absurd (omega arith)

-- Offset 2 is 10.0.0.4.
allocate_unmasked_example :
    ((ip : Addr) × (s' : Db Bucket) × (allocate store host_bits fresh ≡ (ok ip, s'))
      × (contains host_bits ip ≡ false)
      × (release store host_bits ip s' ≡ (err ip_out_of_range, s')))
    ⊎ ((e : StoreError) × (allocate store host_bits fresh ≡ (err (persist_bitmap e), fresh)))
unfolding subnet_size
allocate_unmasked_example =
    allocate_unmasked store laws host_bits fresh initial 2 host_bits_fit host_bits-Views
      host_bits_full (omega arith) (omega arith) refl
