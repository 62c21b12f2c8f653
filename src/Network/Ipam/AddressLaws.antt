-- ===== src/Network/Ipam/AddressLaws.antt =====
-- The offsets of a subnet and its addresses correspond one to one.
use native.Mathlib.Nat.{div-add-mod, mod-lt}
use kogia.Base.{
  ℕ, ◌+◌, ◌-◌, ◌*◌, ◌/◌, ◌%◌, ◌^◌, ◌≤◌, ◌<◌, ◌≡◌, refl, Bool, true, ◌&&◌, some, ltb, leb, ◌==◌,
  if◌then◌else◌, inl, inr, Bool-cases, ==_iff, arith,
}
use kogia.Base.Bits.{every_below, every_below_at}
use kogia.Network.Ipam.Address.{
  Addr, IsAddr, Prefix, u32, to_u32, block, subnet_size, offset_to_ip, ip_to_offset, IsSubnet,
  to_u32-lt, to_u32-of_u32, of_u32-to_u32, block_bounds,
}

size_row : ℕ → Bool
size_row h = let s = 2 ^ (if ltb 20 h then 20 else h) in leb 1 s && leb s 1048576 && leb s (2 ^ h)

size_table : every_below 33 size_row ≡ true
unfolding every_below size_row
size_table = refl

-- `subnetSize` is never 0, is capped at 2^20, and never passes the block.
pub subnet_size_bounds :
    (p : Prefix) → (1 ≤ subnet_size p) × (subnet_size p ≤ 1048576) × (subnet_size p ≤ block p)
unfolding subnet_size size_row
subnet_size_bounds p =
    let h = every_below_at 33 size_row (32 - p.bits) size_table (omega arith) in ground arith

-- A block that starts at a multiple of its size ends inside the address space.
block_end : (base B n : ℕ) → 1 ≤ B → base % B ≡ 0 → n % B ≡ 0 → base < n → base + B ≤ n
block_end base B n pos hb hn lt =
    let eb : base / B * B ≡ base = omega (arith, div-add-mod base B) in
    let en : n / B * B ≡ n = omega (arith, div-add-mod n B) in
    let q : base / B < n / B = grind arith in grind arith

same_block : (base B o : ℕ) → base % B ≡ 0 → o < B → (base + o) / B ≡ base / B
same_block base B o m h = grind (arith, div-add-mod base B, div-add-mod (base + o) B)

above : (base n B : ℕ) → 1 ≤ B → base % B ≡ 0 → n / B ≡ base / B → (base ≤ n) × (n < base + B)
above base n B pos m e = (
  grind (arith, div-add-mod base B, div-add-mod n B),
  grind (arith, div-add-mod base B, div-add-mod n B, mod-lt n pos),
)

module _ (p : Prefix) (h : IsSubnet p) where
  pub block_fits : to_u32 p.addr + block p ≤ 4294967296
  block_fits =
      let (one, _, divides) = block_bounds p in
      block_end (to_u32 p.addr) (block p) 4294967296 one h.masked divides
        (to_u32-lt p.addr h.addr_valid)

  to_u32-offset_to_ip : (o : ℕ) → o < block p → to_u32 (offset_to_ip p o) ≡ to_u32 p.addr + o
  unfolding offset_to_ip
  to_u32-offset_to_ip o lt =
      let fits : u32 (to_u32 p.addr + o) ≡ to_u32 p.addr + o = omega (arith, block_fits) in
      rw fits (to_u32-of_u32 (to_u32 p.addr + o) (omega (arith, block_fits)))

  -- An offset below the block's size names an address of the subnet, and reads back.
  pub ip_to_offset-offset_to_ip : (o : ℕ) → o < block p → ip_to_offset p (offset_to_ip p o) ≡ some o
  unfolding ip_to_offset
  ip_to_offset-offset_to_ip o lt = rw (to_u32-offset_to_ip o lt) (
      ground (
        arith,
        same_block (to_u32 p.addr) (block p) o h.masked lt,
        to_u32-lt p.addr h.addr_valid,
        block_fits,
      ))

  -- An address of the subnet has an offset below the block's size, which gives the address back.
  pub offset_to_ip-ip_to_offset :
      (ip : Addr) (o : ℕ)
      → IsAddr ip
      → ip_to_offset p ip ≡ some o
      → (o < block p) × (offset_to_ip p o ≡ ip)
  unfolding ip_to_offset offset_to_ip
  offset_to_ip-ip_to_offset ip o a e =
      elim (Bool-cases (to_u32 ip / block p == to_u32 p.addr / block p)) [
        | inr out ↦ absurd (cc (rw out at e))
        | inl inside ↦
            let same = (==_iff (to_u32 ip / block p) (to_u32 p.addr / block p)).0 inside in
            let value : u32 (to_u32 ip + 4294967296 - to_u32 p.addr) ≡ o = ground arith in
            let base_lt = to_u32-lt p.addr h.addr_valid in
            let ip_lt = to_u32-lt ip a in
            let (le, lt) =
              above (to_u32 p.addr) (to_u32 ip) (block p) (block_bounds p).0 h.masked same in
            let exact : o ≡ to_u32 ip - to_u32 p.addr = omega arith in
            let back : u32 (to_u32 p.addr + o) ≡ to_u32 ip = omega arith in
            (omega arith, rw back (of_u32-to_u32 ip a))
      ]
