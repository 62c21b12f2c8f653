-- ===== src/Network/Ipam/Address.antt =====
-- IPv4 addresses and prefixes as internal/network/ipam.go uses them, and the way between an
-- address and its offset in a subnet. Prefixes are valid IPv4 prefixes, so the length is 0 to 32;
-- `Addr.As4` panics on the others.
use kogia.Base.{
  ℕ, ◌+◌, ◌-◌, ◌*◌, ◌/◌, ◌%◌, ◌^◌, ◌≤◌, ◌<◌, ◌≡◌, refl, Bool, true, ◌&&◌, Option, none, some, ltb,
  leb, ◌==◌, if◌then◌else◌, arith,
}
use kogia.Base.Bits.{every_below, every_below_at}

-- The four bytes of `netip.Addr.As4`, most significant first.
pub record Addr : Type 0 where
  pub b0 : ℕ
  pub b1 : ℕ
  pub b2 : ℕ
  pub b3 : ℕ

pub record IsAddr (a : Addr) : Type 0 where
  pub lt0 : a.b0 < 256
  pub lt1 : a.b1 < 256
  pub lt2 : a.b2 < 256
  pub lt3 : a.b3 < 256

-- `netip.Prefix` keeps the address as it was given, host bits included.
pub record Prefix : Type 0 where
  pub addr : Addr
  pub bits : ℕ

abbrev pub u32 : ℕ → ℕ
u32 n = n % 4294967296

-- `uint32(b[0])<<24 | uint32(b[1])<<16 | uint32(b[2])<<8 | uint32(b[3])`: the four fields do not
-- overlap, so `|` is a sum.
unfoldable pub to_u32 : Addr → ℕ
to_u32 a = a.b0 * 16777216 + a.b1 * 65536 + a.b2 * 256 + a.b3

-- `[4]byte{byte(ip >> 24), byte(ip >> 16), byte(ip >> 8), byte(ip)}`
unfoldable pub of_u32 : ℕ → Addr
of_u32 n = record {
  b0 = n / 16777216 % 256;
  b1 = n / 65536 % 256;
  b2 = n / 256 % 256;
  b3 = n % 256;
}

-- `1 << (32 - bits)`: the addresses that share a prefix.
abbrev pub block : Prefix → ℕ
block p = 2 ^ (32 - p.bits)

-- `netip.Prefix.Contains`: the bits above the host part agree.
unfoldable pub contains : Prefix → Addr → Bool
contains p ip = to_u32 ip / block p == to_u32 p.addr / block p

-- `subnetSize`
unfoldable pub subnet_size : Prefix → ℕ
subnet_size p = let host_bits = 32 - p.bits in 2 ^ (if ltb 20 host_bits then 20 else host_bits)

-- `offsetToIP`
unfoldable pub offset_to_ip : Prefix → ℕ → Addr
offset_to_ip p offset = of_u32 (u32 (to_u32 p.addr + offset))

-- `ipToOffset`: `none` is ErrIPOutOfRange. The subtraction is one of uint32.
unfoldable pub ip_to_offset : Prefix → Addr → Option ℕ
unfolding contains
ip_to_offset p ip =
    if contains p ip then some (u32 (to_u32 ip + 4294967296 - to_u32 p.addr)) else none

-- A subnet whose address is its first one, as `netip.Prefix.Masked` gives it.
pub record IsSubnet (p : Prefix) : Type 0 where
  pub addr_valid : IsAddr p.addr
  pub length_valid : p.bits ≤ 32
  pub masked : to_u32 p.addr % block p ≡ 0

pub to_u32-lt : (a : Addr) → IsAddr a → to_u32 a < 4294967296
unfolding to_u32
to_u32-lt a h = omega arith

pub to_u32-of_u32 : (n : ℕ) → n < 4294967296 → to_u32 (of_u32 n) ≡ n
unfolding to_u32 of_u32
to_u32-of_u32 n h = omega arith

pub of_u32-to_u32 : (a : Addr) → IsAddr a → of_u32 (to_u32 a) ≡ a
unfolding to_u32 of_u32
of_u32-to_u32 a h = ground arith

pub of_u32-IsAddr : (n : ℕ) → IsAddr (of_u32 n)
unfolding of_u32
of_u32-IsAddr n = omega arith

powers :
    every_below 33 (λ k. leb 1 (2 ^ k) && leb (2 ^ k) 4294967296 && 4294967296 % 2 ^ k == 0) ≡ true
unfolding every_below
powers = refl

small_powers : every_below 21 (λ k. leb 1 (2 ^ k) && leb (2 ^ k) 1048576) ≡ true
unfolding every_below
small_powers = refl

-- A block is not empty, and it divides the address space.
pub block_bounds :
    (p : Prefix) → (1 ≤ block p) × (block p ≤ 4294967296) × (4294967296 % block p ≡ 0)
block_bounds p =
    let h =
      every_below_at 33 (λ k. leb 1 (2 ^ k) && leb (2 ^ k) 4294967296 && 4294967296 % 2 ^ k == 0)
        (32 - p.bits) powers (omega arith) in
    ground arith
