-- ===== src/Network/Manager/Failure.antt =====
-- A `Connect` that returns an error, and what its clean-ups take back.
use mathlib.Core.Path.{subst}
use kogia.Base.{
  ℕ, ◌<◌, ◌≡◌, Bool-cases, refl, sym, ap, inl, inr, true, none, some, List, Str, codes, str_eq,
  trim_prefix, Outcome, ok, err, Outcome-cases, arith,
}
use kogia.Network.Types.{Record, PortMapping}
use kogia.Network.Dns.{resolve}
use kogia.Network.Ipam.Address.{Addr, Prefix, IsSubnet, subnet_size, ip_to_offset}
use kogia.Network.Ipam.Allocator.{
  IpamError, prefix_string, allocate, release, release_at, write_back,
}
use kogia.Network.Ipam.Bitmap.{Bitmap}
use kogia.Network.Ipam.BitLaws.{clear_bit_in_range}
use kogia.Network.Ipam.View.{IpamStoreLaws, Offsets, Views, mark}
use kogia.Network.Ipam.Refines.{allocate-Allocates}
use kogia.Network.Ipam.Sequences.{release-allocate, allocate-Allocated, offset_reads_back}
use kogia.Network.Manager.State.{ManagerStore, Kernel, KernelLaws, Manager, NetError, driver_bridge}
use kogia.Network.Manager.Connect.{attach, new_endpoint, connect_bridge, connect}
use kogia.Network.Manager.Rollback.{NewMappingsAfter, attach-undone}

module _ {S E : Type 0} (store : ManagerStore S E) (laws : IpamStoreLaws store.ipam) where
  -- The store writes the bitmap of the subnet whenever it is asked to.
  abbrev pub Writes : Prefix → Type 0
  Writes p =
      (s : S) (m : Bitmap) → (s' : S) × (store.ipam.put_ipam_bitmap s (prefix_string p) m ≡ ok s')

  allocate-err :
      (p : Prefix) (s s' : S) (used : Offsets) (e : IpamError E)
      → Views store.ipam s p used
      → allocate store.ipam p s ≡ (err e, s')
      → s ≡ s'
  allocate-err p s s' used e v h = elim (allocate-Allocates store.ipam laws p s used v) [
    | inr (full, failed) ↦ cc (h, failed)
    | inl (o, low, high, free, before, inr (x, failed)) ↦ cc (h, failed)
    | inl (o, low, high, free, before, inl (done, after)) ↦ absurd (cc (h, done))
  ]

  pub release-Writes :
      (p : Prefix) (s : S) (used : Offsets) (ip : Addr) (o : ℕ)
      → Views store.ipam s p used
      → ip_to_offset p ip ≡ some o
      → o < subnet_size p
      → Writes p
      → (s' : S) × (release store.ipam p ip s ≡ (ok tt, s'))
  unfolding release
  release-Writes p s used ip o v at lt writes =
      let (m, cleared) = clear_bit_in_range v.bitmap o (omega (arith, v.covers)) in
      let (s', written) = writes s m in
      (
        s',
        rw (at, release) (rw v.loaded (rw (cleared, release_at) (rw (written, write_back) refl))),
      )

  -- Taking the address back right after it was allocated.
  undo_allocate :
      (p : Prefix) (h : IsSubnet p) (s s' : S) (used : Offsets) (ip : Addr)
      → Views store.ipam s p used
      → Writes p
      → allocate store.ipam p s ≡ (ok ip, s')
      → Views store.ipam (release store.ipam p ip s').1 p used
  undo_allocate p h s s' used ip v writes e =
      let a = allocate-Allocated store.ipam laws p s s' used ip v e in
      let (s'', released) =
        release-Writes p s' (mark a.offset true used) ip a.offset a.after
          (offset_reads_back store.ipam laws p h s s' used ip v a) a.high writes in
      rw released (release-allocate store.ipam laws p h s s' used ip v s'' e released)

module _ {S E K : Type 0} (store : ManagerStore S E) (laws : IpamStoreLaws store.ipam)
    (kernel : Kernel K) (kernel_laws : KernelLaws kernel) where
  -- Where the bitmap of the network's masked subnet loads and can be written, a `Connect` that returns
  -- an error leaves the same addresses reserved, the kernel's links and rules as they were and every
  -- name with the address it had: if the container's name was new in the network, none of the port
  -- mappings was there before it was added, and the kernel takes a new pair and new rules away again.
  pub connect-Restored :
      (network_id container_id container_name : Str) (pid : ℕ) (pms : List PortMapping)
      (m m' : Manager S K) (e : NetError E) (rec : Record) (subnet : Prefix) (used : Offsets)
      → store.get_network network_id m.store ≡ ok rec
      → rec.subnet ≡ some subnet
      → IsSubnet subnet
      → Views store.ipam m.store subnet used
      → Writes store laws subnet
      → ((ip : Addr) → NewMappingsAfter store kernel kernel_laws rec subnet ip pms pid m.kernel)
      → resolve rec.id (trim_prefix container_name (codes "/")) m.dns ≡ none
      → connect store kernel network_id container_id container_name pid pms m ≡ (err e, m')
      → Views store.ipam m'.store subnet used
        × (m'.kernel ≡ m.kernel)
        × ((n j : Str) → resolve n j m'.dns ≡ resolve n j m.dns)
  unfolding connect connect_bridge
  connect-Restored network_id container_id container_name pid pms m m' e rec subnet used found has h
        v writes new fresh failed =
      elim (Bool-cases (str_eq rec.driver driver_bridge)) [
        | inr virtual ↦ absurd (ground (arith, found, virtual, failed))
        | inl bridge ↦
            let r = allocate store.ipam subnet m.store in
            elim (Outcome-cases r.0) [
              | inl (ip, given) ↦
                  let m1 : Manager S K = record m { store = r.1 } in
                  let ep = new_endpoint store kernel rec container_id container_name ip pms in
                  let tried : attach store kernel rec subnet ip ep pid m1 ≡ (err e, m') =
                    ground (arith, found, bridge, has, given, failed) in
                  let undone =
                    attach-undone store kernel kernel_laws rec subnet ip ep pid m1 m' e (new ip)
                      fresh tried in
                  (
                    subst (λ t. Views store.ipam t subnet used) (sym undone.store_same)
                        (undo_allocate store laws subnet h m.store r.1 used ip v writes
                          (ap (λ (o : Outcome (IpamError E) Addr). (o, r.1)) given)),
                    undone.kernel_same,
                    undone.names_same,
                  )
              | inr (inl (x, refused)) ↦
                  let same =
                    allocate-err store laws subnet m.store r.1 used x v
                      (ap (λ (o : Outcome (IpamError E) Addr). (o, r.1)) refused) in
                  let kept : m ≡ m' = ground (arith, found, bridge, has, refused, failed, same) in
                  rw (← kept) (v, refl, λ n j. refl)
              | inr (inr p) ↦ absurd (ground (arith, found, bridge, has, p, failed))
            ]
      ]
