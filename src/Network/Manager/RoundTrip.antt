-- ===== src/Network/Manager/RoundTrip.antt =====
-- `Connect` and then `disconnectLocked`: what the store promises the manager, and what the two leave.
use mathlib.Core.Path.{subst}
use kogia.Base.{
  ℕ, ◌≡◌, ◌≢◌, sym, ap, ◌∙◌, inl, inr, Bool, true, false, none, some, List, [], ◌∷◌, Str, str_eq,
  str_eq_iff, ok, Bool-cases, Option-cases, Outcome-cases, arith,
}
use kogia.Network.Types.{Record, EndpointRecord, PortMapping}
use kogia.Network.Dns.{Records, resolve, resolve-deregister}
use kogia.Network.Ipam.Address.{Addr, Prefix, IsSubnet, subnet_size}
use kogia.Network.Ipam.Allocator.{prefix_string, allocate, release, load_or_create_bitmap}
use kogia.Network.Ipam.Bitmap.{Bitmap, find_first_unset, set_bit}
use kogia.Network.Ipam.View.{IpamStoreLaws, Offsets, Views, mark}
use kogia.Network.Ipam.Refines.{release-Commits}
use kogia.Network.Ipam.Sequences.{allocate-Allocated, offset_reads_back, Views-ext, mark_undo}
use kogia.Network.Manager.State.{ManagerStore, Kernel, Manager, driver_bridge, default_network_name}
use kogia.Network.Manager.Connect.{connect}
use kogia.Network.Manager.Disconnect.{deregister_all, release_address, detach, disconnect_locked}
use kogia.Network.Manager.Rollback.{forget_name}
use kogia.Network.Manager.Failure.{Writes, release-Writes}
use kogia.Network.Manager.Success.{connect-Joined, dns_name, names_with}

-- What the manager relies on: the bucket of each kind of record is its own.
pub record ManagerStoreLaws {S E : Type 0} (store : ManagerStore S E) : Type 0 where
  pub ipam_laws : IpamStoreLaws store.ipam
  pub network-put_ipam_bitmap :
      (s s' : S) (k : Str) (b : Bitmap) (j : Str)
      → store.ipam.put_ipam_bitmap s k b ≡ ok s'
      → store.get_network j s' ≡ store.get_network j s
  pub network-create_endpoint :
      (s s' : S) (ep : EndpointRecord) (j : Str)
      → store.create_endpoint ep s ≡ ok s'
      → store.get_network j s' ≡ store.get_network j s
  pub network-delete_endpoint :
      (s s' : S) (n c j : Str)
      → store.delete_endpoint n c s ≡ ok s'
      → store.get_network j s' ≡ store.get_network j s
  pub endpoint-put_ipam_bitmap :
      (s s' : S) (k : Str) (b : Bitmap) (n c : Str)
      → store.ipam.put_ipam_bitmap s k b ≡ ok s'
      → store.get_endpoint n c s' ≡ store.get_endpoint n c s
  pub bitmap-create_endpoint :
      (s s' : S) (ep : EndpointRecord) (k : Str)
      → store.create_endpoint ep s ≡ ok s'
      → store.ipam.get_ipam_bitmap s' k ≡ store.ipam.get_ipam_bitmap s k
  pub bitmap-delete_endpoint :
      (s s' : S) (n c k : Str)
      → store.delete_endpoint n c s ≡ ok s'
      → store.ipam.get_ipam_bitmap s' k ≡ store.ipam.get_ipam_bitmap s k
  pub get-create_endpoint :
      (s s' : S) (ep : EndpointRecord)
      → store.create_endpoint ep s ≡ ok s'
      → store.get_endpoint ep.network_id ep.container_id s' ≡ ok ep
  pub get-delete_endpoint :
      (s s' : S) (n c : Str)
      → store.delete_endpoint n c s ≡ ok s'
      → (ep : EndpointRecord) → store.get_endpoint n c s' ≢ ok ep

module _ {S E : Type 0} (store : ManagerStore S E) (laws : ManagerStoreLaws store) where
  -- Two states with the same bitmap of a subnet show the same addresses of it.
  Views-same :
      (s s' : S) (p : Prefix) (used : Offsets)
      → store.ipam.get_ipam_bitmap s' (prefix_string p)
        ≡ store.ipam.get_ipam_bitmap s (prefix_string p)
      → Views store.ipam s p used
      → Views store.ipam s' p used
  unfolding load_or_create_bitmap
  Views-same s s' p used e v = record {
    bitmap = v.bitmap;
    loaded = rw (e, load_or_create_bitmap) v.loaded;
    valid = v.valid;
    covers = v.covers;
    agrees = v.agrees;
  }

  allocate-get_network :
      (p : Prefix) (s s' : S) (ip : Addr) (j : Str)
      → allocate store.ipam p s ≡ (ok ip, s')
      → store.get_network j s' ≡ store.get_network j s
  unfolding allocate
  allocate-get_network p s s' ip j h =
      elim (Outcome-cases (load_or_create_bitmap store.ipam p (subnet_size p) s)) [
        | inr (inl (x, failed)) ↦ absurd (ground (arith, failed, h))
        | inr (inr bad) ↦ absurd (ground (arith, bad, h))
        | inl (m, loaded) ↦ elim (Option-cases (find_first_unset m 2 (subnet_size p))) [
          | inl full ↦ absurd (ground (arith, loaded, full, h))
          | inr (o, found) ↦ elim (Option-cases (set_bit m o)) [
            | inl bad ↦ absurd (ground (arith, loaded, found, bad, h))
            | inr (m', set) ↦
                elim (Outcome-cases (store.ipam.put_ipam_bitmap s (prefix_string p) m')) [
                  | inr (inl (x, failed)) ↦ absurd (ground (arith, loaded, found, set, failed, h))
                  | inr (inr bad) ↦ absurd (ground (arith, loaded, found, set, bad, h))
                  | inl (s1, put) ↦
                      laws.network-put_ipam_bitmap s s' (prefix_string p) m' j
                        (ground (arith, loaded, found, set, put, h))
                ]
          ]
        ]
      ]

  -- An address that was allocated is taken back, whatever was written elsewhere since.
  release_later :
      (p : Prefix) (h : IsSubnet p) (s s1 s' : S) (used : Offsets) (ip : Addr)
      → Views store.ipam s p used
      → Writes store laws.ipam_laws p
      → allocate store.ipam p s ≡ (ok ip, s1)
      → store.ipam.get_ipam_bitmap s' (prefix_string p)
        ≡ store.ipam.get_ipam_bitmap s1 (prefix_string p)
      → Views store.ipam (release store.ipam p ip s').1 p used
  release_later p h s s1 s' used ip v writes e same =
      let a = allocate-Allocated store.ipam laws.ipam_laws p s s1 used ip v e in
      let after = Views-same s1 s' p (mark a.offset true used) same a.after in
      let back = offset_reads_back store.ipam laws.ipam_laws p h s s1 used ip v a in
      let (s2, done) =
        release-Writes store laws.ipam_laws p s' (mark a.offset true used) ip a.offset after back
          a.high writes in
      elim (release-Commits store.ipam laws.ipam_laws p s' (mark a.offset true used) ip a.offset
        after back a.high) [
          | inr (x, failed) ↦ absurd (cc (done, failed))
          | inl (ended, view) ↦
              Views-ext store.ipam laws.ipam_laws p (release store.ipam p ip s').1
                (mark a.offset false (mark a.offset true used)) used
                (λ k. mark_undo a.offset used a.free k) view
        ]

-- A new name that is given and taken away again, or only taken away.
names_back :
    (rec : Record) (name n j : Str) (ip : Addr) (d : Records)
    → resolve rec.id name d ≡ none
    → resolve n j (deregister_all rec.id (name ∷ []) (names_with rec name ip d)) ≡ resolve n j d
unfolding deregister_all
names_back rec name n j ip d fresh = elim (Bool-cases (str_eq rec.name default_network_name)) [
  | inr own ↦ rw own (forget_name rec.id name n j ip d fresh)
  | inl default ↦ rw default (
      ground (
        arith,
        resolve-deregister rec.id name d n j,
        str_eq_iff rec.id n,
        str_eq_iff name j,
        fresh,
      ))
]

module _ {S E K : Type 0} (store : ManagerStore S E) (laws : ManagerStoreLaws store)
    (kernel : Kernel K) where
  -- What `disconnectLocked` that succeeds does with an endpoint that is there.
  disconnect_found :
      (network_id container_id : Str) (force : Bool) (m m' : Manager S K) (ep : EndpointRecord)
      → store.get_endpoint network_id container_id m.store ≡ ok ep
      → disconnect_locked store kernel network_id container_id force m ≡ (ok tt, m')
      → let detached = detach store kernel network_id ep m in
        (store.delete_endpoint network_id container_id detached.store ≡ ok m'.store)
        × (m'.dns ≡ detached.dns)
  unfolding disconnect_locked
  disconnect_found network_id container_id force m m' ep found h =
      elim (Outcome-cases (
        store.delete_endpoint network_id container_id
          (detach store kernel network_id ep m).store)) [
            | inl (s, deleted) ↦
                (ground (arith, found, deleted, h), ground (arith, found, deleted, h))
            | inr (inl (x, failed)) ↦ absurd (ground (arith, found, failed, h))
            | inr (inr p) ↦ absurd (ground (arith, found, p, h))
          ]

  -- A container that joined a bridge network and left it again leaves the same addresses reserved
  -- and every name with the address it had, and has no endpoint in the network: where the masked
  -- subnet's bitmap loads and can be written, the container's name was new in the network and both
  -- calls succeed.
  pub disconnect-connect :
      (rec : Record) (subnet : Prefix) (container_id container_name : Str) (pid : ℕ)
      (pms : List PortMapping) (force : Bool) (m m1 m2 : Manager S K) (ep : EndpointRecord)
      (used : Offsets)
      → store.get_network rec.id m.store ≡ ok rec
      → str_eq rec.driver driver_bridge ≡ true
      → rec.subnet ≡ some subnet
      → IsSubnet subnet
      → Views store.ipam m.store subnet used
      → Writes store laws.ipam_laws subnet
      → resolve rec.id (dns_name container_name) m.dns ≡ none
      → connect store kernel rec.id container_id container_name pid pms m ≡ (ok ep, m1)
      → disconnect_locked store kernel rec.id container_id force m1 ≡ (ok tt, m2)
      → Views store.ipam m2.store subnet used
        × ((n j : Str) → resolve n j m2.dns ≡ resolve n j m.dns)
        × ((x : EndpointRecord) → store.get_endpoint rec.id container_id m2.store ≢ ok x)
  unfolding detach release_address
  disconnect-connect rec subnet container_id container_name pid pms force m m1 m2 ep used found
        bridge has h v writes fresh joins leaves =
      let j =
        connect-Joined store kernel rec.id container_id container_name pid pms m m1 ep rec subnet
          found bridge has joins in
      let here : store.get_endpoint rec.id container_id m1.store ≡ ok ep =
        rw (← j.its_network, ← j.its_container)
          (laws.get-create_endpoint j.reserved m1.store ep j.created) in
      let still : store.get_network rec.id m1.store ≡ ok rec =
        laws.network-create_endpoint j.reserved m1.store ep rec.id j.created
        ∙ allocate-get_network store laws subnet m.store j.reserved j.ip rec.id j.allocated
        ∙ found in
      let (deleted, names) = disconnect_found rec.id container_id force m1 m2 ep here leaves in
      let back =
        release_later store laws subnet h m.store j.reserved m1.store used j.ip v writes j.allocated
          (laws.bitmap-create_endpoint j.reserved m1.store ep (prefix_string subnet) j.created) in
      let given_back : (detach store kernel rec.id ep m1).store
          ≡ (release store.ipam subnet j.ip m1.store).1 =
        rw (still, detach) (rw (j.its_address, has, release_address)) in
      (
        Views-same store laws _ m2.store subnet used
            (laws.bitmap-delete_endpoint _ m2.store rec.id container_id (prefix_string subnet)
              deleted)
            (subst (λ t. Views store.ipam t subnet used) (sym given_back) back),
        λ n i.
            ap (resolve n i) names
            ∙ rw (j.its_names, j.named, detach)
                (names_back rec (dns_name container_name) n i j.ip m.dns fresh),
        laws.get-delete_endpoint _ m2.store rec.id container_id deleted,
      )
