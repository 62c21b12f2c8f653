-- ===== src/Network/Manager/Success.antt =====
-- What a `Connect` to a bridge network that returns an endpoint has done.
use kogia.Base.{
  ℕ, ◌≡◌, sym, ap, ◌∙◌, inl, inr, true, not, some, List, [], ◌∷◌, Str, codes, str_eq, trim_prefix,
  if◌then◌else◌, Outcome, ok, Option-cases, Outcome-cases, Bool-cases, arith,
}
use kogia.Network.Types.{Record, EndpointRecord, PortMapping}
use kogia.Network.Dns.{Records, register}
use kogia.Network.Ipam.Address.{Addr, Prefix}
use kogia.Network.Ipam.Allocator.{IpamError, allocate}
use kogia.Network.Manager.State.{ManagerStore, Kernel, Manager, driver_bridge, default_network_name}
use kogia.Network.Manager.Connect.{
  Cleanup, release_ip, disconnect, add_mappings, persist, register_name, publish_endpoint, attach,
  new_endpoint, connect_bridge, connect,
}
use kogia.Network.Manager.Rollback.{add_mappings-kept}

abbrev pub dns_name : Str → Str
dns_name container_name = trim_prefix container_name (codes "/")

-- The records of the names after a container with this address has joined the network.
abbrev pub names_with : Record → Str → Addr → Records → Records
names_with rec name ip d =
    if not (str_eq rec.name default_network_name) then register rec.id name ip d else d

module _ {S E K : Type 0} (store : ManagerStore S E) (kernel : Kernel K) where
  persist-ok :
      (ep ep' : EndpointRecord) (stack : List Cleanup) (m m' : Manager S K)
      → persist store kernel ep stack m ≡ (ok ep', m')
      → (ep' ≡ ep) × (store.create_endpoint ep m.store ≡ ok m'.store) × (m'.dns ≡ m.dns)
  unfolding persist
  persist-ok ep ep' stack m m' h = elim (Outcome-cases (store.create_endpoint ep m.store)) [
    | inl (s, made) ↦ (ground (arith, made, h), ground (arith, made, h), ground (arith, made, h))
    | inr (inl (x, failed)) ↦ absurd (ground (arith, failed, h))
    | inr (inr p) ↦ absurd (ground (arith, p, h))
  ]

  named-ok :
      (rec : Record) (ep ep' : EndpointRecord) (name : Str) (ip : Addr) (stack : List Cleanup)
      (m m' : Manager S K)
      → (let named = register_name store kernel rec name ip stack m in
          persist store kernel ep named.0 named.1 ≡ (ok ep', m'))
      → (ep' ≡ ep)
        × (store.create_endpoint ep m.store ≡ ok m'.store)
        × (m'.dns ≡ names_with rec name ip m.dns)
  unfolding register_name
  named-ok rec ep ep' name ip stack m m' h =
      elim (Bool-cases (str_eq rec.name default_network_name)) [
        | inl default ↦ rw default (persist-ok ep ep' stack m m' (rw default at h))
        | inr own ↦ rw own (
            persist-ok ep ep' _ (record m { dns = register rec.id name ip m.dns }) m' (rw own at h))
      ]

  publish-ok :
      (rec : Record) (ep ep' : EndpointRecord) (ip : Addr) (stack : List Cleanup)
      (m m' : Manager S K)
      → publish_endpoint store kernel rec ep ip stack m ≡ (ok ep', m')
      → (ep' ≡ ep)
        × (store.create_endpoint ep m.store ≡ ok m'.store)
        × (m'.dns ≡ names_with rec (dns_name ep.container_name) ip m.dns)
  unfolding publish_endpoint
  publish-ok rec ep ep' ip stack m m' h =
      let added = add_mappings store kernel 0 ep.port_mappings ip stack m in
      let (dns, kept) = add_mappings-kept store kernel 0 ep.port_mappings ip stack m in
      elim (Option-cases added.0) [
        | inr (i, failed) ↦ absurd (ground (arith, failed, h))
        | inl all ↦
            let (same, made, names) =
              named-ok rec ep ep' (dns_name ep.container_name) ip added.1 added.2 m'
                (rw (all, publish_endpoint) at h) in
            (
              same,
              ap (store.create_endpoint ep) (sym kept) ∙ made,
              names ∙ ap (names_with rec (dns_name ep.container_name) ip) dns,
            )
      ]

  -- The endpoint and the manager after a `Connect` that succeeded.
  pub record Joined (rec : Record) (subnet : Prefix) (container_id container_name : Str)
      (m : Manager S K) (ep : EndpointRecord) (m' : Manager S K) : Type 0 where
    pub ip : Addr
    pub reserved : S
    pub allocated : allocate store.ipam subnet m.store ≡ (ok ip, reserved)
    pub created : store.create_endpoint ep reserved ≡ ok m'.store
    pub named : m'.dns ≡ names_with rec (dns_name container_name) ip m.dns
    pub its_network : ep.network_id ≡ rec.id
    pub its_container : ep.container_id ≡ container_id
    pub its_address : ep.ip_address ≡ some ip
    pub its_names : ep.dns_names ≡ dns_name container_name ∷ []

  pub connect-Joined :
      (network_id container_id container_name : Str) (pid : ℕ) (pms : List PortMapping)
      (m m' : Manager S K) (ep : EndpointRecord) (rec : Record) (subnet : Prefix)
      → store.get_network network_id m.store ≡ ok rec
      → str_eq rec.driver driver_bridge ≡ true
      → rec.subnet ≡ some subnet
      → connect store kernel network_id container_id container_name pid pms m ≡ (ok ep, m')
      → Joined rec subnet container_id container_name m ep m'
  unfolding connect connect_bridge attach
  connect-Joined network_id container_id container_name pid pms m m' ep rec subnet found bridge has
        h =
      let r = allocate store.ipam subnet m.store in
      elim (Outcome-cases r.0) [
        | inr (inl (x, refused)) ↦ absurd (ground (arith, found, bridge, has, refused, h))
        | inr (inr p) ↦ absurd (ground (arith, found, bridge, has, p, h))
        | inl (ip, given) ↦
            elim (Option-cases
              (kernel.connect_container rec.bridge_name pid ip rec.gateway subnet m.kernel)) [
                | inl failed ↦ absurd (ground (arith, found, bridge, has, given, failed, h))
                | inr ((veth, mac, k), linked) ↦
                    let fresh = new_endpoint store kernel rec container_id container_name ip pms in
                    let full = record fresh { mac_address = mac; veth_host = veth } in
                    let m1 : Manager S K = record m { store = r.1; kernel = k } in
                    let (same, made, names) =
                      publish-ok rec full ep ip (disconnect veth ∷ release_ip subnet ip ∷ []) m1 m'
                        (ground (arith, found, bridge, has, given, linked, h)) in
                    record {
                      ip = ip;
                      reserved = r.1;
                      allocated = ap (λ (o : Outcome (IpamError E) Addr). (o, r.1)) given;
                      created =
                          ap (λ (x : EndpointRecord). store.create_endpoint x r.1) same ∙ made;
                      named = names;
                      its_network = ap (λ (x : EndpointRecord). x.network_id) same;
                      its_container = ap (λ (x : EndpointRecord). x.container_id) same;
                      its_address = ap (λ (x : EndpointRecord). x.ip_address) same;
                      its_names = ap (λ (x : EndpointRecord). x.dns_names) same;
                    }
              ]
      ]
