-- ===== src/Network/Manager/Connect.antt =====
-- `Connect` of the network manager, with its stack of clean-ups.
use kogia.Base.{
  ℕ, ◌+◌, not, Option, none, some, List, [], ◌∷◌, Str, codes, str_eq, trim_prefix, if◌then◌else◌,
  Outcome, ok, err, panic,
}
use kogia.Network.Types.{Record, EndpointRecord, PortMapping}
use kogia.Network.Dns.{register, deregister}
use kogia.Network.Ipam.Address.{Addr, Prefix}
use kogia.Network.Ipam.Allocator.{allocate, release}
use kogia.Network.Manager.State.{
  ManagerStore, Kernel, Manager, NetError, driver_bridge, default_network_name, network_not_found,
  link_failed, mapping_failed, ipam_failed, store_failed,
}

-- A function on the stack `cleanups`.
pub data Cleanup : Type 0 where
  release_ip : Prefix → Addr → Cleanup
  disconnect : Str → Cleanup
  remove_mapping : PortMapping → Addr → Cleanup
  deregister_name : Str → Str → Cleanup

-- The record of an endpoint of the "host" and "none" networks.
abbrev pub empty_endpoint : Str → Str → Str → EndpointRecord
empty_endpoint network_id container_id container_name = record {
  network_id = network_id;
  container_id = container_id;
  container_name = container_name;
  ip_address = none;
  mac_address = [];
  veth_host = [];
  port_mappings = [];
  dns_names = [];
}

module _ {S E K : Type 0} (store : ManagerStore S E) (kernel : Kernel K) where
  abbrev pub clean : Cleanup → Manager S K → Manager S K
  clean (release_ip subnet ip) m = record m { store = (release store.ipam subnet ip m.store).1 }
  clean (disconnect veth) m = record m { kernel = kernel.disconnect_container veth m.kernel }
  clean (remove_mapping pm ip) m = record m {
    kernel = kernel.remove_port_mapping pm (some ip) m.kernel;
  }
  clean (deregister_name network_id name) m = record m { dns = deregister network_id name m.dns }

  -- The deferred loop: the clean-up that was pushed last runs first, and its error is ignored.
  unfoldable pub rollback : List Cleanup → Manager S K → Manager S K
  rollback [] m = m
  rollback (c ∷ stack) m = rollback stack (clean c m)

  -- The loop over the port mappings: the number of the one that fails, the stack, the manager.
  unfoldable pub add_mappings :
      ℕ
      → List PortMapping
      → Addr
      → List Cleanup
      → Manager S K
      → Option ℕ × List Cleanup × Manager S K
  add_mappings i [] ip stack m = (none, stack, m)
  add_mappings i (pm ∷ pms) ip stack m = elim (kernel.add_port_mapping pm ip m.kernel) [
    | none ↦ (some i, stack, m)
    | some k ↦ add_mappings (i + 1) pms ip (remove_mapping pm ip ∷ stack) (record m { kernel = k })
  ]

  abbrev pub Connected : Type 0
  Connected = Outcome (NetError E) EndpointRecord × Manager S K

  -- Step 5: the endpoint is written.
  unfoldable pub persist : EndpointRecord → List Cleanup → Manager S K → Connected
  persist ep stack m = elim (store.create_endpoint ep m.store) [
    | ok s ↦ (ok ep, record m { store = s })
    | err e ↦ (err (store_failed e), rollback stack m)
    | panic ↦ (panic, m)
  ]

  -- Step 4: a network of the user's has the name in its DNS records.
  unfoldable pub register_name :
      Record → Str → Addr → List Cleanup → Manager S K → List Cleanup × Manager S K
  register_name rec name ip stack m =
      if not (str_eq rec.name default_network_name)
      then (deregister_name rec.id name ∷ stack, record m { dns = register rec.id name ip m.dns })
      else (stack, m)

  -- Steps 3 to 5, with the veth pair in place.
  unfoldable pub publish_endpoint :
      Record → EndpointRecord → Addr → List Cleanup → Manager S K → Connected
  publish_endpoint rec ep ip stack m =
      let added = add_mappings 0 ep.port_mappings ip stack m in
      elim added.0 [
        | some i ↦ (err (mapping_failed i), rollback added.1 added.2)
        | none ↦
            let named =
              register_name rec (trim_prefix ep.container_name (codes "/")) ip added.1 added.2 in
            persist ep named.0 named.1
      ]

  -- Steps 2 to 5, with the address allocated.
  unfoldable pub attach : Record → Prefix → Addr → EndpointRecord → ℕ → Manager S K → Connected
  attach rec subnet ip ep pid m =
      elim (kernel.connect_container rec.bridge_name pid ip rec.gateway subnet m.kernel) [
        | none ↦ (err link_failed, rollback (release_ip subnet ip ∷ []) m)
        | some (veth, mac, k) ↦
            publish_endpoint rec (record ep { mac_address = mac; veth_host = veth }) ip
              (disconnect veth ∷ release_ip subnet ip ∷ []) (record m { kernel = k })
      ]

  -- The endpoint before the pair is made.
  abbrev pub new_endpoint : Record → Str → Str → Addr → List PortMapping → EndpointRecord
  new_endpoint rec container_id container_name ip pms = record {
    network_id = rec.id;
    container_id = container_id;
    container_name = container_name;
    ip_address = some ip;
    mac_address = [];
    veth_host = [];
    port_mappings = pms;
    dns_names = trim_prefix container_name (codes "/") ∷ [];
  }

  -- Step 1: an address. A bridge without a valid subnet makes `Allocate` panic; the bitmap that it
  -- writes for the invalid prefix before that is left out.
  unfoldable pub connect_bridge :
      Record → Str → Str → ℕ → List PortMapping → Manager S K → Connected
  connect_bridge rec container_id container_name pid pms m = elim rec.subnet [
    | none ↦ (panic, m)
    | some subnet ↦
        let allocated = allocate store.ipam subnet m.store in
        let m' = record m { store = allocated.1 } in
        elim allocated.0 [
          | err e ↦ (err (ipam_failed e), m')
          | panic ↦ (panic, m')
          | ok ip ↦
              attach rec subnet ip (new_endpoint rec container_id container_name ip pms) pid m'
        ]
  ]

  unfoldable pub connect : Str → Str → Str → ℕ → List PortMapping → Manager S K → Connected
  connect network_id container_id container_name pid pms m =
      elim (store.get_network network_id m.store) [
        | err e ↦ (err network_not_found, m)
        | panic ↦ (panic, m)
        | ok rec ↦
            if not (str_eq rec.driver driver_bridge)
            then (ok (empty_endpoint rec.id container_id container_name), m)
            else connect_bridge rec container_id container_name pid pms m
      ]
