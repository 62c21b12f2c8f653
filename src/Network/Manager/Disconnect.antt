-- ===== src/Network/Manager/Disconnect.antt =====
-- `Disconnect` and `DisconnectAll` of the network manager.
use kogia.Base.{
  Bool, true, Option, none, some, List, [], ◌∷◌, Str, if◌then◌else◌, Outcome, ok, err, panic,
}
use kogia.Network.Types.{Record, EndpointRecord, PortMapping}
use kogia.Network.Dns.{Records, deregister}
use kogia.Network.Ipam.Address.{Addr}
use kogia.Network.Ipam.Allocator.{release}
use kogia.Network.Manager.State.{
  ManagerStore, Kernel, Manager, NetError, endpoint_not_found, store_failed,
}

unfoldable pub deregister_all : Str → List Str → Records → Records
deregister_all network_id [] dns = dns
deregister_all network_id (name ∷ names) dns =
    deregister_all network_id names (deregister network_id name dns)

module _ {S E K : Type 0} (store : ManagerStore S E) (kernel : Kernel K) where
  unfoldable pub remove_mappings : List PortMapping → Option Addr → K → K
  remove_mappings [] ip k = k
  remove_mappings (pm ∷ pms) ip k = remove_mappings pms ip (kernel.remove_port_mapping pm ip k)

  -- The address goes back to its subnet, if the network and both of them are there. An address or a
  -- subnet that is not valid is out of range.
  unfoldable pub release_address : Outcome E Record → Option Addr → S → S
  release_address (ok rec) (some ip) s = elim rec.subnet [
    | none ↦ s
    | some subnet ↦ (release store.ipam subnet ip s).1
  ]
  release_address (ok rec) none s = s
  release_address (err e) ip s = s
  release_address panic ip s = s

  -- The parts of `disconnectLocked` whose errors are only logged.
  unfoldable pub detach : Str → EndpointRecord → Manager S K → Manager S K
  detach network_id ep m = record {
    store = release_address (store.get_network network_id m.store) ep.ip_address m.store;
    dns = deregister_all network_id ep.dns_names m.dns;
    kernel =
        kernel.disconnect_container ep.veth_host
          (remove_mappings ep.port_mappings ep.ip_address m.kernel);
  }

  abbrev pub delete_record : Str → Str → Manager S K → Outcome (NetError E) (Unit {0}) × Manager S K
  delete_record network_id container_id m =
      elim (store.delete_endpoint network_id container_id m.store) [
        | ok s ↦ (ok tt, record m { store = s })
        | err e ↦ (err (store_failed e), m)
        | panic ↦ (panic, m)
      ]

  -- `disconnectLocked`
  unfoldable pub disconnect_locked :
      Str → Str → Bool → Manager S K → Outcome (NetError E) (Unit {0}) × Manager S K
  disconnect_locked network_id container_id force m =
      elim (store.get_endpoint network_id container_id m.store) [
        | err e ↦ if force then (ok tt, m) else (err endpoint_not_found, m)
        | panic ↦ (panic, m)
        | ok ep ↦ delete_record network_id container_id (detach network_id ep m)
      ]

  -- The loop of `DisconnectAll`: the last error is returned.
  unfoldable pub disconnect_each :
      Str
      → List EndpointRecord
      → Outcome (NetError E) (Unit {0})
      → Manager S K
      → Outcome (NetError E) (Unit {0}) × Manager S K
  disconnect_each container_id [] last m = (last, m)
  disconnect_each container_id (ep ∷ eps) last m =
      let done = disconnect_locked ep.network_id container_id true m in
      elim done.0 [
        | ok u ↦ disconnect_each container_id eps last done.1
        | err e ↦ disconnect_each container_id eps (err e) done.1
        | panic ↦ (panic, done.1)
      ]

  unfoldable pub disconnect_all : Str → Manager S K → Outcome (NetError E) (Unit {0}) × Manager S K
  disconnect_all container_id m = elim (store.list_container_endpoints container_id m.store) [
    | err e ↦ (err (store_failed e), m)
    | panic ↦ (panic, m)
    | ok eps ↦ disconnect_each container_id eps (ok tt) m
  ]
