-- ===== src/Store/NetworkTests.antt =====
-- The store of the network manager, with its buckets in memory.
use kogia.Base.{◌≡◌, ◌&&◌, Bool, true, none, [], codes, str_eq, str_eq_iff, arith}
use kogia.Store.Bolt.{Json}
use kogia.Store.Memory.{memory, memory-BoltLaws}
use kogia.Store.NetworkBackend.{manager_store, manager_store-ManagerStoreLaws}
use kogia.Store.Tests.{only, only-JsonLaws, is_none, nothing, nothing_of, none_of}
use kogia.Network.Types.{Record, EndpointRecord}
use kogia.Network.Manager.RoundTrip.{ManagerStoreLaws}

abbrev joined : EndpointRecord
joined = record {
  network_id = codes "n1";
  container_id = codes "c1";
  container_name = codes "/web";
  ip_address = none;
  mac_address = [];
  veth_host = [];
  port_mappings = [];
  dns_names = [];
}

abbrev is_joined : EndpointRecord → Bool
is_joined ep =
    str_eq ep.network_id joined.network_id
    && (str_eq ep.container_id joined.container_id
        && (str_eq ep.container_name joined.container_name
            && (is_none ep.ip_address
                && (nothing ep.mac_address
                    && (nothing ep.veth_host
                        && (nothing ep.port_mappings && nothing ep.dns_names))))))

is_joined_sound : (ep : EndpointRecord) → is_joined ep ≡ true → ep ≡ joined
is_joined_sound ep same = ground (
  arith,
  str_eq_iff ep.network_id joined.network_id,
  str_eq_iff ep.container_id joined.container_id,
  str_eq_iff ep.container_name joined.container_name,
  none_of ep.ip_address,
  nothing_of ep.mac_address,
  nothing_of ep.veth_host,
  nothing_of ep.port_mappings,
  nothing_of ep.dns_names,
)

abbrev bridge : Record
bridge = record {
  gateway = none;
  options = [];
  labels = [];
  subnet = none;
  id = codes "n1";
  name = codes "blue";
  driver = codes "bridge";
  bridge_name = codes "br-n1";
  internal = true;
}

abbrev networks : Json Record
networks = only (λ rec. str_eq rec.id bridge.id) bridge

manager_store-ManagerStoreLaws_example :
    ManagerStoreLaws (manager_store memory networks (only is_joined joined))
manager_store-ManagerStoreLaws_example =
    manager_store-ManagerStoreLaws memory memory-BoltLaws networks (only is_joined joined)
      (only-JsonLaws is_joined joined is_joined_sound)
