-- ===== src/Network/Manager/Tests.antt =====
-- The manager of the networks on a store in memory, and the theorems at small inputs.
use kogia.Base.{
  ℕ, suc, ◌-◌, ◌≡◌, ◌≢◌, refl, Bool, true, false, Option, none, some, List, [], ◌∷◌, ◌++◌, Str,
  codes, str_eq, str_eq_iff, str_eq_refl, format_uint, if◌then◌else◌, lookup, insert, erase,
  lookup-insert, lookup-erase, Outcome, ok, err, arith,
}
use kogia.Base.Maps.{Dict}
use kogia.Network.Types.{Record, EndpointRecord, PortMapping}
use kogia.Network.Dns.{resolve, register, deregister}
use kogia.Network.Ipam.Address.{
  Addr, Prefix, IsSubnet, to_u32, of_u32, offset_to_ip, ip_to_offset, contains, subnet_size,
}
use kogia.Network.Ipam.Bitmap.{Bitmap, find_first_unset, get_bit, set_bit, clear_bit, scan}
use kogia.Base.Bits.{or_bit, and_not_bit, inverted_from, trailing_zeros8}
use kogia.Network.Ipam.Allocator.{
  prefix_string, allocate, release, load_or_create_bitmap, new_bitmap, grow,
}
use kogia.Network.Ipam.View.{IpamStoreLaws, initial, Views, Views-new}
use kogia.Network.Manager.State.{
  ManagerStore, Kernel, KernelLaws, Manager, NetError, mapping_failed,
}
use kogia.Network.Manager.Connect.{
  connect, connect_bridge, attach, publish_endpoint, add_mappings, rollback, register_name, persist,
}
use kogia.Network.Manager.Disconnect.{
  disconnect_locked, detach, deregister_all, remove_mappings, release_address,
}
use kogia.Network.Manager.Failure.{Writes, connect-Restored}
use kogia.Network.Manager.RoundTrip.{ManagerStoreLaws, disconnect-connect}

-- A store in memory, without errors but for what is not there.
pub record Memory : Type 0 where
  bitmaps : Dict Bitmap
  networks : Dict Record
  endpoints : Dict EndpointRecord

abbrev found : {A : Type 0} → Option A → Outcome (Unit {0}) A
found none = err tt
found (some a) = ok a

abbrev key : Str → Str → Str
key n c = n ++ codes "/" ++ c

abbrev values : {A : Type 0} → Dict A → List A
values [] = []
values ((k, a) ∷ d) = a ∷ values d

abbrev of_network : Str → Dict EndpointRecord → List EndpointRecord
of_network n [] = []
of_network n ((k, ep) ∷ d) = if str_eq ep.network_id n then ep ∷ of_network n d else of_network n d

abbrev pub store : ManagerStore Memory (Unit {0})
store = record {
  ipam = record {
    get_ipam_bitmap = λ s k. ok (lookup k s.bitmaps);
    put_ipam_bitmap = λ s k b. ok (record s { bitmaps = insert k b s.bitmaps });
    delete_ipam_bitmap = λ s k. ok (record s { bitmaps = erase k s.bitmaps });
  };
  create_network = λ r s. ok (record s { networks = insert r.id r s.networks });
  get_network = λ k s. found (lookup k s.networks);
  delete_network = λ id name s. ok (record s { networks = erase id s.networks });
  list_networks = λ s. ok (values s.networks);
  create_endpoint = λ ep s.
      ok (record s { endpoints = insert (key ep.network_id ep.container_id) ep s.endpoints });
  get_endpoint = λ n c s. found (lookup (key n c) s.endpoints);
  delete_endpoint = λ n c s. ok (record s { endpoints = erase (key n c) s.endpoints });
  list_endpoints = λ n s. ok (of_network n s.endpoints);
  list_container_endpoints = λ c s. ok (values s.endpoints);
}

ipam_laws : IpamStoreLaws store.ipam
ipam_laws = record {
  get-put_self = λ s s' k b e. ground (arith, e, lookup-insert k k b s.bitmaps, str_eq_refl k);
  get-put_ne =
      λ s s' k j b e ne. ground (arith, e, ne, lookup-insert k j b s.bitmaps, str_eq_iff k j);
  get-delete_self = λ s s' k e. ground (arith, e, lookup-erase k k s.bitmaps, str_eq_refl k);
  put_safe = λ s k b e. absurd (cc e);
}

laws : ManagerStoreLaws store
laws = record {
  ipam_laws = ipam_laws;
  network-put_ipam_bitmap = λ s s' k b j e. ground (arith, e);
  network-create_endpoint = λ s s' ep j e. ground (arith, e);
  network-delete_endpoint = λ s s' n c j e. ground (arith, e);
  endpoint-put_ipam_bitmap = λ s s' k b n c e. ground (arith, e);
  bitmap-create_endpoint = λ s s' ep k e. ground (arith, e);
  bitmap-delete_endpoint = λ s s' n c k e. ground (arith, e);
  get-create_endpoint = λ s s' ep e.
      let k = key ep.network_id ep.container_id in
      ground (arith, e, lookup-insert k k ep s.endpoints, str_eq_refl k);
  get-delete_endpoint = λ s s' n c e ep got.
      absurd (
        ground
          (arith, e, got, lookup-erase (key n c) (key n c) s.endpoints, str_eq_refl (key n c)));
}

-- A kernel that counts what was added to it; rules and mappings can fail.
abbrev add_if : Bool → ℕ → Option ℕ
add_if works k = if works then some (suc k) else none

abbrev pub kernel : Bool → Kernel ℕ
kernel works = record {
  create_bridge = λ name gateway subnet k. some (suc k);
  delete_bridge = λ name k. k - 1;
  connect_container = λ bridge pid ip gateway subnet k. some (codes "veth1", codes "02:42", suc k);
  disconnect_container = λ veth k. k - 1;
  add_masquerade = λ subnet k. add_if works k;
  remove_masquerade = λ subnet k. k - 1;
  add_port_mapping = λ pm ip k. add_if works k;
  remove_port_mapping = λ pm ip k. k - 1;
  add_listener = λ gateway k. k;
  remove_listener = λ gateway k. k;
}

pub one_less : (works : Bool) (k k' : ℕ) → add_if works k ≡ some k' → k' - 1 ≡ k
one_less works k k' e = ground (arith, e)

unfoldable pub kernel_laws : (works : Bool) → KernelLaws (kernel works)
kernel_laws works = record {
  has_bridge = λ name k. false;
  has_masquerade = λ subnet k. false;
  has_mapping = λ pm ip k. false;
  delete-create = λ name gateway subnet k k' new e. ground (arith, e);
  masquerade-create = λ name gateway subnet p k k' e. refl;
  disconnect-connect = λ bridge pid ip gateway subnet veth mac k k' e. ground (arith, e);
  remove-add_masquerade = λ subnet k k' new e. one_less works k k' e;
  remove-add_port_mapping = λ pm ip k k' new e. one_less works k k' e;
}

writes : (p : Prefix) → Writes store ipam_laws p
writes p s b = (record s { bitmaps = insert (prefix_string p) b s.bitmaps }, refl)

abbrev address : ℕ → ℕ → ℕ → ℕ → Addr
address a b c d = record { b0 = a; b1 = b; b2 = c; b3 = d }

-- 10.0.0.0/29
abbrev pub subnet : Prefix
subnet = record { addr = address 10 0 0 0; bits = 29 }

subnet-IsSubnet : IsSubnet subnet
unfolding to_u32
subnet-IsSubnet = record { addr_valid = omega arith; length_valid = omega arith; masked = refl }

abbrev pub front : Record
front = record {
  gateway = some (address 10 0 0 1);
  options = [];
  labels = [];
  subnet = some subnet;
  id = codes "n1";
  name = codes "front";
  driver = codes "bridge";
  bridge_name = codes "br-n1";
  internal = false;
}

abbrev pub manager : Manager Memory ℕ
manager = record {
  store = record { bitmaps = []; networks = (codes "n1", front) ∷ []; endpoints = [] };
  dns = [];
  kernel = 3;
}

manager-Views : Views store.ipam manager.store subnet initial
manager-Views = Views-new store.ipam subnet manager.store refl

abbrev web_port : PortMapping
web_port = record { host_ip = none; protocol = codes "tcp"; host_port = 8080; container_port = 80 }

-- A `Connect` whose port cannot be mapped.
abbrev refused : Outcome (NetError (Unit {0})) EndpointRecord × Manager Memory ℕ
refused =
    connect store (kernel false) (codes "n1") (codes "c1") (codes "/web") 42 (web_port ∷ []) manager

refused_err : refused ≡ (err (mapping_failed 0), refused.1)
unfolding connect connect_bridge attach publish_endpoint add_mappings rollback allocate release
    clear_bit and_not_bit ip_to_offset contains load_or_create_bitmap prefix_string format_uint
    subnet_size new_bitmap grow set_bit get_bit find_first_unset scan offset_to_ip to_u32 of_u32
    or_bit inverted_from trailing_zeros8
refused_err = refl

connect-Restored_example :
    Views store.ipam refused.1.store subnet initial
    × (refused.1.kernel ≡ 3)
    × ((n j : Str) → resolve n j refused.1.dns ≡ resolve n j [])
unfolding kernel_laws
connect-Restored_example =
    connect-Restored store ipam_laws (kernel false) (kernel_laws false) (codes "n1") (codes "c1")
      (codes "/web") 42 (web_port ∷ []) manager refused.1 (mapping_failed 0) front subnet initial
      refl refl subnet-IsSubnet manager-Views (writes subnet)
      (λ ip veth mac k e. (refl, λ k' e'. tt)) refl refused_err

-- The container joins the network and leaves it.
abbrev pub endpoint : EndpointRecord
endpoint = record {
  network_id = codes "n1";
  container_id = codes "c1";
  container_name = codes "/web";
  ip_address = some (address 10 0 0 2);
  mac_address = codes "02:42";
  veth_host = codes "veth1";
  port_mappings = web_port ∷ [];
  dns_names = codes "web" ∷ [];
}

abbrev joined : Manager Memory ℕ
joined =
    (connect store (kernel true) (codes "n1") (codes "c1") (codes "/web") 42 (web_port ∷ [])
      manager).1

joins :
    connect store (kernel true) (codes "n1") (codes "c1") (codes "/web") 42 (web_port ∷ []) manager
    ≡ (ok endpoint, joined)
unfolding connect connect_bridge attach publish_endpoint add_mappings rollback register_name persist
    register allocate release clear_bit and_not_bit ip_to_offset contains load_or_create_bitmap
    prefix_string format_uint subnet_size new_bitmap grow set_bit get_bit find_first_unset scan
    offset_to_ip to_u32 of_u32 or_bit inverted_from trailing_zeros8
joins = refl

abbrev left : Manager Memory ℕ
left = (disconnect_locked store (kernel true) (codes "n1") (codes "c1") false joined).1

leaves :
    disconnect_locked store (kernel true) (codes "n1") (codes "c1") false joined ≡ (ok tt, left)
unfolding connect connect_bridge attach publish_endpoint add_mappings rollback register_name persist
    register deregister disconnect_locked detach deregister_all remove_mappings release_address
    allocate release clear_bit and_not_bit ip_to_offset contains load_or_create_bitmap prefix_string
    format_uint subnet_size new_bitmap grow set_bit get_bit find_first_unset scan offset_to_ip
    to_u32 of_u32 or_bit inverted_from trailing_zeros8
leaves = refl

disconnect-connect_example :
    Views store.ipam left.store subnet initial
    × ((n j : Str) → resolve n j left.dns ≡ resolve n j [])
    × ((x : EndpointRecord) → store.get_endpoint (codes "n1") (codes "c1") left.store ≢ ok x)
disconnect-connect_example =
    disconnect-connect store laws (kernel true) front subnet (codes "c1") (codes "/web") 42
      (web_port ∷ []) false manager joined left endpoint initial refl refl refl subnet-IsSubnet
      manager-Views (writes subnet) refl joins leaves
