-- ===== src/Network/Manager/Init.antt =====
-- `Init` of the network manager, with the predefined networks.
use kogia.Base.{
  ◌≡◌, ap, ◌∙◌, inl, inr, Bool, true, false, not, ◌&&◌, Option, none, some, List, [], ◌∷◌, Str,
  codes, str_eq, if◌then◌else◌, Outcome, ok, err, panic, Bool-cases, arith,
}
use kogia.Network.Types.{Record, EndpointRecord}
use kogia.Network.Dns.{Records, register, resolve, resolve-register}
use kogia.Network.Ipam.Address.{Addr, Prefix}
use kogia.Network.Manager.State.{
  ManagerStore, Kernel, Manager, NetError, driver_bridge, default_network_name, default_bridge_name,
  id_failed, bridge_failed, masquerade_failed, nat_failed, store_failed,
}
use kogia.Network.Manager.Networks.{RandomId, address}

-- The endpoint has no address: `Register` is given the zero one.
abbrev pub or_zero : Option Addr → Addr
or_zero none = address 0 0 0 0
or_zero (some ip) = ip

unfoldable pub restore_names : Str → List Str → Addr → Records → Records
restore_names network_id [] ip dns = dns
restore_names network_id (name ∷ names) ip dns =
    restore_names network_id names ip (register network_id name ip dns)

unfoldable pub restore_endpoints : Str → List EndpointRecord → Records → Records
unfolding restore_names
restore_endpoints network_id [] dns = dns
restore_endpoints network_id (ep ∷ eps) dns =
    restore_endpoints network_id eps
      (restore_names network_id ep.dns_names (or_zero ep.ip_address) dns)

-- 172.20.0.0/16 and 172.20.0.1
abbrev pub default_subnet : Prefix
default_subnet = record { addr = address 172 20 0 0; bits = 16 }

abbrev pub default_gateway : Addr
default_gateway = address 172 20 0 1

abbrev pub default_record : Str → Record
default_record id = record {
  gateway = some default_gateway;
  options = [];
  labels = [];
  subnet = some default_subnet;
  id = id;
  name = default_network_name;
  driver = driver_bridge;
  bridge_name = default_bridge_name;
  internal = false;
}

-- The record of the networks "host" and "none", which are their own drivers.
abbrev pub virtual_record : Str → Str → Record
virtual_record name id = record {
  gateway = none;
  options = [];
  labels = [];
  subnet = none;
  id = id;
  name = name;
  driver = name;
  bridge_name = [];
  internal = false;
}

module _ {S E K : Type 0} (store : ManagerStore S E) (kernel : Kernel K) where
  -- `restoreDNSEntries` does nothing where the store returns an error.
  abbrev pub stored_endpoints : Outcome E (List EndpointRecord) → List EndpointRecord
  stored_endpoints (ok eps) = eps
  stored_endpoints (err e) = []
  stored_endpoints panic = []

  -- A round of the loop of `Init`, whose errors are only logged: a bridge that cannot be created
  -- again ends it. A network without a valid subnet has no bridge.
  unfoldable pub restore_network : Record → Manager S K → Manager S K
  restore_network rec m = elim rec.subnet [
    | none ↦ m
    | some subnet ↦
        if not (str_eq rec.driver driver_bridge)
        then m
        else elim (kernel.create_bridge rec.bridge_name rec.gateway subnet m.kernel) [
          | none ↦ m
          | some k ↦
              let k' : K = elim (kernel.add_masquerade subnet k) [
                | none ↦ k
                | some added ↦ added
              ] in
              if not (str_eq rec.name default_network_name)
              then record m {
                dns =
                    restore_endpoints rec.id
                      (stored_endpoints (store.list_endpoints rec.id m.store)) m.dns;
                kernel = kernel.add_listener rec.gateway k';
              }
              else record m { kernel = k' }
        ]
  ]

  unfoldable pub restore_networks : List Record → Manager S K → Manager S K
  restore_networks [] m = m
  restore_networks (rec ∷ recs) m = restore_networks recs (restore_network rec m)

  abbrev pub Ensured : Type 0
  Ensured = Outcome (NetError E) (Unit {0}) × Manager S K

  abbrev pub put_network : Record → Manager S K → Ensured
  put_network rec m = elim (store.create_network rec m.store) [
    | ok s ↦ (ok tt, record m { store = s })
    | err e ↦ (err (store_failed e), m)
    | panic ↦ (panic, m)
  ]

  -- The bridge "kogia0", if the store has no network "bridge". What was done before an error stays.
  unfoldable pub ensure_default : RandomId → Manager S K → Ensured
  ensure_default random m = elim (store.get_network default_network_name m.store) [
    | ok rec ↦ (ok tt, m)
    | panic ↦ (panic, m)
    | err e ↦ elim random [
      | none ↦ (err id_failed, m)
      | some id ↦
          elim (kernel.create_bridge default_bridge_name (some default_gateway) default_subnet
            m.kernel) [
              | none ↦ (err bridge_failed, m)
              | some k ↦ elim (kernel.add_masquerade default_subnet k) [
                | none ↦ (err masquerade_failed, record m { kernel = k })
                | some k' ↦ put_network (default_record id) (record m { kernel = k' })
              ]
            ]
    ]
  ]

  unfoldable pub ensure_virtual : Str → RandomId → Manager S K → Ensured
  ensure_virtual name random m = elim (store.get_network name m.store) [
    | ok rec ↦ (ok tt, m)
    | panic ↦ (panic, m)
    | err e ↦ elim random [
      | none ↦ (err id_failed, m)
      | some id ↦ put_network (virtual_record name id) m
    ]
  ]

  abbrev pub and_then : Ensured → (Manager S K → Ensured) → Ensured
  and_then (ok u, m) next = next m
  and_then (err e, m) next = (err e, m)
  and_then (panic, m) next = (panic, m)

  -- `ensurePredefinedNetworks`, with an ID for each of the three.
  unfoldable pub ensure_predefined_networks : RandomId → RandomId → RandomId → Manager S K → Ensured
  ensure_predefined_networks id1 id2 id3 m = and_then (ensure_default id1 m) (λ m1.
      and_then (ensure_virtual (codes "host") id2 m1) (λ m2. ensure_virtual (codes "none") id3 m2))

  -- `Init`; `nat_init` is `NAT.Init`.
  unfoldable pub init : (K → Option K) → RandomId → RandomId → RandomId → Manager S K → Ensured
  init nat_init id1 id2 id3 m = elim (nat_init m.kernel) [
    | none ↦ (err nat_failed, m)
    | some k ↦ elim (store.list_networks m.store) [
      | err e ↦ (err (store_failed e), record m { kernel = k })
      | panic ↦ (panic, record m { kernel = k })
      | ok recs ↦
          ensure_predefined_networks id1 id2 id3 (restore_networks recs (record m { kernel = k }))
    ]
  ]

-- The address of the last endpoint that has the name.
abbrev pub has_name : Str → List Str → Bool
has_name name [] = false
has_name name (n ∷ names) = if str_eq n name then true else has_name name names

abbrev pub last_address : Str → List EndpointRecord → Option Addr → Option Addr
last_address name [] found = found
last_address name (ep ∷ eps) found =
    last_address name eps
      (if has_name name ep.dns_names then some (or_zero ep.ip_address) else found)

restore_names-resolve :
    (n : Str) (names : List Str) (ip : Addr) (d : Records) (m j : Str)
    → resolve m j (restore_names n names ip d)
      ≡ (if str_eq n m && has_name j names then some ip else resolve m j d)
unfolding restore_names
restore_names-resolve n [] ip d m j = ground arith
restore_names-resolve n (name ∷ names) ip d m j = ground (
  arith,
  restore_names-resolve n names ip (register n name ip d) m j,
  resolve-register n name d m j ip,
)

-- After the endpoints of a network were restored, each name has the address of the last endpoint
-- that lists it, or the one it had before; the names of the other networks stay.
pub restore_endpoints-resolve :
    (n : Str) (eps : List EndpointRecord) (d : Records) (m j : Str)
    → resolve m j (restore_endpoints n eps d)
      ≡ (if str_eq n m then last_address j eps (resolve m j d) else resolve m j d)
unfolding restore_endpoints
restore_endpoints-resolve n [] d m j = ground arith
restore_endpoints-resolve n (ep ∷ eps) d m j =
    let d' = restore_names n ep.dns_names (or_zero ep.ip_address) d in
    let step = restore_names-resolve n ep.dns_names (or_zero ep.ip_address) d m j in
    let rest = restore_endpoints-resolve n eps d' m j in
    elim (Bool-cases (str_eq n m)) [
      | inr other ↦ ground (arith, rest, step, other)
      | inl here ↦ rw here ((rw here at rest) ∙ ap (last_address j eps) (rw here at step))
    ]
