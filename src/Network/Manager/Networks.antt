-- ===== src/Network/Manager/Networks.antt =====
-- `CreateNetwork`, `RemoveNetwork`, `autoAssignSubnet` and the predefined networks of the manager.
use kogia.Base.{
  ℕ, zero, suc, ◌+◌, Bool, false, not, ◌||◌, Option, none, some, List, [], ◌∷◌, ◌++◌, Str, codes,
  str_eq, if◌then◌else◌, Outcome, ok, err, panic,
}
use kogia.Base.Maps.{Dict}
use kogia.Network.Types.{Record}
use kogia.Network.Dns.{deregister_network}
use kogia.Network.Ipam.Address.{Addr, Prefix, offset_to_ip}
use kogia.Network.Ipam.Allocator.{prefix_string, release_subnet}
use kogia.Network.Manager.State.{
  ManagerStore, Kernel, Manager, NetError, driver_bridge, default_network_name, network_not_found,
  has_containers, predefined_network, unsupported_driver, no_available_subnets, id_failed,
  bridge_failed, masquerade_failed, store_failed,
}

-- The keys of `usedSubnets`.
unfoldable pub used_subnets : List Record → List Str
used_subnets [] = []
used_subnets (rec ∷ recs) = elim rec.subnet [
  | none ↦ used_subnets recs
  | some subnet ↦ prefix_string subnet ∷ used_subnets recs
]

unfoldable pub is_used : List Str → Str → Bool
is_used [] subnet = false
is_used (s ∷ used) subnet = str_eq s subnet || is_used used subnet

abbrev pub address : ℕ → ℕ → ℕ → ℕ → Addr
address a b c d = record { b0 = a; b1 = b; b2 = c; b3 = d }

-- 172.second.0.0/16 and 192.168.third.0/20, each with its gateway.
abbrev pub class_b : ℕ → Prefix × Addr
class_b second = (record { addr = address 172 second 0 0; bits = 16 }, address 172 second 0 1)

abbrev pub class_c : ℕ → Prefix × Addr
class_c third = (record { addr = address 192 168 third 0; bits = 20 }, address 192 168 third 1)

-- for i := first; …; i += step, with the rounds left.
unfoldable pub first_free : ℕ → ℕ → ℕ → (ℕ → Prefix × Addr) → List Str → Option (Prefix × Addr)
first_free zero i step candidate used = none
first_free (suc n) i step candidate used =
    let rest = first_free n (i + step) step candidate used in
    if not (is_used used (prefix_string (candidate i).0)) then some (candidate i) else rest

-- 11 subnets of the one kind, and 16 of the other.
unfoldable pub pick_subnet : List Str → Option (Prefix × Addr)
pick_subnet used = elim (first_free 11 21 1 class_b used) [
  | some p ↦ some p
  | none ↦ first_free 16 0 16 class_c used
]

-- What the environment gives a call: 32 random bytes as hex digits, or an error.
abbrev pub RandomId : Type 0
RandomId = Option Str

abbrev pub take_str : ℕ → Str → Str
take_str zero s = []
take_str (suc n) [] = []
take_str (suc n) (c ∷ s) = c ∷ take_str n s

abbrev pub or_bridge : Str → Str
or_bridge [] = driver_bridge
or_bridge (c ∷ driver) = c ∷ driver

-- What the caller of `CreateNetwork` gives.
pub record NetworkConfig : Type 0 where
  pub name : Str
  pub driver : Str
  pub subnet : Option Prefix
  pub gateway : Option Addr
  pub internal : Bool
  pub options : Dict Str
  pub labels : Dict Str

abbrev pub new_record : NetworkConfig → Str → Prefix → Addr → Record
new_record cfg id subnet gateway = record {
  gateway = some gateway;
  options = cfg.options;
  labels = cfg.labels;
  subnet = some subnet;
  id = id;
  name = cfg.name;
  driver = or_bridge cfg.driver;
  bridge_name = codes "br-" ++ take_str 12 id;
  internal = cfg.internal;
}

module _ {S E K : Type 0} (store : ManagerStore S E) (kernel : Kernel K) where
  unfoldable pub auto_assign_subnet : S → Outcome (NetError E) (Prefix × Addr)
  auto_assign_subnet s = elim (store.list_networks s) [
    | err e ↦ err (store_failed e)
    | panic ↦ panic
    | ok existing ↦ elim (pick_subnet (used_subnets existing)) [
      | none ↦ err no_available_subnets
      | some p ↦ ok p
    ]
  ]

  -- The subnet and the gateway: given, derived, or assigned.
  unfoldable pub choose_subnet : NetworkConfig → S → Outcome (NetError E) (Prefix × Addr)
  choose_subnet cfg s = elim cfg.subnet [
    | none ↦ auto_assign_subnet s
    | some subnet ↦ elim cfg.gateway [
      | none ↦ ok (subnet, offset_to_ip subnet 1)
      | some gateway ↦ ok (subnet, gateway)
    ]
  ]

  abbrev pub masquerade : Bool → Prefix → K → Option K
  masquerade internal subnet k = if not internal then kernel.add_masquerade subnet k else some k

  -- The bridge and the rule are there: the record is written, or both are taken away.
  unfoldable pub persist_network :
      Record → Prefix → Manager S K → Outcome (NetError E) Str × Manager S K
  persist_network rec subnet m = elim (store.create_network rec m.store) [
    | panic ↦ (panic, m)
    | err e ↦ (
      err (store_failed e),
      record m {
        kernel =
            kernel.delete_bridge rec.bridge_name (kernel.remove_masquerade (some subnet) m.kernel);
      },
    )
    | ok s ↦ (ok rec.id, record m { store = s; kernel = kernel.add_listener rec.gateway m.kernel })
  ]

  unfoldable pub build_network :
      Record → Prefix → Manager S K → Outcome (NetError E) Str × Manager S K
  build_network rec subnet m =
      elim (kernel.create_bridge rec.bridge_name rec.gateway subnet m.kernel) [
        | none ↦ (err bridge_failed, m)
        | some k ↦ elim (masquerade rec.internal subnet k) [
          | none ↦
              (err masquerade_failed, record m { kernel = kernel.delete_bridge rec.bridge_name k })
          | some k' ↦ persist_network rec subnet (record m { kernel = k' })
        ]
      ]

  unfoldable pub create_network :
      RandomId → NetworkConfig → Manager S K → Outcome (NetError E) Str × Manager S K
  create_network random cfg m =
      if not (str_eq (or_bridge cfg.driver) driver_bridge)
      then (err unsupported_driver, m)
      else elim (choose_subnet cfg m.store) [
        | err e ↦ (err e, m)
        | panic ↦ (panic, m)
        | ok (subnet, gateway) ↦ elim random [
          | none ↦ (err id_failed, m)
          | some id ↦ build_network (new_record cfg id subnet gateway) subnet m
        ]
      ]

  -- The bitmap of the subnet goes; an error is only logged.
  abbrev pub release_bitmap : Option Prefix → S → S
  release_bitmap none s = s
  release_bitmap (some subnet) s = (release_subnet store.ipam subnet s).1

  -- The parts of `RemoveNetwork` whose errors are only logged.
  unfoldable pub tear_down : Record → Manager S K → Manager S K
  tear_down rec m = record {
    store = release_bitmap rec.subnet m.store;
    dns = deregister_network rec.id m.dns;
    kernel =
        kernel.delete_bridge rec.bridge_name
          (kernel.remove_masquerade rec.subnet (kernel.remove_listener rec.gateway m.kernel));
  }

  abbrev pub is_predefined : Record → Bool
  is_predefined rec =
      str_eq rec.name default_network_name
      || (str_eq rec.driver (codes "host") || str_eq rec.driver (codes "none"))

  abbrev pub drop_network : Record → Manager S K → Outcome (NetError E) (Unit {0}) × Manager S K
  drop_network rec m = elim (store.delete_network rec.id rec.name m.store) [
    | err e ↦ (err (store_failed e), m)
    | panic ↦ (panic, m)
    | ok s ↦ (ok tt, record m { store = s })
  ]

  -- `RemoveNetwork` with the record at hand.
  unfoldable pub remove_found : Record → Manager S K → Outcome (NetError E) (Unit {0}) × Manager S K
  remove_found rec m =
      if is_predefined rec
      then (err predefined_network, m)
      else elim (store.list_endpoints rec.id m.store) [
        | err e ↦ (err (store_failed e), m)
        | panic ↦ (panic, m)
        | ok (ep ∷ eps) ↦ (err has_containers, m)
        | ok [] ↦ drop_network rec (tear_down rec m)
      ]

  unfoldable pub remove_network : Str → Manager S K → Outcome (NetError E) (Unit {0}) × Manager S K
  remove_network key m = elim (store.get_network key m.store) [
    | err e ↦ (err network_not_found, m)
    | panic ↦ (panic, m)
    | ok rec ↦ remove_found rec m
  ]
