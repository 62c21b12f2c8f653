-- ===== src/Network/Manager/NetworkTests.antt =====
-- The theorems on networks and on the start of the daemon at small inputs.
use kogia.Base.{
  ℕ, ◌≡◌, refl, ◌⊎◌, true, false, none, some, [], ◌∷◌, Str, codes, Outcome, ok, err, All,
}
use kogia.Network.Ipam.Address.{Addr, Prefix, IsSubnet, to_u32, of_u32, offset_to_ip}
use kogia.Network.Ipam.Allocator.{prefix_string}
use kogia.Network.Manager.State.{Manager, NetError, masquerade_failed, no_available_subnets}
use kogia.Network.Manager.Networks.{
  NetworkConfig, create_network, choose_subnet, build_network, auto_assign_subnet, used_subnets,
}
use kogia.Network.Manager.Assign.{auto_assign_subnet-Fresh, HasOther, IsTaken, pool}
use kogia.Network.Manager.Effects.{create_network-Undone}
use kogia.Network.Manager.Tests.{Memory, store, kernel, kernel_laws, subnet, front, manager}

auto_assign_subnet-Fresh_example :
    ((p : Prefix) × (gateway : Addr) × (auto_assign_subnet store (kernel true) manager.store
        ≡ ok (p, gateway))
      × IsSubnet p
      × (gateway ≡ offset_to_ip p 1)
      × All (HasOther (prefix_string p)) (front ∷ []))
    ⊎ ((auto_assign_subnet store (kernel true) manager.store ≡ err no_available_subnets)
        × All (IsTaken (used_subnets (front ∷ []))) pool)
auto_assign_subnet-Fresh_example =
    auto_assign_subnet-Fresh store (kernel true) manager.store (front ∷ []) refl

-- A network whose masquerade rule cannot be added.
abbrev back_config : NetworkConfig
back_config = record {
  name = codes "back";
  driver = [];
  subnet = some subnet;
  gateway = none;
  internal = false;
  options = [];
  labels = [];
}

abbrev unmade : Outcome (NetError (Unit {0})) Str × Manager Memory ℕ
unmade = create_network store (kernel false) (some (codes "0123456789abcdef")) back_config manager

unmade_err : unmade ≡ (err masquerade_failed, unmade.1)
unfolding create_network choose_subnet build_network offset_to_ip to_u32 of_u32
unmade_err = refl

create_network-Undone_example : unmade.1 ≡ manager
unfolding kernel_laws
create_network-Undone_example =
    create_network-Undone store (kernel false) (kernel_laws false) (some (codes "0123456789abcdef"))
      back_config manager unmade.1 masquerade_failed refl
      (λ id subnet gateway given chosen. (refl, refl)) unmade_err
