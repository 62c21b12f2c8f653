-- ===== src/Network/Manager/State.antt =====
-- The state of the network `Manager` and what it calls: the store, and the kernel behind bridge.go
-- and nat.go. The mutex makes each operation one step.
use kogia.Base.{Bool, false, Option, some, List, [], ◌∷◌, Str, codes, Outcome, ℕ, ◌≡◌}
use kogia.Network.Types.{Record, EndpointRecord, PortMapping}
use kogia.Network.Dns.{Records}
use kogia.Network.Ipam.Address.{Addr, Prefix}
use kogia.Network.Ipam.Allocator.{IpamStore, IpamError}

abbrev pub driver_bridge : Str
driver_bridge = codes "bridge"

abbrev pub default_network_name : Str
default_network_name = codes "bridge"

abbrev pub default_bridge_name : Str
default_bridge_name = codes "kogia0"

-- `ManagerStore`: a write that returns an error changes nothing.
pub record ManagerStore (S E : Type 0) : Type 0 where
  pub ipam : IpamStore S E
  pub create_network : Record → S → Outcome E S
  pub get_network : Str → S → Outcome E Record
  pub delete_network : Str → Str → S → Outcome E S
  pub list_networks : S → Outcome E (List Record)
  pub create_endpoint : EndpointRecord → S → Outcome E S
  pub get_endpoint : Str → Str → S → Outcome E EndpointRecord
  pub delete_endpoint : Str → Str → S → Outcome E S
  pub list_endpoints : Str → S → Outcome E (List EndpointRecord)
  pub list_container_endpoints : Str → S → Outcome E (List EndpointRecord)

-- The methods of `Bridge`, `NAT` and the listeners of `DNS`, which change the kernel `K`. `none` is
-- an error; where the manager only logs an error there is none.
pub record Kernel (K : Type 0) : Type 0 where
  pub create_bridge : Str → Option Addr → Prefix → K → Option K
  pub delete_bridge : Str → K → K
  -- The name of the host's end and the MAC address of the new pair.
  pub connect_container : Str → ℕ → Addr → Option Addr → Prefix → K → Option (Str × Str × K)
  pub disconnect_container : Str → K → K
  pub add_masquerade : Prefix → K → Option K
  pub remove_masquerade : Option Prefix → K → K
  pub add_port_mapping : PortMapping → Addr → K → Option K
  pub remove_port_mapping : PortMapping → Option Addr → K → K
  pub add_listener : Option Addr → K → K
  pub remove_listener : Option Addr → K → K

-- What was not there and was just added is taken away again by its removal. A bridge, a rule or a
-- mapping that was there already is not added, and its removal takes it away. A new pair has new
-- names. The kernel's state is its links and rules; the sysctls that are switched on stay on.
pub record KernelLaws {K : Type 0} (kernel : Kernel K) : Type 0 where
  pub has_bridge : Str → K → Bool
  pub has_masquerade : Prefix → K → Bool
  pub has_mapping : PortMapping → Addr → K → Bool
  pub delete-create :
      (name : Str) (gateway : Option Addr) (subnet : Prefix) (k k' : K)
      → has_bridge name k ≡ false
      → kernel.create_bridge name gateway subnet k ≡ some k'
      → kernel.delete_bridge name k' ≡ k
  pub masquerade-create :
      (name : Str) (gateway : Option Addr) (subnet p : Prefix) (k k' : K)
      → kernel.create_bridge name gateway subnet k ≡ some k'
      → has_masquerade p k' ≡ has_masquerade p k
  pub disconnect-connect :
      (bridge : Str) (pid : ℕ) (ip : Addr) (gateway : Option Addr) (subnet : Prefix)
      (veth mac : Str) (k k' : K)
      → kernel.connect_container bridge pid ip gateway subnet k ≡ some (veth, mac, k')
      → kernel.disconnect_container veth k' ≡ k
  pub remove-add_masquerade :
      (subnet : Prefix) (k k' : K)
      → has_masquerade subnet k ≡ false
      → kernel.add_masquerade subnet k ≡ some k'
      → kernel.remove_masquerade (some subnet) k' ≡ k
  pub remove-add_port_mapping :
      (pm : PortMapping) (ip : Addr) (k k' : K)
      → has_mapping pm ip k ≡ false
      → kernel.add_port_mapping pm ip k ≡ some k'
      → kernel.remove_port_mapping pm (some ip) k' ≡ k

-- None of the mappings is there when its turn comes.
abbrev pub NewMappings :
    {K : Type 0} {kernel : Kernel K} → KernelLaws kernel → List PortMapping → Addr → K → Type 0
NewMappings laws [] ip k = Unit
NewMappings {K} {kernel} laws (pm ∷ pms) ip k =
    (laws.has_mapping pm ip k ≡ false)
    × ((k' : K) → kernel.add_port_mapping pm ip k ≡ some k' → NewMappings laws pms ip k')

pub record Manager (S K : Type 0) : Type 0 where
  pub store : S
  pub dns : Records
  pub kernel : K

pub data NetError (E : Type 0) : Type 0 where
  network_not_found has_containers predefined_network unsupported_driver : NetError E
  no_available_subnets id_failed bridge_failed masquerade_failed nat_failed : NetError E
  link_failed endpoint_not_found : NetError E
  mapping_failed : ℕ → NetError E
  ipam_failed : IpamError E → NetError E
  store_failed : E → NetError E
