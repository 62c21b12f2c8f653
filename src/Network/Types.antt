-- ===== src/Network/Types.antt =====
-- internal/network/types.go: the records of networks, endpoints and port mappings. An address or a
-- prefix that is not valid is `none`; the creation time is left out, since nothing reads it.
use kogia.Base.{ℕ, Bool, Option, List, Str}
use kogia.Base.Maps.{Dict}
use kogia.Network.Ipam.Address.{Addr, Prefix}

pub record Record : Type 0 where
  pub gateway : Option Addr
  pub options : Dict Str
  pub labels : Dict Str
  pub subnet : Option Prefix
  pub id : Str
  pub name : Str
  pub driver : Str
  pub bridge_name : Str
  pub internal : Bool

pub record PortMapping : Type 0 where
  pub host_ip : Option Addr
  pub protocol : Str
  pub host_port : ℕ  -- uint16
  pub container_port : ℕ  -- uint16

pub record EndpointRecord : Type 0 where
  pub network_id : Str
  pub container_id : Str
  pub container_name : Str
  pub ip_address : Option Addr
  pub mac_address : Str
  pub veth_host : Str
  pub port_mappings : List PortMapping
  pub dns_names : List Str
