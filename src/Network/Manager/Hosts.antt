-- ===== src/Network/Manager/Hosts.antt =====
-- The /etc/hosts of a container that the network manager writes.
use kogia.Base.{
  Option, none, some, List, [], ◌∷◌, ◌++◌, Str, codes, str_eq, trim_prefix, format_uint,
  if◌then◌else◌,
}
use kogia.Network.Types.{EndpointRecord}
use kogia.Network.Ipam.Address.{Addr}
use kogia.Network.Manager.Networks.{take_str}

-- The text of an address.
abbrev pub addr_string : Addr → Str
addr_string a =
    format_uint a.b0
    ++ (codes "."
        ++ (format_uint a.b1
            ++ (codes "." ++ (format_uint a.b2 ++ (codes "." ++ format_uint a.b3)))))

abbrev pub ip_string : Option Addr → Str
ip_string none = codes "invalid IP"
ip_string (some ip) = addr_string ip

abbrev pub host_name : Str → Str
host_name container_name = trim_prefix container_name (codes "/")

-- The entry of the container itself: its first endpoint. The ID has 12 bytes or more.
unfoldable pub own_entry : Str → Str → List EndpointRecord → Str
own_entry hostname container_id [] = []
own_entry hostname container_id (ep ∷ eps) =
    let rest = own_entry hostname container_id eps in
    let shown = if str_eq hostname [] then take_str 12 container_id else hostname in
    if str_eq ep.container_id container_id
    then ip_string ep.ip_address
      ++ (codes "\t" ++ (shown ++ (codes " " ++ (host_name ep.container_name ++ codes "\n"))))
    else rest

unfoldable pub other_entries : Str → List EndpointRecord → Str
other_entries container_id [] = []
other_entries container_id (ep ∷ eps) =
    let rest = other_entries container_id eps in
    if str_eq ep.container_id container_id
    then rest
    else ip_string ep.ip_address
      ++ (codes "\t" ++ (host_name ep.container_name ++ (codes "\n" ++ rest)))

-- The content that `writeHostsFile` writes.
unfoldable pub hosts_file : Str → Str → List EndpointRecord → Str
hosts_file hostname container_id eps =
    codes "127.0.0.1\tlocalhost\n"
    ++ (codes "::1\tlocalhost ip6-localhost ip6-loopback\n"
        ++ (own_entry hostname container_id eps ++ other_entries container_id eps))
