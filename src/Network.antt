-- ===== src/Network.antt =====
-- internal/network: the container network's parts.
pub mod Ipam
pub mod Types
pub mod Dns
pub mod Manager
