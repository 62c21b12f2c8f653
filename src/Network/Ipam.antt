-- ===== src/Network/Ipam.antt =====
-- internal/network/ipam.go: IP allocation by a bitmap for each subnet.
pub mod Bitmap
pub mod BitLaws
pub mod Scan
pub mod Address
pub mod AddressLaws
pub mod Allocator
pub mod View
pub mod Refines
pub mod Sequences
pub mod Faults
pub mod Tests
