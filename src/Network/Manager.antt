-- ===== src/Network/Manager.antt =====
-- internal/network/manager.go: the manager of the networks and their endpoints.
pub mod State
pub mod Connect
pub mod Disconnect
pub mod Networks
pub mod Rollback
pub mod Failure
pub mod Success
pub mod RoundTrip
pub mod Assign
pub mod Effects
pub mod Init
pub mod Hosts
pub mod Tests
pub mod NetworkTests
