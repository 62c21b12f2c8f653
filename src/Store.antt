-- ===== src/Store.antt =====
-- internal/store: the daemon's state in a bbolt database.
pub mod Bolt
pub mod Prefix
pub mod Db
pub mod Filters
pub mod Container
pub mod Index
pub mod Reach
pub mod Memory
pub mod Network
pub mod NetworkLaws
pub mod NetworkBackend
pub mod Volume
pub mod VolumeRefs
pub mod Tests
pub mod NetworkTests
pub mod VolumeTests
