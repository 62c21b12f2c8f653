-- ===== src/Volume.antt =====
-- internal/volume: the manager of the volumes, over a store of their records.
pub mod Types
pub mod Manager
pub mod Laws
pub mod Tests
