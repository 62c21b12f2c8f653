-- ===== src/Log.antt =====
-- internal/log: the messages of the containers, and the driver that keeps them in files.
pub mod Types
pub mod Options
pub mod Driver
pub mod Reader
pub mod Lines
pub mod History
pub mod Rotation
pub mod Steps
pub mod Kept
pub mod Sizes
pub mod Live
pub mod Tests
