-- ===== src/Runtime/Lifecycle.antt =====
-- The operations of the runtime manager on one container: internal/runtime/container.go.
pub mod State
pub mod Start
pub mod Stop
pub mod Pause
pub mod ActiveLaws
pub mod StartLaws
pub mod Sequences
pub mod StopLaws
pub mod Recover
pub mod Wait
pub mod Tests
pub mod StopTests
