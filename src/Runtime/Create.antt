-- ===== src/Runtime/Create.antt =====
-- internal/runtime/container.go: `Create`, from the configuration to a stored container.
pub mod Types
pub mod Record
pub mod Operation
pub mod Built
pub mod Discard
pub mod Undo
pub mod Made
pub mod Tests
