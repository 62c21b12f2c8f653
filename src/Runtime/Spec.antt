-- ===== src/Runtime/Spec.antt =====
-- internal/runtime/spec.go: the OCI spec of a container.
pub mod Types
pub mod Process
pub mod User
pub mod Capabilities
pub mod Resources
pub mod Generate
pub mod EnvLaws
pub mod UserLaws
pub mod CapabilityLaws
pub mod Confined
pub mod Tests
