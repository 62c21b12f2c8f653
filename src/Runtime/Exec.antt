-- ===== src/Runtime/Exec.antt =====
-- internal/runtime/exec.go: the exec sessions of the containers.
pub mod Sessions
pub mod Process
pub mod Others
pub mod Laws
pub mod Tests
