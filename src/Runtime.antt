-- ===== src/Runtime.antt =====
-- internal/runtime: the life cycle of containers.
pub mod State
pub mod Restart
pub mod Backoff
pub mod Exit
pub mod ExitLaws
pub mod StoppedExit
pub mod Stdio
pub mod StdioLaws
pub mod FrameLaws
pub mod MountTypes
pub mod Mounts
pub mod VolumesFrom
pub mod BindOptions
pub mod MountLaws
pub mod Destinations
pub mod Spec
pub mod Exec
pub mod Create
pub mod ExitFile
pub mod Reaper
pub mod Lifecycle
pub mod IoTests
pub mod Tests
