-- ===== src/Events.antt =====
-- internal/events: the bus that fans events out to its subscribers.
pub mod Filters
pub mod Bus
pub mod Backlog
pub mod Reach
pub mod Tests
