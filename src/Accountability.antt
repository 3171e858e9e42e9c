-- ===== src/Accountability.antt =====
-- internal/core/accountability: changes, gates and sessions.
pub mod Change
pub mod Gate
pub mod Session
