-- ===== src/Accountability/Change.antt =====
-- internal/core/accountability/change.go: the change aggregate.
pub mod State
pub mod Rules
pub mod Clearance
pub mod Cleared
pub mod Decide
pub mod Accepted
pub mod Invariant
pub mod Lifecycle
pub mod Settlement
