-- ===== src/Accountability/Gate.antt =====
-- internal/core/accountability/gate.go: the gate aggregate.
pub mod State
pub mod Decide
pub mod Policy
pub mod Lifecycle
pub mod Closing
