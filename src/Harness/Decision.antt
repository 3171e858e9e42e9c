-- ===== src/Harness/Decision.antt =====
-- internal/core/harness/decision.go: the decision aggregate, an architecture record.
pub mod State
pub mod Decide
pub mod Lifecycle
pub mod Invariant
