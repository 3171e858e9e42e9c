-- ===== src/Harness/Constraint.antt =====
-- internal/core/harness/constraint.go: the constraint aggregate, a rule that a scope is held to.
pub mod State
pub mod Decide
pub mod Accepted
pub mod Lifecycle
pub mod Lineage
pub mod Widening
