-- ===== src/Harness.antt =====
-- internal/core/harness: scopes, constraints and decisions.
pub mod Scope
pub mod Constraint
pub mod Decision
