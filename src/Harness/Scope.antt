-- ===== src/Harness/Scope.antt =====
-- internal/core/harness/scope.go: the scope aggregate, which holds an autonomy level and its cap.
pub mod State
pub mod Decide
pub mod Autonomy
pub mod Demotion
