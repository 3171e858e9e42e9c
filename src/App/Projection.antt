-- ===== src/App/Projection.antt =====
-- internal/app/projection.go: the read models, as folds of the events of all streams.
pub mod Scopes
pub mod Constraints
pub mod Changes
