-- ===== src/Realization/Anchor.antt =====
-- internal/core/realization/anchor.go: the anchor aggregate, which tells when code has drifted from
-- the hash that was recorded for it.
pub mod State
pub mod Decide
pub mod Staging
pub mod Baseline
