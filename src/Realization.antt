-- ===== src/Realization.antt =====
-- internal/core/realization: the anchors of constraints in the code.
pub mod Anchor
