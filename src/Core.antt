-- ===== src/Core.antt =====
-- internal/core: value objects shared by the bounded contexts.
pub mod Event
pub mod Aggregate
pub mod Std
pub mod Actor
pub mod Level
pub mod ScopeKey
pub mod Anchor
pub mod Hash3
pub mod Context
pub mod Envelope
pub mod Codec
