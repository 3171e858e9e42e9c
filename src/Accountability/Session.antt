-- ===== src/Accountability/Session.antt =====
-- internal/core/accountability/session.go: the session aggregate, the record of one tool session.
pub mod State
pub mod Digits
pub mod Decide
pub mod Accepted
pub mod Turns
pub mod Record
pub mod Sharing
