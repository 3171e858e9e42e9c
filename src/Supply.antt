-- ===== src/Supply.antt =====
-- internal/core/supply: what keelage writes into a repository.
pub mod Manifest
