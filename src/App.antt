-- ===== src/App.antt =====
-- internal/app: the application services.
pub mod Options
pub mod Pipeline
pub mod Rebuild
pub mod Projection
