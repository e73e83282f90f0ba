-- ===== src/Authorize.antt =====
-- internal/authorize
pub mod Cache
pub mod Scopes
