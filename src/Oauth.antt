-- ===== src/Oauth.antt =====
-- The authorization server of internal/oauth.
pub mod Cache
pub mod Scopes
pub mod Token
pub mod Refresh
