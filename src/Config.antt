-- ===== src/Config.antt =====
-- pkg/doczcore/config
pub mod Paths
pub mod Access
