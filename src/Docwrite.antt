-- ===== src/Docwrite.antt =====
-- pkg/doczcore/docwrite
pub mod CheckTask
pub mod Status
