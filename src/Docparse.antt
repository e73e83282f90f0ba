-- ===== src/Docparse.antt =====
-- pkg/doczcore/docparse
pub mod Blocks
pub mod Markers
pub mod Regions
pub mod TaskItems
pub mod ListItems
pub mod Tables
pub mod Inline
pub mod Headings
pub mod Title
