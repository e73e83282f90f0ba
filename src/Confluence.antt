-- ===== src/Confluence.antt =====
-- pkg/export/confluence: the export of documents to Confluence pages.
pub mod Client
pub mod Site
pub mod Pages
pub mod Outcome
pub mod Decide
pub mod Reconcile
pub mod Laws
pub mod Run
