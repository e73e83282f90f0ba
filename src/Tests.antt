-- ===== src/Tests.antt =====
-- Runs at small inputs, and the witnesses of the theorems.
mod Json
mod Confluence
mod Oauth
mod Docparse
mod Docwrite
mod Config
mod Authorize
mod Splices
