-- ===== src/Parser.antt =====
-- The package pigate/pkg/credentialparser: from the exported file to the remote database.
pub mod Text
pub mod File
pub mod Sync
pub mod Path
pub mod Find
pub mod Watcher
