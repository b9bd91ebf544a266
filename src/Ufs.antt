-- ===== src/Ufs.antt =====
-- The Unix file system of kernel/kernel/filesystem.c, one module for each operation.
pub mod Layout
pub mod State
pub mod Search
pub mod Lookup
pub mod Commit
pub mod Create
pub mod Write
pub mod Read
pub mod Print
pub mod Unlink
pub mod Init
