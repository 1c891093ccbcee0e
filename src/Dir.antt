-- ===== src/Dir.antt =====
-- "Metadata pair and directory operations" of lfs.c, one module for each group of functions.
pub mod Get
pub mod Fetch
pub mod Commit
pub mod Find
pub mod Traverse
pub mod Info
