-- ===== src/Files.antt =====
-- "Top level file operations" of lfs.c. An open file is the structure at its address in the list of
-- open ones; `lfs_file_flush` also reads through one of its own that is not in the list.
pub mod State
pub mod Read
pub mod Relocate
pub mod Write
pub mod Flush
pub mod Evict
