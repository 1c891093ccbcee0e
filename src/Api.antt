-- ===== src/Api.antt =====
-- The operations of lfs.h on directories, on entries by their path, and on the attributes of the
-- user. A path is the bytes of the string before its zero.
pub mod Dirs
pub mod Paths
pub mod Rename
pub mod Attrs
pub mod Open
pub mod Files
