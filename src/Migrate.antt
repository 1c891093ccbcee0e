-- ===== src/Migrate.antt =====
-- "Migration from littelfs v1" of lfs.c, the code under LFS_MIGRATE.
pub mod Disk1
pub mod Fetch
pub mod Fetched
pub mod Inside
pub mod Traverse
pub mod Walk
pub mod Copy
