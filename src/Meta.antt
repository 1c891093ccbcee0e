-- ===== src/Meta.antt =====
-- The commit of attributes to a metadata pair: compaction, splitting and relocation of lfs.c, which
-- call each other.
pub mod Ref
pub mod Step
pub mod Compact
pub mod Relocate
pub mod Change
pub mod Commit
pub mod Calls
pub mod Shift
pub mod Moved
pub mod Count
