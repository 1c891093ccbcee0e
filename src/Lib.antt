-- ===== src/Lib.antt =====
-- littlefs, a fail-safe filesystem for microcontrollers: lfs.c, lfs.h, lfs_util.c and lfs_util.h.
--
-- The program is a stack of layers, each of which calls the ones before it.
--
-- Words, byte orders and the checksum (lfs_util.h, lfs_util.c) are Util.antt. Where the header has
-- a compiler builtin beside C code, the C code is modelled. A word is a native number below 2^32,
-- and its wrap-around is written out (add32, sub32, mul32 and the shifts of Prelude/Words.antt).
-- What lies in memory is a list of bytes.
--
-- A C function that is passed the filesystem by pointer is a function of the monad of Exec.antt:
-- it returns a value or an error code with the state after it, or it is `fault`, a failed
-- LFS_ASSERT or an access outside a buffer, or it is `out_of_fuel`. `struct lfs_config` is
-- Config.antt; its four callbacks are code of the user, and are fields over an unknown type of
-- devices.
--
-- The block device layer (lfs_bd_read to lfs_bd_erase in lfs.c) is Bd.antt: reads through two
-- caches, programs through one. `mem_read` and `mem_write` are memcpy with its bounds. What a
-- reader sees is in Bd/View.antt; Bd/Consult.antt is about the look into a cache, Bd/Load.antt
-- about its filling, Bd/Reads.antt about one round of a read and Bd/Read.antt about lfs_bd_read as
-- a whole; Bd/Stale.antt is about a read that fails. Programs are in Bd/Written.antt (contents with
-- bytes laid over them), Bd/Flush.antt (lfs_bd_flush), Bd/Fit.antt (one round), Bd/Prog.antt
-- (lfs_bd_prog as a whole) and Bd/Sync.antt (lfs_bd_sync); Bd/Persist.antt puts a program, a sync
-- and a read together.
--
-- The tags of the metadata log and pairs of blocks (lfs_tag_*, lfs_pair_*, LFS_MKTAG, enum
-- lfs_type) are Tag.antt and Tag/Kind.antt. The global state (lfs_gstate_*, lfs_fs_preporphans,
-- lfs_fs_prepmove) is Gstate.antt, and what is stored on disk as bytes (lfs_superblock_*,
-- lfs_ctz_*, lfs_gstate_*, lfs_pair_* with le32 in their names) is Disk.antt. The structures of
-- lfs.h are Lfs.antt; the linked list of open files and directories is a list of their values,
-- which Lfs/Links.antt is about.
--
-- Metadata pairs: Dir/Get.antt looks a tag up backwards (lfs_dir_getslice, lfs_dir_get,
-- lfs_dir_getread, lfs_dir_getgstate), Dir/Fetch.antt scans a block and finds its last good
-- commit, with Dir/Fetch/Tags.antt for what each tag does to its local variables
-- (lfs_dir_fetchmatch, lfs_dir_fetch, lfs_dir_find_match), Dir/Find.antt walks a path
-- (lfs_dir_find), Dir/Info.antt is lfs_dir_getinfo, Dir/Traverse.antt passes the tags that no
-- later one supersedes to a callback (lfs_dir_traverse), and Dir/Commit.antt writes the entries
-- and the checksum of a commit (lfs_dir_commitprog, lfs_dir_commitattr, lfs_dir_commitcrc,
-- lfs_dir_alloc, lfs_dir_traverse_filter).
--
-- The parts of the file operations that a commit needs are under Files: Files/State.antt has the
-- calls of the block device layer with the cache of a file, Files/Read.antt is the reading of
-- lfs_file_read, Files/Relocate.antt lfs_file_relocate and lfs_file_outline, Files/Write.antt
-- lfs_file_write and Files/Flush.antt lfs_file_flush. The last two call each other;
-- Files/Evict.antt ties them together, and is what a commit does to an inline file that has
-- outgrown the cache.
--
-- Commits as a whole are under Meta. A pointer to a metadata directory is a local variable, one of
-- a caller, or a field of an open file or directory (Meta/Ref.antt); a file or directory has an
-- address, by which the list of open ones finds it. Meta/Step.antt has the steps that commits and
-- compactions share, Meta/Compact.antt is lfs_dir_split and lfs_dir_compact, Meta/Relocate.antt is
-- lfs_fs_relocate and lfs_dir_drop, Meta/Change.antt and Meta/Commit.antt are lfs_dir_commit.
-- These functions call each other: each takes the others as parameters, and Meta/Calls.antt ties
-- them together. Meta/Shift.antt is about the ids of open files and directories after a commit,
-- Meta/Count.antt about the number of entries, Meta/Moved.antt about relocations.
--
-- Repair.antt is lfs_fs_demove, lfs_fs_deorphan and lfs_fs_forceconsistency, with
-- Repair/Orphans.antt about the count of orphans. The interface is Api/Dirs.antt (lfs_mkdir,
-- lfs_dir_open to lfs_dir_rewind), Api/Paths.antt (lfs_stat, lfs_remove), Api/Rename.antt
-- (lfs_rename, with Api/Rename/Ids.antt about ids) and Api/Attrs.antt (lfs_getattr, lfs_setattr,
-- lfs_removeattr), Api/Open.antt (lfs_file_opencfg, lfs_file_close, lfs_file_sync) and
-- Api/Files.antt (lfs_file_read, lfs_file_seek, lfs_file_truncate and the rest). Mount.antt is
-- lfs_init, lfs_format and lfs_mount, with Mount/Limits.antt about the checks of the superblock.
--
-- Migration from version 1, the code under LFS_MIGRATE, is under Migrate: Migrate/Disk1.antt has
-- the structures on disk, Migrate/Fetch.antt lfs1_dir_fetch and lfs1_dir_next,
-- Migrate/Traverse.antt lfs1_traverse, Migrate/Walk.antt lfs1_moved and lfs1_mount, and
-- Migrate/Copy.antt lfs_migrate. The field lfs1 of the structure is none but during a migration:
-- lfs_fs_traverse, and with it the allocator, then also visits the blocks of version 1, and
-- lfs_dir_compact relocates no worn block. Migrate/Fetched.antt and Migrate/Inside.antt are about
-- the reading of a directory.
--
-- The skip list of the blocks of a file is Ctz.antt (lfs_ctz_index, lfs_ctz_find, lfs_ctz_traverse)
-- and Ctz/Extend.antt (lfs_ctz_extend). The block allocator is Alloc.antt (lfs_alloc,
-- lfs_alloc_lookahead, lfs_alloc_ack); its loop is over any traversal, and Fs.antt passes
-- lfs_fs_traverse to it; that lfs_fs_traverse meets what the loop needs of a traversal is not
-- shown, and a list of blocks that are visited one by one is the instance. An access to a word
-- outside the bitmap is a fault. Alloc/Bitmap.antt is about the bits of the window,
-- Alloc/Window.antt about the search of it, Alloc/Fresh.antt and Alloc/Rounds.antt about the whole
-- loop, Alloc/Exhaust.antt and Alloc/Complete.antt about when it gives up, and Alloc/Visit.antt and
-- Alloc/Only.antt about the traversal that it is given. Dir/Find/Name.antt and Dir/Find/Fuel.antt
-- are about the names of a path, Dir/Commit/Padding.antt about the padding of a commit,
-- Ctz/Skip.antt about the jumps along the skip list, Ctz/Layout.antt about the layout of a file in
-- its blocks, Ctz/Index.antt and Ctz/Places.antt about lfs_ctz_index, Ctz/Walk.antt and
-- Ctz/Position.antt about lfs_ctz_find, and Util/Power.antt, Util/Ones.antt, Util/Bytes.antt (of
-- lfs_npw2, lfs_ctz and lfs_popc), Util/Crc.antt, Util/Endian.antt, Util/Align.antt, Tag/Laws.antt,
-- Gstate/Laws.antt and Disk/Laws.antt about what their parents define. Tests.antt,
-- Tests/Alloc.antt, Tests/Bd.antt, Tests/Device.antt, Tests/Meta.antt, Tests/Migrate.antt and
-- Tests/Repair.antt have the examples. Fs.antt also has the walks over all metadata pairs
-- (lfs_fs_traverse, lfs_fs_pred, lfs_fs_parent, lfs_fs_size).
--
-- Fuel: a loop of C whose length is not in its data runs on fuel. lfs_bd_read and lfs_bd_prog have
-- two rounds for each byte, since a round that copies nothing fills or claims a cache; a scan of a
-- block has a round for each byte of it, of which a tag takes four; the search of the skip list
-- starts from an index that falls in every round; walks along the tails have one round more than
-- the device has blocks, which a list of pairs without a repetition does not reach; lfs_alloc has
-- two rounds more than the blocks left before the next ack, and its theorem below says that they
-- are enough; lfs_ctz_extend and lfs_dir_compact have a round for each block that may turn out to
-- be bad; lfs_dir_traverse has a round for each four bytes of two logs and for each attribute, and
-- passes its fuel on to the traversals that it makes inside; a compaction splits at most once for
-- each entry; the circle of calls under lfs_dir_commit has a depth of two for each block of the
-- device and 32 more; a directory of version 1 has a round for each byte of a block and one for
-- each pair; lfs_dir_read has 2^16 rounds for each pair. file reads and writes have a round for
-- each byte, and flushes and writes call each other to a depth of four. That these last ones are
-- enough is not shown.
--
-- Not modelled: lfs_init and lfs_file_opencfg take the buffers of their configurations and allocate
-- none, so that lfs_deinit and lfs_unmount have nothing to do, and the alignment of the lookahead
-- buffer is not checked. Traces and debug output have no effect on what is modelled. The emulated
-- block device in emubd and the tests and scripts of the repository are not part of the library.
--
-- In the statements about reads, the configuration is as assumed (IsGeometry) if the read size is
-- above 0, the cache size is a multiple of it and above 0, and the block size is at least the read
-- size and at most 2^30; the read callback is as assumed (IsDevice) if it returns the bytes that
-- the device holds, as many as it was asked for, or an error, whatever it has then written to the
-- buffer, and in both cases leaves the contents of the device as they are.
--
-- In the statements about programs, the configuration is as assumed (IsWritable) if the cache size
-- is a multiple of the program size and at least that, both are above 0, the block size is a
-- multiple of the program size, at least the cache size and at most 2^30, and the number of blocks
-- is below LFS_BLOCK_INLINE; the program callback is as assumed (IsFlash) if it returns an error,
-- or the bytes that it was given are what the device holds then, where it was erased, and all else
-- is as it was, and if the sync callback does not change the contents. The state of the program
-- cache that a program starts from and leaves is IsAt: the bytes of the block that were written
-- last, up to the offset, or nothing with an offset that is a multiple of the program size, and a
-- device that is erased from there on.
--
-- In the statements below, the counters of the allocator are consistent (IsFree) if the device has
-- at most 2^31 blocks, the window starts on it and has at most as many blocks, the search position
-- is at most the size of the window, and `ack` is at most the number of blocks and at least what
-- is left of the window.
pub mod Prelude
pub mod Util
pub mod Exec
pub mod Config
pub mod Bd
pub mod Tag
pub mod Gstate
pub mod Disk
pub mod Lfs
pub mod Ctz
pub mod Dir
pub mod Alloc
pub mod Fs
pub mod Files
pub mod Meta
pub mod Repair
pub mod Api
pub mod Mount
pub mod Migrate
pub mod Tests
