-- ===== src/Migrate/Walk.antt =====
-- Walks over a filesystem of version 1 and its mount: `lfs1_moved` and `lfs1_mount`.
use littlefs.Prelude.{
  ℕ, zero, suc, ◌*◌, bit_and, Bool, true, false, not, ◌&&◌, some, List, [], ◌∷◌, leb, ◌==◌, ◌>>>◌,
  if◌then◌else◌,
}
use littlefs.Exec.{
  noent, corrupt, inval, M, got, failed, pure, throw, no_fuel, attempt, get, modify, ◌>>=◌, ◌>>◌,
}
use littlefs.Config.{Config}
use littlefs.Tag.{Pair, pair_null, pair_isnull}
use littlefs.Lfs.{Lfs}
use littlefs.Alloc.{free_ack}
use littlefs.Fs.{pairs_max}
use littlefs.Mount.{magic, init}
use littlefs.Migrate.Traverse.{new_dir1, with_dir1, fetched}
use littlefs.Migrate.Disk1.{Dir1, dir1_bytes, superblock1_bytes, superblock1_fromle32}
use littlefs.Migrate.Fetch.{bd1_read, dir1_fetch, dir1_next}

-- LFS1_DISK_VERSION and its two halves.
abbrev pub disk_version1 : ℕ
disk_version1 = 0x00010001

abbrev pub version_major1 : ℕ
version_major1 = bit_and 0xffff (disk_version1 >>> 16)

abbrev pub version_minor1 : ℕ
version_minor1 = bit_and 0xffff disk_version1

unfoldable pub is_version1 : ℕ → Bool
is_version1 version =
    bit_and 0xffff (version >>> 16) == version_major1 && leb (bit_and 0xffff version) version_minor1

-- `memcmp(xs, ys, n) == 0`, of two buffers of the length `n`.
unfoldable pub same_bytes : List ℕ → List ℕ → Bool
same_bytes [] [] = true
same_bytes (x ∷ xs) (y ∷ ys) = (x == y) && same_bytes xs ys
same_bytes [] (y ∷ ys) = false
same_bytes (x ∷ xs) [] = false

module _ {D : Type 0} (cfg : Config D) where
  open cfg use {block_size, block_count}

  -- The entries that a directory still has, on fuel, which bounds the bytes of its pairs: whether
  -- one that has not been moved itself is the one that is looked for. An error LFS_ERR_NOENT is
  -- the end of the directory.
  unfoldable pub moved_entries : ℕ → Pair → M (Lfs D × Dir1) Bool
  moved_entries zero e = no_fuel
  moved_entries (suc fuel) e = do
    next ← attempt (dir1_next cfg (pairs_max cfg))
    elim next [
      | failed noent ↦ pure false
      | failed err ↦ throw err
      | got entry ↦
          if (bit_and 0x80 entry.d.type == 0) && ((entry.d.u.0 == e.0) && (entry.d.u.1 == e.1))
          then pure true
          else moved_entries fuel e
    ]

  -- "iterate over all directory directory entries", on fuel.
  unfoldable pub moved_dirs : ℕ → ℕ → Pair → M (Lfs D × Dir1) Bool
  unfolding moved_entries
  moved_dirs entries zero e = no_fuel
  moved_dirs entries (suc fuel) e = do
    s ← get
    if pair_isnull s.1.d.tail then pure false else do
      dir1_fetch cfg s.1.d.tail
      hit ← moved_entries entries e
      if hit then pure true else moved_dirs entries fuel e

  -- `lfs1_moved`; `root1` is `lfs->lfs1->root`.
  unfoldable pub moved : Pair → Pair → M (Lfs D) Bool
  unfolding moved_dirs
  moved root1 e = if pair_isnull root1 then pure false else do
    (hit, _) ←
        with_dir1 new_dir1
          (dir1_fetch cfg (0, 1) >> moved_dirs (pairs_max cfg * suc block_size) (pairs_max cfg) e)
    pure hit

  -- "load superblock", of a directory that was fetched.
  unfoldable pub superblock1_root : Dir1 → M (Lfs D) (Unit {0})
  unfolding is_version1 same_bytes
  superblock1_root dir = do
    bytes ← bd1_read cfg dir.pair.0 dir1_bytes superblock1_bytes
    let superblock = superblock1_fromle32 bytes
    modify λ s. record s { lfs1 = some superblock.root }
    if not (same_bytes superblock.magic magic)
        then throw corrupt
        else (if is_version1 superblock.version then pure tt else throw inval)

  -- `lfs1_mount`
  unfoldable pub mount1 : M (Lfs D) (Unit {0})
  unfolding superblock1_root
  mount1 = do
    init cfg
    modify λ s. record s {
      lfs1 = some pair_null;
      free = (let f = s.free in free_ack block_count (record f { off = 0; size = 0; i = 0 }));
    }
    dir ← fetched cfg new_dir1 (0, 1)
    superblock1_root dir
