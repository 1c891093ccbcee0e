-- ===== src/Fs.antt =====
-- "Filesystem filesystem operations" of lfs.c: walks over all metadata pairs, from the superblock
-- along the tails.
use littlefs.Prelude.{
  ℕ, zero, suc, ◌+◌, false, not, ◌&&◌, Option, none, some, List, [], ◌∷◌, ◌==◌, if◌then◌else◌,
  add32,
}
use littlefs.Exec.{
  noent, Res, M, got, failed, pure, throw, no_fuel, attempt, get, put, zoom, ◌>>=◌, ◌>>◌,
}
use littlefs.Config.{Config, Bd}
use littlefs.Tag.{mktag, tag_type3, Pair, pair_isnull, pair_overlap}
use littlefs.Tag.Kind
use littlefs.Disk.{ctz_fromle32, pair_fromle32}
use littlefs.Lfs.{Lfs, Mdir, File, Open, reg, dir, on_bd, has_flag, f_dirty, f_writing, f_inline}
use littlefs.Ctz.{ctz_traverse}
use littlefs.Bd.{bd_read, Cmp, cmp_eq, cmp_lt}
use littlefs.Dir.Get.{dir_get}
use littlefs.Dir.Fetch.{dir_fetch, dir_fetchmatch}
use littlefs.Dir.Fetch.Tags.{Diskoff}
use littlefs.Alloc.{alloc_lookahead, alloc_loop}
use littlefs.Migrate.Traverse.{traverse1}

-- `lfs_mdir_t dir = {.tail = {0, 1}}`
abbrev pub first_dir : Mdir
first_dir = record {
  pair = (0, 0);
  rev = 0;
  off = 0;
  etag = 0;
  count = 0;
  erased = false;
  split = false;
  tail = (0, 1);
}

module _ {D : Type 0} (cfg : Config D) where
  open cfg use {block_size, block_count, lookahead_size}

  module _ {A : Type 0} (cb : ℕ → M A (Unit {0})) where
    abbrev in_lfs : {B : Type 0} → M (Lfs D) B → M (Lfs D × A) B
    in_lfs m = zoom (λ s. s.0) (λ s l. (l, s.1)) m

    abbrev in_acc : {B : Type 0} → M A B → M (Lfs D × A) B
    in_acc m = zoom (λ s. s.1) (λ s a. (s.0, a)) m

    abbrev in_walk : {B : Type 0} → M (Bd D × A) B → M (Lfs D × A) B
    in_walk m = zoom (λ s. (s.0.bd, s.1)) (λ s w. (let l = s.0 in record l { bd = w.0 }, w.1)) m

    -- "iterate through ids in directory", `left` ids from `id` on.
    unfoldable pub traverse_ids : Mdir → ℕ → ℕ → M (Lfs D × A) (Unit {0})
    traverse_ids d zero id = pure tt
    traverse_ids d (suc left) id = do
      found ← in_lfs (attempt (dir_get cfg d (mktag 0x700 0x3ff 0) (mktag Kind.struct id 8)))
      elim found [
        | got (tag, bytes) ↦
            if tag_type3 tag == Kind.ctzstruct
            then (in_walk
                (let ctz = ctz_fromle32 bytes in ctz_traverse cfg cb none ctz.head ctz.size))
            else pure tt
        | failed noent ↦ pure tt
        | failed e ↦ throw e
      ]
      traverse_ids d left (id + 1)

    -- The loop over the metadata pairs, on fuel.
    unfoldable pub traverse_dirs : ℕ → Mdir → M (Lfs D × A) (Unit {0})
    traverse_dirs zero d = no_fuel
    traverse_dirs (suc fuel) d = if pair_isnull d.tail then pure tt else do
      in_acc (cb d.tail.0)
      in_acc (cb d.tail.1)
      d' ← in_lfs (dir_fetch cfg d d.tail)
      traverse_ids d' d'.count 0
      traverse_dirs fuel d'

    -- A file whose blocks are not all reachable from its directory yet.
    unfoldable pub traverse_file : File → M (Lfs D × A) (Unit {0})
    traverse_file f = do
      if has_flag f.flags f_dirty && not (has_flag f.flags f_inline)
          then in_walk (ctz_traverse cfg cb (some f.cache) f.ctz.head f.ctz.size)
          else pure tt
      if has_flag f.flags f_writing && not (has_flag f.flags f_inline)
          then in_walk (ctz_traverse cfg cb (some f.cache) f.block f.pos)
          else pure tt

    unfoldable pub traverse_open : List Open → M (Lfs D × A) (Unit {0})
    traverse_open [] = pure tt
    traverse_open (reg f ∷ rest) = do traverse_file f; traverse_open rest
    traverse_open (dir d ∷ rest) = traverse_open rest

    -- "also consider v1 blocks during migration": where the metadata pairs begin.
    unfoldable pub traverse_start : M (Lfs D × A) Mdir
    traverse_start = do
      s ← get
      elim s.0.lfs1 [
        | none ↦ pure first_dir
        | some root1 ↦ do
          traverse1 cfg cb root1
          s' ← get
          pure (record first_dir { tail = s'.0.root })
      ]

    -- `lfs_fs_traverse`; `fuel` bounds the number of metadata pairs.
    unfoldable pub fs_traverse : ℕ → M (Lfs D × A) (Unit {0})
    unfolding traverse_start
    fs_traverse fuel = do
      start ← traverse_start
      traverse_dirs fuel start
      s ← get
      traverse_open s.0.mlist

  -- A list of metadata pairs without a repetition has at most so many.
  abbrev pub pairs_max : ℕ
  pairs_max = block_count + 1

  -- The traversal of `lfs_alloc`: the callback marks blocks in `lfs->free`, which no step of the
  -- traversal reads.
  unfoldable pub fill_lookahead : M (Lfs D) (Unit {0})
  fill_lookahead =
      zoom (λ s. (s, s.free)) (λ s w. let l = w.0 in record l { free = w.1 })
        (fs_traverse (alloc_lookahead block_count) pairs_max)

  -- `lfs_alloc`; a window holds at least one block, so `ack + 2` rounds are enough.
  unfoldable pub alloc : M (Lfs D) ℕ
  alloc = do s ← get; alloc_loop cfg fill_lookahead (s.free.ack + 2)

  -- `lfs_fs_size_count` and `lfs_fs_size`.
  unfoldable pub fs_size_count : ℕ → M ℕ (Unit {0})
  fs_size_count block = do n ← get; put (add32 n 1)

  unfoldable pub fs_size : M (Lfs D) ℕ
  unfolding fs_size_count
  fs_size s = finish (fs_traverse fs_size_count pairs_max (s, 0))
    where
      finish : Res (Lfs D × ℕ) (Unit {0}) → Res (Lfs D) ℕ
      finish (Res.ok _ w) = Res.ok w.1 w.0
      finish (Res.err e w) = Res.err e w.0
      finish Res.fault = Res.fault
      finish Res.out_of_fuel = Res.out_of_fuel

  -- `lfs_fs_pred`, on fuel: the pair whose tail is `pair`, `none` for LFS_ERR_NOENT.
  unfoldable pub pred_loop : ℕ → Mdir → Pair → M (Lfs D) (Option Mdir)
  pred_loop zero pdir pair = no_fuel
  pred_loop (suc fuel) pdir pair =
      if pair_isnull pdir.tail
      then pure none
      else (if pair_overlap pdir.tail pair
          then pure (some pdir)
          else do pdir' ← dir_fetch cfg pdir pdir.tail; pred_loop fuel pdir' pair)

  unfoldable pub fs_pred : Pair → M (Lfs D) (Option Mdir)
  fs_pred pair = pred_loop pairs_max first_dir pair

  -- `lfs_fs_parent_match`, the callback that compares a stored pair with a pair.
  unfoldable pub fs_parent_match : Pair → ℕ → Diskoff → M (Lfs D) Cmp
  fs_parent_match pair tag disk = do
    s ← get
    bytes ← on_bd (bd_read cfg (some s.bd.pcache) block_size disk.block disk.off 8)
    pure (if pair_overlap (pair_fromle32 bytes) pair then cmp_eq else cmp_lt)

  -- `lfs_fs_parent`, on fuel: the directory that has `pair` as a child, and the tag of the entry.
  -- The loop goes on after 0 and after LFS_ERR_NOENT.
  unfoldable pub parent_loop : ℕ → Mdir → Pair → M (Lfs D) (Option (Mdir × ℕ))
  parent_loop zero parent pair = no_fuel
  parent_loop (suc fuel) parent pair = if pair_isnull parent.tail then pure none else do
    f ←
        dir_fetchmatch cfg (mktag 0x7ff 0 0x3ff) (mktag Kind.dirstruct 0 8) (fs_parent_match pair)
          parent parent.tail
    elim f.tag [
      | got tag ↦ if tag == 0 then parent_loop fuel f.dir pair else pure (some (f.dir, tag))
      | failed noent ↦ parent_loop fuel f.dir pair
      | failed e ↦ throw e
    ]

  unfoldable pub fs_parent : Pair → M (Lfs D) (Option (Mdir × ℕ))
  fs_parent pair = parent_loop pairs_max first_dir pair
