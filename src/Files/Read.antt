-- ===== src/Files/Read.antt =====
-- `lfs_file_read`, of a file that has no writes to flush.
use littlefs.Prelude.{
  ℕ, zero, suc, ◌-◌, not, ◌&&◌, none, List, [], ◌++◌, leb, ◌==◌, if◌then◌else◌, add32, sub32,
}
use littlefs.Util.{lfs_min}
use littlefs.Exec.{M, pure, no_fuel, get, zoom, ◌>>=◌, ◌>>◌}
use littlefs.Config.{Config, block_inline}
use littlefs.Bd.{bd_read}
use littlefs.Tag.{mktag}
use littlefs.Tag.Kind
use littlefs.Ctz.{ctz_find}
use littlefs.Lfs.{Lfs, File, f_reading, f_inline, has_flag, set_flag}
use littlefs.Dir.Get.{dir_getread}
use littlefs.Files.State.{in_file, on_rcache}

module _ {D : Type 0} (cfg : Config D) where
  open cfg use {block_size}

  -- `lfs_dir_getread` of an inline file, through the cache of the file.
  unfoldable pub getread_inline : ℕ → ℕ → ℕ → M (File × Lfs D) (List ℕ)
  getread_inline hint o size = do
    s ← get
    let f = s.0
    zoom (λ s. (let f = s.0 in f.cache, s.1)) (λ s w. (record s.0 { cache = w.0 }, w.1))
        (dir_getread cfg f.m none hint (mktag 0xfff 0x1ff 0) (mktag Kind.inlinestruct f.id 0) o
          size)

  -- "check if we need a new block"
  unfoldable pub find_block : M (File × Lfs D) (Unit {0})
  unfolding in_file
  find_block = do
    s ← get
    let f = s.0
    if has_flag f.flags f_reading && not (f.off == block_size) then pure tt else do
      if not (has_flag f.flags f_inline)
          then (do
            let ctz = f.ctz
            (block, off) ← on_rcache (ctz_find cfg none ctz.head ctz.size f.pos)
            in_file λ f. record f { block = block; off = off })
          else in_file λ f. record f { block = block_inline; off = f.pos }
      in_file λ f. record f { flags = set_flag f_reading f.flags }

  -- The loop, on fuel: a round reads at least one byte.
  unfoldable pub file_loop : ℕ → ℕ → M (File × Lfs D) (List ℕ)
  unfolding find_block getread_inline in_file
  file_loop zero nsize = no_fuel
  file_loop (suc fuel) nsize = if nsize == 0 then pure [] else do
    find_block
    s ← get
    let f = s.0
    let diff = lfs_min nsize (sub32 block_size f.off)
    part ←
        if has_flag f.flags f_inline
        then getread_inline block_size f.off diff
        else on_rcache (bd_read cfg none block_size f.block f.off diff)
    in_file λ f. record f { pos = add32 f.pos diff; off = add32 f.off diff }
    rest ← file_loop fuel (nsize - diff)
    pure (part ++ rest)

  -- From the first test of the end of the file on.
  unfoldable pub read_flushed : ℕ → M (File × Lfs D) (List ℕ)
  unfolding file_loop
  read_flushed size = do
    s ← get
    let f = s.0
    let ctz = f.ctz
    if leb ctz.size f.pos
        then pure []
        else (let size' = lfs_min size (sub32 ctz.size f.pos) in file_loop (suc size') size')
