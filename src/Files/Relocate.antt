-- ===== src/Files/Relocate.antt =====
-- `lfs_file_relocate` and `lfs_file_outline`: the part of the last block before the position goes to
-- a new block.
use littlefs.Prelude.{ℕ, zero, suc, ◌+◌, Bool, true, false, some, if◌then◌else◌}
use littlefs.Exec.{
  corrupt, M, got, failed, pure, throw, no_fuel, attempt, get, modify, assert, ◌>>=◌, ◌>>◌,
}
use littlefs.Config.{Config}
use littlefs.Bd.{bd_read, bd_prog, bd_erase, cache_drop, cache_zero}
use littlefs.Lfs.{Lfs, f_writing, f_inline, f_opened, has_flag, set_flag, clear_flag, on_bd}
use littlefs.Alloc.{free_ack}
use littlefs.Fs.{alloc}
use littlefs.Files.State.{file_at, change_file, on_file}
use littlefs.Files.Read.{getread_inline}

-- A step whose LFS_ERR_CORRUPT goes to `relocate`, which is `false`.
unfoldable pub or_again : {S : Type 0} → M S (Unit {0}) → M S Bool → M S Bool
or_again m k = do
  r ← attempt m
  elim r [ got _ ↦ k | failed corrupt ↦ pure false | failed e ↦ throw e ]

module _ {D : Type 0} (cfg : Config D) where
  open cfg use {block_count}

  -- "either read from dirty cache or disk": `left` bytes from `i` on.
  unfoldable pub copy_part : ℕ → ℕ → ℕ → ℕ → M (Lfs D) Bool
  unfolding or_again
  copy_part here nblock zero i = pure true
  copy_part here nblock (suc left) i = do
    f ← file_at here
    dat ←
        if has_flag f.flags f_inline
        then on_file here (getread_inline cfg (suc left) i 1)
        else on_bd (bd_read cfg (some f.cache) (suc left) f.block i 1)
    or_again (on_bd (bd_prog cfg true nblock i dat)) (copy_part here nblock left (i + 1))

  -- "copy over new state of file"
  unfoldable pub take_pcache : ℕ → ℕ → M (Lfs D) (Unit {0})
  take_pcache here nblock = do
    s ← get
    let b = s.bd
    change_file here
        λ f. record f { cache = b.pcache; block = nblock; flags = set_flag f_writing f.flags }
    modify λ s. record s { bd = record s.bd { pcache = cache_zero cfg b.pcache } }

  -- The loop, on fuel: each round but the last finds a bad block.
  unfoldable pub file_relocate_loop : ℕ → ℕ → M (Lfs D) (Unit {0})
  unfolding copy_part take_pcache or_again
  file_relocate_loop zero here = no_fuel
  file_relocate_loop (suc fuel) here = do
    nblock ← alloc cfg
    f ← file_at here
    copied ← or_again (on_bd (bd_erase cfg nblock)) (copy_part here nblock f.off 0)
    if copied then take_pcache here nblock else do
      modify λ s. record s { bd = record s.bd { pcache = cache_drop s.bd.pcache } }
      file_relocate_loop fuel here

  unfoldable pub file_relocate : ℕ → M (Lfs D) (Unit {0})
  unfolding file_relocate_loop
  file_relocate here = do
    f ← file_at here
    assert (has_flag f.flags f_opened)
    file_relocate_loop (suc block_count) here

  -- `lfs_alloc_ack`
  unfoldable pub ack : M (Lfs D) (Unit {0})
  ack = modify λ s. record s { free = free_ack block_count s.free }

  unfoldable pub file_outline : ℕ → M (Lfs D) (Unit {0})
  unfolding file_relocate ack
  file_outline here = do
    change_file here λ f. record f { off = f.pos }
    ack
    file_relocate here
    change_file here λ f. record f { flags = clear_flag f_inline f.flags }
