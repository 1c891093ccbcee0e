-- ===== src/Ctz/Extend.antt =====
-- `lfs_ctz_extend`: a new last block of a file, a copy of an incomplete one or one that starts with
-- the pointers of the skip list.
use littlefs.Prelude.{
  ℕ, zero, suc, ◌+◌, ◌*◌, true, not, ◌&&◌, none, leb, ◌==◌, if◌then◌else◌, List, add32, sub32,
  mul32,
}
use littlefs.Util.{ctz, fromle32, tole32}
use littlefs.Exec.{
  corrupt, M, got, failed, pure, throw, no_fuel, assert, attempt, modify, ◌>>=◌, ◌>>◌,
}
use littlefs.Config.{Config, Bd}
use littlefs.Bd.{bd_read, bd_prog, bd_erase, cache_drop}
use littlefs.Lfs.{Lfs}
use littlefs.Ctz.{ctz_index}
use littlefs.Fs.{alloc}

-- What a round of the loop does: it returns, or it goes to `relocate` with what it has left in the
-- variables `head` and `size`.
pub data Round : Type 0 where
  done : ℕ × ℕ → Round
  relocate : (head size : ℕ) → Round

-- A step whose LFS_ERR_CORRUPT means that the block is bad.
unfoldable pub or_relocate : {S : Type 0} → ℕ → ℕ → M S (Unit {0}) → M S Round → M S Round
or_relocate head size m k = do
  r ← attempt m
  elim r [ got _ ↦ k | failed corrupt ↦ pure (relocate head size) | failed e ↦ throw e ]

-- `on` is a call of the block device layer with the program cache that the function is passed.
module _ {D : Type 0} (cfg : Config D) (on : (A : Type 0) → M (Bd D) A → M (Lfs D) A) where
  open cfg use {block_size, block_count}

  -- "just copy out the last block if it is incomplete": `left` bytes from `i` on.
  unfoldable pub copy_block : ℕ → ℕ → ℕ → ℕ → ℕ → M (Lfs D) Round
  copy_block head nblock size zero i = pure (done (nblock, size))
  copy_block head nblock size (suc left) i = do
    dat ← on (List ℕ) (bd_read cfg none (suc left) head i 1)
    or_relocate head size (on (Unit {0}) (bd_prog cfg true nblock i dat))
        (copy_block head nblock size left (i + 1))

  -- "append block": pointer `i`, and `left` in all; each is read from the block before.
  unfoldable pub append_pointers : ℕ → ℕ → ℕ → ℕ → ℕ → M (Lfs D) Round
  append_pointers head size nblock zero i = pure (done (nblock, mul32 4 i))
  append_pointers head size nblock (suc left) i =
      or_relocate head size (on (Unit {0}) (bd_prog cfg true nblock (4 * i) (tole32 head))) (do
        head' ←
            if left == 0
            then pure head
            else (do bytes ← on (List ℕ) (bd_read cfg none 4 head (4 * i) 4); pure (fromle32 bytes))
        assert (leb 2 head' && leb head' block_count)
        append_pointers head' size nblock left (i + 1))

  -- One round, on a block that has been allocated.
  unfoldable pub extend_round : ℕ → ℕ → ℕ → M (Lfs D) Round
  extend_round head size nblock = do
    assert (leb 2 nblock && leb nblock block_count)
    or_relocate head size (on (Unit {0}) (bd_erase cfg nblock)) (
        if size == 0
        then pure (done (nblock, 0))
        else (let (index, last) = ctz_index block_size (sub32 size 1) in
            let size' = add32 last 1 in
            if not (size' == block_size)
            then copy_block head nblock size' size' 0
            else (let skips = add32 (ctz (add32 index 1)) 1 in
                append_pointers head size' nblock skips 0)))

  -- The loop, on fuel: a round ends it unless the block was bad.
  unfoldable pub extend_loop : ℕ → ℕ → ℕ → M (Lfs D) (ℕ × ℕ)
  extend_loop zero head size = no_fuel
  extend_loop (suc fuel) head size = do
    nblock ← alloc cfg
    r ← extend_round head size nblock
    elim r [
      | done out ↦ pure out
      | relocate head' size' ↦ do
        on (Unit {0}) (modify λ b. record b { pcache = cache_drop b.pcache })
        extend_loop fuel head' size'
    ]

  -- Every round that goes on has found one more bad block.
  unfoldable pub ctz_extend : ℕ → ℕ → M (Lfs D) (ℕ × ℕ)
  ctz_extend head size = extend_loop (suc block_count) head size
