-- ===== src/Ctz.antt =====
-- "File index list operations" of lfs.c: the blocks of a file form a skip list from the last block
-- back to the first.
pub mod Extend
pub mod Index
pub mod Layout
pub mod Places
pub mod Position
pub mod Skip
pub mod Walk
use littlefs.Prelude.{
  ℕ, zero, suc, ◌+◌, ◌-◌, ◌*◌, ◌/◌, ◌%◌, Option, ltb, leb, ◌==◌, ◌&&◌, if◌then◌else◌, add32, sub32,
  mul32, ◌<<◌,
}
use littlefs.Util.{lfs_min, npw2, ctz, popc, fromle32}
use littlefs.Exec.{M, pure, no_fuel, assert, zoom, ◌>>=◌, ◌>>◌}
use littlefs.Config.{Config, Cache, Bd, block_null}
use littlefs.Bd.{bd_read}
use littlefs.Disk.{word_at}

-- The block of the file that holds the byte at `off`, and where in that block it lies.
unfoldable pub ctz_index : ℕ → ℕ → ℕ × ℕ
ctz_index block_size size =
    let b = sub32 block_size 8 in
    let i = size / b in
    if i == 0
    then (0, size)
    else (let i' = sub32 size (mul32 4 (add32 (popc (sub32 i 1)) 2)) / b in
        (i', sub32 (sub32 size (mul32 b i')) (mul32 4 (popc i'))))

-- How far `lfs_ctz_find` jumps back in one round.
unfoldable pub skip_of : ℕ → ℕ → ℕ
skip_of current target = lfs_min (sub32 (npw2 (add32 (sub32 current target) 1)) 1) (ctz current)

module _ {D : Type 0} (cfg : Config D) where
  open cfg use {block_size, block_count}

  -- The loop of `lfs_ctz_find`, on fuel; `current` falls in each round.
  unfoldable pub find_loop : Option Cache → ℕ → ℕ → ℕ → ℕ → M (Bd D) ℕ
  find_loop pcache zero head current target = no_fuel
  find_loop pcache (suc fuel) head current target =
      if ltb target current
      then (do
        let skip = skip_of current target
        bytes ← bd_read cfg pcache 4 head (mul32 4 skip) 4
        let head' = fromle32 bytes
        assert (leb 2 head' && leb head' block_count)
        find_loop pcache fuel head' (sub32 current (1 << skip)) target)
      else pure head

  -- The block and the offset in it of the byte at `pos` of the file.
  unfoldable pub ctz_find : Option Cache → ℕ → ℕ → ℕ → M (Bd D) (ℕ × ℕ)
  ctz_find pcache head size pos = if size == 0 then pure (block_null, 0) else do
    let (current, _) = ctz_index block_size (sub32 size 1)
    let (target, off) = ctz_index block_size pos
    block ← find_loop pcache (suc current) head current target
    pure (block, off)

  module _ {A : Type 0} (cb : ℕ → M A (Unit {0})) where
    abbrev in_bd : {B : Type 0} → M (Bd D) B → M (Bd D × A) B
    in_bd m = zoom (λ s. s.0) (λ s b. (b, s.1)) m

    abbrev in_acc : {B : Type 0} → M A B → M (Bd D × A) B
    in_acc m = zoom (λ s. s.1) (λ s a. (s.0, a)) m

    -- The loop of `lfs_ctz_traverse`, on fuel: an odd index has one pointer that is followed, an
    -- even one two, of which the second is followed.
    unfoldable pub traverse_loop : Option Cache → ℕ → ℕ → ℕ → M (Bd D × A) (Unit {0})
    traverse_loop pcache zero head index = no_fuel
    traverse_loop pcache (suc fuel) head index = do
      in_acc (cb head)
      if index == 0 then pure tt else do
        let count = 2 - index % 2
        bytes ← in_bd (bd_read cfg pcache (4 * count) head 0 (4 * count))
        if count == 2 then in_acc (cb (word_at bytes 0)) else pure tt
        traverse_loop pcache fuel (word_at bytes (4 * (count - 1))) (sub32 index count)

    unfoldable pub ctz_traverse : Option Cache → ℕ → ℕ → M (Bd D × A) (Unit {0})
    ctz_traverse pcache head size =
        if size == 0
        then pure tt
        else (let (index, _) = ctz_index block_size (sub32 size 1) in
            traverse_loop pcache (suc index) head index)
