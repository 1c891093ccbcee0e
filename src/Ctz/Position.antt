-- ===== src/Ctz/Position.antt =====
-- `lfs_ctz_find` as a whole.
use littlefs.Prelude.{ℕ, suc, ◌-◌, ◌^◌, ◌≤◌, ◌<◌, ◌≡◌, refl, arith, false, Option, ◌==◌, sub32}
use littlefs.Exec.{Res, ok, err, fault, out_of_fuel, bind_res}
use littlefs.Config.{Config, Cache, Bd}
use littlefs.Bd.View.{IsGeometry, IsDevice, IsLoaded, view}
use littlefs.Bd.Reads.{IsPcache}
use littlefs.Ctz.{ctz_index, ctz_find}
use littlefs.Ctz.Places.{IsPlace, ctz_index-IsPlace, ctz_index-lt, place_mono}
use littlefs.Ctz.Walk.{IsSkipList, Walks, find_loop-Walks}

-- A block and an offset are those of a position in a file, whose block with an index is given.
abbrev pub IsPosition : (ℕ → ℕ) → ℕ → ℕ → ℕ × ℕ → Type 0
IsPosition blocks block_size pos (block, off) =
    (i : ℕ) × (block ≡ blocks i) × IsPlace block_size pos (i, off)

module _ {D : Type 0} (cfg : Config D) (image : D → ℕ → ℕ → ℕ) where
  open cfg use {block_size, block_count, cache_size}

  with_offset :
      (s : Bd D) (blocks : ℕ → ℕ) (pos : ℕ) (place : ℕ × ℕ) (r : Res (Bd D) ℕ)
      → IsPlace block_size pos place
      → Walks cfg image (λ b. b ≡ blocks place.0) s r
      → Walks cfg image
          (IsPosition blocks block_size pos)
          s
          (bind_res r (λ block t. ok (block, place.1) t))
  with_offset s blocks pos place (ok b t) here (q, same, v, at) = (q, same, v, (place.0, at, here))
  with_offset s blocks pos place (err e t) here h = h
  with_offset s blocks pos place fault here h = h
  with_offset s blocks pos place out_of_fuel here h = h

  -- `lfs_ctz_find` of a position inside a file of at most 2^31 bytes, on blocks of at least 128
  -- bytes, from a state as `lfs_bd_read` needs it: if the blocks of the file form a skip list, as
  -- a reader sees them, and the head is the last of them, then it ends, with no failed assertion
  -- and no access out of bounds. What it returns is the block of some index, with an offset behind
  -- its pointers, so that the bytes of the file in the blocks before and those in front of it in
  -- its own are as many as the position says. If it fails, the error is one that the read callback
  -- has returned. In both cases the program cache and the contents of the device are as they were.
  pub ctz_find-Walks :
      (s : Bd D) (pcache : Option Cache) (blocks : ℕ → ℕ) (size pos : ℕ)
      → IsDevice cfg image
      → IsGeometry cfg
      → 128 ≤ block_size
      → block_count < 2 ^ 32
      → IsPcache cfg image pcache
      → IsLoaded cache_size (image s.dev) s.rcache
      → size ≤ 2 ^ 31
      → pos < size
      → IsSkipList block_count
          (view pcache (image s.dev))
          blocks
          (ctz_index block_size (size - 1)).0
      → Walks cfg image
          (IsPosition blocks block_size pos)
          s
          (ctz_find cfg pcache (blocks (ctz_index block_size (size - 1)).0) size pos s)
  unfolding ctz_find
  ctz_find-Walks s pcache blocks size pos device geometry wide count_lt valid v size_le pos_lt
        list =
      let narrow : block_size ≤ 2 ^ 31 = omega (arith, geometry.block_le) in
      let some_size : size == 0 ≡ false = ground arith in
      let e : sub32 size 1 ≡ size - 1 = omega arith in
      let here = ctz_index-IsPlace block_size pos wide narrow (omega arith) in
      let end = ctz_index-IsPlace block_size (size - 1) wide narrow (omega arith) in
      let few = ctz_index-lt block_size (size - 1) wide narrow (omega arith) in
      let le = place_mono block_size pos (size - 1) _ _ (omega arith) here end in
      rw (some_size, e)
        (with_offset s blocks pos (ctz_index block_size pos) _ here (
          find_loop-Walks cfg image device geometry wide pcache valid (image s.dev) blocks
            (ctz_index block_size (size - 1)).0 few count_lt list
            (suc (ctz_index block_size (size - 1)).0) s (ctz_index block_size (size - 1)).0
            (ctz_index block_size pos).0 v (λ c k. refl) le (omega arith) (omega arith)))
