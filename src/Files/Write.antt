-- ===== src/Files/Write.antt =====
-- `lfs_file_write`. The calls of `lfs_file_flush` and of itself are parameters.
use littlefs.Prelude.{
  ℕ, zero, suc, ◌/◌, true, not, ◌&&◌, none, List, [], ◌∷◌, ltb, ◌==◌, if◌then◌else◌, length, take,
  drop, bit_and, add32, sub32,
}
use littlefs.Util.{lfs_min, lfs_max}
use littlefs.Exec.{
  corrupt, fbig, M, got, failed, pure, throw, no_fuel, attempt, get, assert, ◌>>=◌, ◌>>◌,
}
use littlefs.Config.{Config, block_inline}
use littlefs.Bd.{bd_prog, cache_zero}
use littlefs.Ctz.{ctz_find}
use littlefs.Ctz.Extend.{ctz_extend}
use littlefs.Lfs.{
  Lfs, f_writing, f_reading, f_erred, f_inline, f_opened, o_rdonly, o_append, has_flag, set_flag,
  clear_flag,
}
use littlefs.Files.State.{in_file, file_at, change_file, on_file, on_pcache, on_rcache, or_erred}
use littlefs.Files.Relocate.{file_relocate, file_outline, ack}

module _ {D : Type 0} (cfg : Config D) where
  open cfg use {block_size, block_count, cache_size}

  -- "find out which block we're extending from"
  unfoldable pub find_last : ℕ → M (Lfs D) (Unit {0})
  find_last here = do
    or_erred here (
        on_file here (do
          s ← get
          let f = s.0
          let ctz = f.ctz
          (block, off) ← on_rcache (ctz_find cfg none ctz.head ctz.size (sub32 f.pos 1))
          in_file λ f. record f { block = block; off = off }))
    change_file here λ f. record f { cache = cache_zero cfg f.cache }

  -- "check if we need a new block"
  unfoldable pub next_block : ℕ → M (Lfs D) (Unit {0})
  unfolding find_last
  next_block here = do
    f ← file_at here
    let fresh = not (has_flag f.flags f_writing)
    if not fresh && not (f.off == block_size) then pure tt else do
      if not (has_flag f.flags f_inline)
          then (do
            if fresh && ltb 0 f.pos then find_last here else pure tt
            ack cfg
            f' ← file_at here
            (block, off) ←
                or_erred here (ctz_extend cfg (λ A m. on_file here (on_pcache m)) f'.block f'.pos)
            change_file here λ f. record f { block = block; off = off })
          else change_file here λ f. record f { block = block_inline; off = f.pos }
      change_file here λ f. record f { flags = set_flag f_writing f.flags }

  -- "program as much as we can in current block", on fuel: each round but the last finds a bad
  -- block.
  unfoldable pub prog_file : ℕ → ℕ → List ℕ → M (Lfs D) (Unit {0})
  prog_file zero here part = no_fuel
  prog_file (suc fuel) here part = do
    f ← file_at here
    r ← attempt (on_file here (on_pcache (bd_prog cfg true f.block f.off part)))
    elim r [
      | got _ ↦ pure tt
      | failed corrupt ↦ do or_erred here (file_relocate cfg here); prog_file fuel here part
      | failed e ↦ or_erred here (throw e)
    ]

  -- The loop, on fuel: a round writes at least one byte.
  unfoldable pub write_loop : ℕ → ℕ → List ℕ → M (Lfs D) (Unit {0})
  unfolding next_block prog_file
  write_loop zero here bytes = no_fuel
  write_loop (suc fuel) here bytes = if length bytes == 0 then pure tt else do
    next_block here
    f ← file_at here
    let diff = lfs_min (length bytes) (sub32 block_size f.off)
    prog_file (suc block_count) here (take diff bytes)
    change_file here λ f. record f { pos = add32 f.pos diff; off = add32 f.off diff }
    ack cfg
    write_loop fuel here (drop diff bytes)

  -- "inline file doesn't fit anymore", and what follows it.
  unfoldable pub write_body : ℕ → List ℕ → M (Lfs D) ℕ
  unfolding write_loop
  write_body here bytes = do
    f ← file_at here
    let ctz = f.ctz
    let top = lfs_min 0x3fe (lfs_min cache_size (block_size / 8))
    if has_flag f.flags f_inline && ltb top (lfs_max (add32 f.pos (length bytes)) ctz.size)
        then or_erred here (file_outline cfg here)
        else pure tt
    write_loop (suc (length bytes)) here bytes
    change_file here λ f. record f { flags = clear_flag f_erred f.flags }
    pure (length bytes)

  module _ (flush_r : ℕ → M (Lfs D) (Unit {0})) (write_r : ℕ → List ℕ → M (Lfs D) ℕ) where
    -- "fill with zeros", up to a position; on fuel.
    unfoldable pub fill_zeros : ℕ → ℕ → ℕ → M (Lfs D) (Unit {0})
    fill_zeros zero here pos = no_fuel
    fill_zeros (suc fuel) here pos = do
      f ← file_at here
      if not (ltb f.pos pos)
          then pure tt
          else do n ← write_r here (0 ∷ []); fill_zeros fuel here pos

    unfoldable pub file_write : ℕ → List ℕ → M (Lfs D) ℕ
    unfolding write_body fill_zeros
    file_write here bytes = do
      f ← file_at here
      assert (has_flag f.flags f_opened)
      assert (not (bit_and f.flags 3 == o_rdonly))
      if has_flag f.flags f_reading then flush_r here else pure tt
      change_file here λ f.
          let ctz = f.ctz in
          if has_flag f.flags o_append && ltb f.pos ctz.size then record f { pos = ctz.size } else f
      f' ← file_at here
      s ← get
      if ltb s.file_max (add32 f'.pos (length bytes)) then throw fbig else do
        let ctz = f'.ctz
        if not (has_flag f'.flags f_writing) && ltb ctz.size f'.pos
            then (do
              change_file here λ f. record f { pos = ctz.size }
              fill_zeros (suc f'.pos) here f'.pos)
            else pure tt
        write_body here bytes
