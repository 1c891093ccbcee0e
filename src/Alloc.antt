-- ===== src/Alloc.antt =====
-- "Block allocator" of lfs.c: a window of the device in a bitmap, which `lfs_fs_traverse` fills
-- anew when it has been looked through.
pub mod Bitmap
pub mod Window
pub mod Fresh
pub mod Exhaust
pub mod Complete
pub mod Only
pub mod Rounds
pub mod Visit
use littlefs.Prelude.{
  ℕ, zero, suc, ◌+◌, ◌-◌, ◌*◌, ◌/◌, ◌%◌, ◌^◌, bit_and, bit_or, Bool, true, false, not, Option, none,
  some, List, ltb, ◌==◌, if◌then◌else◌, get_or, set, length, replicate, add32, sub32, mul32, ◌<<◌,
}
use littlefs.Util.{lfs_min}
use littlefs.Exec.{
  Error, nospc, Res, ok, err, fault, M, Try, got, failed, pure, out_of_fuel, get, put, assert,
  bind_res, ◌>>=◌, ◌>>◌,
}
use littlefs.Config.{Config}
use littlefs.Lfs.{Lfs, Free}

-- Whether the word of an offset lies in the buffer: an access where it does not is a fault, in the
-- functions that use the next two.
unfoldable pub in_buffer : List ℕ → ℕ → Bool
in_buffer buffer off = ltb (off / 32) (length buffer)

-- `free.buffer[off / 32] & (1U << (off % 32))`, of a word that lies in the buffer.
unfoldable pub is_used : List ℕ → ℕ → Bool
is_used buffer off = not (bit_and (get_or buffer (off / 32) 0) (1 << (off % 32)) == 0)

-- `free.buffer[off / 32] |= 1U << (off % 32)`, of a word that lies in the buffer.
unfoldable pub mark_used : List ℕ → ℕ → List ℕ
mark_used buffer off = set buffer (off / 32) (bit_or (get_or buffer (off / 32) 0) (1 << (off % 32)))

-- Where a block lies in the window.
unfoldable pub window_offset : ℕ → Free → ℕ → ℕ
window_offset block_count f block = add32 (sub32 block f.off) block_count % block_count

-- `lfs_alloc_lookahead`
unfoldable pub alloc_lookahead : ℕ → ℕ → M Free (Unit {0})
unfolding in_buffer mark_used window_offset
alloc_lookahead block_count block = do
  f ← get
  let off = window_offset block_count f block
  if ltb off f.size
      then (do assert (in_buffer f.buffer off); put (record f { buffer = mark_used f.buffer off }))
      else pure tt

-- `free.i += 1; free.ack -= 1;`
unfoldable pub advance : Free → Free
advance f = record f { i = add32 f.i 1; ack = sub32 f.ack 1 }

-- "eagerly find next off": past the blocks in use. `none` is an access outside the buffer.
unfoldable pub skip_used : ℕ → Free → Option Free
unfolding is_used in_buffer advance
skip_used zero f = some f
skip_used (suc left) f =
    let rest = skip_used left (advance f) in
    if f.i == f.size
    then some f
    else (if not (in_buffer f.buffer f.i)
        then none
        else (if is_used f.buffer f.i then rest else some f))

-- What the search of the window has found, `none` if it has read outside the buffer.
abbrev pub Search : Type 0
Search = Option (Try ℕ × Free)

abbrev pub found_at : ℕ → Option Free → Search
found_at off none = none
found_at off (some f) = some (got off, f)

-- The loop over the window: the offset of a free block, if there is one.
unfoldable pub scan_window : ℕ → Free → Search
unfolding is_used in_buffer advance skip_used
scan_window zero f = some (failed nospc, f)
scan_window (suc left) f =
    let rest = scan_window left (advance f) in
    let found = found_at f.i (skip_used left (advance f)) in
    if f.i == f.size
    then some (failed nospc, f)
    else (if not (in_buffer f.buffer f.i)
        then none
        else (if is_used f.buffer f.i then rest else found))

-- The window moves on to where the last one ended, and is cleared.
unfoldable pub next_window : (block_count lookahead_size : ℕ) → Free → Free
next_window block_count lookahead_size f = record f {
  off = add32 f.off f.size % block_count;
  size = lfs_min (mul32 8 lookahead_size) f.ack;
  i = 0;
  buffer = replicate (lookahead_size / 4) 0;
}

unfoldable pub free_ack : ℕ → Free → Free
free_ack block_count f = record f { ack = block_count }

-- `traverse` is `lfs_fs_traverse` with `lfs_alloc_lookahead`: with the `fill_lookahead` of Fs.antt.
module _ {D : Type 0} (cfg : Config D) (traverse : M (Lfs D) (Unit {0})) where
  open cfg use {block_count, lookahead_size}

  -- What follows the search of the window: a fault, the block that was found, or a new window and
  -- `rest`, the next round of the loop.
  unfoldable pub alloc_after : M (Lfs D) ℕ → Search → M (Lfs D) ℕ
  unfolding next_window
  alloc_after rest none s = fault
  alloc_after rest (some (got off, f)) s =
      ok (add32 f.off off % block_count) (record s { free = f })
  alloc_after rest (some (failed e, f)) s =
      let again =
        bind_res (traverse (record s { free = next_window block_count lookahead_size f }))
          (λ _. rest) in
      if f.ack == 0 then err nospc (record s { free = f }) else again

  -- `lfs_alloc`, on fuel: each round but the first and the last looks at a block that has not been
  -- looked at since the last ack.
  unfoldable pub alloc_loop : ℕ → M (Lfs D) ℕ
  unfolding scan_window
  alloc_loop zero s = out_of_fuel
  alloc_loop (suc fuel) s =
      alloc_after (alloc_loop fuel) (scan_window (sub32 s.free.size s.free.i) s.free) s
