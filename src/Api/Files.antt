-- ===== src/Api/Files.antt =====
-- `lfs_file_read`, `lfs_file_write` and the positions and the size of a file.
use littlefs.Prelude.{
  ℕ, zero, suc, not, none, List, [], ◌∷◌, ltb, ◌==◌, if◌then◌else◌, bit_and, add32,
}
use littlefs.Util.{lfs_max}
use littlefs.Exec.{inval, M, pure, throw, no_fuel, get, assert, ◌>>=◌, ◌>>◌}
use littlefs.Config.{Config}
use littlefs.Ctz.{ctz_find}
use littlefs.Lfs.{
  Lfs, File, f_dirty, f_writing, f_reading, f_opened, o_rdonly, o_wronly, has_flag, set_flag,
}
use littlefs.Files.State.{file_at, change_file, on_file, on_rcache}
use littlefs.Files.Read.{read_flushed}
use littlefs.Files.Evict.{flush, write}
use littlefs.Mount.{file_max_default}

-- `enum lfs_whence_flags`
abbrev pub seek_set : ℕ
seek_set = 0

abbrev pub seek_cur : ℕ
seek_cur = 1

abbrev pub seek_end : ℕ
seek_end = 2

-- "find new pos": `off` is an `int32_t`, as a word.
unfoldable pub new_pos : File → ℕ → ℕ → ℕ
new_pos f off whence =
    if whence == seek_set
    then off
    else (if whence == seek_cur
        then add32 f.pos off
        else (if whence == seek_end then add32 (let ctz = f.ctz in ctz.size) off else f.pos))

unfoldable pub size_of : File → ℕ
size_of f =
    let ctz = f.ctz in if has_flag f.flags f_writing then lfs_max f.pos ctz.size else ctz.size

module _ {D : Type 0} (cfg : Config D) where
  open cfg use {cache_size}

  unfoldable pub file_read : ℕ → ℕ → M (Lfs D) (List ℕ)
  file_read here size = do
    f ← file_at here
    assert (has_flag f.flags f_opened)
    assert (not (bit_and f.flags 3 == o_wronly))
    if has_flag f.flags f_writing then flush cfg here else pure tt
    on_file here (read_flushed cfg size)

  -- The position after the seek.
  unfoldable pub file_seek : ℕ → ℕ → ℕ → M (Lfs D) ℕ
  unfolding new_pos
  file_seek here off whence = do
    f ← file_at here
    assert (has_flag f.flags f_opened)
    flush cfg here
    f' ← file_at here
    s ← get
    let npos = new_pos f' off whence
    if ltb s.file_max npos
        then throw inval
        else do change_file here λ f. record f { pos = npos }; pure npos

  unfoldable pub file_tell : ℕ → M (Lfs D) ℕ
  file_tell here = do f ← file_at here; assert (has_flag f.flags f_opened); pure f.pos

  unfoldable pub file_rewind : ℕ → M (Lfs D) (Unit {0})
  unfolding file_seek
  file_rewind here = do n ← file_seek here 0 seek_set; pure tt

  unfoldable pub file_size : ℕ → M (Lfs D) ℕ
  unfolding size_of
  file_size here = do f ← file_at here; assert (has_flag f.flags f_opened); pure (size_of f)

  -- "lookup new head in ctz skip list"
  unfoldable pub shrink : ℕ → ℕ → M (Lfs D) (Unit {0})
  shrink here size = do
    flush cfg here
    f ← file_at here
    let ctz = f.ctz
    (block, off) ← on_file here (on_rcache (ctz_find cfg none ctz.head ctz.size size))
    change_file here λ f. record f {
      block = block;
      off = off;
      ctz = record { head = block; size = size };
      flags = set_flag f_reading (set_flag f_dirty f.flags);
    }

  -- "fill with zeros", on fuel.
  unfoldable pub grow : ℕ → ℕ → ℕ → M (Lfs D) (Unit {0})
  grow zero here size = no_fuel
  grow (suc fuel) here size = do
    f ← file_at here
    if not (ltb f.pos size) then pure tt else do n ← write cfg here (0 ∷ []); grow fuel here size

  unfoldable pub file_truncate : ℕ → ℕ → M (Lfs D) (Unit {0})
  unfolding file_seek file_size shrink grow
  file_truncate here size = do
    f ← file_at here
    assert (has_flag f.flags f_opened)
    assert (not (bit_and f.flags 3 == o_rdonly))
    if ltb file_max_default size then throw inval else do
      oldsize ← file_size here
      if ltb size oldsize
          then shrink here size
          else (if not (ltb oldsize size) then pure tt else do
            f' ← file_at here
            if f'.pos == oldsize then pure tt else do n ← file_seek here 0 seek_end; pure tt
            grow (suc size) here size)
      n ← file_seek here f.pos seek_set
      pure tt
