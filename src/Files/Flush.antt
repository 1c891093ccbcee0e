-- ===== src/Files/Flush.antt =====
-- `lfs_file_flush`, which writes what a file keeps in its cache, and what lay behind it in the file.
use littlefs.Prelude.{ℕ, zero, suc, true, not, List, [], ltb, ◌==◌, if◌then◌else◌, bit_or}
use littlefs.Util.{lfs_max}
use littlefs.Exec.{
  corrupt, M, got, failed, pure, throw, no_fuel, attempt, get, modify, assert, zoom, ◌>>=◌, ◌>>◌,
}
use littlefs.Config.{Config, block_null}
use littlefs.Bd.{bd_flush, cache_drop}
use littlefs.Lfs.{
  Lfs, File, f_dirty, f_writing, f_reading, f_inline, f_opened, o_rdonly, has_flag, set_flag,
  clear_flag,
}
use littlefs.Fs.{first_dir}
use littlefs.Files.State.{file_at, change_file, on_file, on_pcache}
use littlefs.Files.Read.{read_flushed}
use littlefs.Files.Relocate.{file_relocate}

module _ {D : Type 0} (cfg : Config D) (write_r : ℕ → List ℕ → M (Lfs D) ℕ) where
  open cfg use {block_count}

  -- A read of the copy, whose cache has the buffer of the read cache.
  unfoldable pub read_orig : M (File × Lfs D) (List ℕ)
  read_orig =
      zoom
        (λ s.
          let l = s.1 in
          let b = l.bd in
          let c = b.rcache in
          (let f = s.0 in (record f { cache = record f.cache { buffer = c.buffer } }), l))
        (λ s w.
          let f = w.0 in
          let c = f.cache in
          let l = w.1 in
          (f, record l { bd = record l.bd { rcache = record l.bd.rcache { buffer = c.buffer } } }))
        (read_flushed cfg 1)

  -- "copy over a byte at a time", on fuel; the state is the copy of the file as it was.
  unfoldable pub copy_rest : ℕ → ℕ → M (File × Lfs D) (Unit {0})
  unfolding read_orig
  copy_rest zero here = no_fuel
  copy_rest (suc fuel) here = do
    f ← zoom (λ s. s.1) (λ s l. (s.0, l)) (file_at here)
    if not (ltb f.pos (let ctz = f.ctz in ctz.size)) then pure tt else do
      dat ← read_orig
      n ← zoom (λ s. s.1) (λ s l. (s.0, l)) (write_r here dat)
      modify λ s.
          let l = s.1 in
          let b = l.bd in
          let c = b.rcache in
          if c.block == block_null then s else (
            let o = s.0 in record o { cache = cache_drop o.cache },
            record l { bd = record b { rcache = cache_drop c } },
          )
      copy_rest fuel here

  -- "write out what we have", on fuel: each round but the last finds a bad block.
  unfoldable pub flush_cache : ℕ → ℕ → M (Lfs D) (Unit {0})
  flush_cache zero here = no_fuel
  flush_cache (suc fuel) here = do
    r ← attempt (on_file here (on_pcache (bd_flush cfg true)))
    elim r [
      | got _ ↦ pure tt
      | failed corrupt ↦ do file_relocate cfg here; flush_cache fuel here
      | failed e ↦ throw e
    ]

  -- "copy over anything after current branch"
  unfoldable pub flush_blocks : ℕ → File → M (Lfs D) (Unit {0})
  unfolding copy_rest flush_cache
  flush_blocks here f = do
    s ← get
    let b = s.bd
    let ctz = f.ctz
    let orig : File = record f {
      id = 0;
      m = record first_dir { tail = (0, 0) };
      flags = bit_or o_rdonly f_opened;
      block = 0;
      off = 0;
      cache = b.rcache;
      attrs = [];
    }
    modify λ s. record s { bd = record s.bd { rcache = cache_drop s.bd.rcache } }
    zoom (λ s. (orig, s)) (λ s w. w.1) (copy_rest (suc ctz.size) here)
    flush_cache (suc block_count) here

  -- "actual file updates"
  unfoldable pub written : ℕ → File → File
  written pos f =
      let ctz = f.ctz in
      record f {
        ctz = record ctz { head = f.block; size = f.pos };
        flags = set_flag f_dirty (clear_flag f_writing f.flags);
        pos = pos;
      }

  unfoldable pub file_flush : ℕ → M (Lfs D) (Unit {0})
  unfolding flush_blocks written
  file_flush here = do
    f ← file_at here
    assert (has_flag f.flags f_opened)
    change_file here λ f. if not (has_flag f.flags f_reading) then f else record f {
      cache = if has_flag f.flags f_inline then f.cache else cache_drop f.cache;
      flags = clear_flag f_reading f.flags;
    }
    f' ← file_at here
    if not (has_flag f'.flags f_writing) then pure tt else do
      if not (has_flag f'.flags f_inline)
          then flush_blocks here f'
          else change_file here λ f. record f { pos = lfs_max f.pos (let ctz = f.ctz in ctz.size) }
      change_file here (written f'.pos)
