-- ===== src/Dir/Fetch.antt =====
-- `lfs_dir_fetchmatch` and `lfs_dir_fetch`: the newer block of a pair is scanned commit by commit
-- with a running tag and a running checksum; what the last commit with a good checksum left is the
-- directory. `lfs_dir_find_match` is one of the callbacks.
pub mod Tags
use littlefs.Prelude.{
  ℕ, zero, suc, ◌+◌, ◌-◌, ◌%◌, bit_and, bit_or, bit_xor, Bool, true, false, not, ◌&&◌, ◌||◌, none,
  List, ltb, leb, ◌==◌, if◌then◌else◌, length, take, u16, add32, sub32, ◌<<◌,
}
use littlefs.Util.{lfs_min, fromle32, frombe32, tole32, scmp_gt, crc}
use littlefs.Exec.{
  noent, corrupt, M, Try, got, failed, pure, throw, crash, no_fuel, attempt, get, modify, ◌>>=◌,
  ◌>>◌,
}
use littlefs.Config.{Config, block_null}
use littlefs.Bd.{bd_read, bd_cmp, Cmp, cmp_eq, cmp_lt, cmp_gt}
use littlefs.Tag.{
  mktag, tag_isvalid, tag_type1, tag_chunk, tag_splice, tag_id, tag_size, tag_dsize, Pair,
  pair_null, pair_swap,
}
use littlefs.Tag.Kind
use littlefs.Gstate.{gstate_hasmovehere}
use littlefs.Disk.{pair_fromle32}
use littlefs.Lfs.{Lfs, Mdir, on_bd}
use littlefs.Dir.Fetch.Tags.{
  Diskoff, Scan, Next, more, stop, no_tag, scan_start, not_erased, scan_commit, scan_splice,
  scan_name, scan_match, best_after_move, Found, found,
}

module _ {D : Type 0} (cfg : Config D) (fmask ftag : ℕ) (cb : ℕ → Diskoff → M (Lfs D) Cmp) where
  open cfg use {block_size, prog_size}

  unfoldable pub read_at : ℕ → Mdir → ℕ → ℕ → M (Lfs D) (List ℕ)
  read_at hint dir off size = on_bd (bd_read cfg none hint dir.pair.0 off size)

  -- "crc the entry first": `true` if a read found the block corrupt, which ends this loop alone.
  unfoldable pub crc_entry : Mdir → ℕ → ℕ → ℕ → M (Lfs D) (ℕ × Bool)
  crc_entry dir c zero off = pure (c, false)
  crc_entry dir c (suc left) off = do
    dat ← attempt (read_at block_size dir off 1)
    elim dat [
      | got bytes ↦ crc_entry dir (crc c bytes) left (add32 off 1)
      | failed corrupt ↦ pure (c, true)
      | failed e ↦ throw e
    ]

  -- The branch of a checksum tag.
  unfoldable pub scan_crc : Scan → ℕ → M (Lfs D) Next
  scan_crc v tag = do
    stored ← attempt (read_at block_size v.dir (add32 v.off 4) 4)
    elim stored [
      | failed corrupt ↦ pure (stop (not_erased v))
      | failed e ↦ throw e
      | got bytes ↦
          (if v.crc == fromle32 bytes
            then (do
              modify λ s. record s { seed = bit_xor s.seed v.crc }
              pure (more (scan_commit v tag (bit_xor tag (bit_and (tag_chunk tag) 1 << 31)))))
            else pure (stop (not_erased v)))
    ]

  -- The branch of a tail tag. An error other than corruption is passed over here.
  unfoldable pub scan_tail : Scan → ℕ → M (Lfs D) Next
  scan_tail v tag = do
    let v' = record v { tempsplit = bit_and (tag_chunk tag) 1 == 1 }
    stored ← attempt (read_at block_size v'.dir (add32 v'.off 4) 8)
    elim stored [
      | got bytes ↦ pure (more (record v' { temptail = pair_fromle32 bytes }))
      | failed corrupt ↦ pure (stop (not_erased v'))
      | failed e ↦ pure (more v')
    ]

  -- "directory modification tags?"
  unfoldable pub scan_kind : Scan → ℕ → M (Lfs D) Next
  scan_kind v tag =
      if tag_type1 tag == Kind.name
      then pure (more (scan_name v tag))
      else (if tag_type1 tag == Kind.splice
          then pure (more (scan_splice v tag))
          else (if tag_type1 tag == Kind.tail then scan_tail v tag else pure (more v)))

  -- "found a match for our fetcher?"
  unfoldable pub scan_fetch : Scan → ℕ → M (Lfs D) Next
  scan_fetch v tag = if not (bit_and fmask tag == bit_and fmask ftag) then pure (more v) else do
    res ← attempt (cb tag (record { block = v.dir.pair.0; off = add32 v.off 4 }))
    elim res [
      | got c ↦ pure (more (scan_match v tag c))
      | failed corrupt ↦ pure (stop (not_erased v))
      | failed e ↦ throw e
    ]

  unfoldable pub scan_entry : Scan → ℕ → M (Lfs D) Next
  scan_entry v tag = do
    (c, bad) ← crc_entry v.dir v.crc (tag_dsize tag - 4) (add32 v.off 4)
    let v' = if bad then not_erased v else v
    next ← scan_kind (record v' { crc = c }) tag
    elim next [ more w ↦ scan_fetch w tag | stop w ↦ pure (stop w) ]

  -- One round of the loop over the tags.
  unfoldable pub scan_step : Scan → M (Lfs D) Next
  scan_step v0 = do
    let v = record v0 { off = add32 v0.off (tag_dsize v0.ptag) }
    word ← attempt (read_at block_size v.dir v.off 4)
    elim word [
      | failed corrupt ↦ pure (stop (not_erased v))
      | failed e ↦ throw e
      | got bytes ↦ do
        let c = crc v.crc bytes
        let tag = bit_xor (frombe32 bytes) v.ptag
        if not (tag_isvalid tag) || ltb block_size (add32 v.off (tag_dsize tag))
            then pure (
                stop (record v {
                  crc = c;
                  dir = record v.dir {
                    erased = (tag_type1 v.ptag == Kind.crc) && (v.dir.off % prog_size == 0);
                  };
                }))
            else (let w = record v { crc = c; ptag = tag } in
                if tag_type1 tag == Kind.crc then scan_crc w tag else scan_entry w tag)
    ]

  -- The loop, on fuel: each round moves on by at least the four bytes of a tag.
  unfoldable pub scan_loop : ℕ → Scan → M (Lfs D) Scan
  scan_loop zero v = no_fuel
  scan_loop (suc fuel) v = do
    next ← scan_step v
    elim next [ more w ↦ scan_loop fuel w | stop w ↦ pure w ]

  -- A revision count, 0 where the block cannot be read.
  unfoldable pub read_rev : ℕ → M (Lfs D) (Try ℕ)
  read_rev block = do
    bytes ← attempt (on_bd (bd_read cfg none 4 block 0 4))
    elim bytes [
      | got b ↦ pure (got (fromle32 b))
      | failed corrupt ↦ pure (failed corrupt)
      | failed e ↦ throw e
    ]

  -- The blocks of the pair, tried in turn; `left` counts the tries.
  unfoldable pub try_blocks : ℕ → ℕ → Mdir → ℕ → M (Lfs D) Found
  try_blocks zero other_rev dir besttag = throw corrupt
  try_blocks (suc left) other_rev dir besttag = do
    v ← scan_loop (suc block_size) (scan_start dir besttag)
    s ← get
    if ltb 0 v.dir.off
        then pure (found v.dir (best_after_move s v.dir v.besttag))
        else try_blocks left other_rev
            (record v.dir { pair = pair_swap v.dir.pair; rev = other_rev }) v.besttag

  -- `dir` is what the caller's structure held before.
  unfoldable pub dir_fetchmatch : Mdir → Pair → M (Lfs D) Found
  unfolding no_tag
  dir_fetchmatch dir pair = do
    rev0 ← read_rev pair.0
    rev1 ← read_rev pair.1
    let a : ℕ = elim rev0 [ got n ↦ n | failed _ ↦ 0 ]
    let b : ℕ = elim rev1 [ got n ↦ n | failed _ ↦ 0 ]
    let second : Bool = elim rev1 [ got n ↦ scmp_gt n a | failed _ ↦ false ]
    let start = record dir { off = 0 }
    if second
        then try_blocks 2 a (record start { pair = (pair.1, pair.0); rev = b }) no_tag
        else try_blocks 2 b (record start { pair = pair; rev = a }) no_tag

-- `lfs_dir_fetch`: a mask that no valid tag matches, and no callback.
unfoldable pub dir_fetch : {D : Type 0} → Config D → Mdir → Pair → M (Lfs D) Mdir
dir_fetch cfg dir pair = do
  f ← dir_fetchmatch cfg 0xffffffff 0xffffffff (λ tag disk. crash) dir pair
  elim f.tag [ got _ ↦ pure f.dir | failed e ↦ throw e ]

-- `lfs_dir_find_match`, the callback that compares a stored name with a name.
unfoldable pub dir_find_match : {D : Type 0} → Config D → List ℕ → ℕ → Diskoff → M (Lfs D) Cmp
dir_find_match cfg name tag disk = do
  let diff = lfs_min (length name) (tag_size tag)
  res ← on_bd (bd_cmp cfg none diff disk.block disk.off 0 (take diff name))
  elim res [
    | cmp_eq ↦
        if length name == tag_size tag
        then pure cmp_eq
        else pure (if ltb (length name) (tag_size tag) then cmp_lt else cmp_gt)
    | c ↦ pure c
  ]
