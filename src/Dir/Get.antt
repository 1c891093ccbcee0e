-- ===== src/Dir/Get.antt =====
-- `lfs_dir_getslice`, `lfs_dir_get`, `lfs_dir_getread` and `lfs_dir_getgstate`: a
-- tag is looked up from the end of the log back, past the splices that moved its id.
use littlefs.Prelude.{
  ℕ, zero, suc, ◌+◌, ◌-◌, ◌^◌, ◌*◌, bit_and, bit_or, bit_xor, not, ◌&&◌, Option, none, List, [],
  ◌++◌, ltb, leb, ◌==◌, if◌then◌else◌, replicate, drop, add32, sub32,
}
use littlefs.Util.{lfs_min, aligndown, alignup, frombe32}
use littlefs.Exec.{
  noent, corrupt, other, M, got, failed, pure, throw, no_fuel, attempt, in_bounds, get, put, modify,
  zoom, ◌>>=◌, ◌>>◌,
}
use littlefs.Config.{Config, Cache, block_inline}
use littlefs.Bd.{bd_read, mem_read, consult, consult_const, buffer_of, offset_of, served, missed}
use littlefs.Tag.{mktag, tag_isdelete, tag_type1, tag_splice, tag_id, tag_size, tag_dsize}
use littlefs.Tag.Kind
use littlefs.Gstate.{Gstate, gstate_hasmovehere, gstate_xor}
use littlefs.Disk.{gstate_fromle32}
use littlefs.Lfs.{Lfs, Mdir, on_bd}

-- An `lfs_stag_t` with the sign bit set is an error to whoever looks at it.
unfoldable pub signed_tag : {S : Type 0} → ℕ → M S ℕ
signed_tag tag = if ltb tag (2 ^ 31) then pure tag else throw (other (2 ^ 32 - tag))

module _ {D : Type 0} (cfg : Config D) where
  open cfg use {block_size, read_size, cache_size}

  -- The tag asked for has been found at `off`: its data, padded with zeros.
  unfoldable pub slice_found : Mdir → ℕ → ℕ → ℕ → ℕ → ℕ → M (Lfs D) (ℕ × List ℕ)
  slice_found dir off tag gdiff goff gsize = if tag_isdelete tag then throw noent else do
    let diff = lfs_min (tag_size tag) gsize
    bytes ← on_bd (bd_read cfg none diff dir.pair.0 (add32 (add32 off 4) goff) diff)
    tag' ← signed_tag (add32 tag gdiff)
    pure (tag', bytes ++ replicate (gsize - diff) 0)

  -- The loop of `lfs_dir_getslice` over the log, backwards, on fuel.
  unfoldable pub slice_loop : Mdir → ℕ → ℕ → ℕ → ℕ → ℕ → ℕ → ℕ → ℕ → M (Lfs D) (ℕ × List ℕ)
  slice_loop dir gmask gtag goff gsize zero off ntag gdiff = no_fuel
  slice_loop dir gmask gtag goff gsize (suc fuel) off ntag gdiff =
      if ltb off (add32 4 (tag_dsize ntag)) then throw noent else do
        let off' = sub32 off (tag_dsize ntag)
        let tag = ntag
        bytes ← on_bd (bd_read cfg none 4 dir.pair.0 off' 4)
        let ntag' = bit_and (bit_xor (frombe32 bytes) tag) 0x7fffffff
        let want = sub32 gtag gdiff
        let moves =
            not (tag_id gmask == 0)
            && ((tag_type1 tag == Kind.splice) && leb (tag_id tag) (tag_id want))
        if moves && (tag == bit_or (mktag Kind.create 0 0) (bit_and (mktag 0 0x3ff 0) want))
            then throw noent
            else do
              let gdiff' = if moves then add32 gdiff (mktag 0 (tag_splice tag) 0) else gdiff
              if bit_and gmask tag == bit_and gmask (sub32 gtag gdiff')
                  then slice_found dir off' tag gdiff' goff gsize
                  else slice_loop dir gmask gtag goff gsize fuel off' ntag' gdiff'

  unfoldable pub dir_getslice : Mdir → ℕ → ℕ → ℕ → ℕ → M (Lfs D) (ℕ × List ℕ)
  dir_getslice dir gmask gtag goff gsize = do
    s ← get
    let synthetic = gstate_hasmovehere s.gstate dir.pair && leb (tag_id gtag) (tag_id s.gstate.tag)
    let gdiff = if synthetic then sub32 0 (mktag 0 1 0) else 0
    slice_loop dir gmask gtag goff gsize (suc dir.off) dir.off dir.etag gdiff

  unfoldable pub dir_get : Mdir → ℕ → ℕ → M (Lfs D) (ℕ × List ℕ)
  dir_get dir gmask gtag = dir_getslice dir gmask gtag 0 (tag_size gtag)

  -- The loop of `lfs_dir_getread` over an inline file; `rcache` is the cache of the file.
  unfoldable pub getread_loop :
      Mdir → Option Cache → ℕ → ℕ → ℕ → ℕ → ℕ → ℕ → M (Cache × Lfs D) (List ℕ)
  getread_loop dir pcache hint gmask gtag zero o size = no_fuel
  getread_loop dir pcache hint gmask gtag (suc fuel) o size =
      if size == 0 then pure [] else elim (consult_const pcache block_inline o size) [
        | served diff ↦ do
          part ← in_bounds (mem_read (buffer_of pcache) (sub32 o (offset_of pcache)) diff)
          rest ← getread_loop dir pcache hint gmask gtag fuel (add32 o diff) (size - diff)
          pure (part ++ rest)
        | missed limit ↦ do
          (rcache, lfs) ← get
          elim (consult rcache block_inline o limit) [
            | served diff ↦ do
              part ← in_bounds (mem_read rcache.buffer (sub32 o rcache.off) diff)
              rest ← getread_loop dir pcache hint gmask gtag fuel (add32 o diff) (size - diff)
              pure (part ++ rest)
            | missed _ ↦ do
              let start = aligndown o read_size
              let len = lfs_min (alignup (add32 o hint) read_size) cache_size
              put (record rcache { block = block_inline; off = start; size = len }, lfs)
              (_, bytes) ← zoom (λ s. s.1) (λ s l. (s.0, l)) (dir_getslice dir gmask gtag start len)
              modify λ s. (record s.0 { buffer = bytes ++ drop len s.0.buffer }, s.1)
              getread_loop dir pcache hint gmask gtag fuel o size
          ]
      ]

  unfoldable pub dir_getread : Mdir → Option Cache → ℕ → ℕ → ℕ → ℕ → ℕ → M (Cache × Lfs D) (List ℕ)
  dir_getread dir pcache hint gmask gtag o size =
      if ltb block_size (add32 o size)
      then throw corrupt
      else getread_loop dir pcache hint gmask gtag (2 * size + 1) o size

  -- The global state that the directory has stored, xored into `g`.
  unfoldable pub dir_getgstate : Mdir → Gstate → M (Lfs D) Gstate
  dir_getgstate dir g = do
    res ← attempt (dir_get dir (mktag 0x7ff 0 0) (mktag Kind.movestate 0 12))
    elim res [
      | got (_, bytes) ↦ pure (gstate_xor g (gstate_fromle32 bytes))
      | failed noent ↦ pure g
      | failed e ↦ throw e
    ]
