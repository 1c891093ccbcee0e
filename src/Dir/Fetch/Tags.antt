-- ===== src/Dir/Fetch/Tags.antt =====
-- The local variables of `lfs_dir_fetchmatch`, and what each kind of tag does to them.
use littlefs.Prelude.{
  ℕ, ◌+◌, bit_and, bit_or, Bool, false, not, ◌&&◌, ltb, leb, ◌==◌, if◌then◌else◌, u16, add32, sub32,
}
use littlefs.Util.{lfs_min, tole32, crc}
use littlefs.Exec.{noent, Try, got, failed}
use littlefs.Config.{block_null}
use littlefs.Bd.{Cmp, cmp_eq, cmp_gt}
use littlefs.Tag.{mktag, tag_isvalid, tag_splice, tag_id, tag_dsize, Pair, pair_null}
use littlefs.Tag.Kind
use littlefs.Gstate.{gstate_hasmovehere}
use littlefs.Lfs.{Lfs, Mdir}

-- `struct lfs_diskoff`
pub record Diskoff : Type 0 where
  pub block : ℕ
  pub off : ℕ

-- The local variables of the scan, with the directory that it fills in.
pub record Scan : Type 0 where
  pub dir : Mdir
  pub besttag : ℕ
  pub off : ℕ
  pub ptag : ℕ
  pub crc : ℕ
  pub tempcount : ℕ
  pub temptail : Pair
  pub tempsplit : Bool
  pub tempbesttag : ℕ

-- Where the loop over the tags goes on, and where it breaks off.
pub data Next : Type 0 where
  more : Scan → Next
  stop : Scan → Next

unfoldable pub no_tag : ℕ
no_tag = 0xffffffff

-- A tag with the valid bit set stands for a place where the name would be.
unfoldable pub invalid : ℕ → ℕ
invalid tag = bit_or tag 0x80000000

-- The start of the scan of one block.
unfoldable pub scan_start : Mdir → ℕ → Scan
unfolding no_tag
scan_start dir besttag = record {
  dir = dir;
  besttag = besttag;
  off = 0;
  ptag = block_null;
  crc = crc block_null (tole32 dir.rev);
  tempcount = 0;
  temptail = pair_null;
  tempsplit = false;
  tempbesttag = besttag;
}

unfoldable pub not_erased : Scan → Scan
not_erased v = record v { dir = record v.dir { erased = false } }

-- A commit ends in a good checksum: what the scan has found becomes the directory.
unfoldable pub scan_commit : Scan → ℕ → ℕ → Scan
scan_commit v tag etag = record v {
  besttag = v.tempbesttag;
  ptag = etag;
  crc = block_null;
  dir = record v.dir {
    off = add32 v.off (tag_dsize tag);
    etag = etag;
    count = v.tempcount;
    tail = v.temptail;
    split = v.tempsplit;
  };
}

-- The branch of a splice tag: the count changes, and the best tag moves or goes.
unfoldable pub scan_splice : Scan → ℕ → Scan
unfolding no_tag invalid
scan_splice v tag =
    let count = u16 (v.tempcount + tag_splice tag) in
    let best = v.tempbesttag in
    record v {
      tempcount = count;
      tempbesttag =
          if tag == bit_or (mktag Kind.delete 0 0) (bit_and (mktag 0 0x3ff 0) best)
          then invalid best
          else (if not (best == no_tag) && leb (tag_id tag) (tag_id best)
              then add32 best (mktag 0 (tag_splice tag) 0)
              else best);
    }

unfoldable pub scan_name : Scan → ℕ → Scan
scan_name v tag =
    if leb v.tempcount (tag_id tag) then record v { tempcount = u16 (tag_id tag + 1) } else v

-- What a match of the callback does to the best tag.
unfoldable pub scan_match : Scan → ℕ → Cmp → Scan
unfolding no_tag
scan_match v tag cmp_eq = record v { tempbesttag = tag }
scan_match v tag res =
    if bit_and (mktag 0x7ff 0x3ff 0) tag == bit_and (mktag 0x7ff 0x3ff 0) v.tempbesttag
    then record v { tempbesttag = no_tag }
    else scan_greater res
  where
    scan_greater : Cmp → Scan
    scan_greater cmp_gt =
        if leb (tag_id tag) (tag_id v.tempbesttag)
        then record v { tempbesttag = bit_or tag 0x80000000 }
        else v
    scan_greater other = v

-- "synthetic move": an entry that is being moved away counts as gone.
unfoldable pub best_after_move : {D : Type 0} → Lfs D → Mdir → ℕ → ℕ
unfolding no_tag invalid
best_after_move s dir best =
    if gstate_hasmovehere s.gstate dir.pair
    then (if tag_id s.gstate.tag == tag_id best
        then invalid best
        else (if not (best == no_tag) && ltb (tag_id s.gstate.tag) (tag_id best)
            then sub32 best (mktag 0 1 0)
            else best))
    else best

-- What the function returns beside the directory: the tag found (0 if the search goes on in the
-- tail), and through `id` the place of the name.
pub record Found : Type 0 where
  pub dir : Mdir
  pub tag : Try ℕ
  pub id : ℕ

unfoldable pub found : Mdir → ℕ → Found
found dir best = record {
  dir = dir;
  tag =
      if tag_isvalid best
      then got best
      else (if ltb (tag_id best) dir.count then failed noent else got 0);
  id = lfs_min (tag_id best) dir.count;
}
