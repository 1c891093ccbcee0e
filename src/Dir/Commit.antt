-- ===== src/Dir/Commit.antt =====
-- "commit logic" of lfs.c: the tags of a commit are written xored with the tag before, then the
-- checksum, and the block is read back. `lfs_dir_alloc` takes the blocks of a new pair.
pub mod Padding
use littlefs.Prelude.{
  ℕ, zero, suc, ◌+◌, ◌-◌, ◌^◌, bit_and, bit_or, bit_xor, Bool, true, false, not, ◌&&◌, ◌||◌, none,
  List, [], ◌++◌, ltb, leb, ◌==◌, if◌then◌else◌, length, add32, sub32, ◌<<◌,
}
use littlefs.Util.{lfs_min, alignup, fromle32, frombe32, tole32, tobe32, crc}
use littlefs.Exec.{
  corrupt, nospc, M, got, failed, pure, throw, crash, no_fuel, attempt, in_bounds, ◌>>=◌, ◌>>◌,
}
use littlefs.Config.{Config, block_null}
use littlefs.Bd.{bd_read, bd_prog, bd_sync, mem_read}
use littlefs.Tag.{
  mktag, tag_isdelete, tag_type1, tag_splice, tag_id, tag_size, tag_dsize, pair_null,
}
use littlefs.Tag.Kind
use littlefs.Lfs.{Lfs, Mdir, Attr, on_bd}
use littlefs.Dir.Fetch.Tags.{Diskoff}
use littlefs.Fs.{alloc}

-- `struct lfs_commit`
pub record Commit : Type 0 where
  pub block : ℕ
  pub off : ℕ
  pub ptag : ℕ
  pub crc : ℕ
  pub begin : ℕ
  pub end : ℕ

-- What the buffer of an attribute points to. The valid bit of its tag says whether it is a place on
-- the disk, and the type of its tag whether it is a directory or a list of attributes.
pub data Source : Type 0 where
  from_memory : List ℕ → Source
  from_disk : Diskoff → Source
  from_dir : Mdir → Source
  from_attrs : List Attr → Source
  from_null : Source

-- `struct lfs_mattr`
pub record Mattr : Type 0 where
  pub tag : ℕ
  pub buffer : Source

-- `lfs_dir_traverse_filter`: the tag that is being filtered, and whether `tag` supersedes it.
unfoldable pub dir_traverse_filter : ℕ → ℕ → ℕ × Bool
dir_traverse_filter filtertag tag =
    let mask =
      if not (bit_and tag (mktag 0x100 0 0) == 0)
      then mktag 0x7ff 0x3ff 0
      else mktag 0x700 0x3ff 0 in
    let gone = bit_or (mktag Kind.delete 0 0) (bit_and (mktag 0 0x3ff 0) filtertag) in
    if (bit_and mask tag == bit_and mask filtertag)
      || (tag_isdelete filtertag || (bit_and (mktag 0x7ff 0x3ff 0) tag == gone))
    then (filtertag, true)
    else (if (tag_type1 tag == Kind.splice) && leb (tag_id tag) (tag_id filtertag)
        then (add32 filtertag (mktag 0 (tag_splice tag) 0), false)
        else (filtertag, false))

-- The end of the padding that one checksum tag covers, from `off` on.
unfoldable pub padding_end : ℕ → ℕ → ℕ
padding_end off end =
    let noff = add32 (lfs_min (sub32 end off) 0x3fe) off in
    if ltb noff end then lfs_min noff (sub32 end 8) else noff

module _ {D : Type 0} (cfg : Config D) where
  open cfg use {prog_size}

  unfoldable pub dir_commitprog : Commit → List ℕ → M (Lfs D) Commit
  dir_commitprog commit bytes = do
    on_bd (bd_prog cfg false commit.block commit.off bytes)
    pure (record commit { crc = crc commit.crc bytes; off = add32 commit.off (length bytes) })

  -- The loop of `lfs_dir_commitattr` that copies `left` bytes from the disk.
  unfoldable pub copy_from_disk : Commit → Diskoff → ℕ → ℕ → M (Lfs D) Commit
  copy_from_disk commit disk zero i = pure commit
  copy_from_disk commit disk (suc left) i = do
    dat ← on_bd (bd_read cfg none (suc left) disk.block (add32 disk.off i) 1)
    commit' ← dir_commitprog commit dat
    copy_from_disk commit' disk left (i + 1)

  unfoldable pub commit_data : Commit → ℕ → Source → M (Lfs D) Commit
  commit_data commit size (from_memory bytes) = do
    part ← in_bounds (mem_read bytes 0 size)
    dir_commitprog commit part
  commit_data commit size (from_disk disk) = copy_from_disk commit disk size 0
  commit_data commit size other = if size == 0 then dir_commitprog commit [] else crash

  unfoldable pub dir_commitattr : Commit → ℕ → Source → M (Lfs D) Commit
  dir_commitattr commit tag source = do
    let dsize = tag_dsize tag
    if ltb commit.end (add32 commit.off dsize) then throw nospc else do
      commit' ← dir_commitprog commit (tobe32 (bit_xor (bit_and tag 0x7fffffff) commit.ptag))
      commit'' ← commit_data commit' (sub32 dsize 4) source
      pure (record commit'' { ptag = bit_and tag 0x7fffffff })

  -- "build crc tag", "write out crc": one round of the loop that fills the rest of the commit.
  unfoldable pub commit_footer : Commit → ℕ → M (Lfs D) Commit
  commit_footer commit end = do
    let off = add32 commit.off 4
    let noff = padding_end off end
    next ← attempt (on_bd (bd_read cfg none 4 commit.block noff 4))
    word ← elim next [
      | got bytes ↦ pure (frombe32 bytes)
      | failed corrupt ↦ pure block_null
      | failed e ↦ throw e
    ]
    let reset = if ltb word (2 ^ 31) then 1 else 0
    let tag = mktag (Kind.crc + reset) 0x3ff (sub32 noff off)
    let head = tobe32 (bit_xor tag commit.ptag)
    on_bd (bd_prog cfg false commit.block commit.off (head ++ tole32 (crc commit.crc head)))
    pure (record commit {
      off = add32 commit.off (4 + tag_size tag);
      ptag = bit_xor tag (reset << 31);
      crc = block_null;
    })

  unfoldable pub footer_loop : ℕ → Commit → ℕ → M (Lfs D) Commit
  footer_loop zero commit end = no_fuel
  footer_loop (suc fuel) commit end =
      if ltb commit.off end
      then (do commit' ← commit_footer commit end; footer_loop fuel commit' end)
      else pure commit

  -- The checksum of `left` bytes of a block from `i` on, read one by one.
  unfoldable pub crc_of_block : ℕ → ℕ → ℕ → ℕ → M (Lfs D) ℕ
  crc_of_block block c zero i = pure c
  crc_of_block block c (suc left) i = do
    dat ← on_bd (bd_read cfg none (suc left) block i 1)
    crc_of_block block (crc c dat) left (add32 i 1)

  -- "check checksums to make sure", on fuel.
  unfoldable pub verify_loop : ℕ → ℕ → ℕ → ℕ → ℕ → M (Lfs D) (Unit {0})
  verify_loop zero block off noff end = no_fuel
  verify_loop (suc fuel) block off noff end =
      if ltb off end
      then (do
        c ← crc_of_block block block_null (noff + 4 - off) off
        if not (c == 0)
            then throw corrupt
            else (let off' = padding_end noff end in
                verify_loop fuel block off' (add32 off' 4) end))
      else pure tt

  unfoldable pub dir_commitcrc : Commit → M (Lfs D) Commit
  dir_commitcrc commit = do
    let off1 = add32 commit.off 4
    let end = alignup (add32 off1 4) prog_size
    commit' ← footer_loop (suc end) commit end
    on_bd (bd_sync cfg false)
    verify_loop (suc end) commit.block commit.begin off1 end
    pure commit'

  -- `lfs_dir_alloc`; `old_rev` is what the structure of the caller held.
  unfoldable pub dir_alloc : ℕ → M (Lfs D) Mdir
  dir_alloc old_rev = do
    second ← alloc cfg
    first ← alloc cfg
    bytes ← attempt (on_bd (bd_read cfg none 4 first 0 4))
    rev ← elim bytes [
      | got b ↦ pure (fromle32 b)
      | failed corrupt ↦ pure old_rev
      | failed e ↦ throw e
    ]
    pure (record {
      pair = (first, second);
      rev = add32 rev (bit_and rev 1);
      off = 4;
      etag = block_null;
      count = 0;
      erased = false;
      split = false;
      tail = pair_null;
    })
