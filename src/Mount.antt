-- ===== src/Mount.antt =====
-- "Filesystem operations" of lfs.c: the set-up of the structure, `lfs_format` and `lfs_mount`. The
-- three buffers are those of the configuration, which the structure has.
pub mod Limits
use littlefs.Prelude.{
  ℕ, zero, suc, ◌+◌, ◌-◌, ◌*◌, ◌/◌, ◌%◌, bit_and, Bool, true, false, not, ◌&&◌, ◌||◌, Option, none,
  some, List, [], ◌∷◌, ltb, leb, ◌==◌, ◌>>>◌, if◌then◌else◌, replicate, length, add32, sub32,
}
use littlefs.Util.{lfs_min, npw2}
use littlefs.Exec.{
  Error, inval, Res, M, Try, got, failed, pure, throw, no_fuel, get, modify, assert, ◌>>=◌, ◌>>◌,
}
use littlefs.Config.{Config, Bd, block_null}
use littlefs.Bd.{cache_zero}
use littlefs.Tag.{Pair, mktag, tag_isvalid, tag_isdelete, pair_null, pair_isnull}
use littlefs.Tag.Kind
use littlefs.Gstate.{Gstate, Globals, gstate_zero}
use littlefs.Disk.{Superblock, superblock_tole32, superblock_fromle32}
use littlefs.Lfs.{Lfs, Mdir, Free}
use littlefs.Alloc.{free_ack}
use littlefs.Fs.{first_dir, pairs_max}
use littlefs.Dir.Get.{dir_get, dir_getgstate}
use littlefs.Dir.Fetch.{dir_fetch, dir_fetchmatch, dir_find_match}
use littlefs.Dir.Fetch.Tags.{Found}
use littlefs.Dir.Commit.{Source, from_memory, from_null, Mattr, dir_alloc}
use littlefs.Meta.Calls.{commit_to}

-- LFS_DISK_VERSION and its two halves.
abbrev pub disk_version : ℕ
disk_version = 0x00020000

abbrev pub version_major : ℕ
version_major = bit_and 0xffff (disk_version >>> 16)

abbrev pub version_minor : ℕ
version_minor = bit_and 0xffff disk_version

-- LFS_NAME_MAX, LFS_FILE_MAX and LFS_ATTR_MAX.
abbrev pub name_max_default : ℕ
name_max_default = 255

abbrev pub file_max_default : ℕ
file_max_default = 2147483647

abbrev pub attr_max_default : ℕ
attr_max_default = 1022

-- "littlefs"
abbrev pub magic : List ℕ
magic = b'l' ∷ b'i' ∷ b't' ∷ b't' ∷ b'l' ∷ b'e' ∷ b'f' ∷ b's' ∷ []

-- A limit of the configuration: zero is the default.
unfoldable pub or_default : ℕ → ℕ → ℕ
or_default top n = if n == 0 then top else n

-- "check superblock configuration": the limit that is used; `none` if the disk's is too large.
unfoldable pub stored_limit : ℕ → ℕ → Option ℕ
stored_limit stored limit =
    if stored == 0 then some limit else (if ltb limit stored then none else some stored)

-- "check version"
unfoldable pub is_version : ℕ → Bool
is_version version =
    bit_and 0xffff (version >>> 16) == version_major && leb (bit_and 0xffff version) version_minor

-- The limits that are used, if the disk's are accepted.
unfoldable pub take_limits : {D : Type 0} → Lfs D → Option ℕ → Option ℕ → Option ℕ → Option (Lfs D)
take_limits s (some n) (some f) (some a) =
    some (record s { name_max = n; file_max = f; attr_max = a })
take_limits s n f a = none

-- What a superblock does to the limits; `none` if it is refused.
unfoldable pub take_superblock : {D : Type 0} → Superblock → Lfs D → Option (Lfs D)
unfolding is_version stored_limit take_limits
take_superblock sb s =
    if not (is_version sb.version)
    then none
    else take_limits s (stored_limit sb.name_max s.name_max) (stored_limit sb.file_max s.file_max)
        (stored_limit sb.attr_max s.attr_max)

module _ {D : Type 0} (cfg : Config D) where
  open cfg use {
    read_size, prog_size, cache_size, block_size, block_count, lookahead_size, block_cycles,
    cfg_name_max, cfg_file_max, cfg_attr_max,
  }

  -- The assertions of `lfs_init`.
  unfoldable pub is_config : Bool
  is_config =
      not (read_size == 0)
      && (not (prog_size == 0)
          && (not (cache_size == 0)
              && (cache_size % read_size == 0
                  && (cache_size % prog_size == 0
                      && (block_size % cache_size == 0
                          && (leb (4 * npw2 (block_null / sub32 block_size 8)) block_size
                              && (not (block_cycles == 0)
                                  && (ltb 0 lookahead_size
                                      && (lookahead_size % 8 == 0
                                          && (leb cfg_name_max name_max_default
                                              && (leb cfg_file_max file_max_default
                                                  && leb cfg_attr_max attr_max_default)))))))))))

  -- The structure that `lfs_init` leaves.
  unfoldable pub fresh : Lfs D → Lfs D
  unfolding or_default
  fresh s = record s {
    bd =
        (let b = s.bd in
          record b { rcache = cache_zero cfg b.rcache; pcache = cache_zero cfg b.pcache });
    root = pair_null;
    mlist = [];
    seed = 0;
    gstate = gstate_zero;
    globals = record { gpending = gstate_zero; gdelta = gstate_zero };
    name_max = or_default name_max_default cfg_name_max;
    file_max = or_default file_max_default cfg_file_max;
    attr_max = or_default attr_max_default cfg_attr_max;
    lfs1 = none;
  }

  unfoldable pub init : M (Lfs D) (Unit {0})
  unfolding is_config fresh
  init = do assert is_config; modify fresh

  -- "create free lookahead", all blocks free.
  unfoldable pub whole_lookahead : Lfs D → Lfs D
  whole_lookahead s = record s {
    free = free_ack block_count (record {
      off = 0;
      size = lfs_min (8 * lookahead_size) block_count;
      i = 0;
      ack = 0;
      buffer = replicate (lookahead_size / 4) 0;
    });
  }

  -- "write one superblock"
  unfoldable pub format_superblock : Lfs D → Superblock
  format_superblock s = record {
    version = disk_version;
    block_size = block_size;
    block_count = block_count;
    name_max = s.name_max;
    file_max = s.file_max;
    attr_max = s.attr_max;
  }

  unfoldable pub format_attrs : Lfs D → List Mattr
  unfolding format_superblock
  format_attrs s =
      record { tag = mktag Kind.create 0 0; buffer = from_null }
      ∷ record { tag = mktag Kind.superblock 0 8; buffer = from_memory magic }
      ∷ record {
        tag = mktag Kind.inlinestruct 0 24;
        buffer = from_memory (superblock_tole32 (format_superblock s));
      }
      ∷ []

  unfoldable pub format : M (Lfs D) (Unit {0})
  unfolding init whole_lookahead format_attrs
  format = do
    init
    modify whole_lookahead
    root ← dir_alloc cfg 0
    s ← get
    root' ← commit_to cfg root (format_attrs s)
    m ← dir_fetch cfg root' (0, 1)
    m' ← commit_to cfg (record m { erased = false }) []
    pure tt

  -- "has superblock?": the root and the limits.
  unfoldable pub has_superblock : Mdir → M (Lfs D) (Unit {0})
  unfolding take_superblock
  has_superblock m = do
    modify λ s. record s { root = m.pair }
    (_, bytes) ← dir_get cfg m (mktag 0x7ff 0x3ff 0) (mktag Kind.inlinestruct 0 24)
    s ← get
    elim (take_superblock (superblock_fromle32 bytes) s) [
      | none ↦ throw inval
      | some s' ↦ modify λ _. s'
    ]

  -- "scan directory blocks for superblock and any global updates", on fuel.
  unfoldable pub scan_loop : ℕ → Mdir → M (Lfs D) (Unit {0})
  scan_loop zero m = no_fuel
  scan_loop (suc fuel) m = if pair_isnull m.tail then pure tt else do
    f ←
        dir_fetchmatch cfg (mktag 0x7ff 0x3ff 0) (mktag Kind.superblock 0 8)
          (dir_find_match cfg magic) m m.tail
    elim f.tag [
      | failed e ↦ throw e
      | got tag ↦ do
        if not (tag == 0) && not (tag_isdelete tag) then has_superblock f.dir else pure tt
        s ← get
        g ← dir_getgstate cfg f.dir (let g = s.globals in g.gpending)
        modify λ s. record s { globals = (let g' = s.globals in record g' { gpending = g }) }
        scan_loop fuel f.dir
    ]

  -- "update littlefs with gstate" and "setup free lookahead".
  unfoldable pub mounted : Lfs D → Lfs D
  mounted s =
      let g = s.globals in
      let p = g.gpending in
      let p' = record p { tag = add32 p.tag (if tag_isvalid p.tag then 0 else 1) } in
      record s {
        globals = record g { gpending = p' };
        gstate = p';
        free =
            (let f = s.free in
              free_ack block_count (record f { off = s.seed % block_size; size = 0; i = 0 }));
      }

  unfoldable pub mount : M (Lfs D) (Unit {0})
  unfolding init scan_loop mounted
  mount = do
    init
    scan_loop (pairs_max cfg) first_dir
    s ← get
    if pair_isnull s.root then throw inval else modify mounted
