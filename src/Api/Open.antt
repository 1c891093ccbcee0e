-- ===== src/Api/Open.antt =====
-- `lfs_file_sync`, `lfs_file_close` and `lfs_file_opencfg`. The buffer of the cache and those of the
-- attributes are the caller's; no buffer is allocated.
use littlefs.Prelude.{
  ℕ, zero, suc, ◌+◌, not, ◌||◌, List, [], ◌∷◌, ◌++◌, ltb, ◌==◌, if◌then◌else◌, length, take, drop,
  bit_and, bit_or,
}
use littlefs.Util.{lfs_min}
use littlefs.Exec.{
  noent, exist, isdir, nospc, nametoolong, M, got, failed, pure, throw, no_fuel, attempt, get,
  modify, assert, ◌>>=◌, ◌>>◌,
}
use littlefs.Config.{Config, block_inline}
use littlefs.Bd.{cache_zero}
use littlefs.Tag.{mktag, tag_type3, tag_size, pair_isnull}
use littlefs.Tag.Kind
use littlefs.Disk.{ctz_tole32, ctz_fromle32}
use littlefs.Lfs.{
  Lfs, Attr, File, reg, f_dirty, f_erred, f_inline, f_opened, o_rdonly, o_wronly, o_creat, o_excl,
  o_trunc, has_flag, set_flag, clear_flag, remove_open,
}
use littlefs.Dir.Get.{dir_get}
use littlefs.Dir.Find.{Walk, dir_find}
use littlefs.Dir.Commit.{from_memory, from_attrs, from_null, Mattr}
use littlefs.Files.State.{file_at, change_file, or_erred}
use littlefs.Files.Relocate.{file_outline}
use littlefs.Files.Evict.{flush}
use littlefs.Meta.Ref.{at, with_local}
use littlefs.Meta.Calls.{calls, depth_max}
use littlefs.Repair.{no_dir, fs_forceconsistency}

module _ {D : Type 0} (cfg : Config D) where
  open cfg use {cache_size}

  -- `lfs_dir_commit` of the directory of an open file.
  unfoldable pub commit_at : ℕ → List Mattr → M (Lfs D) (Unit {0})
  commit_at here attrs = do
    let all = calls cfg (depth_max cfg)
    w ← with_local no_dir (all.commit_r (at here) attrs)
    pure tt

  -- "commit file data and attributes"
  unfoldable pub sync_attrs : File → List Mattr
  sync_attrs f =
      let ctz = f.ctz in
      let c = f.cache in
      (if has_flag f.flags f_inline
        then record {
          tag = mktag Kind.inlinestruct f.id ctz.size;
          buffer = from_memory (take ctz.size c.buffer);
        }
        else record { tag = mktag Kind.ctzstruct f.id 8; buffer = from_memory (ctz_tole32 ctz) })
      ∷ record {
        tag = mktag Kind.from_userattrs f.id (length f.attrs);
        buffer = from_attrs f.attrs;
      }
      ∷ []

  -- The loop of `lfs_file_sync`, on fuel: an inline file that does not fit is no longer inline in
  -- the second round.
  unfoldable pub sync_loop : ℕ → ℕ → M (Lfs D) (Unit {0})
  unfolding commit_at sync_attrs
  sync_loop zero here = no_fuel
  sync_loop (suc fuel) here = do
    or_erred here (flush cfg here)
    f ← file_at here
    let m = f.m
    if not (has_flag f.flags f_dirty) || (has_flag f.flags f_erred || pair_isnull m.pair)
        then pure tt
        else do
          r ← attempt (commit_at here (sync_attrs f))
          f' ← file_at here
          elim r [
            | got _ ↦ change_file here λ f. record f { flags = clear_flag f_dirty f.flags }
            | failed nospc ↦
                if not (has_flag f'.flags f_inline)
                then or_erred here (throw nospc)
                else do or_erred here (file_outline cfg here); sync_loop fuel here
            | failed e ↦ or_erred here (throw e)
          ]

  unfoldable pub file_sync : ℕ → M (Lfs D) (Unit {0})
  unfolding sync_loop
  file_sync here = do f ← file_at here; assert (has_flag f.flags f_opened); sync_loop 2 here

  unfoldable pub file_close : ℕ → M (Lfs D) (Unit {0})
  unfolding file_sync
  file_close here = do
    f ← file_at here
    assert (has_flag f.flags f_opened)
    r ← attempt (file_sync here)
    modify λ s. record s { mlist = remove_open here s.mlist }
    elim r [ got _ ↦ pure tt | failed e ↦ throw e ]

  -- "get next slot and create entry to remember name"
  unfoldable pub create_entry : ℕ → List ℕ → M (Lfs D) ℕ
  unfolding commit_at
  create_entry here name = do
    s ← get
    if ltb s.name_max (length name) then throw nametoolong else do
      f ← file_at here
      r ← attempt (
          commit_at here (
            record { tag = mktag Kind.create f.id 0; buffer = from_null }
            ∷ record { tag = mktag Kind.reg f.id (length name); buffer = from_memory name }
            ∷ record { tag = mktag Kind.inlinestruct f.id 0; buffer = from_null }
            ∷ []))
      elim r [ got _ ↦ pure (mktag Kind.inlinestruct 0 0) | failed e ↦ throw nametoolong ]

  -- The entry of the file: the tag of its structure.
  unfoldable pub load_entry : ℕ → ℕ → Walk → M (Lfs D) ℕ
  unfolding create_entry
  load_entry here flags w = elim w.tag [
    | failed e ↦ if not (has_flag flags o_creat) then throw noent else create_entry here w.path
    | got tag ↦
        if has_flag flags o_excl
        then throw exist
        else (if not (tag_type3 tag == Kind.reg) then throw isdir else (do
          f ← file_at here
          if has_flag flags o_trunc
              then (do
                change_file here λ f. record f { flags = set_flag f_dirty f.flags }
                pure (mktag Kind.inlinestruct f.id 0))
              else (do
                (tag', bytes) ← dir_get cfg f.m (mktag 0x700 0x3ff 0) (mktag Kind.struct f.id 8)
                change_file here λ f. record f { ctz = ctz_fromle32 bytes }
                pure tag')))
  ]

  -- "fetch attrs": those that are left, with what is read into their buffers.
  unfoldable pub fetch_attrs : ℕ → List Attr → M (Lfs D) (List Attr)
  fetch_attrs here [] = pure []
  fetch_attrs here (a ∷ rest) = do
    f ← file_at here
    let mode = bit_and f.flags 3
    a' ← if mode == o_wronly then pure a else do
      r ← attempt (
          dir_get cfg f.m (mktag 0x7ff 0x3ff 0)
            (mktag (Kind.userattr + a.type) f.id (length a.buffer)))
      elim r [
        | got (_, bytes) ↦ pure (record a { buffer = bytes })
        | failed noent ↦ pure a
        | failed e ↦ throw e
      ]
    if mode == o_rdonly then pure tt else do
      s ← get
      if ltb s.attr_max (length a.buffer)
          then throw nospc
          else change_file here λ f. record f { flags = set_flag f_dirty f.flags }
    rest' ← fetch_attrs here rest
    pure (a' ∷ rest')

  -- "load inline files"
  unfoldable pub load_inline : ℕ → ℕ → M (Lfs D) (Unit {0})
  load_inline here tag = if not (tag_type3 tag == Kind.inlinestruct) then pure tt else do
    change_file here λ f. record f {
      ctz = record { head = block_inline; size = tag_size tag };
      flags = set_flag f_inline f.flags;
      cache = record f.cache { block = block_inline; off = 0; size = cache_size };
    }
    if tag_size tag == 0 then pure tt else do
      f ← file_at here
      let n = lfs_min cache_size 0x3fe
      (_, bytes) ← dir_get cfg f.m (mktag 0x700 0x3ff 0) (mktag Kind.struct f.id n)
      change_file here λ f. record f {
        cache = (let c = f.cache in record c { buffer = bytes ++ drop (length bytes) c.buffer });
      }

  -- What follows once the file is in the list.
  unfoldable pub open_listed : ℕ → ℕ → Walk → M (Lfs D) (Unit {0})
  unfolding load_entry fetch_attrs load_inline
  open_listed here flags w = do
    tag ← load_entry here flags w
    f ← file_at here
    attrs ← fetch_attrs here f.attrs
    change_file here λ f. record f { attrs = attrs; cache = cache_zero cfg f.cache }
    load_inline here tag

  -- The file joins the list; "clean up lingering resources" on an error.
  unfoldable pub listed : ℕ → ℕ → File → Walk → M (Lfs D) (Unit {0})
  unfolding open_listed file_close
  listed here flags opened w = do
    modify λ s. record s { mlist = reg opened ∷ s.mlist }
    r ← attempt (open_listed here flags w)
    elim r [
      | got _ ↦ pure tt
      | failed e ↦ do
        change_file here λ f. record f { flags = set_flag f_erred f.flags }
        closed ← attempt (file_close here)
        throw e
    ]

  -- `file` is the caller's structure, with the buffers of its configuration.
  unfoldable pub file_opencfg : File → List ℕ → ℕ → M (Lfs D) (Unit {0})
  unfolding listed
  file_opencfg file path flags = do
    let here = file.here
    if bit_and flags 3 == o_rdonly then pure tt else fs_forceconsistency cfg
    w ← dir_find cfg file.m path
    let opened = record file {
      flags = bit_or flags f_opened;
      pos = 0;
      off = 0;
      m = w.dir;
      id = w.id;
    }
    -- A file that is not in the list yet has nothing to clean up.
    elim w.tag [
      | failed noent ↦ if w.id == 0x3ff then throw noent else listed here flags opened w
      | failed e ↦ throw e
      | got tag ↦ listed here flags opened w
    ]
