-- ===== src/Api/Dirs.antt =====
-- "Top level directory operations" of lfs.c. An open directory is the structure at its address in
-- the list of open ones. A failed fetch leaves it as it was, where in C the fetch has overwritten
-- fields of it.
use littlefs.Prelude.{
  ℕ, zero, suc, ◌+◌, ◌-◌, ◌*◌, ◌^◌, not, ◌&&◌, Option, none, some, List, [], ◌∷◌, ltb, ◌==◌,
  if◌then◌else◌, length, u16, add32, sub32,
}
use littlefs.Util.{lfs_min}
use littlefs.Exec.{
  noent, exist, notdir, inval, nametoolong, M, got, failed, pure, throw, crash, no_fuel, attempt,
  get, modify, ◌>>=◌, ◌>>◌,
}
use littlefs.Config.{Config}
use littlefs.Tag.{Pair, mktag, tag_type3, tag_id, pair_overlap}
use littlefs.Tag.Kind
use littlefs.Disk.{pair_fromle32, pair_tole32}
use littlefs.Lfs.{Lfs, Mdir, Dir, reg, dir, find_open, update_open, remove_open}
use littlefs.Alloc.{free_ack}
use littlefs.Fs.{pairs_max}
use littlefs.Dir.Get.{dir_get}
use littlefs.Dir.Fetch.{dir_fetch}
use littlefs.Dir.Find.{dir_find}
use littlefs.Dir.Info.{Info, dir_getinfo}
use littlefs.Dir.Commit.{from_memory, from_null, Mattr, dir_alloc}
use littlefs.Meta.Relocate.{one_attr, prep_orphans}
use littlefs.Meta.Calls.{commit_to}
use littlefs.Repair.{no_dir, fs_forceconsistency}

-- `memset(info, 0, sizeof(*info))`, and the two entries that no directory stores.
abbrev pub no_info : Info
no_info = record { type = 0; size = 0; name = [] }

unfoldable pub dots : List ℕ → Info
dots name = record { type = Kind.dir; size = 0; name = name }

module _ {D : Type 0} (cfg : Config D) where
  open cfg use {block_count}

  -- The pair that an entry stores, and that of a directory whose entry has this tag.
  unfoldable pub entry_pair : Mdir → ℕ → M (Lfs D) Pair
  entry_pair m id = do
    (_, bytes) ← dir_get cfg m (mktag 0x700 0x3ff 0) (mktag Kind.struct id 8)
    pure (pair_fromle32 bytes)

  unfoldable pub dir_pair : Mdir → ℕ → M (Lfs D) Pair
  unfolding entry_pair
  dir_pair m tag =
      if tag_id tag == 0x3ff then (do s ← get; pure s.root) else entry_pair m (tag_id tag)

  unfoldable pub dir_open : ℕ → List ℕ → M (Lfs D) (Unit {0})
  unfolding dir_pair
  dir_open here path = do
    w ← dir_find cfg no_dir path
    elim w.tag [
      | failed e ↦ throw e
      | got tag ↦ if not (tag_type3 tag == Kind.dir) then throw notdir else do
        pair ← dir_pair w.dir tag
        m ← dir_fetch cfg w.dir pair
        let opened : Dir = record { here = here; id = 0; m = m; pos = 0; head = m.pair }
        modify λ s. record s { mlist = dir opened ∷ s.mlist }
    ]

  unfoldable pub dir_close : ℕ → M (Lfs D) (Unit {0})
  dir_close here = modify λ s. record s { mlist = remove_open here s.mlist }

  -- The structure at an address, read and written.
  unfoldable pub dir_at : ℕ → M (Lfs D) Dir
  dir_at here = do
    s ← get
    elim (find_open here s.mlist) [ none ↦ crash | some (reg f) ↦ crash | some (dir d) ↦ pure d ]

  unfoldable pub set_at : Dir → M (Lfs D) (Unit {0})
  set_at d = modify λ s. record s { mlist = update_open d.here (λ o. dir d) s.mlist }

  -- The block that has the next entry; `none` after the last.
  unfoldable pub next_block : Dir → M (Lfs D) (Option Dir)
  next_block d =
      let m = d.m in
      if not (d.id == m.count)
      then pure (some d)
      else (if not m.split
          then pure none
          else do m' ← dir_fetch cfg m m.tail; pure (some (record d { m = m'; id = 0 })))

  -- The entry that the position is at: the directory with the position behind it, and what it is.
  unfoldable pub read_entry : ℕ → Dir → M (Lfs D) (Option Info)
  unfolding set_at next_block
  read_entry zero d = no_fuel
  read_entry (suc fuel) d = do
    d' ← next_block d
    elim d' [
      | none ↦ pure none
      | some d1 ↦ do
        set_at d1
        r ← attempt (dir_getinfo cfg d1.m d1.id no_info)
        let d2 = record d1 { id = u16 (d1.id + 1) }
        let rest = read_entry fuel d2
        elim r [
          | failed noent ↦ (do set_at d2; rest)
          | failed e ↦ throw e
          | got info ↦ do set_at (record d2 { pos = add32 d2.pos 1 }); pure (some info)
        ]
    ]

  -- `none` at the end (`false` in C).
  unfoldable pub dir_read : ℕ → M (Lfs D) (Option Info)
  unfolding dir_at set_at read_entry dots
  dir_read here = do
    d ← dir_at here
    if ltb d.pos 2
        then (do
          set_at (record d { pos = add32 d.pos 1 })
          pure (some (dots (if d.pos == 0 then b'.' ∷ 0 ∷ [] else b'.' ∷ b'.' ∷ 0 ∷ []))))
        else read_entry (pairs_max cfg * 2 ^ 16) d

  unfoldable pub dir_rewind : ℕ → M (Lfs D) (Unit {0})
  unfolding dir_at set_at
  dir_rewind here = do
    d ← dir_at here
    m ← dir_fetch cfg d.m d.head
    set_at (record d { m = m; id = 0; pos = 0 })

  -- The loop of `lfs_dir_seek`, on fuel: a round for each block of the directory.
  unfoldable pub seek_loop : ℕ → Dir → ℕ → M (Lfs D) (Unit {0})
  unfolding set_at
  seek_loop zero d off = no_fuel
  seek_loop (suc fuel) d off = if off == 0 then pure tt else do
    let m = d.m
    let diff = lfs_min (sub32 m.count d.id) off
    let d' = record d { id = u16 (d.id + diff); pos = add32 d.pos diff }
    set_at d'
    if not (d'.id == m.count)
        then seek_loop fuel d' (off - diff)
        else (if not m.split then throw inval else do
          m' ← dir_fetch cfg m m.tail
          let d'' = record d' { m = m'; id = 0 }
          set_at d''
          seek_loop fuel d'' (off - diff))

  unfoldable pub dir_seek : ℕ → ℕ → M (Lfs D) (Unit {0})
  unfolding dir_rewind seek_loop
  dir_seek here off = do
    dir_rewind here
    d ← dir_at here
    s ← get
    let pos = lfs_min 2 off
    let id = if ltb 0 (off - pos) && pair_overlap d.head s.root then 1 else 0
    let d' = record d { pos = pos; id = id }
    set_at d'
    seek_loop (suc (pairs_max cfg)) d' (off - pos)

  unfoldable pub dir_tell : ℕ → M (Lfs D) ℕ
  unfolding dir_at
  dir_tell here = do d ← dir_at here; pure d.pos

  -- "find end of list"
  unfoldable pub last_block : ℕ → Mdir → M (Lfs D) Mdir
  last_block zero m = no_fuel
  last_block (suc fuel) m =
      if not m.split then pure m else do m' ← dir_fetch cfg m m.tail; last_block fuel m'

  -- What `lfs_mkdir` writes to the parent.
  unfoldable pub mkdir_attrs : Mdir → ℕ → List ℕ → Pair → List Mattr
  mkdir_attrs cwd id name pair =
      record { tag = mktag Kind.create id 0; buffer = from_null }
      ∷ record { tag = mktag Kind.dir id (length name); buffer = from_memory name }
      ∷ record { tag = mktag Kind.dirstruct id 8; buffer = from_memory (pair_tole32 pair) }
      ∷ record {
        tag = if not cwd.split then mktag Kind.softtail 0x3ff 8 else mktag Kind.from_noop 0 0;
        buffer = from_memory (pair_tole32 pair);
      }
      ∷ []

  unfoldable pub mkdir : List ℕ → M (Lfs D) (Unit {0})
  unfolding last_block mkdir_attrs
  mkdir path = do
    fs_forceconsistency cfg
    w ← dir_find cfg no_dir path
    elim w.tag [
      | got tag ↦ throw exist
      | failed noent ↦ if w.id == 0x3ff then throw noent else do
        s ← get
        if ltb s.name_max (length w.path) then throw nametoolong else do
          modify λ s. record s { free = free_ack block_count s.free }
          fresh ← dir_alloc cfg 0
          let cwd = w.dir
          pred ← last_block (suc (pairs_max cfg)) cwd
          made ←
              commit_to cfg fresh (one_attr (mktag Kind.softtail 0x3ff 8) (pair_tole32 pred.tail))
          if not cwd.split then pure tt else do
            prep_orphans 1
            pred' ←
                commit_to cfg pred (one_attr (mktag Kind.softtail 0x3ff 8) (pair_tole32 made.pair))
            prep_orphans (2 ^ 32 - 1)
          cwd' ← commit_to cfg cwd (mkdir_attrs cwd w.id w.path made.pair)
          pure tt
      | failed e ↦ throw e
    ]
