-- ===== src/Migrate/Copy.antt =====
-- `lfs_migrate`: each directory of version 1 is copied to a new directory of version 2, which then
-- takes its place, and a superblock of version 2 is written last. `dir1` is the second part of the
-- state, and `dir2` is passed on. A walk over metadata pairs has the fuel of Fs.antt.
use littlefs.Prelude.{
  ℕ, zero, suc, ◌+◌, ◌*◌, bit_and, true, false, not, none, some, List, [], ◌∷◌, ◌==◌, if◌then◌else◌,
  add32, drop,
}
use littlefs.Exec.{
  noent, exist, got, failed, M, pure, throw, crash, no_fuel, attempt, get, modify, ◌>>=◌, ◌>>◌,
}
use littlefs.Config.{Config, block_null}
use littlefs.Bd.{bd_read, bd_prog, bd_flush, bd_erase}
use littlefs.Tag.{Pair, mktag, pair_isnull}
use littlefs.Tag.Kind
use littlefs.Disk.{pair_tole32}
use littlefs.Lfs.{Lfs, Mdir, on_bd}
use littlefs.Fs.{pairs_max}
use littlefs.Dir.Fetch.{dir_fetch}
use littlefs.Dir.Find.{dir_find}
use littlefs.Dir.Commit.{from_memory, from_null, Mattr, dir_alloc}
use littlefs.Meta.Calls.{commit_to}
use littlefs.Mount.{format_attrs}
use littlefs.Migrate.Disk1.{entry1_tole32, type1_dir, DiskEntry1, Entry1, Dir1}
use littlefs.Migrate.Fetch.{in_lfs1, bd1_read, dir1_fetch, dir1_next}
use littlefs.Migrate.Traverse.{new_dir1, with_dir1}
use littlefs.Migrate.Walk.{moved, mount1}

-- The bytes of a buffer that are a C string.
unfoldable pub c_string : List ℕ → List ℕ
c_string [] = []
c_string (x ∷ xs) = if x == 0 then [] else x ∷ c_string xs

-- "create entry in new dir": the name and the union are stored as they are.
unfoldable pub entry1_attrs : ℕ → List ℕ → DiskEntry1 → List Mattr
entry1_attrs id name d =
    let isdir = d.type == type1_dir in
    record { tag = mktag Kind.create id 0; buffer = from_null }
    ∷ record {
      tag = mktag (if isdir then Kind.dir else Kind.reg) id d.nlen;
      buffer = from_memory name;
    }
    ∷ record {
      tag = mktag (if isdir then Kind.dirstruct else Kind.ctzstruct) id 8;
      buffer = from_memory (drop 4 (entry1_tole32 d));
    }
    ∷ []

module _ {D : Type 0} (cfg : Config D) where
  open cfg use {block_size}

  -- `lfs->lfs1->root`, which a mount has set.
  unfoldable pub get_root1 : M (Lfs D) Pair
  get_root1 = do s ← get; elim s.lfs1 [ none ↦ crash | some root1 ↦ pure root1 ]

  -- An entry that is not passed over goes into the directory that is the root for now.
  unfoldable pub copy_entry : Dir1 → Entry1 → Mdir → M (Lfs D) Mdir
  unfolding c_string entry1_attrs
  copy_entry dir1 entry1 dir2 = do
    let d = entry1.d
    name ← bd1_read cfg dir1.pair.0 (add32 entry1.off (4 + d.elen + d.alen)) d.nlen
    s ← get
    here ← dir_fetch cfg dir2 s.root
    w ← dir_find cfg here (c_string name)
    elim w.tag [
      | got tag ↦ throw exist
      | failed noent ↦
          if w.id == 0x3ff then throw noent else commit_to cfg w.dir (entry1_attrs w.id name d)
      | failed e ↦ throw e
    ]

  -- "check that entry has not been moved"
  unfoldable pub migrate_entry : Dir1 → Entry1 → Mdir → M (Lfs D) Mdir
  unfolding copy_entry get_root1
  migrate_entry dir1 entry1 dir2 =
      let d = entry1.d in
      if bit_and d.type 0x80 == 0 then copy_entry dir1 entry1 dir2 else (do
        root1 ← get_root1
        hit ← moved cfg root1 d.u
        if hit
            then pure dir2
            else copy_entry dir1 (record entry1 { d = record d { type = bit_and d.type 0x7f } })
                dir2)

  -- The entries of a directory, on fuel, which bounds the bytes of its pairs.
  unfoldable pub migrate_entries : ℕ → Mdir → M (Lfs D × Dir1) Mdir
  unfolding migrate_entry
  migrate_entries zero dir2 = no_fuel
  migrate_entries (suc fuel) dir2 = do
    next ← attempt (dir1_next cfg (pairs_max cfg))
    elim next [
      | failed noent ↦ pure dir2
      | failed e ↦ throw e
      | got entry1 ↦ do
        s ← get
        dir2' ← in_lfs1 (migrate_entry s.1 entry1 dir2)
        migrate_entries fuel dir2'
    ]

  -- "find last block", on fuel.
  unfoldable pub last_pair : ℕ → Mdir → M (Lfs D) Mdir
  last_pair zero dir2 = no_fuel
  last_pair (suc fuel) dir2 =
      if not dir2.split
      then pure dir2
      else do next ← dir_fetch cfg dir2 dir2.tail; last_pair fuel next

  -- "update tail to thread into fs"
  unfoldable pub thread_tail : Pair → Mdir → M (Lfs D) Mdir
  unfolding last_pair
  thread_tail tail dir2 = if pair_isnull tail then pure dir2 else do
    s ← get
    here ← dir_fetch cfg dir2 s.root
    last ← last_pair (suc (pairs_max cfg)) here
    commit_to cfg last
        (record { tag = mktag Kind.softtail 0x3ff 8; buffer = from_memory (pair_tole32 tail) } ∷ [])

  -- The bytes of the block of `dir2` from `i` on, one by one, `left` of them.
  unfoldable pub copy_bytes : Mdir → ℕ → ℕ → ℕ → M (Lfs D) (Unit {0})
  copy_bytes dir2 head zero i = pure tt
  copy_bytes dir2 head (suc left) i = do
    dat ← on_bd (bd_read cfg none dir2.off dir2.pair.0 i 1)
    on_bd (bd_prog cfg true head i dat)
    copy_bytes dir2 head left (suc i)

  -- "Copy over first block to thread into fs."
  unfoldable pub copy_block : ℕ → Mdir → M (Lfs D) Mdir
  unfolding copy_bytes
  copy_block head dir2 = do
    on_bd (bd_erase cfg head)
    s ← get
    here ← dir_fetch cfg dir2 s.root
    copy_bytes here head here.off 0
    on_bd (bd_flush cfg true)
    pure here

  -- "create new dir and bind as temporary pretend root"
  unfoldable pub pretend_root : ℕ → M (Lfs D) Mdir
  pretend_root rev = do
    fresh ← dir_alloc cfg 0
    modify λ s. record s { root = fresh.pair }
    commit_to cfg (record fresh { rev = rev }) []

  -- One round of the loop over the directories, of which `tail` is the next.
  unfoldable pub migrate_dir : Pair → M (Lfs D × Dir1) (Unit {0})
  unfolding pretend_root migrate_entries thread_tail copy_block
  migrate_dir tail = do
    dir1_fetch cfg tail
    s ← get
    let dir1 = s.1
    dir2 ← in_lfs1 (pretend_root dir1.d.rev)
    modify λ s. (s.0, record dir1 { head = dir1.pair })
    copied ← migrate_entries (pairs_max cfg * suc block_size) dir2
    s' ← get
    threaded ← in_lfs1 (thread_tail s'.1.d.tail copied)
    in_lfs1 (do here ← copy_block s'.1.head.1 threaded; pure tt)

  -- "iterate through each directory", on fuel.
  unfoldable pub migrate_dirs : ℕ → M (Lfs D × Dir1) (Unit {0})
  unfolding migrate_dir
  migrate_dirs zero = no_fuel
  migrate_dirs (suc fuel) = do
    s ← get
    let tail = s.1.d.tail
    if pair_isnull tail then pure tt else do migrate_dir tail; migrate_dirs fuel

  -- "Create new superblock. This marks a successful migration!"
  unfoldable pub migrate_superblock : Dir1 → M (Lfs D) (Unit {0})
  unfolding get_root1
  migrate_superblock dir1 = do
    root1 ← get_root1
    let dir2 : Mdir = record {
      pair = dir1.pair;
      rev = dir1.d.rev;
      off = 4;
      etag = block_null;
      count = 0;
      erased = false;
      split = true;
      tail = root1;
    }
    s ← get
    written ← commit_to cfg dir2 (format_attrs cfg s)
    fetched ← dir_fetch cfg written (0, 1)
    again ← commit_to cfg (record fetched { erased = false }) []
    pure tt

  unfoldable pub migrate : M (Lfs D) (Unit {0})
  unfolding migrate_dirs migrate_superblock get_root1
  migrate = do
    mount1 cfg
    root1 ← get_root1
    let dir : Dir1 = new_dir1
    (_, dir1) ←
        with_dir1 (record dir { d = record dir.d { tail = root1 } })
          (migrate_dirs (pairs_max cfg) >> dir1_fetch cfg (0, 1))
    migrate_superblock dir1
