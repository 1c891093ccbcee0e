-- ===== src/Api/Paths.antt =====
-- `lfs_stat` and `lfs_remove`.
use littlefs.Prelude.{ℕ, ◌-◌, ◌^◌, ◌||◌, none, some, List, [], ◌∷◌, ltb, ◌==◌, if◌then◌else◌}
use littlefs.Exec.{noent, notempty, inval, M, got, failed, pure, throw, ◌>>=◌, ◌>>◌}
use littlefs.Config.{Config}
use littlefs.Tag.{mktag, tag_type3, tag_id}
use littlefs.Tag.Kind
use littlefs.Lfs.{Lfs, Mdir}
use littlefs.Fs.{fs_pred}
use littlefs.Dir.Fetch.{dir_fetch}
use littlefs.Dir.Find.{Walk, dir_find}
use littlefs.Dir.Info.{Info, dir_getinfo}
use littlefs.Dir.Commit.{from_null}
use littlefs.Meta.Relocate.{prep_orphans}
use littlefs.Meta.Calls.{commit_to, drop_dir}
use littlefs.Repair.{no_dir, fs_forceconsistency}
use littlefs.Api.Dirs.{entry_pair}

module _ {D : Type 0} (cfg : Config D) where
  unfoldable pub stat : List ℕ → Info → M (Lfs D) Info
  stat path info = do
    w ← dir_find cfg no_dir path
    elim w.tag [ failed e ↦ throw e | got tag ↦ dir_getinfo cfg w.dir (tag_id tag) info ]

  -- "must be empty before removal" and "mark fs as orphaned": the directory of an entry.
  unfoldable pub empty_dir : Mdir → ℕ → M (Lfs D) Mdir
  empty_dir cwd id = do
    pair ← entry_pair cfg cwd id
    m ← dir_fetch cfg no_dir pair
    if ltb 0 m.count || m.split then throw notempty else do prep_orphans 1; pure m

  -- "fix orphan": the directory leaves the list of all directories.
  unfoldable pub fix_orphan : Mdir → M (Lfs D) (Unit {0})
  fix_orphan m = do
    prep_orphans (2 ^ 32 - 1)
    pred ← fs_pred cfg m.pair
    elim pred [ none ↦ throw noent | some pdir ↦ drop_dir cfg pdir m ]

  -- The entry of a path that is not the root.
  unfoldable pub find_old : List ℕ → M (Lfs D) (Walk × ℕ)
  find_old path = do
    w ← dir_find cfg no_dir path
    elim w.tag [
      | failed e ↦ throw e
      | got tag ↦ if tag_id tag == 0x3ff then throw inval else pure (w, tag)
    ]

  unfoldable pub remove : List ℕ → M (Lfs D) (Unit {0})
  unfolding empty_dir fix_orphan find_old
  remove path = do
    fs_forceconsistency cfg
    (w, tag) ← find_old path
    let gone = record { tag = mktag Kind.delete (tag_id tag) 0; buffer = from_null } ∷ []
    if tag_type3 tag == Kind.dir
        then (do m ← empty_dir w.dir (tag_id tag); cwd ← commit_to cfg w.dir gone; fix_orphan m)
        else (do cwd ← commit_to cfg w.dir gone; pure tt)
