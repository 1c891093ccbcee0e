-- ===== src/Api/Attrs.antt =====
-- The attributes of the user: `lfs_getattr`, `lfs_setattr` and `lfs_removeattr`.
use littlefs.Prelude.{ℕ, not, ◌+◌, List, [], ◌∷◌, ltb, ◌==◌, if◌then◌else◌, length}
use littlefs.Util.{lfs_min}
use littlefs.Exec.{noent, noattr, nospc, M, got, failed, pure, throw, attempt, get, ◌>>=◌}
use littlefs.Config.{Config}
use littlefs.Tag.{mktag, tag_id, tag_size}
use littlefs.Tag.Kind
use littlefs.Lfs.{Lfs, Mdir}
use littlefs.Dir.Get.{dir_get}
use littlefs.Dir.Fetch.{dir_fetch}
use littlefs.Dir.Find.{dir_find}
use littlefs.Dir.Commit.{Source, from_memory, from_null}
use littlefs.Meta.Calls.{commit_to}
use littlefs.Repair.{no_dir}

module _ {D : Type 0} (cfg : Config D) where
  -- The directory and the id of a path; those of the root are the first entry of its directory.
  unfoldable pub attr_home : List ℕ → M (Lfs D) (Mdir × ℕ)
  attr_home path = do
    w ← dir_find cfg no_dir path
    elim w.tag [
      | failed e ↦ throw e
      | got tag ↦
          if not (tag_id tag == 0x3ff)
          then pure (w.dir, tag_id tag)
          else do s ← get; m ← dir_fetch cfg w.dir s.root; pure (m, 0)
    ]

  -- The size of the attribute, and the bytes that the buffer gets.
  unfoldable pub getattr : List ℕ → ℕ → ℕ → M (Lfs D) (ℕ × List ℕ)
  unfolding attr_home
  getattr path type size = do
    (m, id) ← attr_home path
    s ← get
    r ← attempt (
        dir_get cfg m (mktag 0x7ff 0x3ff 0)
          (mktag (Kind.userattr + type) id (lfs_min size s.attr_max)))
    elim r [
      | failed noent ↦ throw noattr
      | failed e ↦ throw e
      | got (tag, bytes) ↦ pure (tag_size tag, bytes)
    ]

  unfoldable pub commitattr : List ℕ → ℕ → Source → ℕ → M (Lfs D) (Unit {0})
  unfolding attr_home
  commitattr path type buffer size = do
    (m, id) ← attr_home path
    m' ←
        commit_to cfg m
          (record { tag = mktag (Kind.userattr + type) id size; buffer = buffer } ∷ [])
    pure tt

  unfoldable pub setattr : List ℕ → ℕ → List ℕ → M (Lfs D) (Unit {0})
  unfolding commitattr
  setattr path type bytes = do
    s ← get
    if ltb s.attr_max (length bytes)
        then throw nospc
        else commitattr path type (from_memory bytes) (length bytes)

  unfoldable pub removeattr : List ℕ → ℕ → M (Lfs D) (Unit {0})
  unfolding commitattr
  removeattr path type = commitattr path type from_null 0x3ff
