-- ===== src/Api/Rename.antt =====
-- `lfs_rename`: the entry of the new path is written as a move from the old one, which the global
-- state records until the old entry is gone.
pub mod Ids
use littlefs.Prelude.{
  ℕ, ◌+◌, ◌-◌, ◌^◌, Bool, true, false, not, ◌&&◌, ◌||◌, Option, none, some, List, [], ◌∷◌, ltb, leb,
  ◌==◌, if◌then◌else◌, length, u16,
}
use littlefs.Exec.{
  Error, noent, isdir, inval, nametoolong, Res, M, Try, got, failed, pure, throw, get, modify,
  ◌>>=◌, ◌>>◌,
}
use littlefs.Config.{Config}
use littlefs.Tag.{Pair, mktag, tag_type3, tag_id, pair_overlap}
use littlefs.Tag.Kind
use littlefs.Gstate.{fs_prepmove}
use littlefs.Lfs.{Lfs, Mdir}
use littlefs.Dir.Find.{Walk, dir_find}
use littlefs.Dir.Commit.{Source, from_memory, from_dir, from_null, Mattr}
use littlefs.Meta.Calls.{commit_to}
use littlefs.Repair.{no_dir, fs_forceconsistency}
use littlefs.Api.Paths.{empty_dir, fix_orphan, find_old}

-- What stands at the new path.
pub data Target : Type 0 where
  free plain : Target
  empty : Mdir → Target

unfoldable pub is_free : Target → Bool
is_free free = true
is_free other = false

-- "create move to fix later": the id of the old entry, after the new one is there.
unfoldable pub moved_id : Bool → ℕ → ℕ → ℕ
moved_id here newid oldid = if here && leb newid oldid then u16 (oldid + 1) else oldid

-- "move over all attributes"
unfoldable pub move_attrs : Bool → ℕ → ℕ → List ℕ → Mdir → List Mattr
move_attrs over newid oldtag path oldcwd =
    record {
      tag = if over then mktag Kind.delete newid 0 else mktag Kind.from_noop 0 0;
      buffer = from_null;
    }
    ∷ record { tag = mktag Kind.create newid 0; buffer = from_null }
    ∷ record { tag = mktag (tag_type3 oldtag) newid (length path); buffer = from_memory path }
    ∷ record { tag = mktag Kind.from_move newid (tag_id oldtag); buffer = from_dir oldcwd }
    ∷ []

module _ {D : Type 0} (cfg : Config D) where
  -- "find new entry" and the checks on it.
  unfoldable pub find_target : ℕ → Walk → M (Lfs D) Target
  find_target oldtag w = elim w.tag [
    | failed noent ↦
        if w.id == 0x3ff
        then throw noent
        else do s ← get; if ltb s.name_max (length w.path) then throw nametoolong else pure free
    | failed e ↦ throw e
    | got prevtag ↦
        if tag_id prevtag == 0x3ff
        then throw inval
        else (if not (tag_type3 prevtag == tag_type3 oldtag)
            then throw isdir
            else (if tag_type3 prevtag == Kind.dir
                then (do m ← empty_dir cfg w.dir w.id; pure (empty m))
                else pure plain))
  ]

  unfoldable pub rename : List ℕ → List ℕ → M (Lfs D) (Unit {0})
  unfolding find_target move_attrs moved_id is_free
  rename oldpath newpath = do
    fs_forceconsistency cfg
    (old, oldtag) ← find_old cfg oldpath
    w ← dir_find cfg no_dir newpath
    target ← find_target oldtag w
    let oldcwd = old.dir
    let newcwd = w.dir
    let same = pair_overlap oldcwd.pair newcwd.pair
    let from = moved_id (same && is_free target) w.id (tag_id oldtag)
    modify λ s. record s { globals = fs_prepmove from oldcwd.pair s.globals }
    newcwd' ← commit_to cfg newcwd (move_attrs (not (is_free target)) w.id oldtag w.path oldcwd)
    -- "if we're different": the commit may have moved the new directory.
    if pair_overlap oldcwd.pair newcwd'.pair
        then pure tt
        else do oldcwd' ← commit_to cfg oldcwd []; pure tt
    elim target [ empty m ↦ fix_orphan cfg m | _ ↦ pure tt ]
