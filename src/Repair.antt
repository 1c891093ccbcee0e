-- ===== src/Repair.antt =====
-- "Filesystem consistency" of lfs.c: the repairs of what a loss of power has left half done.
pub mod Orphans
use littlefs.Prelude.{
  ℕ, zero, suc, ◌+◌, ◌-◌, ◌*◌, ◌^◌, Bool, true, false, not, Option, none, some, List, [], ◌∷◌, ltb,
  ◌==◌, if◌then◌else◌, u8,
}
use littlefs.Exec.{M, pure, no_fuel, get, modify, ◌>>=◌, ◌>>◌}
use littlefs.Config.{Config}
use littlefs.Tag.{Pair, mktag, pair_sync, pair_isnull}
use littlefs.Tag.Kind
use littlefs.Gstate.{Gstate, gstate_hasmove, gstate_hasorphans, gstate_getorphans, fs_preporphans}
use littlefs.Disk.{pair_fromle32, pair_tole32}
use littlefs.Lfs.{Lfs, Mdir}
use littlefs.Fs.{first_dir, fs_parent, pairs_max}
use littlefs.Dir.Get.{dir_get}
use littlefs.Dir.Fetch.{dir_fetch}
use littlefs.Meta.Relocate.{one_attr, prep_orphans}
use littlefs.Meta.Calls.{commit_to, drop_dir}

-- The value of an `int8_t` that is passed a word, widened to 32 bits.
unfoldable pub s8 : ℕ → ℕ
s8 x = let low = u8 x in if ltb low (2 ^ 7) then low else low + (2 ^ 32 - 2 ^ 8)

-- A local `lfs_mdir_t` before its first use.
abbrev pub no_dir : Mdir
no_dir = record first_dir { tail = (0, 0) }

-- "mark orphans as fixed", the end of `lfs_fs_deorphan`.
unfoldable pub mark_fixed : {D : Type 0} → M (Lfs D) (Unit {0})
unfolding s8
mark_fixed = do
  s ← get
  prep_orphans (s8 (2 ^ 32 - gstate_getorphans s.gstate))
  modify λ s. record s { gstate = (let g = s.globals in g.gpending) }

module _ {D : Type 0} (cfg : Config D) where
  unfoldable pub fs_demove : M (Lfs D) (Unit {0})
  fs_demove = do
    s ← get
    if not (gstate_hasmove s.gstate) then pure tt else do
      m ← dir_fetch cfg no_dir (let g = s.gstate in g.pair)
      m' ← commit_to cfg m []
      pure tt

  -- "check if we have a parent": `true` if the repair is made, which ends the loop.
  unfoldable pub check_head : Mdir → Mdir → M (Lfs D) Bool
  check_head pdir dir = do
    parent ← fs_parent cfg pdir.tail
    elim parent [
      | none ↦ do drop_dir cfg pdir dir; pure true
      | some (m, tag) ↦ do
        (_, bytes) ← dir_get cfg m (mktag 0x7ff 0x3ff 0) tag
        let pair = pair_fromle32 bytes
        if pair_sync pair pdir.tail then pure false else do
          pdir' ← commit_to cfg pdir (one_attr (mktag Kind.softtail 0x3ff 8) (pair_tole32 pair))
          pure true
    ]

  -- The loop over all directories, on fuel.
  unfoldable pub orphan_loop : ℕ → Mdir → Mdir → M (Lfs D) (Unit {0})
  unfolding check_head
  orphan_loop zero pdir dir = no_fuel
  orphan_loop (suc fuel) pdir dir = if pair_isnull dir.tail then pure tt else do
    dir' ← dir_fetch cfg dir dir.tail
    repaired ← if pdir.split then pure false else check_head pdir dir'
    if repaired then pure tt else orphan_loop fuel dir' dir'

  unfoldable pub fs_deorphan : M (Lfs D) (Unit {0})
  unfolding orphan_loop mark_fixed
  fs_deorphan = do
    s ← get
    if not (gstate_hasorphans s.gstate)
        then pure tt
        else do orphan_loop (pairs_max cfg) (record no_dir { split = true }) first_dir; mark_fixed

  unfoldable pub fs_forceconsistency : M (Lfs D) (Unit {0})
  unfolding fs_demove fs_deorphan
  fs_forceconsistency = do fs_demove; fs_deorphan
