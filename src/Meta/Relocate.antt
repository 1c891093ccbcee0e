-- ===== src/Meta/Relocate.antt =====
-- `lfs_fs_relocate` and `lfs_dir_drop`, which commit to other directories.
use littlefs.Prelude.{ℕ, ◌+◌, ◌^◌, ◌-◌, none, some, List, [], ◌∷◌, if◌then◌else◌}
use littlefs.Exec.{M, pure, modify, ◌>>=◌, ◌>>◌}
use littlefs.Config.{Config}
use littlefs.Tag.{Pair, mktag, pair_overlap}
use littlefs.Tag.Kind
use littlefs.Gstate.{fs_preporphans}
use littlefs.Disk.{pair_tole32}
use littlefs.Lfs.{Lfs, Mdir, Open, reg, dir}
use littlefs.Fs.{fs_parent, fs_pred}
use littlefs.Dir.Commit.{from_memory, Mattr}
use littlefs.Meta.Ref.{Ref, local, with_local}
use littlefs.Meta.Step.{take_gstate}

abbrev pub one_attr : ℕ → List ℕ → List Mattr
one_attr tag bytes = record { tag = tag; buffer = from_memory bytes } ∷ []

-- "update internally tracked dirs"
unfoldable pub move_open : Pair → Pair → Open → Open
move_open old new (reg f) =
    if pair_overlap old f.m.pair
    then (let m = f.m in reg (record f { m = record m { pair = new } }))
    else reg f
move_open old new (dir d) =
    let m = d.m in
    let m' = if pair_overlap old m.pair then record m { pair = new } else m in
    dir (record d { m = m'; head = if pair_overlap old d.head then new else d.head })

unfoldable pub move_all : Pair → Pair → List Open → List Open
unfolding move_open
move_all old new [] = []
move_all old new (o ∷ os) = move_open old new o ∷ move_all old new os

-- `lfs_fs_preporphans` on the filesystem; `n` is an `int8_t`, widened to 32 bits.
unfoldable pub prep_orphans : {D : Type 0} → ℕ → M (Lfs D) (Unit {0})
prep_orphans n = modify λ s. record s { globals = fs_preporphans n s.globals }

module _ {D : Type 0} (cfg : Config D)
    (commit_r : Ref → List Mattr → M (Mdir × Lfs D) (Unit {0})) where
  -- A commit to a directory that is a local variable.
  unfoldable pub commit_local : Mdir → List Mattr → M (Lfs D) (Unit {0})
  commit_local m attrs = do w ← with_local m (commit_r local attrs); pure tt

  unfoldable pub fs_relocate : Pair → Pair → M (Lfs D) (Unit {0})
  unfolding commit_local prep_orphans move_all
  fs_relocate old new = do
    modify λ s. record s {
      root = if pair_overlap old s.root then new else s.root;
      mlist = move_all old new s.mlist;
    }
    parent ← fs_parent cfg old
    elim parent [
      | none ↦ pure tt
      | some (m, tag) ↦ do
        prep_orphans 1
        commit_local m (one_attr tag (pair_tole32 new))
        prep_orphans (2 ^ 32 - 1)
    ]
    pred ← fs_pred cfg old
    elim pred [
      | none ↦ pure tt
      | some m ↦
          commit_local m
            (one_attr (mktag (Kind.tail + (if m.split then 1 else 0)) 0x3ff 8) (pair_tole32 new))
    ]

  unfoldable pub dir_drop : Mdir → Mdir → M (Lfs D) (Unit {0})
  unfolding commit_local
  dir_drop pdir tail = do
    take_gstate cfg tail
    commit_local pdir (
        one_attr (mktag (Kind.tail + (if tail.split then 1 else 0)) 0x3ff 8)
          (pair_tole32 tail.tail))
