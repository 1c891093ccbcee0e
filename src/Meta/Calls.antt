-- ===== src/Meta/Calls.antt =====
-- The circle of calls of `lfs_dir_compact`, `lfs_dir_split`, `lfs_fs_relocate`, `lfs_dir_commit` and
-- `lfs_dir_drop`, on fuel: its depth.
use littlefs.Prelude.{ℕ, zero, suc, ◌+◌, ◌*◌, List}
use littlefs.Exec.{M, pure, no_fuel, ◌>>=◌}
use littlefs.Config.{Config}
use littlefs.Lfs.{Lfs, Mdir}
use littlefs.Dir.Commit.{Mattr}
use littlefs.Files.Evict.{evict}
use littlefs.Meta.Ref.{Ref, local, with_local}
use littlefs.Meta.Compact.{dir_compact}
use littlefs.Meta.Relocate.{fs_relocate, dir_drop}
use littlefs.Meta.Commit.{dir_commit}

-- The functions that the others of the circle call.
pub record Calls (D : Type 0) : Type 0 where
  pub compact_r : Ref → List Mattr → Ref → ℕ → ℕ → M (Mdir × Lfs D) (Unit {0})
  pub commit_r : Ref → List Mattr → M (Mdir × Lfs D) (Unit {0})

module _ {D : Type 0} (cfg : Config D) where
  open cfg use {block_count}

  unfoldable pub calls : ℕ → Calls D
  calls zero = record {
    compact_r = λ dir attrs source begin end. no_fuel;
    commit_r = λ dir attrs. no_fuel;
  }
  calls (suc depth) =
      let rest = calls depth in
      record {
        compact_r = λ dir attrs source begin end.
            dir_compact cfg rest.compact_r (fs_relocate cfg rest.commit_r) dir attrs source begin
              end;
        commit_r = λ dir attrs.
            dir_commit cfg rest.compact_r (dir_drop cfg rest.commit_r) (evict cfg) dir attrs;
      }

  -- A commit calls a compaction, which calls itself for each split and, for a block that went bad,
  -- two commits.
  abbrev pub depth_max : ℕ
  depth_max = 2 * block_count + 32

  -- `lfs_dir_commit` of a local variable, which is returned.
  unfoldable pub commit_to : Mdir → List Mattr → M (Lfs D) Mdir
  unfolding calls
  commit_to m attrs = do
    let all = calls depth_max
    (_, m') ← with_local m (all.commit_r local attrs)
    pure m'

  -- `lfs_dir_drop`
  unfoldable pub drop_dir : Mdir → Mdir → M (Lfs D) (Unit {0})
  unfolding calls
  drop_dir pdir tail = let all = calls depth_max in dir_drop cfg all.commit_r pdir tail
