-- ===== src/Migrate/Traverse.antt =====
-- `lfs1_traverse`: all blocks of a filesystem of version 1, and of the directories of version 2 that
-- a migration has made so far. The fuel of a walk over pairs is that of Fs.antt.
use littlefs.Prelude.{
  ℕ, zero, suc, ◌+◌, bit_and, false, true, not, none, leb, ◌==◌, if◌then◌else◌, add32, sub32,
}
use littlefs.Exec.{Res, M, got, failed, pure, no_fuel, attempt, zoom, ◌>>=◌, ◌>>◌}
use littlefs.Config.{Config, Bd}
use littlefs.Tag.{Pair, pair_null, pair_isnull}
use littlefs.Lfs.{Lfs, Mdir}
use littlefs.Ctz.{ctz_traverse}
use littlefs.Dir.Fetch.{dir_fetch}
use littlefs.Migrate.Disk1.{
  type1_reg, Entry1, Dir1, entry1_bytes, entry1_fromle32, size1, entry1_size,
}
use littlefs.Migrate.Fetch.{in_lfs1, bd1_read, dir1_fetch}

-- A local `lfs1_dir_t`: C leaves it uninitialised, and only `pos`, which no code reads, is used
-- before a fetch sets it.
abbrev pub new_dir1 : Dir1
new_dir1 = record {
  pair = pair_null;
  off = 0;
  head = pair_null;
  pos = 0;
  d = record { rev = 0; size = 0; tail = pair_null };
}

-- A call that works on a local directory of the caller, which is gone after it.
abbrev pub with_dir1 : {D A : Type 0} → Dir1 → M (Lfs D × Dir1) A → M (Lfs D) (A × Dir1)
with_dir1 {D = D} {A = A} dir m s = finish (m (s, dir))
  where
    finish : Res (Lfs D × Dir1) A → Res (Lfs D) (A × Dir1)
    finish (Res.ok a w) = Res.ok (a, w.1) w.0
    finish (Res.err e w) = Res.err e w.0
    finish Res.fault = Res.fault
    finish Res.out_of_fuel = Res.out_of_fuel

-- `lfs_mdir_t dir2 = {.split=true, .tail={cwd[0], cwd[1]}}`
abbrev pub threaded_dir : Pair → Mdir
threaded_dir cwd = record {
  pair = (0, 0);
  rev = 0;
  off = 0;
  etag = 0;
  count = 0;
  erased = false;
  split = true;
  tail = cwd;
}

module _ {D : Type 0} (cfg : Config D) where
  open cfg use {block_size, block_count}

  unfoldable pub fetched : Dir1 → Pair → M (Lfs D) Dir1
  fetched dir pair = do (_, dir') ← with_dir1 dir (dir1_fetch cfg pair); pure dir'

  module _ {A : Type 0} (cb : ℕ → M A (Unit {0})) where
    abbrev in_acc1 : {B : Type 0} → M A B → M (Lfs D × A) B
    in_acc1 m = zoom (λ s. s.1) (λ s a. (s.0, a)) m

    abbrev in_walk1 : {B : Type 0} → M (Bd D × A) B → M (Lfs D × A) B
    in_walk1 m = zoom (λ s. (s.0.bd, s.1)) (λ s w. (let l = s.0 in record l { bd = w.0 }, w.1)) m

    -- "iterate over contents", from `off` on, on fuel: an entry has at least four bytes.
    unfoldable pub traverse1_entries : ℕ → Dir1 → ℕ → M (Lfs D × A) (Unit {0})
    traverse1_entries zero dir off = no_fuel
    traverse1_entries (suc fuel) dir off =
        if leb (add32 off entry1_bytes) (sub32 (size1 dir.d) 4)
        then (do
          bytes ← in_lfs1 (bd1_read cfg dir.pair.0 off entry1_bytes)
          let entry : Entry1 = record { off = off; d = entry1_fromle32 bytes }
          if bit_and 0x70 entry.d.type == bit_and 0x70 type1_reg
              then in_walk1 (ctz_traverse cfg cb none entry.d.u.0 entry.d.u.1)
              else pure tt
          traverse1_entries fuel dir (add32 off (entry1_size entry)))
        else pure tt

    -- "check if we contain a threaded v2 directory": a pair that cannot be fetched ends the walk,
    -- whatever the error, on fuel.
    unfoldable pub traverse1_threaded : ℕ → Mdir → M (Lfs D × A) (Unit {0})
    traverse1_threaded zero dir2 = no_fuel
    traverse1_threaded (suc fuel) dir2 = if not dir2.split then pure tt else do
      next ← in_lfs1 (attempt (dir_fetch cfg dir2 dir2.tail))
      elim next [
        | failed e ↦ pure tt
        | got dir2' ↦ do
          in_acc1 (cb dir2'.pair.0)
          in_acc1 (cb dir2'.pair.1)
          traverse1_threaded fuel dir2'
      ]

    -- "iterate over metadata pairs", on fuel.
    unfoldable pub traverse1_dirs : ℕ → Dir1 → Pair → M (Lfs D × A) (Unit {0})
    unfolding traverse1_entries traverse1_threaded
    traverse1_dirs zero dir cwd = no_fuel
    traverse1_dirs (suc fuel) dir cwd = do
      in_acc1 (cb cwd.0)
      in_acc1 (cb cwd.1)
      dir' ← in_lfs1 (fetched dir cwd)
      traverse1_entries (suc block_size) dir' dir'.off
      traverse1_threaded (block_count + 2) (threaded_dir cwd)
      if pair_isnull dir'.d.tail then pure tt else traverse1_dirs fuel dir' dir'.d.tail

    unfoldable pub traverse1 : Pair → M (Lfs D × A) (Unit {0})
    unfolding traverse1_dirs
    traverse1 root1 =
        if pair_isnull root1 then pure tt else traverse1_dirs (block_count + 1) new_dir1 (0, 1)
