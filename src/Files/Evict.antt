-- ===== src/Files/Evict.antt =====
-- The circle of `lfs_file_flush` and `lfs_file_write`, and what `lfs_dir_commit` does to an inline
-- file that has outgrown the cache.
use littlefs.Prelude.{ℕ, zero, suc, List}
use littlefs.Exec.{M, no_fuel, ◌>>◌}
use littlefs.Config.{Config}
use littlefs.Lfs.{Lfs}
use littlefs.Files.Relocate.{file_outline}
use littlefs.Files.Write.{file_write}
use littlefs.Files.Flush.{file_flush}

pub record FileCalls (D : Type 0) : Type 0 where
  pub flush_r : ℕ → M (Lfs D) (Unit {0})
  pub write_r : ℕ → List ℕ → M (Lfs D) ℕ

module _ {D : Type 0} (cfg : Config D) where
  unfoldable pub file_calls : ℕ → FileCalls D
  file_calls zero = record { flush_r = λ here. no_fuel; write_r = λ here bytes. no_fuel }
  file_calls (suc depth) =
      let rest = file_calls depth in
      record {
        flush_r = λ here. file_flush cfg rest.write_r here;
        write_r = λ here bytes. file_write cfg rest.flush_r rest.write_r here bytes;
      }

  -- A write flushes what was read, or writes zeros first; a flush writes what lies behind. The
  -- writes inside write only.
  unfoldable pub flush : ℕ → M (Lfs D) (Unit {0})
  unfolding file_calls
  flush here = let all = file_calls 4 in all.flush_r here

  unfoldable pub write : ℕ → List ℕ → M (Lfs D) ℕ
  unfolding file_calls
  write here bytes = let all = file_calls 4 in all.write_r here bytes

  unfoldable pub evict : ℕ → M (Lfs D) (Unit {0})
  unfolding flush
  evict here = do file_outline cfg here; flush here
