-- ===== src/Config.antt =====
-- `struct lfs_config` and `lfs_cache_t` of lfs.h. The four callbacks of the user are not part of the
-- repository's library: they are fields over an unknown type of device states.
use littlefs.Prelude.{ℕ, ◌-◌, ◌^◌, Option, List}
use littlefs.Exec.{Error}

-- LFS_BLOCK_NULL and LFS_BLOCK_INLINE.
abbrev pub block_null : ℕ
block_null = 2 ^ 32 - 1

abbrev pub block_inline : ℕ
block_inline = 2 ^ 32 - 2

pub record Config (D : Type 0) : Type 0 where
  -- The error code, `none` for 0, and the bytes that lie at the front of the buffer afterwards,
  -- which a failing call may have written too.
  pub dev_read : ℕ → ℕ → ℕ → D → Option Error × List ℕ × D
  pub dev_prog : ℕ → ℕ → List ℕ → D → Option Error × D
  pub dev_erase : ℕ → D → Option Error × D
  pub dev_sync : D → Option Error × D
  pub read_size : ℕ
  pub prog_size : ℕ
  pub block_size : ℕ
  pub block_count : ℕ
  pub cache_size : ℕ
  pub lookahead_size : ℕ
  -- `int32_t`, as a word
  pub block_cycles : ℕ
  pub cfg_name_max : ℕ
  pub cfg_file_max : ℕ
  pub cfg_attr_max : ℕ

-- `size` bytes of the buffer, from its front, hold what is at `off` of `block`.
pub record Cache : Type 0 where
  pub block : ℕ
  pub off : ℕ
  pub size : ℕ
  pub buffer : List ℕ

-- The two caches that a call of the block device layer is passed, and the device behind them.
pub record Bd (D : Type 0) : Type 0 where
  pub rcache : Cache
  pub pcache : Cache
  pub dev : D
