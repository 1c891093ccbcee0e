-- ===== src/Bd/View.antt =====
-- What a reader of a block sees: the device, under the bytes that wait in the program cache.
use littlefs.Prelude.{
  ℕ, ◌+◌, ◌-◌, ◌%◌, ◌^◌, ◌≤◌, ◌<◌, ◌≡◌, ◌≢◌, Bool, ◌&&◌, Option, none, some, List, length, get_or,
  ltb, leb, ◌==◌, if◌then◌else◌,
}
use littlefs.Exec.{Error}
use littlefs.Config.{Config, Cache, block_null}

-- The parts of `lfs_config` that `lfs_init` asserts, as far as reading needs them.
pub record IsGeometry {D : Type 0} (cfg : Config D) : Type 0 where
  pub read_pos : 0 < cfg.read_size
  pub read_multiple : cfg.cache_size % cfg.read_size ≡ 0
  pub cache_pos : 0 < cfg.cache_size
  pub read_le : cfg.read_size ≤ cfg.block_size
  pub block_le : cfg.block_size ≤ 2 ^ 30

-- The read callback: it gives the bytes that the device holds, or it fails; the contents of the
-- device do not change.
pub record IsDevice {D : Type 0} (cfg : Config D) (image : D → ℕ → ℕ → ℕ) : Type 0 where
  pub reads :
      (b o n : ℕ) (d : D) (bytes : List ℕ) (d' : D)
      → cfg.dev_read b o n d ≡ (none, bytes, d')
      → (length bytes ≡ n)
        × ((j : ℕ) → j < n → get_or bytes j 0 ≡ image d b (o + j))
        × ((c k : ℕ) → image d' c k ≡ image d c k)
  pub fails :
      (b o n : ℕ) (d : D) (e : Error) (left : List ℕ) (d' : D)
      → cfg.dev_read b o n d ≡ (some e, left, d')
      → (c k : ℕ) → image d' c k ≡ image d c k

-- Whether a cache stands for a byte of a block.
abbrev pub covers : Cache → ℕ → ℕ → Bool
covers c b o = (b == c.block) && (leb c.off o && ltb o (c.off + c.size))

abbrev pub covers? : Option Cache → ℕ → ℕ → Bool
covers? none b o = Bool.false
covers? (some c) b o = covers c b o

-- The byte that a reader sees.
abbrev pub view : Option Cache → (ℕ → ℕ → ℕ) → ℕ → ℕ → ℕ
view none blocks b o = blocks b o
view (some c) blocks b o = if covers c b o then get_or c.buffer (o - c.off) 0 else blocks b o

-- The cache lies in its buffer.
pub record IsCache (cache_size : ℕ) (c : Cache) : Type 0 where
  pub fits : c.size ≤ length c.buffer
  pub whole : length c.buffer ≡ cache_size
  pub small : c.off + c.size < 2 ^ 32

-- The read cache holds what the device holds, or it stands for no block.
pub record IsLoaded (cache_size : ℕ) (blocks : ℕ → ℕ → ℕ) (c : Cache) : Type 0 where
  pub is_cache : IsCache cache_size c
  pub holds :
      c.block ≢ block_null → (o : ℕ) → o < c.size → get_or c.buffer o 0 ≡ blocks c.block (c.off + o)
