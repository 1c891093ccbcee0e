-- ===== src/Disk.antt =====
-- "other endianness operations" of lfs.c: the structures that are stored as the data of a tag, as
-- the bytes that lie in memory after `tole32` and before `fromle32`.
pub mod Laws
use littlefs.Prelude.{ℕ, List, [], ◌++◌, drop}
use littlefs.Util.{fromle32, tole32}
use littlefs.Tag.{Pair}
use littlefs.Gstate.{Gstate}

-- `struct lfs_ctz`
pub record Ctz : Type 0 where
  pub head : ℕ
  pub size : ℕ

pub record Superblock : Type 0 where
  pub version : ℕ
  pub block_size : ℕ
  pub block_count : ℕ
  pub name_max : ℕ
  pub file_max : ℕ
  pub attr_max : ℕ

unfoldable pub word_at : List ℕ → ℕ → ℕ
word_at bytes at = fromle32 (drop at bytes)

unfoldable pub pair_tole32 : Pair → List ℕ
pair_tole32 (a, b) = tole32 a ++ tole32 b

unfoldable pub pair_fromle32 : List ℕ → Pair
unfolding word_at
pair_fromle32 bytes = (word_at bytes 0, word_at bytes 4)

unfoldable pub gstate_tole32 : Gstate → List ℕ
gstate_tole32 g = tole32 g.tag ++ (tole32 g.pair.0 ++ tole32 g.pair.1)

unfoldable pub gstate_fromle32 : List ℕ → Gstate
unfolding word_at
gstate_fromle32 bytes = record { tag = word_at bytes 0; pair = (word_at bytes 4, word_at bytes 8) }

unfoldable pub ctz_tole32 : Ctz → List ℕ
ctz_tole32 c = tole32 c.head ++ tole32 c.size

unfoldable pub ctz_fromle32 : List ℕ → Ctz
unfolding word_at
ctz_fromle32 bytes = record { head = word_at bytes 0; size = word_at bytes 4 }

unfoldable pub superblock_tole32 : Superblock → List ℕ
superblock_tole32 s =
    tole32 s.version
    ++ (tole32 s.block_size
        ++ (tole32 s.block_count
            ++ (tole32 s.name_max ++ (tole32 s.file_max ++ tole32 s.attr_max))))

unfoldable pub superblock_fromle32 : List ℕ → Superblock
unfolding word_at
superblock_fromle32 bytes = record {
  version = word_at bytes 0;
  block_size = word_at bytes 4;
  block_count = word_at bytes 8;
  name_max = word_at bytes 12;
  file_max = word_at bytes 16;
  attr_max = word_at bytes 20;
}
