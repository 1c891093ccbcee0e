-- ===== src/Disk/Laws.antt =====
-- What is written to disk reads back.
use littlefs.Prelude.{ℕ, ◌^◌, ◌<◌, ◌≡◌, List, drop}
use littlefs.Util.{tole32}
use littlefs.Util.Endian.{fromle32-tole32}
use littlefs.Tag.{Pair}
use littlefs.Gstate.{Gstate}
use littlefs.Disk.{
  Superblock, pair_tole32, pair_fromle32, gstate_tole32, gstate_fromle32, superblock_tole32,
  superblock_fromle32,
}

pub record IsSuperblock (s : Superblock) : Type 0 where
  pub version_lt : s.version < 2 ^ 32
  pub block_size_lt : s.block_size < 2 ^ 32
  pub block_count_lt : s.block_count < 2 ^ 32
  pub name_max_lt : s.name_max < 2 ^ 32
  pub file_max_lt : s.file_max < 2 ^ 32
  pub attr_max_lt : s.attr_max < 2 ^ 32

-- A superblock of 32-bit words that is converted to little-endian bytes and back is the same.
pub superblock_fromle32-tole32 :
    (s : Superblock) → IsSuperblock s → superblock_fromle32 (superblock_tole32 s) ≡ s
unfolding superblock_fromle32 superblock_tole32 tole32
superblock_fromle32-tole32 s h =
    let rest : ℕ → List ℕ = λ n. drop n (superblock_tole32 s) in
    λ i. record {
      version = fromle32-tole32 s.version (rest 4) h.version_lt i;
      block_size = fromle32-tole32 s.block_size (rest 8) h.block_size_lt i;
      block_count = fromle32-tole32 s.block_count (rest 12) h.block_count_lt i;
      name_max = fromle32-tole32 s.name_max (rest 16) h.name_max_lt i;
      file_max = fromle32-tole32 s.file_max (rest 20) h.file_max_lt i;
      attr_max = fromle32-tole32 s.attr_max (rest 24) h.attr_max_lt i;
    }

-- A global state of 32-bit words that is converted to little-endian bytes and back is the same.
gstate_fromle32-tole32 :
    (g : Gstate)
    → g.tag < 2 ^ 32
    → g.pair.0 < 2 ^ 32
    → g.pair.1 < 2 ^ 32
    → gstate_fromle32 (gstate_tole32 g) ≡ g
unfolding gstate_fromle32 gstate_tole32 tole32
gstate_fromle32-tole32 g h0 h1 h2 =
    let rest : ℕ → List ℕ = λ n. drop n (gstate_tole32 g) in
    λ i. record {
      tag = fromle32-tole32 g.tag (rest 4) h0 i;
      pair = (fromle32-tole32 g.pair.0 (rest 8) h1 i, fromle32-tole32 g.pair.1 (rest 12) h2 i);
    }

-- A pair of 32-bit block addresses that is converted to little-endian bytes and back is the same.
pair_fromle32-tole32 : (p : Pair) → p.0 < 2 ^ 32 → p.1 < 2 ^ 32 → pair_fromle32 (pair_tole32 p) ≡ p
unfolding pair_fromle32 pair_tole32 tole32
pair_fromle32-tole32 p h0 h1 =
    let rest : ℕ → List ℕ = λ n. drop n (pair_tole32 p) in
    λ i. (fromle32-tole32 p.0 (rest 4) h0 i, fromle32-tole32 p.1 (rest 8) h1 i)
