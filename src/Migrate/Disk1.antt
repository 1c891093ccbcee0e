-- ===== src/Migrate/Disk1.antt =====
-- The structures of version 1, in memory and on disk.
use littlefs.Prelude.{ℕ, ◌+◌, bit_and, List, ◌∷◌, ◌++◌, get_or, take, drop, u8}
use littlefs.Util.{tole32}
use littlefs.Tag.{Pair}
use littlefs.Disk.{word_at, pair_tole32, pair_fromle32}

-- `enum lfs1_type`, without LFS1_TYPE_SUPERBLOCK, which no code uses.
abbrev pub type1_reg : ℕ
type1_reg = 0x11

abbrev pub type1_dir : ℕ
type1_dir = 0x22

-- `struct lfs1_disk_entry` and `lfs1_entry_t`. Both members of the union are two words: `u` holds
-- them, as a pair of blocks or as the head and the size of a file.
pub record DiskEntry1 : Type 0 where
  pub type : ℕ
  pub elen : ℕ
  pub alen : ℕ
  pub nlen : ℕ
  pub u : Pair

pub record Entry1 : Type 0 where
  pub off : ℕ
  pub d : DiskEntry1

-- `struct lfs1_disk_dir` and `lfs1_dir_t`, without the link `next`, which no code uses.
pub record DiskDir1 : Type 0 where
  pub rev : ℕ
  pub size : ℕ
  pub tail : Pair

pub record Dir1 : Type 0 where
  pub pair : Pair
  pub off : ℕ
  pub head : Pair
  pub pos : ℕ
  pub d : DiskDir1

-- `struct lfs1_disk_superblock`
pub record Superblock1 : Type 0 where
  pub type : ℕ
  pub elen : ℕ
  pub alen : ℕ
  pub nlen : ℕ
  pub root : Pair
  pub block_size : ℕ
  pub block_count : ℕ
  pub version : ℕ
  pub magic : List ℕ

-- The sizes of the three structures.
abbrev pub dir1_bytes : ℕ
dir1_bytes = 16

abbrev pub entry1_bytes : ℕ
entry1_bytes = 12

abbrev pub superblock1_bytes : ℕ
superblock1_bytes = 32

unfoldable pub dir1_fromle32 : List ℕ → DiskDir1
unfolding word_at pair_fromle32
dir1_fromle32 bytes = record {
  rev = word_at bytes 0;
  size = word_at bytes 4;
  tail = pair_fromle32 (drop 8 bytes);
}

unfoldable pub dir1_tole32 : DiskDir1 → List ℕ
unfolding pair_tole32
dir1_tole32 d = tole32 d.rev ++ (tole32 d.size ++ pair_tole32 d.tail)

unfoldable pub entry1_fromle32 : List ℕ → DiskEntry1
unfolding pair_fromle32
entry1_fromle32 bytes = record {
  type = get_or bytes 0 0;
  elen = get_or bytes 1 0;
  alen = get_or bytes 2 0;
  nlen = get_or bytes 3 0;
  u = pair_fromle32 (drop 4 bytes);
}

unfoldable pub entry1_tole32 : DiskEntry1 → List ℕ
unfolding pair_tole32
entry1_tole32 d = u8 d.type ∷ u8 d.elen ∷ u8 d.alen ∷ u8 d.nlen ∷ pair_tole32 d.u

unfoldable pub superblock1_fromle32 : List ℕ → Superblock1
unfolding word_at pair_fromle32
superblock1_fromle32 bytes = record {
  type = get_or bytes 0 0;
  elen = get_or bytes 1 0;
  alen = get_or bytes 2 0;
  nlen = get_or bytes 3 0;
  root = pair_fromle32 (drop 4 bytes);
  block_size = word_at bytes 12;
  block_count = word_at bytes 16;
  version = word_at bytes 20;
  magic = take 8 (drop 24 bytes);
}

-- `0x7fffffff & size`: the top bit says that the directory goes on in its tail.
unfoldable pub size1 : DiskDir1 → ℕ
size1 d = bit_and 0x7fffffff d.size

unfoldable pub entry1_size : Entry1 → ℕ
entry1_size e = 4 + e.d.elen + e.d.alen + e.d.nlen
