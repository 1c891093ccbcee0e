-- ===== src/Tests/Migrate.antt =====
-- A directory of version 1 in memory, and the theorems at it.
use littlefs.Prelude.{
  ℕ, ◌≡◌, refl, arith, none, some, Option, List, [], ◌∷◌, get_or, if◌then◌else◌, ◌==◌,
}
use littlefs.Util.{
  popc, scmp_gt, frombe32, npw2, crc, crc_nibble, fromle32, tole32, le32_bytes, aligndown, alignup,
  lfs_min,
}
use littlefs.Exec.{Res, ok, err, fault, out_of_fuel}
use littlefs.Bd.{
  cache_zero, bd_read, read_loop, from_pcache, from_rcache, consult, consult_const, cache_load,
  cache_fill, mem_read,
}
use littlefs.Disk.{word_at, pair_fromle32, pair_tole32}
use littlefs.Gstate.{gstate_zero}
use littlefs.Tag.{
  tag_type1, tag_id, pair_isnull, tag_isvalid, tag_dsize, Pair, pair_null, pair_swap,
}
use littlefs.Lfs.{Lfs}
use littlefs.Migrate.Disk1.{
  superblock1_fromle32, Dir1, size1, dir1_fromle32, dir1_tole32, Entry1, entry1_fromle32,
  entry1_size,
}
use littlefs.Migrate.Fetch.{
  dir1_fetch, dir1_next, fetch_round, take_read, take_head, take_sum, bd1_read, bd1_crc, dir1_valid,
  is_passed, scmp_lt, is_read, take_entry,
}
use littlefs.Migrate.Traverse.{
  new_dir1, fetched, traverse1, traverse1_dirs, traverse1_entries, traverse1_threaded,
}
use littlefs.Migrate.Fetched.{Holds, IsFetched, dir1_fetch-IsFetched}
use littlefs.Migrate.Inside.{Inside, dir1_next-Inside}
use littlefs.Ctz.{ctz_traverse, traverse_loop, ctz_index}
use littlefs.Dir.Fetch.{
  scan_entry, crc_entry, scan_kind, scan_fetch, dir_fetch, dir_fetchmatch, try_blocks, scan_loop,
  scan_step, read_rev, read_at,
}
use littlefs.Dir.Fetch.Tags.{scan_start, scan_name}
use littlefs.Alloc.{free_ack}
use littlefs.Mount.{init, is_config, fresh, or_default}
use littlefs.Migrate.Walk.{mount1, superblock1_root, is_version1, same_bytes}
use littlefs.Tests.Device.{Memory, ram, blank}

-- A directory with a file "a" of 100 bytes at block 7, and its checksum.
abbrev stored : List ℕ
stored =
    5 ∷ 0 ∷ 0 ∷ 0 ∷ 33 ∷ 0 ∷ 0 ∷ 0 ∷ 255 ∷ 255 ∷ 255 ∷ 255 ∷ 255 ∷ 255 ∷ 255 ∷ 255 ∷ 17 ∷ 8 ∷ 0 ∷ 1
    ∷ 7 ∷ 0 ∷ 0 ∷ 0 ∷ 100 ∷ 0 ∷ 0 ∷ 0 ∷ 97 ∷ 221 ∷ 228 ∷ 181 ∷ 239 ∷ []

abbrev old_disk : Lfs Memory
old_disk = record {
  bd = record blank { dev = λ b o. if b == 2 then get_or stored o 0xff else 0xff };
  root = pair_null;
  mlist = [];
  seed = 0;
  gstate = gstate_zero;
  globals = record { gpending = gstate_zero; gdelta = gstate_zero };
  free = record { off = 0; size = 0; i = 0; ack = 40; buffer = 0 ∷ 0 ∷ [] };
  name_max = 255;
  file_max = 2147483647;
  attr_max = 1022;
  lfs1 = none;
}

abbrev block_found : Res (Lfs Memory × Dir1) (Unit {0}) → ℕ
block_found (ok _ w) = w.1.pair.0
block_found (err e w) = 0
block_found fault = 0
block_found out_of_fuel = 1

-- The second block of the pair is the good one.
dir1_fetch_found : block_found (dir1_fetch ram (3, 2) (old_disk, new_dir1)) ≡ 2
unfolding dir1_fetch fetch_round take_read take_head take_sum bd1_read bd1_crc dir1_fromle32
    dir1_tole32 dir1_valid is_passed scmp_lt size1 bd_read read_loop from_pcache from_rcache consult
    consult_const crc crc_nibble word_at pair_fromle32 pair_tole32 fromle32 tole32 le32_bytes
    cache_load cache_fill aligndown lfs_min alignup mem_read pair_swap
dir1_fetch_found = refl

dir1_fetch-IsFetched_example :
    Holds (λ _ w. IsFetched 512 (3, 2) w.1) (dir1_fetch ram (3, 2) (old_disk, new_dir1))
dir1_fetch-IsFetched_example = dir1_fetch-IsFetched ram (3, 2) old_disk new_dir1

-- The directory after the fetch.
abbrev root1 : Dir1
root1 = record {
  pair = (2, 3);
  off = 16;
  head = pair_null;
  pos = 0;
  d = record { rev = 5; size = 33; tail = pair_null };
}

root1_size : size1 root1.d ≡ 33
unfolding size1
root1_size = refl

abbrev entry_found : Res (Lfs Memory × Dir1) Entry1 → ℕ × ℕ
entry_found (ok e w) = (e.d.u.1, w.1.off)
entry_found (err e w) = (0, 0)
entry_found fault = (0, 0)
entry_found out_of_fuel = (0, 1)

-- The size of the file, and the offset after its entry.
dir1_next_found : entry_found (dir1_next ram 1 (old_disk, root1)) ≡ (100, 29)
unfolding dir1_next is_read size1 bd1_read take_entry entry1_fromle32 entry1_size bd_read read_loop
    from_pcache from_rcache consult consult_const word_at pair_fromle32 fromle32 cache_load
    cache_fill aligndown lfs_min alignup mem_read
dir1_next_found = refl

dir1_next-Inside_example : Holds (Inside 512) (dir1_next ram 2 (old_disk, root1))
dir1_next-Inside_example =
    dir1_next-Inside ram 2 old_disk root1 (omega (arith, root1_size), omega (arith, root1_size))

-- A superblock of version 1, whose root is the directory above.
abbrev old_superblock : List ℕ
old_superblock =
    1 ∷ 0 ∷ 0 ∷ 0 ∷ 52 ∷ 0 ∷ 0 ∷ 0 ∷ 2 ∷ 0 ∷ 0 ∷ 0 ∷ 3 ∷ 0 ∷ 0 ∷ 0 ∷ 46 ∷ 20 ∷ 0 ∷ 8 ∷ 2 ∷ 0 ∷ 0 ∷ 0
    ∷ 3 ∷ 0 ∷ 0 ∷ 0 ∷ 0 ∷ 2 ∷ 0 ∷ 0 ∷ 40 ∷ 0 ∷ 0 ∷ 0 ∷ 1 ∷ 0 ∷ 1 ∷ 0 ∷ 108 ∷ 105 ∷ 116 ∷ 116 ∷ 108
    ∷ 101 ∷ 102 ∷ 115 ∷ 105 ∷ 16 ∷ 172 ∷ 231 ∷ []

abbrev old_filesystem : Lfs Memory
old_filesystem = record old_disk {
  bd = record blank {
    dev = λ b o.
        if b == 0
        then get_or old_superblock o 0xff
        else (if b == 2 then get_or stored o 0xff else 0xff);
  };
}

abbrev root_found : Res (Lfs Memory) (Unit {0}) → Option Pair
root_found (ok _ s) = s.lfs1
root_found (err e s) = none
root_found fault = none
root_found out_of_fuel = none

mount1_found : root_found (mount1 ram old_filesystem) ≡ some (2, 3)
unfolding mount1 superblock1_root superblock1_fromle32 is_version1 same_bytes init is_config fresh
    or_default cache_zero free_ack fetched dir1_fetch fetch_round take_read take_head take_sum
    bd1_read bd1_crc dir1_fromle32 dir1_tole32 dir1_valid is_passed scmp_lt size1 bd_read read_loop
    from_pcache from_rcache consult consult_const crc crc_nibble word_at pair_fromle32 pair_tole32
    fromle32 tole32 le32_bytes cache_load cache_fill aligndown lfs_min alignup mem_read pair_swap
    npw2
mount1_found = refl

abbrev blocks_seen : Res (Lfs Memory × List ℕ) (Unit {0}) → List ℕ
blocks_seen (ok _ w) = w.1
blocks_seen (err e w) = []
blocks_seen fault = []
blocks_seen out_of_fuel = 999 ∷ []

-- The blocks of the superblock, of the directory and of the file, the last one first.
traverse1_seen :
    blocks_seen (traverse1 ram (λ b bs. ok tt (b ∷ bs)) (2, 3) (old_filesystem, []))
    ≡ 7 ∷ 3 ∷ 2 ∷ 1 ∷ 0 ∷ []
unfolding tag_type1 tag_id scan_entry crc_entry scan_kind scan_fetch scan_name traverse1
    traverse1_dirs traverse1_entries traverse1_threaded entry1_fromle32 entry1_size pair_isnull
    ctz_traverse traverse_loop ctz_index popc dir_fetch dir_fetchmatch try_blocks scan_loop
    scan_step read_rev read_at scan_start tag_isvalid tag_dsize scmp_gt frombe32 superblock1_root
    superblock1_fromle32 is_version1 same_bytes init is_config fresh or_default cache_zero free_ack
    fetched dir1_fetch fetch_round take_read take_head take_sum bd1_read bd1_crc dir1_fromle32
    dir1_tole32 dir1_valid is_passed scmp_lt size1 bd_read read_loop from_pcache from_rcache consult
    consult_const crc crc_nibble word_at pair_fromle32 pair_tole32 fromle32 tole32 le32_bytes
    cache_load cache_fill aligndown lfs_min alignup mem_read pair_swap npw2
traverse1_seen = refl
