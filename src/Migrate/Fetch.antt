-- ===== src/Migrate/Fetch.antt =====
-- How a metadata pair of version 1 is read: `lfs1_dir_fetch` and `lfs1_dir_next`.
use littlefs.Prelude.{
  ℕ, zero, suc, ◌+◌, ◌-◌, bit_and, Bool, true, false, ◌&&◌, ◌||◌, some, List, ltb, leb, ◌==◌,
  if◌then◌else◌, add32, sub32, ◌^◌,
}
use littlefs.Util.{crc}
use littlefs.Exec.{
  noent, corrupt, M, Try, got, failed, pure, throw, no_fuel, attempt, get, modify, zoom, ◌>>=◌,
  ◌>>◌,
}
use littlefs.Config.{Config, block_null}
use littlefs.Bd.{bd_read}
use littlefs.Tag.{Pair, pair_swap}
use littlefs.Lfs.{Lfs, on_bd}
use littlefs.Migrate.Disk1.{
  Entry1, DiskDir1, Dir1, dir1_bytes, entry1_bytes, dir1_fromle32, dir1_tole32, entry1_fromle32,
  size1, entry1_size,
}

-- `lfs_scmp(a, b) < 0`: the sign of the difference as an `int`.
unfoldable pub scmp_lt : ℕ → ℕ → Bool
scmp_lt a b = leb (2 ^ 31) (sub32 a b)

-- `lfs1_dir_t *dir` is the second part of the state, which a call keeps when it fails.
abbrev pub in_lfs1 : {D A S : Type 0} → M (Lfs D) A → M (Lfs D × S) A
in_lfs1 m = zoom (λ s. s.0) (λ s l. (l, s.1)) m

module _ {D : Type 0} (cfg : Config D) where
  open cfg use {block_size}

  unfoldable pub bd1_read : ℕ → ℕ → ℕ → M (Lfs D) (List ℕ)
  bd1_read block off size = do s ← get; on_bd (bd_read cfg (some s.bd.pcache) size block off size)

  -- The checksum goes on over `left` bytes from `off` on.
  unfoldable pub bd1_crc : ℕ → ℕ → ℕ → ℕ → M (Lfs D) ℕ
  bd1_crc block off zero c = pure c
  bd1_crc block off (suc left) c = do
    bytes ← bd1_read block off 1
    bd1_crc block (add32 off 1) left (crc c bytes)

  -- The directory that a good block leaves.
  unfoldable pub dir1_valid : Pair → DiskDir1 → Dir1 → Dir1
  dir1_valid tpair test dir = record dir { pair = tpair; off = dir1_bytes; d = test }

  -- Whether a block is passed over before its checksum is read: it is older than a good one, or it
  -- has no size that a block can have.
  unfoldable pub is_passed : Bool → DiskDir1 → Dir1 → Bool
  unfolding scmp_lt
  is_passed valid test dir =
      (valid && scmp_lt test.rev dir.d.rev)
      || (ltb (size1 test) (dir1_bytes + 4) || ltb block_size (size1 test))

  -- "if (crc != 0)": what the checksum of a block says of it.
  unfoldable pub take_sum : Bool → Pair → DiskDir1 → Try ℕ → M (Lfs D × Dir1) Bool
  unfolding dir1_valid
  take_sum valid tpair test sum = elim sum [
    | failed corrupt ↦ pure valid
    | failed e ↦ throw e
    | got c ↦
        if c == 0 then (do modify λ s. (s.0, dir1_valid tpair test s.1); pure true) else pure valid
  ]

  -- The head of a block has been read.
  unfoldable pub take_head : Bool → Pair → DiskDir1 → M (Lfs D × Dir1) Bool
  unfolding take_sum is_passed
  take_head valid tpair test = do
    s ← get
    if is_passed valid test s.1 then pure valid else do
      sum ← in_lfs1 (
          attempt (
            bd1_crc tpair.0 dir1_bytes (size1 test - dir1_bytes)
              (crc block_null (dir1_tole32 test))))
      take_sum valid tpair test sum

  unfoldable pub take_read : Bool → Pair → Try (List ℕ) → M (Lfs D × Dir1) Bool
  unfolding take_head
  take_read valid tpair read = elim read [
    | failed corrupt ↦ pure valid
    | failed e ↦ throw e
    | got bytes ↦ take_head valid tpair (dir1_fromle32 bytes)
  ]

  -- One round of the loop over the two blocks, of which this one is the first of `tpair`.
  unfoldable pub fetch_round : Bool → Pair → M (Lfs D × Dir1) Bool
  unfolding take_read
  fetch_round valid tpair = do
    read ← in_lfs1 (attempt (bd1_read tpair.0 0 dir1_bytes))
    take_read valid tpair read

  unfoldable pub dir1_fetch : Pair → M (Lfs D × Dir1) (Unit {0})
  unfolding fetch_round
  dir1_fetch pair = do
    first ← fetch_round false pair
    second ← fetch_round first (pair_swap pair)
    if second then pure tt else throw corrupt

  -- "dir->off + sizeof(entry->d) > (0x7fffffff & dir->d.size)-4"
  unfoldable pub is_read : Dir1 → Bool
  is_read dir = ltb (sub32 (size1 dir.d) 4) (add32 dir.off entry1_bytes)

  -- The loop goes on in the pair that has been fetched.
  unfoldable pub enter_tail : Dir1 → Dir1
  enter_tail dir = record dir { off = dir1_bytes; pos = add32 dir.pos (dir1_bytes + 4) }

  -- The entry has been read.
  unfoldable pub take_entry : List ℕ → M (Lfs D × Dir1) Entry1
  take_entry bytes = do
    s ← get
    let dir = s.1
    let entry : Entry1 = record { off = dir.off; d = entry1_fromle32 bytes }
    modify λ s. (
      s.0,
      record dir {
        off = add32 dir.off (entry1_size entry);
        pos = add32 dir.pos (entry1_size entry);
      },
    )
    pure entry

  -- `lfs1_dir_next`, on fuel, which bounds the number of pairs that the directory still has.
  unfoldable pub dir1_next : ℕ → M (Lfs D × Dir1) Entry1
  unfolding is_read enter_tail take_entry
  dir1_next zero = no_fuel
  dir1_next (suc fuel) = do
    s ← get
    let dir = s.1
    if is_read dir
        then (if bit_and 0x80000000 dir.d.size == 0
            then throw noent
            else do dir1_fetch dir.d.tail; modify λ s. (s.0, enter_tail s.1); dir1_next fuel)
        else (do bytes ← in_lfs1 (bd1_read dir.pair.0 dir.off entry1_bytes); take_entry bytes)
