-- ===== src/Migrate/Inside.antt =====
-- Where `lfs1_dir_next` reads.
use littlefs.Prelude.{
  ℕ, zero, suc, ◌+◌, ◌^◌, ◌≤◌, ◌<◌, ◌≡◌, arith, false, Bool-cases, inl, inr, ◌==◌, and_comm,
  and_mask, bit_and, add32,
}
use littlefs.Exec.{◌>>◌, modify}
use littlefs.Config.{Config}
use littlefs.Lfs.{Lfs}
use littlefs.Migrate.Disk1.{Entry1, Dir1, dir1_bytes, entry1_bytes, size1}
use littlefs.Migrate.Fetch.{bd1_read, dir1_fetch, is_read, enter_tail, take_entry, dir1_next}
use littlefs.Migrate.Fetched.{Holds, Holds-bind, Holds-in_lfs1, IsFetched, dir1_fetch-IsFetched}

-- The size of a directory is one that a block can have.
abbrev pub IsSized : ℕ → Dir1 → Type 0
IsSized block_size dir = (dir1_bytes + 4 ≤ size1 dir.d) × (size1 dir.d ≤ block_size)

-- The entry, whose end the code computes in 32 bits, lies before the checksum of the block.
abbrev pub Inside : {D : Type 0} → ℕ → Entry1 → Lfs D × Dir1 → Type 0
Inside block_size entry w =
    IsSized block_size w.1 × (add32 entry.off entry1_bytes + 4 ≤ size1 w.1.d)

module _ {D : Type 0} (cfg : Config D) where
  open cfg use {block_size}

  is_read-Inside :
      (dir : Dir1)
      → IsSized block_size dir
      → is_read cfg dir ≡ false
      → add32 dir.off entry1_bytes + 4 ≤ size1 dir.d
  unfolding is_read size1
  is_read-Inside dir z h =
      let small : size1 dir.d < 2 ^ 31 =
        omega (arith, and_comm 0x7fffffff dir.d.size, and_mask 31 dir.d.size) in
      ground arith

  -- If `lfs1_dir_next` finds an entry, from a directory whose size without its top bit is at least
  -- 20 and at most the size of a block, through whatever pairs it goes and whatever the device
  -- returns: the size of the directory that it leaves is again such a size, and the twelve bytes of
  -- the entry end, as 32 bits count, four bytes or more before that size.
  pub dir1_next-Inside :
      (fuel : ℕ) (s : Lfs D) (dir : Dir1)
      → IsSized block_size dir
      → Holds (Inside block_size) (dir1_next cfg fuel (s, dir))
  unfolding dir1_next enter_tail take_entry
  dir1_next-Inside zero s dir z = tt
  dir1_next-Inside (suc fuel) s dir z = elim (Bool-cases (is_read cfg dir)) [
    | inl read ↦ elim (Bool-cases (bit_and 0x80000000 dir.d.size == 0)) [
      | inl last ↦ rw (read, last) tt
      | inr on ↦
          rw (read, on)
            (Holds-bind (λ _ w. IsFetched block_size dir.d.tail w.1) (Inside block_size)
              (dir1_fetch cfg dir.d.tail (s, dir))
              (λ _. modify (λ w. (w.0, enter_tail cfg w.1)) >> dir1_next cfg fuel)
              (dir1_fetch-IsFetched cfg dir.d.tail s dir)
              λ _ w f. dir1_next-Inside fuel w.0 (enter_tail cfg w.1) (f.least, f.most))
    ]
    | inr more ↦ rw more (
        Holds-in_lfs1 (Inside block_size) dir (bd1_read cfg dir.pair.0 dir.off entry1_bytes s)
          (take_entry cfg) λ bytes s'. (z, is_read-Inside dir z more))
  ]
