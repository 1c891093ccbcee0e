-- ===== src/Dir/Commit/Padding.antt =====
-- The padding of a commit, which is cut into pieces that a checksum tag each covers.
use littlefs.Prelude.{ℕ, ◌+◌, ◌^◌, ◌≤◌, ◌<◌, ◌≡◌, arith}
use littlefs.Util.{lfs_min}
use littlefs.Dir.Commit.{padding_end}
use mathlib.Core.Logic.{◌⊎◌}

-- The end of the padding of one checksum tag, for an offset that is at most the end of the commit,
-- which is a 32-bit number: it is not below the offset and at most 0x3fe bytes above it, and it is
-- the end of the commit or at least 0x3f6 bytes above the offset with eight bytes, a tag and its
-- checksum, left to the end.
pub padding_end_lem :
    (off end : ℕ)
    → off ≤ end
    → end < 2 ^ 32
    → let noff = padding_end off end in
      (off ≤ noff)
      × (noff ≤ off + 0x3fe)
      × ((noff ≡ end) ⊎ ((off + 0x3f6 ≤ noff) × (noff + 8 ≤ end)))
unfolding padding_end lfs_min
padding_end_lem off end h w = ground arith
