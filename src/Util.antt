-- ===== src/Util.antt =====
-- lfs_util.h and lfs_util.c: arithmetic on 32-bit words, byte orders and the checksum. Where the
-- header offers a compiler builtin or the C written out under LFS_NO_INTRINSICS, this is the
-- latter.
pub mod Align
pub mod Bytes
pub mod Crc
pub mod Endian
pub mod Ones
pub mod Power
use littlefs.Prelude.{
  ℕ, zero, suc, ◌+◌, ◌-◌, ◌*◌, ◌/◌, ◌%◌, ◌^◌, bit_and, bit_or, bit_xor, Bool, true, false, List, [],
  ◌∷◌, ltb, if◌then◌else◌, get_or, u8, u32, add32, sub32, mul32, ◌<<◌, ◌>>>◌,
}

unfoldable pub lfs_max : ℕ → ℕ → ℕ
lfs_max a b = if ltb b a then a else b

unfoldable pub lfs_min : ℕ → ℕ → ℕ
lfs_min a b = if ltb a b then a else b

unfoldable pub aligndown : ℕ → ℕ → ℕ
aligndown a alignment = sub32 a (a % alignment)

unfoldable pub alignup : ℕ → ℕ → ℕ
unfolding aligndown
alignup a alignment = aligndown (sub32 (add32 a alignment) 1) alignment

-- One line `s = (a > top) << log; a >>= s; r |= s;` of `lfs_npw2`.
unfoldable pub npw2_step : ℕ → ℕ → ℕ × ℕ → ℕ × ℕ
npw2_step top log (a, r) = let s = (if ltb top a then 1 else 0) << log in (a >>> s, bit_or r s)

unfoldable pub npw2 : ℕ → ℕ
unfolding npw2_step
npw2 a =
    let (a', r) =
      npw2_step 0x3 1 (npw2_step 0xf 2 (npw2_step 0xff 3 (npw2_step 0xffff 4 (sub32 a 1, 0)))) in
    add32 (bit_or r (a' >>> 1)) 1

unfoldable pub ctz : ℕ → ℕ
unfolding npw2
ctz a = sub32 (npw2 (add32 (bit_and a (sub32 0 a)) 1)) 1

unfoldable pub popc : ℕ → ℕ
popc a =
    let a1 = sub32 a (bit_and (a >>> 1) 0x55555555) in
    let a2 = add32 (bit_and a1 0x33333333) (bit_and (a1 >>> 2) 0x33333333) in
    mul32 (bit_and (add32 a2 (a2 >>> 4)) 0xf0f0f0f) 0x1010101 >>> 24

-- `lfs_scmp(a, b) > 0`: the sign of the difference as an `int`.
unfoldable pub scmp_gt : ℕ → ℕ → Bool
scmp_gt a b = let d = sub32 a b in if ltb 0 d then ltb d (2 ^ 31) else false

-- The four bytes of a word as they lie in memory, lowest address first, on a little-endian machine.
unfoldable pub le32_bytes : ℕ → List ℕ
le32_bytes a = u8 a ∷ u8 (a >>> 8) ∷ u8 (a >>> 16) ∷ u8 (a >>> 24) ∷ []

-- The word at the front of a buffer, `fromle32` and `frombe32` of what lies there.
unfoldable pub fromle32 : List ℕ → ℕ
fromle32 bytes =
    bit_or (get_or bytes 3 0 << 24)
      (bit_or (get_or bytes 2 0 << 16) (bit_or (get_or bytes 1 0 << 8) (get_or bytes 0 0)))

unfoldable pub frombe32 : List ℕ → ℕ
frombe32 bytes =
    bit_or (get_or bytes 0 0 << 24)
      (bit_or (get_or bytes 1 0 << 16) (bit_or (get_or bytes 2 0 << 8) (get_or bytes 3 0)))

-- What `lfs_tole32` and `lfs_tobe32` leave in memory.
unfoldable pub tole32 : ℕ → List ℕ
unfolding le32_bytes
tole32 a = le32_bytes a

unfoldable pub tobe32 : ℕ → List ℕ
tobe32 a = u8 (a >>> 24) ∷ u8 (a >>> 16) ∷ u8 (a >>> 8) ∷ u8 a ∷ []

abbrev pub rtable : List ℕ
rtable =
    0x00000000 ∷ 0x1db71064 ∷ 0x3b6e20c8 ∷ 0x26d930ac ∷ 0x76dc4190 ∷ 0x6b6b51f4 ∷ 0x4db26158
    ∷ 0x5005713c ∷ 0xedb88320 ∷ 0xf00f9344 ∷ 0xd6d6a3e8 ∷ 0xcb61b38c ∷ 0x9b64c2b0 ∷ 0x86d3d2d4
    ∷ 0xa00ae278 ∷ 0xbdbdf21c ∷ []

-- One of the two lines of the loop of `lfs_crc`.
unfoldable pub crc_nibble : ℕ → ℕ → ℕ
crc_nibble crc x = bit_xor (crc >>> 4) (get_or rtable (bit_and (bit_xor crc x) 0xf) 0)

unfoldable pub crc : ℕ → List ℕ → ℕ
unfolding crc_nibble
crc c [] = c
crc c (x ∷ xs) = crc (crc_nibble (crc_nibble c x) (x >>> 4)) xs
