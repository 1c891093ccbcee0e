-- ===== src/Tag.antt =====
-- "operations on 32-bit entry tags" and "operations on block pairs" of lfs.c, and the tag types of
-- lfs.h. A tag is a word: a valid bit, 11 bits of type, 10 bits of id and 10 bits of size.
pub mod Kind
pub mod Laws
use littlefs.Prelude.{
  ℕ, ◌+◌, ◌-◌, ◌*◌, ◌^◌, bit_and, bit_or, Bool, not, ◌&&◌, ◌||◌, ltb, ◌==◌, if◌then◌else◌, u32, u16,
  u8, add32, ◌<<◌, ◌>>>◌,
}
use littlefs.Config.{block_null}

unfoldable pub mktag : ℕ → ℕ → ℕ → ℕ
mktag type id size = bit_or (type << 20) (bit_or (id << 10) (u32 size))

unfoldable pub tag_isvalid : ℕ → Bool
tag_isvalid tag = bit_and tag 0x80000000 == 0

-- `>>` of an `int32_t` copies the sign bit.
unfoldable pub shift_right_signed : ℕ → ℕ → ℕ
shift_right_signed x k = if ltb x (2 ^ 31) then x >>> k else (x >>> k) + (2 ^ 32 - 2 ^ (32 - k))

unfoldable pub tag_isdelete : ℕ → Bool
unfolding shift_right_signed
tag_isdelete tag = shift_right_signed (tag << 22) 22 == 0xffffffff

unfoldable pub tag_type1 : ℕ → ℕ
tag_type1 tag = u16 (bit_and tag 0x70000000 >>> 20)

unfoldable pub tag_type3 : ℕ → ℕ
tag_type3 tag = u16 (bit_and tag 0x7ff00000 >>> 20)

unfoldable pub tag_chunk : ℕ → ℕ
tag_chunk tag = u8 (bit_and tag 0x0ff00000 >>> 20)

-- The chunk read as an `int8_t`, widened to 32 bits as the additions that use it do.
unfoldable pub tag_splice : ℕ → ℕ
unfolding tag_chunk
tag_splice tag = let c = tag_chunk tag in if ltb c 128 then c else c + (2 ^ 32 - 2 ^ 8)

unfoldable pub tag_id : ℕ → ℕ
tag_id tag = u16 (bit_and tag 0x000ffc00 >>> 10)

unfoldable pub tag_size : ℕ → ℕ
tag_size tag = bit_and tag 0x000003ff

-- A delete tag has the size of all ones, and no data.
unfoldable pub tag_dsize : ℕ → ℕ
unfolding tag_size tag_isdelete
tag_dsize tag = add32 4 (tag_size (add32 tag (if tag_isdelete tag then 1 else 0)))

-- `lfs_block_t pair[2]`
abbrev pub Pair : Type 0
Pair = ℕ × ℕ

abbrev pub pair_null : Pair
pair_null = (block_null, block_null)

unfoldable pub pair_swap : Pair → Pair
pair_swap (a, b) = (b, a)

unfoldable pub pair_isnull : Pair → Bool
pair_isnull (a, b) = (a == block_null) || (b == block_null)

-- `lfs_pair_cmp(a, b) == 0`: the pairs share a block.
unfoldable pub pair_overlap : Pair → Pair → Bool
pair_overlap (a0, a1) (b0, b1) = (a0 == b0) || ((a1 == b1) || ((a0 == b1) || (a1 == b0)))

unfoldable pub pair_sync : Pair → Pair → Bool
pair_sync (a0, a1) (b0, b1) = ((a0 == b0) && (a1 == b1)) || ((a0 == b1) && (a1 == b0))
