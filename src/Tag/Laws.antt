-- ===== src/Tag/Laws.antt =====
-- The fields of a tag.
use littlefs.Prelude.{
  ℕ, zero, suc, ◌+◌, ◌-◌, ◌*◌, ◌/◌, ◌%◌, ◌^◌, ◌≤◌, ◌<◌, ◌≡◌, ◌≢◌, refl, ◌∙◌, ap, arith, bit_and,
  bit_or, bit_xor, Bool, true, false, ◌==◌, and_mask, and_field, or_fields, xor_cancel, xor-lt, u32,
  if◌then◌else◌,
}
use littlefs.Tag.{
  mktag, tag_isvalid, tag_isdelete, tag_type1, tag_type3, tag_chunk, tag_id, tag_size, tag_dsize,
}

pub mktag_sum :
    (type id size : ℕ)
    → type < 2 ^ 12
    → id < 2 ^ 10
    → size < 2 ^ 10
    → mktag type id size ≡ type * 2 ^ 20 + id * 2 ^ 10 + size
unfolding mktag
mktag_sum type id size ht hi hs =
    let e : type * 2 ^ 20 % 2 ^ 32 ≡ type * 2 ^ 20 = omega arith in
    let e' : id * 2 ^ 10 % 2 ^ 32 ≡ id * 2 ^ 10 = omega arith in
    let e'' : size % 2 ^ 32 ≡ size = omega arith in
    rw (e, e', e'', or_fields 10 id size hs, or_fields 20 type (id * 2 ^ 10 + size) (omega arith))
      (omega arith)

pub tag_type3_lem : (tag : ℕ) → tag_type3 tag ≡ tag / 2 ^ 20 % 2 ^ 11
unfolding tag_type3
tag_type3_lem tag = omega (arith, and_field 11 20 tag)

pub tag_type1_lem : (tag : ℕ) → tag_type1 tag ≡ tag / 2 ^ 28 % 2 ^ 3 * 2 ^ 8
unfolding tag_type1
tag_type1_lem tag = omega (arith, and_field 3 28 tag)

pub tag_chunk_lem : (tag : ℕ) → tag_chunk tag ≡ tag / 2 ^ 20 % 2 ^ 8
unfolding tag_chunk
tag_chunk_lem tag = omega (arith, and_field 8 20 tag)

pub tag_id_lem : (tag : ℕ) → tag_id tag ≡ tag / 2 ^ 10 % 2 ^ 10
unfolding tag_id
tag_id_lem tag = omega (arith, and_field 10 10 tag)

pub tag_size_lem : (tag : ℕ) → tag_size tag ≡ tag % 2 ^ 10
unfolding tag_size
tag_size_lem tag = and_mask 10 tag

pub tag_isvalid_lem : (tag : ℕ) → tag < 2 ^ 32 → tag_isvalid tag ≡ (tag / 2 ^ 31 == 0)
unfolding tag_isvalid
tag_isvalid_lem tag h = ground (arith, and_field 1 31 tag)

pub tag_isdelete_lem : (tag : ℕ) → tag_isdelete tag ≡ (tag % 2 ^ 10 == 0x3ff)
unfolding tag_isdelete
tag_isdelete_lem tag = ground arith

pub ruleset fields = (arith, tag_type1_lem, tag_type3_lem, tag_chunk_lem, tag_id_lem, tag_size_lem)

-- A tag that `LFS_MKTAG` builds from a type below 2^11, an id below 2^10 and a size below 2^10
-- gives back all three, and is valid.
pub mktag_fields :
    (type id size : ℕ)
    → type < 2 ^ 11
    → id < 2 ^ 10
    → size < 2 ^ 10
    → (tag_type3 (mktag type id size) ≡ type)
      × (tag_id (mktag type id size) ≡ id)
      × (tag_size (mktag type id size) ≡ size)
      × (tag_isvalid (mktag type id size) ≡ true)
mktag_fields type id size ht hi hs =
    let e : mktag type id size ≡ type * 2 ^ 20 + id * 2 ^ 10 + size =
      mktag_sum type id size (omega arith) hi hs in
    rw e (
      omega fields,
      omega fields,
      omega fields,
      ground (arith, tag_isvalid_lem (type * 2 ^ 20 + id * 2 ^ 10 + size)),
    )

-- A tag whose valid bit is clear is what `LFS_MKTAG` builds from its type, its id and its size.
pub mktag-of_fields :
    (tag : ℕ) → tag < 2 ^ 31 → mktag (tag_type3 tag) (tag_id tag) (tag_size tag) ≡ tag
mktag-of_fields tag h =
    mktag_sum (tag_type3 tag) (tag_id tag) (tag_size tag) (omega fields) (omega fields)
      (omega fields)
    ∙ omega fields

-- The space that a 32-bit tag takes in the log is four bytes if its size is 0x3ff, the mark of a
-- delete, and four bytes and its size otherwise.
tag_dsize_lem :
    (tag : ℕ)
    → tag < 2 ^ 32
    → tag_dsize tag ≡ (if tag % 2 ^ 10 == 0x3ff then 4 else 4 + tag % 2 ^ 10)
unfolding tag_dsize
tag_dsize_lem tag h =
    ground (arith, and_mask 10 ((tag + 1) % 2 ^ 32), and_mask 10 ((tag + 0) % 2 ^ 32))
