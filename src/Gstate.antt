-- ===== src/Gstate.antt =====
-- "operations on global state" of lfs.c, and the two functions of the filesystem layer that change
-- it. `struct lfs_gstate` is xored as three words.
use littlefs.Prelude.{
  ℕ, ◌*◌, ◌^◌, bit_and, bit_or, bit_xor, Bool, not, ◌&&◌, ◌==◌, if◌then◌else◌, u8, u32, u16, add32,
  ◌<<◌,
}
pub mod Laws
use littlefs.Tag.Kind
use littlefs.Tag.{Pair, mktag, tag_size, tag_type1, tag_id, pair_overlap}

pub record Gstate : Type 0 where
  pub tag : ℕ
  pub pair : Pair

abbrev pub gstate_zero : Gstate
gstate_zero = record { tag = 0; pair = (0, 0) }

unfoldable pub gstate_xor : Gstate → Gstate → Gstate
gstate_xor a b = record {
  tag = bit_xor a.tag b.tag;
  pair = (bit_xor a.pair.0 b.pair.0, bit_xor a.pair.1 b.pair.1);
}

unfoldable pub gstate_iszero : Gstate → Bool
gstate_iszero a = (a.tag == 0) && ((a.pair.0 == 0) && (a.pair.1 == 0))

unfoldable pub gstate_hasorphans : Gstate → Bool
gstate_hasorphans a = not (tag_size a.tag == 0)

unfoldable pub gstate_getorphans : Gstate → ℕ
gstate_getorphans a = u8 (tag_size a.tag)

unfoldable pub gstate_hasmove : Gstate → Bool
gstate_hasmove a = not (tag_type1 a.tag == 0)

unfoldable pub gstate_hasmovehere : Gstate → Pair → Bool
gstate_hasmovehere a pair = not (tag_type1 a.tag == 0) && pair_overlap a.pair pair

unfoldable pub gstate_xororphans : Gstate → Gstate → Bool → Gstate
gstate_xororphans a b orphans = record a {
  tag =
      bit_xor a.tag (bit_and (mktag 0x800 0 0) (bit_xor b.tag ((if orphans then 1 else 0) << 31)));
}

unfoldable pub gstate_xormove : Gstate → Gstate → ℕ → Pair → Gstate
gstate_xormove a b id pair =
    let here = not (id == 0x3ff) in
    record a {
      tag = bit_xor a.tag (
          bit_and (mktag 0x7ff 0x3ff 0)
            (bit_xor b.tag (if here then mktag Kind.delete id 0 else 0)));
      pair = (
        bit_xor a.pair.0 (bit_xor b.pair.0 (if here then pair.0 else 0)),
        bit_xor a.pair.1 (bit_xor b.pair.1 (if here then pair.1 else 0)),
      );
    }

-- `gpending` and `gdelta` of `lfs_t`, which the next two functions update together.
pub record Globals : Type 0 where
  pub gpending : Gstate
  pub gdelta : Gstate

-- `orphans` is an `int8_t`, widened to 32 bits.
unfoldable pub fs_preporphans : ℕ → Globals → Globals
unfolding gstate_hasorphans gstate_xororphans
fs_preporphans orphans g =
    let pending = record g.gpending { tag = add32 g.gpending.tag orphans } in
    let has = gstate_hasorphans pending in
    record {
      gpending = gstate_xororphans pending pending has;
      gdelta = gstate_xororphans g.gdelta pending has;
    }

unfoldable pub fs_prepmove : ℕ → Pair → Globals → Globals
unfolding gstate_xormove
fs_prepmove id pair g = record {
  gpending = gstate_xormove g.gpending g.gpending id pair;
  gdelta = gstate_xormove g.gdelta g.gpending id pair;
}
