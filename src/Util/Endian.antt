-- ===== src/Util/Endian.antt =====
-- The conversions between a word and the bytes that lie in memory.
use littlefs.Prelude.{
  ℕ, ◌+◌, ◌*◌, ◌%◌, ◌^◌, ◌<◌, ◌≡◌, ◌∙◌, arith, bit_or, List, ◌++◌, or_fields, u8, ◌>>>◌, ◌<<◌,
}
use littlefs.Util.{fromle32, tole32, frombe32, tobe32}

or_bytes :
    (d c b a : ℕ)
    → a < 2 ^ 8
    → b < 2 ^ 8
    → c < 2 ^ 8
    → d < 2 ^ 8
    → bit_or (d * 2 ^ 24) (bit_or (c * 2 ^ 16) (bit_or (b * 2 ^ 8) a))
      ≡ d * 2 ^ 24 + (c * 2 ^ 16 + (b * 2 ^ 8 + a))
or_bytes d c b a ha hb hc hd = rw (
  or_fields 8 b a ha,
  or_fields 16 c (b * 2 ^ 8 + a) (omega arith),
  or_fields 24 d (c * 2 ^ 16 + (b * 2 ^ 8 + a)) (omega arith),
)

shift_bytes :
    (b3 b2 b1 b0 : ℕ)
    → b0 < 2 ^ 8
    → b1 < 2 ^ 8
    → b2 < 2 ^ 8
    → b3 < 2 ^ 8
    → bit_or (b3 << 24) (bit_or (b2 << 16) (bit_or (b1 << 8) b0))
      ≡ b3 * 2 ^ 24 + (b2 * 2 ^ 16 + (b1 * 2 ^ 8 + b0))
shift_bytes b3 b2 b1 b0 h0 h1 h2 h3 =
    let e1 : b1 * 2 ^ 8 % 2 ^ 32 ≡ b1 * 2 ^ 8 = omega arith in
    let e2 : b2 * 2 ^ 16 % 2 ^ 32 ≡ b2 * 2 ^ 16 = omega arith in
    let e3 : b3 * 2 ^ 24 % 2 ^ 32 ≡ b3 * 2 ^ 24 = omega arith in
    rw (e3, e2, e1) (or_bytes b3 b2 b1 b0 h0 h1 h2 h3)

-- The four bytes of a word make up the word.
word_of_bytes :
    (a : ℕ)
    → a < 2 ^ 32
    → bit_or
        (u8 (a >>> 24) << 24)
        (bit_or (u8 (a >>> 16) << 16) (bit_or (u8 (a >>> 8) << 8) (u8 a)))
      ≡ a
word_of_bytes a h =
    shift_bytes (u8 (a >>> 24)) (u8 (a >>> 16)) (u8 (a >>> 8)) (u8 a) (omega arith) (omega arith)
      (omega arith) (omega arith)
    ∙ omega arith

-- A 32-bit word that is converted to little-endian bytes and back is the same, whatever bytes
-- follow it.
pub fromle32-tole32 : (a : ℕ) (rest : List ℕ) → a < 2 ^ 32 → fromle32 (tole32 a ++ rest) ≡ a
unfolding fromle32 tole32
fromle32-tole32 a rest h = word_of_bytes a h

-- A 32-bit word that is converted to big-endian bytes and back is the same, whatever bytes follow
-- it.
frombe32-tobe32 : (a : ℕ) (rest : List ℕ) → a < 2 ^ 32 → frombe32 (tobe32 a ++ rest) ≡ a
unfolding frombe32 tobe32
frombe32-tobe32 a rest h = word_of_bytes a h
