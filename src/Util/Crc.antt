-- ===== src/Util/Crc.antt =====
-- `lfs_crc`: it runs on over parts of its input, a word that is followed by its own bytes gives 0,
-- and the table is that of the reflected polynomial.
use littlefs.Prelude.{
  ℕ, zero, suc, ◌+◌, ◌*◌, ◌/◌, ◌%◌, ◌^◌, ◌<◌, ◌≡◌, refl, ◌∙◌, ap, ap₂, sym, arith, bit_and, bit_xor,
  List, [], ◌∷◌, ◌++◌, get_or, if◌then◌else◌, ◌==◌, and_mask, xor-mod, xor-div, xor_self, xor-zero,
  zero-xor, xor-div-two, xor-mod-two, passes_below, passes_below-lt, eq_below, ltb, ltb→lt,
  xor_right_comm, xor_swap, ◌>>>◌, xor_split, xor-lt,
}
use littlefs.Util.{crc, crc_nibble, tole32, rtable}

pub crc-append : (c : ℕ) (xs ys : List ℕ) → crc c (xs ++ ys) ≡ crc (crc c xs) ys
unfolding crc
crc-append c [] ys = refl
crc-append c (x ∷ xs) ys = crc-append (crc_nibble (crc_nibble c x) (x >>> 4)) xs ys

-- A nibble that is the low nibble of the checksum shifts it out.
crc_nibble-same : (c x : ℕ) → x % 16 ≡ c % 16 → crc_nibble c x ≡ c / 16
unfolding crc_nibble
crc_nibble-same c x h =
    let e : bit_and (bit_xor c x) 15 ≡ 0 =
      and_mask 4 (bit_xor c x)
      ∙ xor-mod 4 c x
      ∙ ap (λ (t : ℕ). bit_xor (c % 16) t) h
      ∙ xor_self (c % 16) in
    rw e (xor-zero (c / 16))

byte-same : (c x : ℕ) → x ≡ c % 256 → crc_nibble (crc_nibble c x) (x / 2 ^ 4) ≡ c / 256
byte-same c x h =
    rw (crc_nibble-same c x (omega arith), crc_nibble-same (c / 16) (x / 16) (omega arith))
      (omega arith)

-- The checksum of a checksum's own bytes is 0.
pub crc-tole32 : (c : ℕ) → c < 2 ^ 32 → crc c (tole32 c) ≡ 0
unfolding crc tole32
crc-tole32 c h =
    rw
      (
        byte-same c (c % 2 ^ 8) (omega arith),
        byte-same (c / 256) (c / 2 ^ 8 % 2 ^ 8) (omega arith),
        byte-same (c / 256 / 256) (c / 2 ^ 16 % 2 ^ 8) (omega arith),
        byte-same (c / 256 / 256 / 256) (c / 2 ^ 24 % 2 ^ 8) (omega arith),
      )
      (omega arith)

abbrev pub AreBytes : List ℕ → Type 0
AreBytes [] = Unit {0}
AreBytes (x ∷ xs) = (x < 256) × AreBytes xs

abbrev poly : ℕ
poly = 0xedb88320

pick : ℕ → ℕ
pick b = if b == 1 then poly else 0

-- The definition of the checksum, bit by bit: a division of polynomials over GF(2).
crc_bit : ℕ → ℕ
unfolding pick
crc_bit c = bit_xor (c / 2) (pick (c % 2))

crc_four : ℕ → ℕ
crc_four c = crc_bit (crc_bit (crc_bit (crc_bit c)))

pub crc_bitwise : ℕ → List ℕ → ℕ
unfolding crc_four crc_bit
crc_bitwise c [] = c
crc_bitwise c (x ∷ xs) = crc_bitwise (crc_four (crc_four (bit_xor c x))) xs

pick-add : (x y : ℕ) → x < 2 → y < 2 → pick ((x + y) % 2) ≡ bit_xor (pick x) (pick y)
unfolding pick
pick-add zero zero p q = refl
pick-add zero (suc zero) p q = refl
pick-add (suc zero) zero p q = refl
pick-add (suc zero) (suc zero) p q = refl
pick-add x (suc (suc y)) p q = absurd (omega arith)
pick-add (suc (suc x)) y p q = absurd (omega arith)

crc_bit-xor : (a b : ℕ) → crc_bit (bit_xor a b) ≡ bit_xor (crc_bit a) (crc_bit b)
unfolding crc_bit
crc_bit-xor a b =
    rw (xor-div-two a b, xor-mod-two a b, pick-add (a % 2) (b % 2) (omega arith) (omega arith))
      (xor_swap (a / 2) (b / 2) (pick (a % 2)) (pick (b % 2)))

crc_four-xor : (a b : ℕ) → crc_four (bit_xor a b) ≡ bit_xor (crc_four a) (crc_four b)
unfolding crc_four
crc_four-xor a b = simp crc_bit-xor

crc_bit-double : (a : ℕ) → crc_bit (a * 2) ≡ a
unfolding crc_bit
crc_bit-double a =
    let e : a * 2 % 2 ≡ 0 = omega arith in
    let e' : a * 2 / 2 ≡ a = omega arith in rw (e, e') (xor-zero a)

-- Four bits at once are the table.
crc_four-table : (i : ℕ) → i < 16 → crc_four i ≡ get_or rtable i 0
unfolding crc_four crc_bit passes_below
crc_four-table i h = eq_below crc_four (λ k. get_or rtable k 0) 16 i refl h

crc_four-shift : (a : ℕ) → crc_four (a * 16) ≡ a
unfolding crc_four
crc_four-shift a = let e : a * 16 ≡ a * 2 * 2 * 2 * 2 = omega arith in rw e (simp crc_bit-double)

crc_four-eq : (t : ℕ) → crc_four t ≡ bit_xor (t / 16) (get_or rtable (t % 16) 0)
crc_four-eq t =
    let high = t / 16 in
    let low : t % 16 < 16 = omega arith in
    let split : bit_xor (high * 16) (t % 16) ≡ t =
      ap₂ bit_xor (omega arith) (omega arith)
      ∙ xor_split 4 high 0 0 (t % 16) (omega arith) low
      ∙ rw (xor-zero high, zero-xor (t % 16)) (omega arith) in
    ap crc_four (sym split)
    ∙ crc_four-xor (high * 16) (t % 16)
    ∙ ap₂ bit_xor (crc_four-shift high) (crc_four-table (t % 16) low)

crc_nibble-eq : (c x : ℕ) → crc_four (bit_xor c x) ≡ bit_xor (crc_nibble c x) (x / 16)
unfolding crc_nibble
crc_nibble-eq c x =
    crc_four-eq (bit_xor c x)
    ∙ ap₂ bit_xor (xor-div 4 c x)
        (ap (λ (t : ℕ). get_or rtable t 0) (sym (and_mask 4 (bit_xor c x))))
    ∙ xor_right_comm (c / 16) (x / 16) (get_or rtable (bit_and (bit_xor c x) 15) 0)

-- On bytes, from any start, the table-driven `lfs_crc` computes the bitwise division by the
-- reflected polynomial 0xedb88320.
pub crc-eq-crc_bitwise : (c : ℕ) (xs : List ℕ) → AreBytes xs → crc c xs ≡ crc_bitwise c xs
unfolding crc crc_bitwise
crc-eq-crc_bitwise c [] h = refl
crc-eq-crc_bitwise c (x ∷ xs) h =
    let high : x / 16 / 16 ≡ 0 = omega (arith, h.0) in
    let e : crc_four (crc_four (bit_xor c x)) ≡ crc_nibble (crc_nibble c x) (x / 16) =
      ap crc_four (crc_nibble-eq c x)
      ∙ crc_nibble-eq (crc_nibble c x) (x / 16)
      ∙ rw high (xor-zero (crc_nibble (crc_nibble c x) (x / 16))) in
    crc-eq-crc_bitwise (crc_nibble (crc_nibble c x) (x / 16)) xs h.1
    ∙ ap (λ (t : ℕ). crc_bitwise t xs) (sym e)

rtable-lt : (i : ℕ) → i < 16 → get_or rtable i 0 < 2 ^ 32
unfolding passes_below
rtable-lt i h = ltb→lt _ _ (passes_below-lt (λ k. ltb (get_or rtable k 0) (2 ^ 32)) 16 i refl h)

crc_nibble-lt : (c x : ℕ) → c < 2 ^ 32 → crc_nibble c x < 2 ^ 32
unfolding crc_nibble
crc_nibble-lt c x h =
    xor-lt 32 (c / 16) (get_or rtable (bit_and (bit_xor c x) 15) 0) (omega arith)
      (rtable-lt (bit_and (bit_xor c x) 15) (omega (arith, and_mask 4 (bit_xor c x))))

pub crc-lt : (c : ℕ) (xs : List ℕ) → c < 2 ^ 32 → crc c xs < 2 ^ 32
unfolding crc
crc-lt c [] h = h
crc-lt c (x ∷ xs) h =
    crc-lt (crc_nibble (crc_nibble c x) (x >>> 4)) xs
      (crc_nibble-lt (crc_nibble c x) (x / 16) (crc_nibble-lt c x h))

-- Data that is followed by its checksum, in little-endian order, has checksum 0, whatever the data
-- and whatever 32-bit word the checksum starts from: this is the test that `lfs_dir_commitcrc`
-- makes of what it reads back.
pub crc_residue : (c : ℕ) (xs : List ℕ) → c < 2 ^ 32 → crc c (xs ++ tole32 (crc c xs)) ≡ 0
crc_residue c xs h = crc-append c xs (tole32 (crc c xs)) ∙ crc-tole32 (crc c xs) (crc-lt c xs h)
