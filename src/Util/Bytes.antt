-- ===== src/Util/Bytes.antt =====
-- `lfs_popc`: the sums of neighbouring fields of a word, first of one digit, then of two and four.
use littlefs.Prelude.{
  ℕ, zero, suc, ◌+◌, ◌-◌, ◌*◌, ◌/◌, ◌%◌, ◌^◌, ◌≤◌, ◌<◌, ◌≡◌, refl, ◌∙◌, ap, sym, arith, bit_and,
  and_split, and_mask, add32, sub32, mul32, ◌>>>◌, ◌&&◌, leb, ltb, ◌==◌, ==_iff, passes_below,
  passes_below-lt, true, Bool,
}
use native.Mathlib.Nat.{pow-suc}
use littlefs.Util.{popc}
use littlefs.Util.Ones.{ones, ones-le}

ones_split : (k w q r : ℕ) → r < 2 ^ k → ones (k + w) (q * 2 ^ k + r) ≡ ones k r + ones w q
unfolding ones
ones_split zero w q r h =
    let e : q * 2 ^ 0 + r ≡ q = omega arith in
    let e' : zero + w ≡ w = omega arith in rw (e, e') (omega arith)
ones_split (suc k) w q r h =
    let e : suc k + w ≡ suc (k + w) = omega arith in
    let d : q * 2 ^ suc k ≡ 2 * (q * 2 ^ k) = omega (arith, ap (λ (t : ℕ). q * t) (pow-suc 2 k)) in
    let e' : (q * 2 ^ suc k + r) / 2 ≡ q * 2 ^ k + r / 2 = omega arith in
    let e'' : (q * 2 ^ suc k + r) % 2 ≡ r % 2 = omega arith in
    rw (e, e', e'') (omega (arith, ones_split k w q (r / 2) (omega (arith, pow-suc 2 k))))

abbrev word : ℕ → ℕ → ℕ → ℕ → ℕ
word a b c d = ((a * 256 + b) * 256 + c) * 256 + d

-- What the three steps make of a byte.
pairs : ℕ → ℕ
pairs x = x - bit_and (x / 2) 0x55

nibbles : ℕ → ℕ
nibbles x = bit_and x 0x33 + bit_and (x / 4) 0x33

total : ℕ → ℕ
total x = (x + x / 16) % 16

byte_test : ℕ → Bool
byte_test x =
    leb (bit_and (x / 2) 0x55) x
    && (ltb (pairs x) 256
        && (leb (nibbles (pairs x)) 0x44
            && (leb (nibbles (pairs x) % 16) 4 && (total (nibbles (pairs x)) == ones 8 x))))

byte_table : passes_below byte_test 256 ≡ true
unfolding passes_below byte_test pairs nibbles total ones
byte_table = refl

record IsByte (x : ℕ) : Type 0 where
  no_borrow : bit_and (x / 2) 0x55 ≤ x
  pairs_lt : pairs x < 256
  nibbles_le : nibbles (pairs x) ≤ 0x44
  low_le : nibbles (pairs x) % 16 ≤ 4
  total_eq : total (nibbles (pairs x)) ≡ ones 8 x

IsByte-lt : (x : ℕ) → x < 256 → IsByte x
unfolding byte_test
IsByte-lt x h = ground (arith, passes_below-lt byte_test 256 x byte_table h)

-- A mask of fields of a word that is shifted by one or two digits.
same_below : (mask m : ℕ) → Bool
same_below mask m = passes_below (λ t. bit_and t mask == bit_and (t % m) mask) 256

half_table : same_below 0x55 128 ≡ true
unfolding same_below passes_below
half_table = refl

quarter_table : same_below 0x33 64 ≡ true
unfolding same_below passes_below
quarter_table = refl

same_mask :
    (mask m t : ℕ) → same_below mask m ≡ true → t < 256 → bit_and t mask ≡ bit_and (t % m) mask
unfolding same_below
same_mask mask m t table h =
    (==_iff (bit_and t mask) (bit_and (t % m) mask)).0
      (passes_below-lt (λ k. bit_and k mask == bit_and (k % m) mask) 256 t table h)

half_step :
    (q r p : ℕ)
    → r < 256
    → bit_and ((q * 256 + r) / 2) (p * 256 + 0x55) ≡ bit_and (q / 2) p * 256 + bit_and (r / 2) 0x55
half_step q r p h =
    let t : ℕ = q % 2 * 128 + r / 2 in
    let e : (q * 256 + r) / 2 ≡ q / 2 * 256 + t = omega arith in
    let e' : t % 128 ≡ r / 2 = omega arith in
    let low : bit_and t 0x55 ≡ bit_and (r / 2) 0x55 =
      same_mask 0x55 128 t half_table (omega arith) ∙ ap (λ (k : ℕ). bit_and k 0x55) e' in
    ap (λ (k : ℕ). bit_and k (p * 256 + 0x55)) e
    ∙ and_split 8 (q / 2) p t 0x55 (omega arith) (omega arith)
    ∙ ap (λ (k : ℕ). bit_and (q / 2) p * 256 + k) low

quarter_step :
    (q r p : ℕ)
    → r < 256
    → bit_and ((q * 256 + r) / 4) (p * 256 + 0x33) ≡ bit_and (q / 4) p * 256 + bit_and (r / 4) 0x33
quarter_step q r p h =
    let t : ℕ = q % 4 * 64 + r / 4 in
    let e : (q * 256 + r) / 4 ≡ q / 4 * 256 + t = omega arith in
    let e' : t % 64 ≡ r / 4 = omega arith in
    let low : bit_and t 0x33 ≡ bit_and (r / 4) 0x33 =
      same_mask 0x33 64 t quarter_table (omega arith) ∙ ap (λ (k : ℕ). bit_and k 0x33) e' in
    ap (λ (k : ℕ). bit_and k (p * 256 + 0x33)) e
    ∙ and_split 8 (q / 4) p t 0x33 (omega arith) (omega arith)
    ∙ ap (λ (k : ℕ). bit_and (q / 4) p * 256 + k) low

module _ (a b c d : ℕ) (ha : a < 256) (hb : b < 256) (hc : c < 256) (hd : d < 256) where
  -- `(a >> 1) & 0x55555555`, `a & 0x33333333` and `(a >> 2) & 0x33333333`, byte by byte.
  half_word :
      bit_and (word a b c d / 2) 0x55555555
      ≡ word
          (bit_and (a / 2) 0x55)
          (bit_and (b / 2) 0x55)
          (bit_and (c / 2) 0x55)
          (bit_and (d / 2) 0x55)
  half_word = omega (
    arith,
    half_step ((a * 256 + b) * 256 + c) d 0x555555 hd,
    half_step (a * 256 + b) c 0x5555 hc,
    half_step a b 0x55 hb,
  )

  third_word :
      bit_and (word a b c d) 0x33333333
      ≡ word (bit_and a 0x33) (bit_and b 0x33) (bit_and c 0x33) (bit_and d 0x33)
  third_word = omega (
    arith,
    and_split 8 ((a * 256 + b) * 256 + c) 0x333333 d 0x33 hd (omega arith),
    and_split 8 (a * 256 + b) 0x3333 c 0x33 hc (omega arith),
    and_split 8 a 0x33 b 0x33 hb (omega arith),
  )

  quarter_word :
      bit_and (word a b c d / 4) 0x33333333
      ≡ word
          (bit_and (a / 4) 0x33)
          (bit_and (b / 4) 0x33)
          (bit_and (c / 4) 0x33)
          (bit_and (d / 4) 0x33)
  quarter_word = omega (
    arith,
    quarter_step ((a * 256 + b) * 256 + c) d 0x333333 hd,
    quarter_step (a * 256 + b) c 0x3333 hc,
    quarter_step a b 0x33 hb,
  )

  low_word : bit_and (word a b c d) 0xf0f0f0f ≡ word (a % 16) (b % 16) (c % 16) (d % 16)
  low_word = omega (
    arith,
    and_split 8 ((a * 256 + b) * 256 + c) 0xf0f0f d 0xf hd (omega arith),
    and_split 8 (a * 256 + b) 0xf0f c 0xf hc (omega arith),
    and_split 8 a 0xf b 0xf hb (omega arith),
    and_mask 4 a,
    and_mask 4 b,
    and_mask 4 c,
    and_mask 4 d,
  )

  ones-word : ones 32 (word a b c d) ≡ ones 8 a + ones 8 b + ones 8 c + ones 8 d
  ones-word = omega (
    arith,
    ones_split 8 24 ((a * 256 + b) * 256 + c) d hd,
    ones_split 8 16 (a * 256 + b) c hc,
    ones_split 8 8 a b hb,
  )

-- The last lines of `lfs_popc`: the four totals are added by a multiplication.
gather :
    (a b c d : ℕ)
    → a ≤ 8
    → b ≤ 8
    → c ≤ 8
    → d ≤ 8
    → mul32 (word a b c d) 0x1010101 >>> 24 ≡ a + b + c + d
gather a b c d ha hb hc hd = omega arith

-- The sums of neighbouring nibbles.
totals :
    (a b c d : ℕ)
    → a ≤ 0x44
    → b ≤ 0x44
    → c ≤ 0x44
    → d ≤ 0x44
    → a % 16 ≤ 4
    → b % 16 ≤ 4
    → c % 16 ≤ 4
    → bit_and (add32 (word a b c d) (word a b c d >>> 4)) 0xf0f0f0f
      ≡ word (total a) (total b) (total c) (total d)
unfolding total
totals a b c d ha hb hc hd la lb lc =
    let e : add32 (word a b c d) (word a b c d >>> 4)
        ≡ word (a + a / 16) (b + b / 16 + a % 16 * 16) (c + c / 16 + b % 16 * 16)
            (d + d / 16 + c % 16 * 16) =
      omega arith in
    rw e (
      low_word (a + a / 16) (b + b / 16 + a % 16 * 16) (c + c / 16 + b % 16 * 16)
        (d + d / 16 + c % 16 * 16) (omega arith) (omega arith) (omega arith) (omega arith)
      ∙ omega arith)

-- The sums of neighbouring digits, and of neighbouring pairs of digits.
module _ (a b c d : ℕ) (va : IsByte a) (vb : IsByte b) (vc : IsByte c) (vd : IsByte d) where
  pairs-word :
      a < 256
      → b < 256
      → c < 256
      → d < 256
      → sub32 (word a b c d) (bit_and (word a b c d >>> 1) 0x55555555)
        ≡ word (pairs a) (pairs b) (pairs c) (pairs d)
  unfolding pairs
  pairs-word ha hb hc hd =
      omega (
        arith,
        half_word a b c d ha hb hc hd,
        va.no_borrow,
        vb.no_borrow,
        vc.no_borrow,
        vd.no_borrow,
      )

  nibbles-word :
      add32
        (bit_and (word (pairs a) (pairs b) (pairs c) (pairs d)) 0x33333333)
        (bit_and (word (pairs a) (pairs b) (pairs c) (pairs d) >>> 2) 0x33333333)
      ≡ word (nibbles (pairs a)) (nibbles (pairs b)) (nibbles (pairs c)) (nibbles (pairs d))
  unfolding nibbles
  nibbles-word =
      let (pa, pb, pc, pd) : (pairs a < 256) × (pairs b < 256) × (pairs c < 256) × (pairs d < 256) =
        (va.pairs_lt, vb.pairs_lt, vc.pairs_lt, vd.pairs_lt) in
      omega (
        arith,
        third_word (pairs a) (pairs b) (pairs c) (pairs d) pa pb pc pd,
        quarter_word (pairs a) (pairs b) (pairs c) (pairs d) pa pb pc pd,
        va.nibbles_le,
        vb.nibbles_le,
        vc.nibbles_le,
        vd.nibbles_le,
      )

popc-word :
    (a b c d : ℕ)
    → a < 256
    → b < 256
    → c < 256
    → d < 256
    → popc (word a b c d) ≡ ones 32 (word a b c d)
unfolding popc
popc-word a b c d ha hb hc hd =
    let va = IsByte-lt a ha in
    let vb = IsByte-lt b hb in
    let vc = IsByte-lt c hc in
    let vd = IsByte-lt d hd in
    let pairs_of = λ (t : ℕ). add32 (bit_and t 0x33333333) (bit_and (t >>> 2) 0x33333333) in
    let sums = λ (t : ℕ). bit_and (add32 t (t >>> 4)) 0xf0f0f0f in
    let product = λ (t : ℕ). mul32 t 0x1010101 >>> 24 in
    ap (λ (t : ℕ). product (sums (pairs_of t))) (pairs-word a b c d va vb vc vd ha hb hc hd)
    ∙ ap (λ (t : ℕ). product (sums t)) (nibbles-word a b c d va vb vc vd)
    ∙ ap (λ (t : ℕ). product t)
        (totals (nibbles (pairs a)) (nibbles (pairs b)) (nibbles (pairs c)) (nibbles (pairs d))
            va.nibbles_le vb.nibbles_le vc.nibbles_le vd.nibbles_le va.low_le vb.low_le vc.low_le
          ∙ omega (arith, va.total_eq, vb.total_eq, vc.total_eq, vd.total_eq))
    ∙ gather (ones 8 a) (ones 8 b) (ones 8 c) (ones 8 d) (ones-le 8 a) (ones-le 8 b) (ones-le 8 c)
        (ones-le 8 d)
    ∙ sym (ones-word a b c d ha hb hc hd)

-- `lfs_popc` of a 32-bit number is the number of ones among its binary digits.
pub popc-eq-ones : (a : ℕ) → a < 2 ^ 32 → popc a ≡ ones 32 a
popc-eq-ones a h =
    let e : a ≡ word (a / 2 ^ 24) (a / 2 ^ 16 % 256) (a / 2 ^ 8 % 256) (a % 256) = omega arith in
    ap popc e
    ∙ popc-word (a / 2 ^ 24) (a / 2 ^ 16 % 256) (a / 2 ^ 8 % 256) (a % 256) (omega arith)
        (omega arith) (omega arith) (omega arith)
    ∙ ap (ones 32) (sym e)
