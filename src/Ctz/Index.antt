-- ===== src/Ctz/Index.antt =====
-- `lfs_ctz_index` finds the place of a byte.
use littlefs.Prelude.{
  ℕ, zero, suc, ◌+◌, ◌-◌, ◌*◌, ◌/◌, ◌^◌, ◌≤◌, ◌<◌, ◌≡◌, refl, ◌∙◌, ap, arith, false, sub32, add32,
  mul32, ◌==◌, ◌⊎◌, inl, inr,
}
use native.Mathlib.Nat.{mul-le-mul, div-eq_of_lt-le, div-lt_iff_lt-mul, le-div_iff_mul-le}
use native.Mathlib.Decide.{dec_lt}
use littlefs.Util.{popc}
use littlefs.Util.Ones.{ones, ones-le, ones_small}
use littlefs.Util.Bytes.{popc-eq-ones}
use littlefs.Ctz.{ctz_index}
use littlefs.Ctz.Layout.{header, start_of, ones-zero, start_plus, past_pointers}

-- The pointers make the first estimate of the index at most one too high.
estimate :
    (b n off o : ℕ)
    → 120 ≤ b
    → off < b + 8
    → o ≤ 25
    → ((n * b + off + 4 * o) / b ≡ n) ⊎ ((n * b + off + 4 * o) / b ≡ suc n)
estimate b n off o wide lt few = elim (dec_lt (off + 4 * o) b) [
  | yes p ↦ inl (div-eq_of_lt-le {k = n} b (omega arith) (omega arith))
  | no p ↦ inr (div-eq_of_lt-le {k = suc n} b (omega arith) (omega arith))
]

-- What `lfs_ctz_index` computes from its first estimate, if that is above 0.
settle :
    (b n j size : ℕ)
    → 120 ≤ b
    → b < 2 ^ 32
    → suc j < 2 ^ 32
    → size < 2 ^ 31
    → 4 * (ones 32 j + 2) ≤ size
    → n * b ≤ size - 4 * (ones 32 j + 2)
    → size - 4 * (ones 32 j + 2) < (n + 1) * b
    → sub32 size (mul32 4 (add32 (popc (sub32 (suc j) 1)) 2)) / b ≡ n
settle b n j size wide narrow j_lt small fits low high =
    let d : sub32 (suc j) 1 ≡ j = omega arith in
    let c : popc j ≡ ones 32 j = popc-eq-ones j (omega arith) in
    let s : sub32 size (mul32 4 (add32 (popc j) 2)) ≡ size - 4 * (ones 32 j + 2) =
      omega (arith, c, ones-le 32 j) in
    rw (d, s) (div-eq_of_lt-le {k = n} b low high)

ctz_index-settled :
    (b n off size : ℕ)
    → 120 ≤ b
    → b < 2 ^ 32
    → n < 2 ^ 25
    → size < 2 ^ 31
    → size ≡ n * b + off + 4 * ones 32 n
    → (sub32 (sub32 size (mul32 b n)) (mul32 4 (popc n)) ≡ off)
ctz_index-settled b n off size wide narrow n_lt small e =
    let few : ones 32 n ≤ 25 = ones_small 25 7 n n_lt in
    let c : popc n ≡ ones 32 n = popc-eq-ones n (omega arith) in omega arith

index-lt : (b n : ℕ) → 120 ≤ b → n * b < 2 ^ 31 → n < 2 ^ 25
index-lt b n wide h = elim (dec_lt n (2 ^ 25)) [
  | yes p ↦ p
  | no p ↦
      let le : 2 ^ 25 * 120 ≤ n * b =
        mul-le-mul {n₁ = 2 ^ 25} {m₁ = 120} {n₂ = n} {m₂ = b} (omega arith) wide in
      absurd (omega arith)
]

-- The two ways through `lfs_ctz_index`.
index_first : (b size : ℕ) → b < 2 ^ 31 → size / b ≡ 0 → ctz_index (b + 8) size ≡ (0, size)
unfolding ctz_index
index_first b size narrow q = let d : sub32 (b + 8) 8 ≡ b = omega arith in rw (d, q) refl

index_later :
    (b n off j size : ℕ)
    → b < 2 ^ 31
    → size / b ≡ suc j
    → sub32 size (mul32 4 (add32 (popc (sub32 (suc j) 1)) 2)) / b ≡ n
    → sub32 (sub32 size (mul32 b n)) (mul32 4 (popc n)) ≡ off
    → ctz_index (b + 8) size ≡ (n, off)
unfolding ctz_index
index_later b n off j size narrow q settled last =
    let d : sub32 (b + 8) 8 ≡ b = omega arith in
    let above : suc j == 0 ≡ false = ground arith in rw (d, q, settled, last, above) refl

module _ (b off size : ℕ) (wide : 120 ≤ b) (narrow : b < 2 ^ 31) (lt : off < b + 8)
    (small : size < 2 ^ 31) where
  -- The estimate is the index.
  index_exact :
      (n : ℕ)
      → n < 2 ^ 25
      → header n ≤ off
      → size ≡ n * b + off + 4 * ones 32 n
      → size / b ≡ n
      → ctz_index (b + 8) size ≡ (n, off)
  index_exact zero n_lt from e q =
      index_first b size narrow q ∙ ap (λ (t : ℕ). (0, t)) (omega (arith, ones-zero))
  index_exact (suc m) n_lt from e q =
      let past = past_pointers b m off n_lt from in
      let high : size < (suc m + 1) * b =
        (div-lt_iff_lt-mul {k = b} {x = size} {y = suc m + 1} (omega arith)).0 (omega arith) in
      index_later b (suc m) off m size narrow q
        (settle b (suc m) m size wide (omega arith) (omega arith) small (omega arith) (omega arith)
          (omega arith))
        (ctz_index-settled b (suc m) off size wide (omega arith) n_lt small e)

  -- The estimate is one too high.
  index_past :
      (n : ℕ)
      → n < 2 ^ 25
      → size ≡ n * b + off + 4 * ones 32 n
      → size / b ≡ suc n
      → ctz_index (b + 8) size ≡ (n, off)
  index_past n n_lt e q =
      let few : ones 32 n ≤ 25 = ones_small 25 7 n n_lt in
      let low : suc n * b ≤ size =
        (le-div_iff_mul-le {k = b} {x = suc n} {y = size} (omega arith)).0 (omega arith) in
      index_later b n off n size narrow q
        (settle b n n size wide (omega arith) (omega arith) small (omega arith) (omega arith)
          (omega arith))
        (ctz_index-settled b n off size wide (omega arith) n_lt small e)

  index_of :
      (n : ℕ)
      → header n ≤ off
      → size ≡ n * b + off + 4 * ones 32 n
      → ctz_index (b + 8) size ≡ (n, off)
  index_of n from e =
      let n_lt : n < 2 ^ 25 = index-lt b n wide (omega arith) in
      let near : (size / b ≡ n) ⊎ (size / b ≡ suc n) =
        rw e (estimate b n off (ones 32 n) wide lt (ones_small 25 7 n n_lt)) in
      elim near [ inl q ↦ index_exact n n_lt from e q | inr q ↦ index_past n n_lt e q ]

-- `lfs_ctz_index`, for blocks of at least 128 and at most 2^31 bytes: the byte at an offset behind
-- the pointers of the block with an index, whose position in the file is below 2^31, has this
-- index and this offset.
pub ctz_index_of_place :
    (block_size n off : ℕ)
    → 128 ≤ block_size
    → block_size ≤ 2 ^ 31
    → n < 2 ^ 31
    → header n ≤ off
    → off < block_size
    → start_of block_size n + (off - header n) < 2 ^ 31
    → ctz_index block_size (start_of block_size n + (off - header n)) ≡ (n, off)
ctz_index_of_place block_size n off wide narrow n_lt from lt small =
    let e : block_size ≡ block_size - 8 + 8 = omega arith in
    let place = start_plus (block_size - 8) n off (omega arith) (omega arith) from in
    rw e (
      index_of (block_size - 8) off (start_of (block_size - 8 + 8) n + (off - header n))
        (omega arith) (omega arith) (omega arith) (rw e at small) n from place)
