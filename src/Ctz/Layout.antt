-- ===== src/Ctz/Layout.antt =====
-- The layout of a file in the blocks of its skip list.
use littlefs.Prelude.{ℕ, zero, suc, ◌+◌, ◌-◌, ◌*◌, ◌^◌, ◌≤◌, ◌<◌, ◌≡◌, refl, arith}
use native.Mathlib.Nat.{mul-le-mul}
use native.Mathlib.Decide.{dec_lt}
use littlefs.Util.Ones.{ones, trailing, ones-suc, trailing-lt}

-- The bytes of pointers at the front of a block: one pointer, and one more for each time that the
-- index can be halved. The first block has none.
unfoldable pub header : ℕ → ℕ
header zero = 0
header (suc i) = 4 * (trailing 32 (suc i) + 1)

-- The bytes of the file in the blocks before one.
unfoldable pub start_of : ℕ → ℕ → ℕ
unfolding header
start_of block_size zero = 0
start_of block_size (suc i) = start_of block_size i + (block_size - header i)

pub header-le : (i : ℕ) → i < 2 ^ 32 → header i ≤ 128
unfolding header
header-le zero h = omega arith
header-le (suc i) h = omega (arith, trailing-lt 32 (suc i) (omega arith) h)

pub ones-zero : ones 32 0 ≡ 0
unfolding ones
ones-zero = refl

start_closed :
    (b i : ℕ) → suc i < 2 ^ 32 → 120 ≤ b → start_of (b + 8) (suc i) ≡ suc i * b + 8 + 4 * ones 32 i
unfolding start_of
start_closed b zero h le = omega (arith, ones-zero)
start_closed b (suc i) h le =
    let step : header (suc i) ≡ 4 * (trailing 32 (suc i) + 1) = unfold header in refl in
    omega (
      arith,
      start_closed b i (omega arith) le,
      ones-suc 32 i (omega arith),
      header-le (suc i) (omega arith),
      step,
    )

-- The place of a byte, in terms of the ones of the index.
pub start_plus :
    (b i off : ℕ)
    → i < 2 ^ 32 - 1
    → 120 ≤ b
    → header i ≤ off
    → start_of (b + 8) i + (off - header i) ≡ i * b + off + 4 * ones 32 i
unfolding header
start_plus b zero off h le from = unfold start_of in omega (arith, ones-zero)
start_plus b (suc i) off h le from =
    omega (arith, start_closed b i (omega arith) le, ones-suc 32 i (omega arith))

-- Behind the first block a place lies past the pointers of its own block and those of the one
-- before.
pub past_pointers :
    (b n off : ℕ)
    → suc n < 2 ^ 25
    → header (suc n) ≤ off
    → 4 * ones 32 n + 8 ≤ off + 4 * ones 32 (suc n)
unfolding header
past_pointers b n off h le = omega (arith, ones-suc 32 n (omega arith))

pub start-le : (b k : ℕ) → 120 ≤ b → suc k < 2 ^ 32 → suc k * 120 ≤ start_of (b + 8) (suc k)
start-le b k wide few = omega (
  arith,
  start_closed b k few wide,
  mul-le-mul {n₁ = suc k} {m₁ = 120} {n₂ = suc k} {m₂ = b} (omega arith) wide,
)

pub start_mono : (block_size i k : ℕ) → i ≤ k → start_of block_size i ≤ start_of block_size k
unfolding start_of
start_mono block_size zero zero le = omega arith
start_mono block_size (suc i) zero le = absurd (omega arith)
start_mono block_size i (suc k) le = elim (dec_lt i (suc k)) [
  | yes p ↦ omega (arith, start_mono block_size i k (omega arith))
  | no p ↦ let e : i ≡ suc k = omega arith in rw e (omega arith)
]
