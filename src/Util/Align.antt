-- ===== src/Util/Align.antt =====
-- `lfs_aligndown` and `lfs_alignup` round to the multiples of the alignment.
use littlefs.Prelude.{ℕ, ◌+◌, ◌-◌, ◌*◌, ◌/◌, ◌%◌, ◌^◌, ◌≤◌, ◌<◌, ◌≡◌, ap, arith, sub32, add32}
use littlefs.Util.{aligndown, alignup}
use native.Mathlib.Nat.{div-add-mod, mod-lt, mul-mod_right, mod-le}

aligndown-eq : (a al : ℕ) → a < 2 ^ 32 → 0 < al → aligndown a al ≡ al * (a / al)
unfolding aligndown
aligndown-eq a al h p = omega (arith, div-add-mod a al, mod-le a al)

-- `lfs_aligndown` of a 32-bit number, to an alignment above 0, is the multiple of the alignment
-- that is at most the number and less than one alignment below it.
pub aligndown_lem :
    (a al : ℕ)
    → a < 2 ^ 32
    → 0 < al
    → (aligndown a al % al ≡ 0) × (aligndown a al ≤ a) × (a < aligndown a al + al)
aligndown_lem a al h p = (
  rw (aligndown-eq a al h p) (mul-mod_right al (a / al)),
  omega (arith, aligndown-eq a al h p, div-add-mod a al),
  omega (arith, aligndown-eq a al h p, div-add-mod a al, mod-lt a p),
)

alignup-eq : (a al : ℕ) → a + al ≤ 2 ^ 32 → 0 < al → alignup a al ≡ aligndown (a + al - 1) al
unfolding alignup
alignup-eq a al h p =
    ap (λ (t : ℕ). aligndown t al) (let e : sub32 (add32 a al) 1 ≡ a + al - 1 = omega arith in e)

-- `lfs_alignup` of a number, to an alignment above 0 with which it adds up to at most 2^32, is the
-- multiple of the alignment that is at least the number and less than one alignment above it.
pub alignup_lem :
    (a al : ℕ)
    → a + al ≤ 2 ^ 32
    → 0 < al
    → (alignup a al % al ≡ 0) × (a ≤ alignup a al) × (alignup a al < a + al)
alignup_lem a al h p =
    let (multiple, below, above) = aligndown_lem (a + al - 1) al (omega arith) p in
    rw (alignup-eq a al h p) (multiple, omega arith, omega arith)
