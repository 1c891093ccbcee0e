-- ===== src/Ctz/Skip.antt =====
-- The jumps of `lfs_ctz_find`.
use littlefs.Prelude.{ℕ, ◌+◌, ◌-◌, ◌^◌, ◌≤◌, ◌<◌, ◌≡◌, arith, add32, sub32, ◌<<◌}
use native.Mathlib.Nat.{pow-le-pow_right}
use littlefs.Util.{lfs_min, npw2, ctz}
use littlefs.Util.Power.{npw2_lem, exponent-lt}
use littlefs.Ctz.{skip_of}

min-le : (a b : ℕ) → lfs_min a b ≤ a
unfolding lfs_min
min-le a b = ground arith

pub skip-le :
    (current target : ℕ)
    → target < current
    → current < 2 ^ 31
    → 2 ^ skip_of current target ≤ current - target
unfolding skip_of
skip-le current target lt wide =
    let d : add32 (sub32 current target) 1 ≡ current - target + 1 = omega arith in
    let n = npw2 (current - target + 1) in
    let (pos, above, below) = npw2_lem (current - target + 1) (omega arith) (omega arith) in
    let small : n - 1 < 32 = exponent-lt (n - 1) (omega arith) in
    let e : sub32 n 1 ≡ n - 1 = omega arith in
    let le : lfs_min (n - 1) (ctz current) ≤ n - 1 = min-le (n - 1) (ctz current) in
    rw (d, e) (omega (arith, pow-le-pow_right {n = 2} (omega arith) le))

-- A jump of `lfs_ctz_find` from an index below 2^31 that is above the target goes back at least
-- one block and not past the target.
skip_of-bounds :
    (current target : ℕ)
    → target < current
    → current < 2 ^ 31
    → (target ≤ sub32 current (1 << skip_of current target))
      × (sub32 current (1 << skip_of current target) < current)
skip_of-bounds current target lt wide =
    let le = skip-le current target lt wide in
    let unit : 1 ≤ 2 ^ skip_of current target =
      pow-le-pow_right {n = 2} (omega arith) {i = 0} (omega arith) in
    let e : 1 << skip_of current target ≡ 2 ^ skip_of current target = omega arith in
    rw e (omega arith, omega arith)
