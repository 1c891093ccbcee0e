-- ===== src/Prelude/Digit.antt =====
-- One binary digit of a number, and of the results of `|` and `&`.
use Prim.Native.Nat.{ℕ, zero, suc, ◌*◌, ◌/◌, ◌%◌, ◌^◌, max, bit_and, bit_or}
use mathlib.Core.Path.{◌≡◌, refl, ap, ◌∙◌, sym}
use native.Mathlib.Nat.{div-div-eq-div-mul, pow-succ', zero-div}
use native.Mathlib.Omega.{arith}
use littlefs.Prelude.Tests.{◌==◌, if◌then◌else◌}
use littlefs.Prelude.Bits.{bit_or_step}
use littlefs.Prelude.Masks.{and_field}

abbrev pub digit : ℕ → ℕ → ℕ
digit x j = x / 2 ^ j % 2

digit-suc : (x j : ℕ) → digit x (suc j) ≡ digit (x / 2) j
digit-suc x j =
    ap (λ (t : ℕ). t % 2)
      (ap (λ (t : ℕ). x / t) (pow-succ' 2 j) ∙ sym (div-div-eq-div-mul x 2 (2 ^ j)))

pub digit-or : (x y j : ℕ) → digit (bit_or x y) j ≡ max (digit x j) (digit y j)
digit-or x y zero = omega (arith, bit_or_step x y)
digit-or x y (suc j) =
    let e : bit_or x y / 2 ≡ bit_or (x / 2) (y / 2) = omega (arith, bit_or_step x y) in
    rw (digit-suc (bit_or x y) j, digit-suc x j, digit-suc y j, e) (digit-or (x / 2) (y / 2) j)

pub digit-pow : (k j : ℕ) → digit (2 ^ k) j ≡ (if k == j then 1 else 0)
digit-pow zero zero = refl
digit-pow zero (suc j) = rw (digit-suc 1 j) (rw (zero-div (2 ^ j)) (ground arith))
digit-pow (suc k) zero = ground (arith, pow-succ' 2 k)
digit-pow (suc k) (suc j) =
    let e : 2 ^ suc k / 2 ≡ 2 ^ k = omega (arith, pow-succ' 2 k) in
    rw (digit-suc (2 ^ suc k) j, e, digit-pow k j) (ground arith)

pub and-pow : (x j : ℕ) → bit_and x (2 ^ j) ≡ digit x j * 2 ^ j
and-pow x j = ap (bit_and x) (omega arith) ∙ and_field 1 j x
