-- ===== src/Prelude/Bits.antt =====
-- The native bit operations by their lowest binary digit, and what is left above it.
use Prim.Native.Nat.{
  ℕ, zero, suc, ◌+◌, ◌-◌, ◌*◌, ◌/◌, ◌%◌, ◌≤◌, ◌<◌, min, max, digits, differ, bitwise, bit_and,
  bit_or, bit_xor, bit_and-bitwise, bit_or-bitwise, bit_xor-bitwise,
}
use mathlib.Core.Path.{◌≡◌, refl, ◌∙◌, sym, ap}
use native.Mathlib.Omega.{arith}

-- `rest` is what an operation does once its first argument has run out, `pair` what it does to two
-- digits.
module _ (rest : ℕ → ℕ) (pair : ℕ → ℕ → ℕ) where
  run_out : (fuel b : ℕ) → digits rest pair fuel 0 b ≡ rest b
  run_out zero b = refl
  run_out (suc fuel) b = refl

  -- Fuel beyond the first argument is not used.
  spare_fuel :
      (spare x b fuel : ℕ)
      → x ≤ fuel
      → digits rest pair (fuel + spare) x b ≡ digits rest pair fuel x b
  spare_fuel spare zero b fuel h = run_out (fuel + spare) b ∙ sym (run_out fuel b)
  spare_fuel spare (suc x) b zero h = absurd (omega arith)
  spare_fuel spare (suc x) b (suc fuel) h =
      let more : suc fuel + spare ≡ suc (fuel + spare) = omega arith in
      ap (λ (t : ℕ). digits rest pair t (suc x) b) more
      ∙ ap (λ (t : ℕ). t * 2 + pair (suc x % 2) (b % 2))
          (spare_fuel spare (suc x / 2) (b / 2) fuel (omega arith))

  halve :
      (x b : ℕ)
      → bitwise rest pair (suc x) b
        ≡ bitwise rest pair (suc x / 2) (b / 2) * 2 + pair (suc x % 2) (b % 2)
  halve x b =
      let half = suc x / 2 in
      let all : half + (x - half) ≡ x = omega arith in
      let e = spare_fuel (x - half) half (b / 2) half (omega arith) in
      ap (λ (t : ℕ). t * 2 + pair (suc x % 2) (b % 2))
        (ap (λ (t : ℕ). digits rest pair t half (b / 2)) (sym all) ∙ e)

  -- The equation for an operation, from its definition and from what it does to 0.
  lowest_digit :
      (op : ℕ → ℕ → ℕ)
      → ((x b : ℕ) → op x b ≡ bitwise rest pair x b)
      → ((b : ℕ) → rest b ≡ rest (b / 2) * 2 + pair 0 (b % 2))
      → (x b : ℕ) → op x b ≡ op (x / 2) (b / 2) * 2 + pair (x % 2) (b % 2)
  lowest_digit op means at_zero zero b =
      means 0 b ∙ at_zero b ∙ ap (λ (t : ℕ). t * 2 + pair 0 (b % 2)) (sym (means 0 (b / 2)))
  lowest_digit op means at_zero (suc x) b =
      means (suc x) b
      ∙ halve x b
      ∙ ap (λ (t : ℕ). t * 2 + pair (suc x % 2) (b % 2)) (sym (means (suc x / 2) (b / 2)))

-- The sum of two binary digits without carry.
differ-digit : (x y : ℕ) → x < 2 → y < 2 → differ x y ≡ (x + y) % 2
differ-digit zero zero p q = refl
differ-digit zero (suc zero) p q = refl
differ-digit (suc zero) zero p q = refl
differ-digit (suc zero) (suc zero) p q = refl
differ-digit x (suc (suc y)) p q = absurd (omega arith)
differ-digit (suc (suc x)) y p q = absurd (omega arith)

pub bit_and_step : (a b : ℕ) → bit_and a b ≡ bit_and (a / 2) (b / 2) * 2 + min (a % 2) (b % 2)
bit_and_step = lowest_digit (λ y. 0) min bit_and bit_and-bitwise (λ b. omega arith)

pub bit_or_step : (a b : ℕ) → bit_or a b ≡ bit_or (a / 2) (b / 2) * 2 + max (a % 2) (b % 2)
bit_or_step = lowest_digit (λ y. y) max bit_or bit_or-bitwise (λ b. omega arith)

pub bit_xor_step : (a b : ℕ) → bit_xor a b ≡ bit_xor (a / 2) (b / 2) * 2 + (a % 2 + b % 2) % 2
bit_xor_step a b =
    lowest_digit (λ y. y) differ bit_xor bit_xor-bitwise
      (λ y. omega (arith, differ-digit 0 (y % 2) (omega arith) (omega arith))) a b
    ∙ ap (λ (t : ℕ). bit_xor (a / 2) (b / 2) * 2 + t)
        (differ-digit (a % 2) (b % 2) (omega arith) (omega arith))
