-- ===== src/Prelude/Split.antt =====
-- A digitwise operation acts on the high and on the low digits of its arguments by themselves.
use Prim.Native.Nat.{ℕ, zero, suc, ◌+◌, ◌*◌, ◌/◌, ◌%◌, ◌^◌, ◌<◌, min, max, bit_and, bit_or, bit_xor}
use mathlib.Core.Path.{◌≡◌, refl, ap, ap₂, ◌∙◌}
use native.Mathlib.Nat.{pow-suc, one-le-pow, div-add-mod', mod-lt}
use native.Mathlib.Omega.{arith}
use littlefs.Prelude.Bits.{bit_xor_step, bit_and_step, bit_or_step}

mul-pow-suc : (q k : ℕ) → q * 2 ^ suc k ≡ 2 * (q * 2 ^ k)
mul-pow-suc q k = omega (arith, ap (λ (t : ℕ). q * t) (pow-suc 2 k))

module _ (op digit : ℕ → ℕ → ℕ)
    (step : (a b : ℕ) → op a b ≡ op (a / 2) (b / 2) * 2 + digit (a % 2) (b % 2))
    (at_zero : op 0 0 ≡ 0) where
  op_split :
      (k q p r s : ℕ)
      → r < 2 ^ k
      → s < 2 ^ k
      → op (q * 2 ^ k + r) (p * 2 ^ k + s) ≡ op q p * 2 ^ k + op r s
  op_split zero q p r s hr hs =
      let er : r ≡ 0 = omega arith in
      let es : s ≡ 0 = omega arith in
      let eq : q * 2 ^ 0 + r ≡ q = omega arith in
      let ep : p * 2 ^ 0 + s ≡ p = omega arith in
      ap₂ op eq ep ∙ omega (arith, ap₂ op er es, at_zero)
  op_split (suc k) q p r s hr hs =
      let hr' : r / 2 < 2 ^ k = omega (arith, pow-suc 2 k) in
      let hs' : s / 2 < 2 ^ k = omega (arith, pow-suc 2 k) in
      let eq : (q * 2 ^ suc k + r) / 2 ≡ q * 2 ^ k + r / 2 = omega (arith, mul-pow-suc q k) in
      let ep : (p * 2 ^ suc k + s) / 2 ≡ p * 2 ^ k + s / 2 = omega (arith, mul-pow-suc p k) in
      let er : (q * 2 ^ suc k + r) % 2 ≡ r % 2 = omega (arith, mul-pow-suc q k) in
      let es : (p * 2 ^ suc k + s) % 2 ≡ s % 2 = omega (arith, mul-pow-suc p k) in
      omega (
        arith,
        step (q * 2 ^ suc k + r) (p * 2 ^ suc k + s),
        ap₂ op eq ep,
        ap₂ digit er es,
        op_split k q p (r / 2) (s / 2) hr' hs',
        step r s,
        mul-pow-suc (op q p) k,
      )

  op_parts : (k a b : ℕ) → op a b ≡ op (a / 2 ^ k) (b / 2 ^ k) * 2 ^ k + op (a % 2 ^ k) (b % 2 ^ k)
  op_parts k a b =
      let h : 0 < 2 ^ k = one-le-pow k 2 (omega arith) in
      ap₂ op (omega (arith, div-add-mod' a (2 ^ k))) (omega (arith, div-add-mod' b (2 ^ k)))
      ∙ op_split k (a / 2 ^ k) (b / 2 ^ k) (a % 2 ^ k) (b % 2 ^ k) (mod-lt a h) (mod-lt b h)

digit_xor : ℕ → ℕ → ℕ
digit_xor x y = (x + y) % 2

pub xor_split :
    (k q p r s : ℕ)
    → r < 2 ^ k
    → s < 2 ^ k
    → bit_xor (q * 2 ^ k + r) (p * 2 ^ k + s) ≡ bit_xor q p * 2 ^ k + bit_xor r s
unfolding digit_xor
xor_split = op_split bit_xor digit_xor bit_xor_step refl

pub xor_parts :
    (k a b : ℕ)
    → bit_xor a b ≡ bit_xor (a / 2 ^ k) (b / 2 ^ k) * 2 ^ k + bit_xor (a % 2 ^ k) (b % 2 ^ k)
unfolding digit_xor
xor_parts = op_parts bit_xor digit_xor bit_xor_step refl

pub and_split :
    (k q p r s : ℕ)
    → r < 2 ^ k
    → s < 2 ^ k
    → bit_and (q * 2 ^ k + r) (p * 2 ^ k + s) ≡ bit_and q p * 2 ^ k + bit_and r s
and_split = op_split bit_and min bit_and_step refl

pub and_parts :
    (k a b : ℕ)
    → bit_and a b ≡ bit_and (a / 2 ^ k) (b / 2 ^ k) * 2 ^ k + bit_and (a % 2 ^ k) (b % 2 ^ k)
and_parts = op_parts bit_and min bit_and_step refl

pub or_split :
    (k q p r s : ℕ)
    → r < 2 ^ k
    → s < 2 ^ k
    → bit_or (q * 2 ^ k + r) (p * 2 ^ k + s) ≡ bit_or q p * 2 ^ k + bit_or r s
or_split = op_split bit_or max bit_or_step refl
