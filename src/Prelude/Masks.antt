-- ===== src/Prelude/Masks.antt =====
-- Masks and fields of a word as arithmetic.
use Prim.Native.Nat.{
  ℕ, zero, suc, ◌+◌, ◌-◌, ◌*◌, ◌/◌, ◌%◌, ◌^◌, ◌≤◌, ◌<◌, bit_and, bit_or, bit_xor, bit_or-bitwise,
  bit_and-bitwise,
}
use mathlib.Core.Path.{◌≡◌, ap, ap₂, ◌∙◌, sym}
use native.Mathlib.Nat.{pow-suc, one-le-pow, mod-lt, add-mul-mod_self_right}
use native.Mathlib.Nat.{mod-eq_of_lt, div-add-mod'}
use native.Mathlib.Omega.{arith}
use littlefs.Prelude.Bits.{bit_and_step, bit_or_step}
use littlefs.Prelude.Xor.{xor-lt, xor-zero, xor_cancel_left}
use littlefs.Prelude.Split.{xor_parts, xor_split, and_split, or_split}

and_comm_fuel : (n a b : ℕ) → a ≤ n → b ≤ n → bit_and a b ≡ bit_and b a
and_comm_fuel zero a b p q = rw (let e : a ≡ 0 = omega arith in e, let e : b ≡ 0 = omega arith in e)
and_comm_fuel (suc n) a b p q = omega (
  arith,
  bit_and_step a b,
  bit_and_step b a,
  and_comm_fuel n (a / 2) (b / 2) (omega arith) (omega arith),
)

pub and_comm : (a b : ℕ) → bit_and a b ≡ bit_and b a
and_comm a b = and_comm_fuel (a + b) a b (omega arith) (omega arith)

or_comm_fuel : (n a b : ℕ) → a ≤ n → b ≤ n → bit_or a b ≡ bit_or b a
or_comm_fuel zero a b p q = rw (let e : a ≡ 0 = omega arith in e, let e : b ≡ 0 = omega arith in e)
or_comm_fuel (suc n) a b p q = omega (
  arith,
  bit_or_step a b,
  bit_or_step b a,
  or_comm_fuel n (a / 2) (b / 2) (omega arith) (omega arith),
)

pub or_comm : (a b : ℕ) → bit_or a b ≡ bit_or b a
or_comm a b = or_comm_fuel (a + b) a b (omega arith) (omega arith)

pub zero-or : (a : ℕ) → bit_or 0 a ≡ a
zero-or a = bit_or-bitwise 0 a

pub or-zero : (a : ℕ) → bit_or a 0 ≡ a
or-zero a = or_comm a 0 ∙ zero-or a

pub and-zero : (a : ℕ) → bit_and a 0 ≡ 0
and-zero a = and_comm a 0 ∙ bit_and-bitwise 0 a

mod_of_parts : (z x y n : ℕ) → x < z → n ≡ x + y * z → n % z ≡ x
mod_of_parts z x y n h e = rw (e, add-mul-mod_self_right x y z) (mod-eq_of_lt h)

mod-pow-suc : (k a : ℕ) → a % 2 ^ suc k ≡ a / 2 % 2 ^ k * 2 + a % 2
mod-pow-suc k a =
    let low : a / 2 % 2 ^ k < 2 ^ k = mod-lt (a / 2) (one-le-pow k 2 (omega arith)) in
    mod_of_parts (2 ^ suc k) (a / 2 % 2 ^ k * 2 + a % 2) (a / 2 / 2 ^ k) a
      (omega (arith, pow-suc 2 k))
      (omega (arith, div-add-mod' (a / 2) (2 ^ k), ap (λ (t : ℕ). a / 2 / 2 ^ k * t) (pow-suc 2 k)))

-- A mask of the `k` low digits is the remainder by `2 ^ k`.
pub and_mask : (k a : ℕ) → bit_and a (2 ^ k - 1) ≡ a % 2 ^ k
and_mask zero a = and-zero a ∙ omega arith
and_mask (suc k) a =
    let e : (2 ^ suc k - 1) / 2 ≡ 2 ^ k - 1 = omega (arith, pow-suc 2 k) in
    let e' : (2 ^ suc k - 1) % 2 ≡ 1 = omega (arith, pow-suc 2 k, one-le-pow k 2 (omega arith)) in
    rw (bit_and_step a (2 ^ suc k - 1), e, e', and_mask k (a / 2)) (omega (arith, mod-pow-suc k a))

-- The same mask shifted left cuts a field out of the middle.
pub and_field : (w s a : ℕ) → bit_and a ((2 ^ w - 1) * 2 ^ s) ≡ a / 2 ^ s % 2 ^ w * 2 ^ s
and_field w s a =
    let p : 0 < 2 ^ s = one-le-pow s 2 (omega arith) in
    let e : a / 2 ^ s * 2 ^ s + a % 2 ^ s ≡ a = div-add-mod' a (2 ^ s) in
    ap₂ bit_and (sym e) (omega arith)
    ∙ and_split s (a / 2 ^ s) (2 ^ w - 1) (a % 2 ^ s) 0 (mod-lt a p) p
    ∙ rw (and_mask w (a / 2 ^ s), and-zero (a % 2 ^ s)) (omega arith)

-- `(q << k) | r` is a sum where `r` fits `k` digits.
pub or_fields : (k q r : ℕ) → r < 2 ^ k → bit_or (q * 2 ^ k) r ≡ q * 2 ^ k + r
or_fields k q r h =
    ap₂ bit_or (omega arith) (omega arith)
    ∙ or_split k q 0 0 r (one-le-pow k 2 (omega arith)) h
    ∙ rw (or-zero q, zero-or r)

pub xor-div : (k a b : ℕ) → bit_xor a b / 2 ^ k ≡ bit_xor (a / 2 ^ k) (b / 2 ^ k)
xor-div k a b =
    let p : 0 < 2 ^ k = one-le-pow k 2 (omega arith) in
    let low : bit_xor (a % 2 ^ k) (b % 2 ^ k) < 2 ^ k =
      xor-lt k (a % 2 ^ k) (b % 2 ^ k) (mod-lt a p) (mod-lt b p) in
    rw (xor_parts k a b) (grind (arith, low))

pub xor-mod : (k a b : ℕ) → bit_xor a b % 2 ^ k ≡ bit_xor (a % 2 ^ k) (b % 2 ^ k)
xor-mod k a b =
    let p : 0 < 2 ^ k = one-le-pow k 2 (omega arith) in
    mod_of_parts (2 ^ k) (bit_xor (a % 2 ^ k) (b % 2 ^ k)) (bit_xor (a / 2 ^ k) (b / 2 ^ k))
      (bit_xor a b) (xor-lt k (a % 2 ^ k) (b % 2 ^ k) (mod-lt a p) (mod-lt b p))
      (omega (arith, xor_parts k a b))

-- `t ^= mask & (t ^ v)`: the field that the mask shows is taken from `v`, the rest stays.
pub masked_replace :
    (w s t v : ℕ)
    → bit_xor t (bit_and ((2 ^ w - 1) * 2 ^ s) (bit_xor t v))
      ≡ (t / 2 ^ s / 2 ^ w * 2 ^ w + v / 2 ^ s % 2 ^ w) * 2 ^ s + t % 2 ^ s
masked_replace w s t v =
    let ps : 0 < 2 ^ s = one-le-pow s 2 (omega arith) in
    let pw : 0 < 2 ^ w = one-le-pow w 2 (omega arith) in
    let q = t / 2 ^ s in
    let new = v / 2 ^ s % 2 ^ w in
    let m = bit_xor (q % 2 ^ w) new in
    let m_lt : m < 2 ^ w = xor-lt w (q % 2 ^ w) new (mod-lt q pw) (mod-lt (v / 2 ^ s) pw) in
    let masked : bit_and ((2 ^ w - 1) * 2 ^ s) (bit_xor t v) ≡ m * 2 ^ s =
      and_comm ((2 ^ w - 1) * 2 ^ s) (bit_xor t v)
      ∙ and_field w s (bit_xor t v)
      ∙ ap (λ (k : ℕ). k % 2 ^ w * 2 ^ s) (xor-div s t v)
      ∙ ap (λ (k : ℕ). k * 2 ^ s) (xor-mod w q (v / 2 ^ s)) in
    let high : bit_xor q m ≡ q / 2 ^ w * 2 ^ w + new =
      ap₂ bit_xor (sym (div-add-mod' q (2 ^ w))) (omega arith)
      ∙ xor_split w (q / 2 ^ w) 0 (q % 2 ^ w) m (mod-lt q pw) m_lt
      ∙ rw (xor-zero (q / 2 ^ w), xor_cancel_left (q % 2 ^ w) new) in
    ap₂ bit_xor (sym (div-add-mod' t (2 ^ s))) (masked ∙ omega arith)
    ∙ xor_split s q m (t % 2 ^ s) 0 (mod-lt t ps) ps
    ∙ rw (xor-zero (t % 2 ^ s), high)
