-- ===== src/Prelude/Xor.antt =====
-- Exclusive or as a group, and digit by digit: the laws behind the running tag, the checksum and
-- the global state, which all undo one `^` by another.
use Prim.Native.Nat.{
  ℕ, zero, suc, ◌+◌, ◌/◌, ◌%◌, ◌^◌, ◌≤◌, ◌<◌, min, bit_and, bit_xor, bit_xor-bitwise,
  bit_and-bitwise,
}
use mathlib.Core.Path.{◌≡◌, ◌∙◌, sym, ap}
use native.Mathlib.Nat.{pow-suc, le_refl}
use native.Mathlib.Omega.{arith}
use littlefs.Prelude.Bits.{bit_xor_step, bit_and_step}

xor_comm_fuel : (n a b : ℕ) → a ≤ n → b ≤ n → bit_xor a b ≡ bit_xor b a
xor_comm_fuel zero a b p q = rw (let e : a ≡ 0 = omega arith in e, let e : b ≡ 0 = omega arith in e)
xor_comm_fuel (suc n) a b p q = omega (
  arith,
  bit_xor_step a b,
  bit_xor_step b a,
  xor_comm_fuel n (a / 2) (b / 2) (omega arith) (omega arith),
)

pub xor_comm : (a b : ℕ) → bit_xor a b ≡ bit_xor b a
xor_comm a b = xor_comm_fuel (a + b) a b (omega arith) (omega arith)

xor_self_fuel : (n a : ℕ) → a ≤ n → bit_xor a a ≡ 0
xor_self_fuel zero a p = rw (let e : a ≡ 0 = omega arith in e)
xor_self_fuel (suc n) a p = omega (arith, bit_xor_step a a, xor_self_fuel n (a / 2) (omega arith))

pub xor_self : (a : ℕ) → bit_xor a a ≡ 0
xor_self a = xor_self_fuel a a (le_refl a)

pub zero-xor : (a : ℕ) → bit_xor 0 a ≡ a
zero-xor a = bit_xor-bitwise 0 a

pub xor-zero : (a : ℕ) → bit_xor a 0 ≡ a
xor-zero a = xor_comm a 0 ∙ zero-xor a

pub xor-mod-two : (a b : ℕ) → bit_xor a b % 2 ≡ (a % 2 + b % 2) % 2
xor-mod-two a b = omega (arith, bit_xor_step a b)

pub xor-div-two : (a b : ℕ) → bit_xor a b / 2 ≡ bit_xor (a / 2) (b / 2)
xor-div-two a b = omega (arith, bit_xor_step a b)

xor_assoc_fuel :
    (n a b c : ℕ) → a ≤ n → b ≤ n → c ≤ n → bit_xor (bit_xor a b) c ≡ bit_xor a (bit_xor b c)
xor_assoc_fuel zero a b c p q r =
    rw (let e : a ≡ 0 = omega arith in e, zero-xor b, zero-xor (bit_xor b c))
xor_assoc_fuel (suc n) a b c p q r =
    rw
      (
        bit_xor_step (bit_xor a b) c,
        bit_xor_step a (bit_xor b c),
        xor-div-two a b,
        xor-div-two b c,
        xor_assoc_fuel n (a / 2) (b / 2) (c / 2) (omega arith) (omega arith) (omega arith),
      )
      (omega (arith, xor-mod-two a b, xor-mod-two b c))

pub xor_assoc : (a b c : ℕ) → bit_xor (bit_xor a b) c ≡ bit_xor a (bit_xor b c)
xor_assoc a b c = xor_assoc_fuel (a + b + c) a b c (omega arith) (omega arith) (omega arith)

-- What is put in twice is gone.
pub xor_cancel : (a b : ℕ) → bit_xor (bit_xor a b) b ≡ a
xor_cancel a b = rw (xor_assoc, xor_self) (xor-zero a)

pub xor_cancel_left : (a b : ℕ) → bit_xor a (bit_xor a b) ≡ b
xor_cancel_left a b = rw (← xor_assoc, xor_self) (zero-xor b)

pub xor_left_comm : (a b c : ℕ) → bit_xor a (bit_xor b c) ≡ bit_xor b (bit_xor a c)
xor_left_comm a b c = rw (← xor_assoc a b c, ← xor_assoc b a c, xor_comm a b)

pub xor_right_comm : (a b c : ℕ) → bit_xor (bit_xor a b) c ≡ bit_xor (bit_xor a c) b
xor_right_comm a b c = xor_assoc a b c ∙ ap (bit_xor a) (xor_comm b c) ∙ sym (xor_assoc a c b)

pub xor_swap :
    (a b c d : ℕ) → bit_xor (bit_xor a b) (bit_xor c d) ≡ bit_xor (bit_xor a c) (bit_xor b d)
xor_swap a b c d =
    rw (xor_assoc a b (bit_xor c d), xor_assoc a c (bit_xor b d), xor_left_comm b c d)

pub xor-lt : (k a b : ℕ) → a < 2 ^ k → b < 2 ^ k → bit_xor a b < 2 ^ k
xor-lt zero a b p q =
    rw (let e : a ≡ 0 = omega arith in e, let e : b ≡ 0 = omega arith in e) (omega arith)
xor-lt (suc k) a b p q = omega (
  arith,
  bit_xor_step a b,
  pow-suc 2 k,
  xor-lt k (a / 2) (b / 2) (omega (arith, pow-suc 2 k)) (omega (arith, pow-suc 2 k)),
)

zero-and : (a : ℕ) → bit_and 0 a ≡ 0
zero-and a = bit_and-bitwise 0 a

and-div-two : (a b : ℕ) → bit_and a b / 2 ≡ bit_and (a / 2) (b / 2)
and-div-two a b = omega (arith, bit_and_step a b)

and-mod-two : (a b : ℕ) → bit_and a b % 2 ≡ min (a % 2) (b % 2)
and-mod-two a b = omega (arith, bit_and_step a b)

-- A digit mask goes under an exclusive or.
and-xor_fuel : (n m a b : ℕ) → m ≤ n → bit_and m (bit_xor a b) ≡ bit_xor (bit_and m a) (bit_and m b)
and-xor_fuel zero m a b p =
    rw (let e : m ≡ 0 = omega arith in e, zero-and (bit_xor a b), zero-and a, zero-and b)
      (sym (zero-xor 0))
and-xor_fuel (suc n) m a b p =
    rw
      (
        bit_and_step m (bit_xor a b),
        xor-div-two a b,
        xor-mod-two a b,
        bit_xor_step (bit_and m a) (bit_and m b),
        and-xor_fuel n (m / 2) (a / 2) (b / 2) (omega arith),
        and-div-two m a,
        and-div-two m b,
        and-mod-two m a,
        and-mod-two m b,
      )
      (omega arith)

pub and-xor : (m a b : ℕ) → bit_and m (bit_xor a b) ≡ bit_xor (bit_and m a) (bit_and m b)
and-xor m a b = and-xor_fuel m m a b (le_refl m)
