-- ===== src/Util/Ones.antt =====
-- The ones of a number and the zeros at its end, which `lfs_ctz` counts.
use littlefs.Prelude.{
  ℕ, zero, suc, ◌+◌, ◌-◌, ◌/◌, ◌%◌, ◌^◌, ◌≤◌, ◌<◌, ◌≡◌, refl, ◌∙◌, ap, arith, bit_and, add32, sub32,
  ◌==◌, if◌then◌else◌, bit_and_step, Bool-cases, inl, inr,
}
use native.Mathlib.Nat.{pow-suc, one-le-pow, pow-le-pow_right}
use native.Mathlib.Decide.{dec_lt}
use littlefs.Util.{npw2, ctz}
use littlefs.Util.Power.{npw2_lem}

-- The ones among the `w` low digits.
unfoldable pub ones : ℕ → ℕ → ℕ
ones zero n = 0
ones (suc w) n = n % 2 + ones w (n / 2)

-- The zeros below the lowest one, `w` if there is none among the `w` low digits.
unfoldable pub trailing : ℕ → ℕ → ℕ
trailing zero n = 0
trailing (suc w) n = let more = suc (trailing w (n / 2)) in if n % 2 == 1 then 0 else more

-- Counting up by one turns the ones at the end into zeros, and the zero before them into a one.
ones_pred : (w n : ℕ) → 0 < n → n < 2 ^ w → ones w n + trailing w n ≡ ones w (n - 1) + 1
unfolding ones trailing
ones_pred zero n pos lt = absurd (omega arith)
ones_pred (suc w) n pos lt = elim (Bool-cases (n % 2 == 1)) [
  | inl odd ↦
      let e : (n - 1) / 2 ≡ n / 2 = ground arith in
      let e' : (n - 1) % 2 ≡ 0 = ground arith in rw (odd, e, e') (ground arith)
  | inr even ↦
      let e : (n - 1) / 2 ≡ n / 2 - 1 = ground arith in
      let e' : (n - 1) % 2 ≡ 1 = ground arith in
      rw (even, e, e')
        (ground (arith, ones_pred w (n / 2) (ground arith) (omega (arith, pow-suc 2 w))))
]

pub ones-suc : (w n : ℕ) → suc n < 2 ^ w → ones w (suc n) + trailing w (suc n) ≡ ones w n + 1
ones-suc w n h =
    let e : suc n - 1 ≡ n = omega arith in
    ones_pred w (suc n) (omega arith) h ∙ ap (λ (t : ℕ). ones w t + 1) e

pub ones-le : (w n : ℕ) → ones w n ≤ w
unfolding ones
ones-le zero n = omega arith
ones-le (suc w) n = omega (arith, ones-le w (n / 2))

pub ones_small : (w v n : ℕ) → n < 2 ^ w → ones (w + v) n ≤ w
unfolding ones
ones_small zero v n h = let e : n ≡ 0 = omega arith in rw e (ones-zero (zero + v))
  where
    ones-zero : (k : ℕ) → ones k 0 ≤ 0
    ones-zero zero = omega arith
    ones-zero (suc k) = omega (arith, ones-zero k)
ones_small (suc w) v n h =
    let e : suc w + v ≡ suc (w + v) = omega arith in
    rw e (omega (arith, ones_small w v (n / 2) (omega (arith, pow-suc 2 w))))

-- A number and its complement share no digit.
and_complement : (w m : ℕ) → m < 2 ^ w → bit_and m (2 ^ w - 1 - m) ≡ 0
and_complement zero m h = let e : m ≡ 0 = omega arith in rw e refl
and_complement (suc w) m h =
    let p : 0 < 2 ^ w = one-le-pow w 2 (omega arith) in
    let e : (2 ^ suc w - 1 - m) / 2 ≡ 2 ^ w - 1 - m / 2 = omega (arith, pow-suc 2 w) in
    let e' : (2 ^ suc w - 1 - m) % 2 + m % 2 ≡ 1 = omega (arith, pow-suc 2 w) in
    let ih : bit_and (m / 2) ((2 ^ suc w - 1 - m) / 2) ≡ 0 =
      rw e (and_complement w (m / 2) (omega (arith, pow-suc 2 w))) in
    omega (arith, bit_and_step m (2 ^ suc w - 1 - m))

-- `a & -a` is the lowest one of `a`.
lowest_one : (w n : ℕ) → 0 < n → n < 2 ^ w → bit_and n (2 ^ w - n) ≡ 2 ^ trailing w n
unfolding trailing
lowest_one zero n pos h = absurd (omega arith)
lowest_one (suc w) n pos h = elim (Bool-cases (n % 2 == 1)) [
  | inl odd ↦
      let o : n % 2 ≡ 1 = ground arith in
      let e : (2 ^ suc w - n) / 2 ≡ 2 ^ w - 1 - n / 2 = omega (arith, pow-suc 2 w) in
      let e' : (2 ^ suc w - n) % 2 ≡ 1 = omega (arith, pow-suc 2 w) in
      let ih : bit_and (n / 2) ((2 ^ suc w - n) / 2) ≡ 0 =
        rw e (and_complement w (n / 2) (omega (arith, pow-suc 2 w))) in
      rw odd (omega (arith, bit_and_step n (2 ^ suc w - n)))
  | inr even ↦
      let o : n % 2 ≡ 0 = ground arith in
      let e : (2 ^ suc w - n) / 2 ≡ 2 ^ w - n / 2 = omega (arith, pow-suc 2 w) in
      let ih : bit_and (n / 2) ((2 ^ suc w - n) / 2) ≡ 2 ^ trailing w (n / 2) =
        rw e (lowest_one w (n / 2) (omega arith) (omega (arith, pow-suc 2 w))) in
      rw even (omega (arith, bit_and_step n (2 ^ suc w - n), pow-suc 2 (trailing w (n / 2))))
]

pub trailing-lt : (w n : ℕ) → 0 < n → n < 2 ^ w → trailing w n < w
unfolding trailing
trailing-lt zero n pos h = absurd (omega arith)
trailing-lt (suc w) n pos h = ground (arith, pow-suc 2 w, trailing-lt w (n / 2))

pow_mono_lt : (m n : ℕ) → 2 ^ m < 2 ^ n → m < n
pow_mono_lt m n h = elim (dec_lt m n) [
  | yes p ↦ p
  | no p ↦
      absurd (omega (arith, pow-le-pow_right {n = 2} (omega arith) {i = n} {j = m} (omega arith)))
]

npw2-pow : (k : ℕ) → k < 32 → npw2 (2 ^ k + 1) ≡ suc k
npw2-pow k h =
    let unit : 0 < 2 ^ k = one-le-pow k 2 (omega arith) in
    let le : 2 ^ k ≤ 2 ^ 31 = pow-le-pow_right {n = 2} (omega arith) {j = 31} (omega arith) in
    let (pos, above, below) = npw2_lem (2 ^ k + 1) (omega arith) (omega arith) in
    let low : k < npw2 (2 ^ k + 1) = pow_mono_lt k (npw2 (2 ^ k + 1)) (omega arith) in
    let high : npw2 (2 ^ k + 1) - 1 < suc k =
      pow_mono_lt (npw2 (2 ^ k + 1) - 1) (suc k) (omega (arith, pow-suc 2 k)) in
    omega arith

-- `lfs_ctz` of a 32-bit number above 0 is the number of zeros below its lowest one.
pub ctz-eq-trailing : (n : ℕ) → 0 < n → n < 2 ^ 32 → ctz n ≡ trailing 32 n
unfolding ctz
ctz-eq-trailing n pos h =
    let e : sub32 0 n ≡ 2 ^ 32 - n = omega arith in
    let lt : trailing 32 n < 32 = trailing-lt 32 n pos h in
    let le : 2 ^ trailing 32 n ≤ 2 ^ 31 =
      pow-le-pow_right {n = 2} (omega arith) {j = 31} (omega arith) in
    let e' : add32 (2 ^ trailing 32 n) 1 ≡ 2 ^ trailing 32 n + 1 = omega arith in
    rw (e, lowest_one 32 n pos h, e', npw2-pow (trailing 32 n) lt) (omega arith)
