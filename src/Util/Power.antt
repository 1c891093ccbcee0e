-- ===== src/Util/Power.antt =====
-- `lfs_npw2`: the C code that halves the range of the exponent in each step.
use littlefs.Prelude.{
  ℕ, zero, suc, ◌+◌, ◌-◌, ◌*◌, ◌/◌, ◌^◌, ◌≤◌, ◌<◌, ◌≡◌, refl, ◌∙◌, ap, sym, arith, bit_or,
  Bool-cases, ltb, or_fields, add32, sub32, inl, inr, ◌<<◌, ◌>>>◌,
}
use littlefs.Util.{npw2, npw2_step}
use native.Mathlib.Nat.{
  pow-le-pow_right, pow-suc, one-le-pow, div-div-eq-div-mul, div-lt_iff_lt-mul, le-div_iff_mul-le,
}
use native.Mathlib.Decide.{dec_lt}

pow_add : (r h : ℕ) → 2 ^ (r + h) ≡ 2 ^ r * 2 ^ h
pow_add r zero =
    let e : r + 0 ≡ r = omega arith in let one : 2 ^ r ≡ 2 ^ r * 1 = omega arith in rw e one
pow_add r (suc h) =
    let e : r + suc h ≡ suc (r + h) = omega arith in
    let assoc : (2 ^ r * 2 ^ h) * 2 ≡ 2 ^ r * (2 ^ h * 2) = ground arith in
    rw (e, pow-suc 2 (r + h), pow-suc 2 h, pow_add r h) assoc

-- What is left of a number after the steps down to `w` binary digits, and the exponent so far.
record IsNarrowed (number w : ℕ) (p : ℕ × ℕ) : Type 0 where
  steps : ℕ
  left_lt : p.0 < 2 ^ w
  left_pos : 0 < p.0
  quotient : number / 2 ^ p.1 ≡ p.0
  multiple : p.1 ≡ steps * w

npw2_step-IsNarrowed :
    (number log h top : ℕ) (p : ℕ × ℕ)
    → 1 << log ≡ h
    → 0 < h
    → 2 ^ suc log ≡ h + h
    → top + 1 ≡ 2 ^ h
    → IsNarrowed number (h + h) p
    → IsNarrowed number h (npw2_step top log p)
unfolding npw2_step
npw2_step-IsNarrowed number log h top (x, r) shift pos double limit v =
    let exponent : r ≡ v.steps * 2 ^ suc log =
      v.multiple ∙ ap (λ (t : ℕ). v.steps * t) (sym double) in
    let unit : 0 < 2 ^ h = one-le-pow h 2 (omega arith) in
    let one_more : bit_or r h ≡ r + h =
      ap (λ (t : ℕ). bit_or t h) exponent
      ∙ or_fields (suc log) v.steps h (omega arith)
      ∙ ap (λ (t : ℕ). t + h) (sym exponent) in
    let no_more : bit_or r 0 ≡ r =
      ap (λ (t : ℕ). bit_or t 0) exponent
      ∙ or_fields (suc log) v.steps 0 (omega arith)
      ∙ ap (λ (t : ℕ). t + 0) (sym exponent)
      ∙ omega arith in
    let zero_shift : 0 << log ≡ 0 = omega arith in
    elim (Bool-cases (ltb top x)) [
      | inl e ↦
          rw (e, shift, one_more)
            (record {
              steps = v.steps * 2 + 1;
              left_lt = (div-lt_iff_lt-mul unit).1 (rw (← pow_add h h) v.left_lt);
              left_pos = (le-div_iff_mul-le unit).1 (ground arith);
              quotient =
                  rw (pow_add r h, ← div-div-eq-div-mul number (2 ^ r) (2 ^ h), v.quotient) refl;
              multiple = ground (arith, v.multiple);
            })
      | inr e ↦
          rw (e, zero_shift, no_more)
            (record {
              steps = v.steps * 2;
              left_lt = ground arith;
              left_pos = ground (arith, v.left_pos);
              quotient = rw v.quotient (omega arith);
              multiple = ground (arith, v.multiple);
            })
    ]

-- The four steps.
narrowed :
    (number : ℕ)
    → 0 < number
    → number < 2 ^ 32
    → IsNarrowed number 2
        (npw2_step 0x3 1 (npw2_step 0xf 2 (npw2_step 0xff 3 (npw2_step 0xffff 4 (number, 0)))))
narrowed number pos lt =
    let start : IsNarrowed number (16 + 16) (number, 0) = record {
      steps = 0;
      left_lt = lt;
      left_pos = pos;
      quotient = omega arith;
      multiple = refl;
    } in
    npw2_step-IsNarrowed number 1 2 0x3 _ refl (omega arith) refl refl (
      npw2_step-IsNarrowed number 2 4 0xf _ refl (omega arith) refl refl (
        npw2_step-IsNarrowed number 3 8 0xff _ refl (omega arith) refl refl
          (npw2_step-IsNarrowed number 4 16 0xffff _ refl (omega arith) refl refl start)))

-- The last line reads off one more digit.
last_digit :
    (number x r n : ℕ)
    → 0 < x
    → x < 4
    → number / 2 ^ r ≡ x
    → n ≡ r + x / 2
    → (number < 2 ^ suc n) × (2 ^ n ≤ number)
last_digit number x r n pos lt quotient e =
    let unit : 0 < 2 ^ r = one-le-pow r 2 (omega arith) in
    let lower : x * 2 ^ r ≤ number = (le-div_iff_mul-le unit).0 (omega arith) in
    let upper : number < (x + 1) * 2 ^ r = (div-lt_iff_lt-mul unit).0 (omega arith) in
    elim (Bool-cases (ltb x 2)) [
      | inl one ↦
          let ex : x ≡ 1 = ground arith in
          let en : n ≡ r = omega arith in
          let lower' : 1 * 2 ^ r ≤ number = rw (← ex) lower in
          let upper' : number < (1 + 1) * 2 ^ r = ground (arith, upper) in
          rw (en, pow-suc 2 r) (omega arith, omega arith)
      | inr more ↦
          let en : n ≡ suc r = ground arith in
          let lower' : 2 * 2 ^ r ≤ number = ground (arith, lower) in
          let upper' : number < 4 * 2 ^ r = ground (arith, upper) in
          rw (en, pow-suc 2 (suc r), pow-suc 2 r) (omega arith, omega arith)
    ]

pub exponent-lt : (n : ℕ) → 2 ^ n < 2 ^ 32 → n < 32
exponent-lt n h = elim (dec_lt n 32) [
  | yes p ↦ p
  | no p ↦
      absurd (omega (arith, pow-le-pow_right {n = 2} (omega arith) {i = 32} {j = n} (omega arith)))
]

-- `lfs_npw2` of a 32-bit number above 1 is the least exponent whose power of 2 is at least the
-- number: it is above 0, its power of 2 is at least the number, and the power of 2 below that is
-- less than the number.
pub npw2_lem :
    (a : ℕ) → 1 < a → a < 2 ^ 32 → (0 < npw2 a) × (a ≤ 2 ^ npw2 a) × (2 ^ (npw2 a - 1) < a)
unfolding npw2
npw2_lem a lt wide =
    let number : sub32 a 1 ≡ a - 1 = omega arith in
    rw number (
      let p =
        npw2_step 0x3 1 (npw2_step 0xf 2 (npw2_step 0xff 3 (npw2_step 0xffff 4 (a - 1, 0)))) in
      let v : IsNarrowed (a - 1) 2 p = narrowed (a - 1) (omega arith) (omega arith) in
      let both : bit_or p.1 (p.0 >>> 1) ≡ p.1 + p.0 / 2 =
        ap (λ (t : ℕ). bit_or t (p.0 >>> 1)) v.multiple
        ∙ or_fields 1 v.steps (p.0 / 2) (omega (arith, v.left_lt))
        ∙ ap (λ (t : ℕ). t + p.0 / 2) (sym v.multiple) in
      let (above, below) =
        last_digit (a - 1) p.0 p.1 (p.1 + p.0 / 2) v.left_pos v.left_lt v.quotient refl in
      let small : p.1 + p.0 / 2 < 32 = exponent-lt (p.1 + p.0 / 2) (omega arith) in
      let e : add32 (bit_or p.1 (p.0 >>> 1)) 1 ≡ suc (p.1 + p.0 / 2) =
        ap (λ (t : ℕ). add32 t 1) both ∙ omega arith in
      rw e (
        omega arith,
        omega arith,
        (let f : suc (p.1 + p.0 / 2) - 1 ≡ p.1 + p.0 / 2 = omega arith in rw f (omega arith)),
      ))
