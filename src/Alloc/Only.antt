-- ===== src/Alloc/Only.antt =====
-- A traversal that calls `lfs_alloc_lookahead` for each block of a list marks no other block.
use littlefs.Prelude.{
  ℕ, ◌+◌, ◌-◌, ◌*◌, ◌%◌, ◌^◌, ◌≤◌, ◌<◌, ◌≡◌, refl, ◌∙◌, ap, sym, arith, true, List, [], ◌∷◌, length,
  Bool-cases, ◌⊎◌, inl, inr, add32, sub32,
}
use mathlib.Core.Path.{subst}
use native.Mathlib.Nat.{mod-eq_of_lt, mod-eq-sub-mod}
use native.Mathlib.Decide.{dec_lt}
use littlefs.Lfs.{Free, Lfs}
use littlefs.Alloc.{is_used, window_offset}
use littlefs.Alloc.Visit.{Occurs, marked, marked_all, marked-keeps, fill_from, fill_from-state}
use littlefs.Alloc.Exhaust.{MarksOnly}

-- A block of the device from its offset in the window.
block_of_offset :
    (count b : ℕ) (f : Free)
    → count ≤ 2 ^ 31
    → f.off < count
    → b < count
    → (f.off + window_offset count f b) % count ≡ b
unfolding window_offset
block_of_offset count b f le off_lt lt = elim (dec_lt b f.off) [
  | yes before ↦
      let e : add32 (sub32 b f.off) count ≡ b + count - f.off = omega arith in
      let e' : f.off + (b + count - f.off) ≡ b + count = omega arith in
      let e'' : b + count - count ≡ b = omega arith in
      rw (e, mod-eq_of_lt {n = b + count - f.off} {m = count} (omega arith), e')
        (mod-eq-sub-mod (omega arith) ∙ ap (λ (t : ℕ). t % count) e'' ∙ mod-eq_of_lt lt)
  | no behind ↦
      let e : add32 (sub32 b f.off) count ≡ b - f.off + count = omega arith in
      let e' : b - f.off + count - count ≡ b - f.off = omega arith in
      let e'' : f.off + (b - f.off) ≡ b = omega arith in
      let w : (b - f.off + count) % count ≡ b - f.off =
        mod-eq-sub-mod (omega arith) ∙ ap (λ (t : ℕ). t % count) e' ∙ mod-eq_of_lt (omega arith) in
      rw (e, w, e'') (mod-eq_of_lt lt)
]

window_offset-cong :
    (count y : ℕ) (f g : Free) → g.off ≡ f.off → window_offset count f y ≡ window_offset count g y
unfolding window_offset
window_offset-cong count y f g e = rw e refl

-- A bit that is set was set before, or is that of a block of the list.
marked_all-only :
    (count : ℕ) (xs : List ℕ) (f : Free) (o : ℕ)
    → f.size ≤ 32 * length f.buffer
    → is_used (marked_all count xs f).buffer o ≡ true
    → ((x : ℕ) × Occurs x xs × (window_offset count f x ≡ o)) ⊎ (is_used f.buffer o ≡ true)
unfolding marked_all
marked_all-only count [] f o len used = inr used
marked_all-only count (x ∷ xs) f o len used =
    let (k, len', bit) = marked-keeps count f x in
    let size_eq : (marked count f x).size ≡ f.size = ap (λ (g : Free). g.size) k in
    let off_eq : (marked count f x).off ≡ f.off = ap (λ (g : Free). g.off) k in
    elim (marked_all-only count xs (marked count f x) o (omega (arith, len', size_eq)) used) [
      | inl (y, there, at) ↦
          inl (y, inr there, window_offset-cong count y f (marked count f x) off_eq ∙ at)
      | inr before ↦ elim (Bool-cases (is_used f.buffer o)) [
        | inl old ↦ inr old
        | inr new ↦ inl (x, inl refl, ground (arith, bit o len))
      ]
    ]

pub fill_from-MarksOnly :
    {D : Type 0}
    → (count : ℕ) (xs : List ℕ) → ((b : ℕ) → Occurs b xs → b < count)
    → MarksOnly {D = D} count (fill_from count xs) (λ s. Unit {0}) (λ b. Occurs b xs)
fill_from-MarksOnly {D} count xs below = record {
  only = λ s t o g e v len clear lt used.
      (let q = fill_from-state count xs s t e in
        let used' : is_used (marked_all count xs s.free).buffer o ≡ true =
          subst (λ (z : Lfs D). is_used z.free.buffer o ≡ true) (sym q) used in
        elim (marked_all-only count xs s.free o len used') [
          | inl (x, there, at) ↦
              subst (λ (b : ℕ). Occurs b xs)
                (sym (
                  ap (λ (z : ℕ). (s.free.off + z) % count) (sym at)
                  ∙ block_of_offset count x s.free v.count_le v.off_lt (below x there)))
                there
          | inr old ↦ absurd (ground (arith, clear o))
        ]);
}
