-- ===== src/Bd/Consult.antt =====
-- What `lfs_bd_read` takes out of a cache, and how far it may read past one.
use littlefs.Prelude.{
  ℕ, ◌+◌, ◌^◌, ◌≤◌, ◌<◌, ◌≡◌, ◌∙◌, arith, false, some, List, length, get_or, ltb, leb, ◌==◌, take,
  drop, length-take, length-drop, get_or-take, get_or-drop, add32, Bool-cases, inl, inr,
}
use littlefs.Util.{lfs_min}
use littlefs.Config.{Cache}
use littlefs.Bd.{Lookup, served, missed, consult, mem_read}
use littlefs.Bd.View.{covers, IsCache}

-- The result of a look into a cache, for `diff` bytes from `o` on.
abbrev pub Finds : Cache → ℕ → ℕ → ℕ → Lookup → Type 0
Finds c b o diff (served n) =
    (0 < n) × (n ≤ diff) × (b ≡ c.block) × (c.off ≤ o) × (o + n ≤ c.off + c.size)
Finds c b o diff (missed n) = (0 < n) × (n ≤ diff) × ((k : ℕ) → k < n → covers c b (o + k) ≡ false)

pub consult-Finds :
    (size : ℕ) (c : Cache) (b o diff : ℕ)
    → IsCache size c
    → 0 < diff
    → o + diff < 2 ^ 32
    → Finds c b o diff (consult c b o diff)
unfolding consult lfs_min
consult-Finds size c b o diff v pos small = elim (Bool-cases (b == c.block)) [
  | inl same ↦ elim (Bool-cases (ltb o (add32 c.off c.size))) [
    | inl before ↦ elim (Bool-cases (leb c.off o)) [
      | inl inside ↦ rw (same, before, inside) (ground (arith, v.small))
      | inr front ↦
          rw (same, before, front)
            (ground (arith, v.small), ground (arith, v.small), λ k h. ground (arith, v.small))
    ]
    | inr past ↦ rw (same, past) (pos, ground arith, λ k h. ground (arith, v.small))
  ]
  | inr other ↦ rw other (pos, ground arith, λ k h. ground arith)
]

-- The bytes of a buffer, if it has so many.
pub record IsPart (buffer : List ℕ) (at n : ℕ) (bytes : List ℕ) : Type 0 where
  pub length_eq : length bytes ≡ n
  pub get_eq : (j : ℕ) → j < n → get_or bytes j 0 ≡ get_or buffer (at + j) 0

pub mem_read-IsPart :
    (buffer : List ℕ) (at n : ℕ)
    → at + n ≤ length buffer
    → (bytes : List ℕ) × (mem_read buffer at n ≡ some bytes) × IsPart buffer at n bytes
unfolding mem_read
mem_read-IsPart buffer at n h = (
  take n (drop at buffer),
  ground (arith, h),
  record {
    length_eq = omega (arith, length-take n (drop at buffer), length-drop at buffer);
    get_eq = λ j p. get_or-take n (drop at buffer) j 0 p ∙ get_or-drop at buffer j 0;
  },
)
