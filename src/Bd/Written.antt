-- ===== src/Bd/Written.antt =====
-- The contents of a device after bytes have been written to it, and a buffer after `memcpy`.
use littlefs.Prelude.{
  ℕ, ◌+◌, ◌-◌, ◌≤◌, ◌<◌, ◌≡◌, refl, ◌∙◌, ap, arith, true, false, Bool, ◌&&◌, some, List, ◌++◌,
  length, get_or, take, drop, ltb, leb, ◌==◌, if◌then◌else◌, length-append, length-take,
  length-drop, get_or-append_left, get_or-append_right, get_or-take, get_or-drop, Bool-cases, inl,
  inr,
}
use native.Mathlib.Decide.{dec_lt}
use littlefs.Bd.{mem_write}

-- Whether a byte lies in a region.
abbrev pub within : (block o n : ℕ) → ℕ → ℕ → Bool
within block o n b k = (b == block) && (leb o k && ltb k (o + n))

-- Bytes laid over the contents of a device.
abbrev pub written : ℕ → ℕ → List ℕ → (ℕ → ℕ → ℕ) → ℕ → ℕ → ℕ
written block o bytes blocks b k =
    if within block o (length bytes) b k then get_or bytes (k - o) 0 else blocks b k

pub written-cong :
    (block o : ℕ) (bytes : List ℕ) (f g : ℕ → ℕ → ℕ) (b k : ℕ)
    → f b k ≡ g b k
    → written block o bytes f b k ≡ written block o bytes g b k
written-cong block o bytes f g b k e =
    ap (λ (t : ℕ). if within block o (length bytes) b k then get_or bytes (k - o) 0 else t) e

pub length-take-le : (n : ℕ) (xs : List ℕ) → n ≤ length xs → length (take n xs) ≡ n
length-take-le n xs h = omega (arith, length-take n xs)

-- A region that is written in two parts.
pub written_parts :
    (block o n : ℕ) (bytes : List ℕ) (blocks : ℕ → ℕ → ℕ) (b k : ℕ)
    → n ≤ length bytes
    → written block (o + n) (drop n bytes) (written block o (take n bytes) blocks) b k
      ≡ written block o bytes blocks b k
written_parts block o n bytes blocks b k le =
    let lt = length-take-le n bytes le in
    let ld = length-drop n bytes in
    elim (Bool-cases (within block o (length bytes) b k)) [
      | inr out ↦
          let o1 : within block (o + n) (length (drop n bytes)) b k ≡ false = ground (arith, ld) in
          let o2 : within block o (length (take n bytes)) b k ≡ false = ground (arith, lt) in
          rw (out, o1, o2) refl
      | inl here ↦ elim (dec_lt k (o + n)) [
        | yes p ↦
            let o1 : within block (o + n) (length (drop n bytes)) b k ≡ false =
              ground (arith, ld) in
            let o2 : within block o (length (take n bytes)) b k ≡ true = ground (arith, lt) in
            rw (here, o1, o2) (get_or-take n bytes (k - o) 0 (ground arith))
        | no p ↦
            let o1 : within block (o + n) (length (drop n bytes)) b k ≡ true = ground (arith, ld) in
            let e : n + (k - (o + n)) ≡ k - o = ground arith in
            rw (here, o1) (get_or-drop n bytes (k - (o + n)) 0 ∙ ap (λ (t : ℕ). get_or bytes t 0) e)
      ]
    ]

-- A buffer after a copy into it.
pub record IsCopied (buffer : List ℕ) (at : ℕ) (bytes result : List ℕ) : Type 0 where
  pub length_eq : length result ≡ length buffer
  pub inside :
      (j : ℕ) → at ≤ j → j < at + length bytes → get_or result j 0 ≡ get_or bytes (j - at) 0
  pub before : (j : ℕ) → j < at → get_or result j 0 ≡ get_or buffer j 0

pub mem_write-IsCopied :
    (buffer : List ℕ) (at : ℕ) (bytes : List ℕ)
    → at + length bytes ≤ length buffer
    → (result : List ℕ) × (mem_write buffer at bytes ≡ some result)
      × IsCopied buffer at bytes result
unfolding mem_write
mem_write-IsCopied buffer at bytes h =
    let rest : List ℕ = drop (at + length bytes) buffer in
    let first : length (take at buffer) ≡ at = length-take-le at buffer (omega arith) in
    (
      take at buffer ++ (bytes ++ rest),
      ground arith,
      record {
        length_eq = omega (
          arith,
          length-append {0} (take at buffer) (bytes ++ rest),
          length-append {0} bytes rest,
          length-drop (at + length bytes) buffer,
        );
        inside = λ j p q.
            (let e : j ≡ length (take at buffer) + (j - at) = omega arith in
              ap (λ (t : ℕ). get_or (take at buffer ++ (bytes ++ rest)) t 0) e
              ∙ get_or-append_right (take at buffer) (bytes ++ rest) (j - at) 0
              ∙ get_or-append_left bytes rest (j - at) 0 (omega arith));
        before = λ j p.
            get_or-append_left (take at buffer) (bytes ++ rest) j 0 (omega arith)
            ∙ get_or-take at buffer j 0 p;
      },
    )
