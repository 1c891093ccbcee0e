-- ===== src/Alloc/Bitmap.antt =====
-- The lookahead bitmap: a marked block is in use, and no other bit changes.
use littlefs.Prelude.{
  ℕ, zero, suc, ◌*◌, ◌/◌, ◌%◌, ◌^◌, ◌≤◌, ◌<◌, ◌≡◌, arith, bit_or, not, ◌==◌, ◌||◌, List, length,
  get_or, set, length-set, get_or-set_self, get_or-set_ne, digit, digit-or, digit-pow, and-pow,
  ◌<<◌,
}
use littlefs.Alloc.{is_used, mark_used}
use native.Mathlib.Nat.{pow-le-pow_right, one-le-pow}
use native.Mathlib.Decide.{ℕ_discrete}

bit_of : (o : ℕ) → 1 << (o % 32) ≡ 2 ^ (o % 32)
bit_of o = omega (arith, pow-le-pow_right {n = 2} (omega arith) {i = o % 32} {j = 31} (omega arith))

-- The word and the digit of an offset.
is_used-digit :
    (buffer : List ℕ) (o : ℕ)
    → is_used buffer o ≡ not (digit (get_or buffer (o / 32) 0) (o % 32) == 0)
unfolding is_used
is_used-digit buffer o =
    let x = get_or buffer (o / 32) 0 in
    rw (bit_of o, and-pow x (o % 32))
      (flag (digit x (o % 32)) (2 ^ (o % 32)) (omega arith) (one-le-pow (o % 32) 2 (omega arith)))
  where
    flag : (d p : ℕ) → d < 2 → 1 ≤ p → not (d * p == 0) ≡ not (d == 0)
    flag zero p h k = ground arith
    flag (suc zero) p h k = ground arith
    flag (suc (suc d)) p h k = absurd (omega arith)

-- If the buffer has a bit for an offset, marking the offset sets the bit of that offset and leaves
-- the bit of every other offset as it was.
pub is_used-mark_used :
    (buffer : List ℕ) (o o' : ℕ)
    → o < 32 * length buffer
    → is_used (mark_used buffer o) o' ≡ ((o == o') || is_used buffer o')
unfolding mark_used
is_used-mark_used buffer o o' h =
    rw
      (
        is_used-digit (set buffer (o / 32) (bit_or (get_or buffer (o / 32) 0) (1 << (o % 32)))) o',
        is_used-digit buffer o',
        bit_of o,
      )
      (elim (ℕ_discrete (o / 32) (o' / 32)) [
        | yes same ↦
            (let x = get_or buffer (o / 32) 0 in
              rw
                (
                  ← same,
                  get_or-set_self buffer (o / 32) (bit_or x (2 ^ (o % 32))) 0 (omega arith),
                  digit-or x (2 ^ (o % 32)) (o' % 32),
                  digit-pow (o % 32) (o' % 32),
                )
                (ground arith))
        | no other ↦
            rw
              (get_or-set_ne buffer (o / 32) (o' / 32)
                (bit_or (get_or buffer (o / 32) 0) (2 ^ (o % 32))) 0 other)
              (ground arith)
      ])

pub length-mark_used : (buffer : List ℕ) (o : ℕ) → length (mark_used buffer o) ≡ length buffer
unfolding mark_used
length-mark_used buffer o = length-set buffer (o / 32) _
