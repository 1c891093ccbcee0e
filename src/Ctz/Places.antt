-- ===== src/Ctz/Places.antt =====
-- `lfs_ctz_index` gives every position of a file its place.
use littlefs.Prelude.{ℕ, zero, suc, ◌+◌, ◌-◌, ◌*◌, ◌^◌, ◌≤◌, ◌<◌, ◌≡◌, refl, arith}
use native.Mathlib.Decide.{dec_lt}
use littlefs.Ctz.{ctz_index}
use littlefs.Ctz.Layout.{header, start_of, header-le, start-le, start_mono}
use littlefs.Ctz.Index.{ctz_index_of_place}

-- Where a byte of the file lies: the index of a block, and an offset behind its pointers.
abbrev pub IsPlace : (block_size pos : ℕ) → ℕ × ℕ → Type 0
IsPlace block_size pos (i, off) =
    (header i ≤ off) × (off < block_size) × (start_of block_size i + (off - header i) ≡ pos)

IsPlace-below :
    (block_size pos k : ℕ)
    → 128 ≤ block_size
    → k < 2 ^ 31
    → pos < start_of block_size k
    → (i off : ℕ) × IsPlace block_size pos (i, off) × (i < 2 ^ 31)
unfolding start_of
IsPlace-below block_size pos zero wide few lt = absurd (omega arith)
IsPlace-below block_size pos (suc k) wide few lt = elim (dec_lt pos (start_of block_size k)) [
  | yes p ↦ IsPlace-below block_size pos k wide (omega arith) p
  | no p ↦
      let h = header-le k (omega arith) in
      (
        k,
        header k + (pos - start_of block_size k),
        (omega arith, omega arith, omega arith),
        omega arith,
      )
]

index_found :
    (block_size pos : ℕ)
    → 128 ≤ block_size
    → block_size ≤ 2 ^ 31
    → pos < 2 ^ 31
    → (i off : ℕ) × (ctz_index block_size pos ≡ (i, off))
      × IsPlace block_size pos (i, off)
      × (i < 2 ^ 31)
index_found block_size pos wide narrow small =
    let e : block_size - 8 + 8 ≡ block_size = omega arith in
    let far : suc (2 ^ 25) * 120 ≤ start_of block_size (suc (2 ^ 25)) =
      rw e at (start-le (block_size - 8) (2 ^ 25) (omega arith) (omega arith)) in
    let (i, off, (from, lt, at), few) =
      IsPlace-below block_size pos (suc (2 ^ 25)) wide (omega arith) (omega arith) in
    (
      i,
      off,
      rw at at (ctz_index_of_place block_size i off wide narrow few from lt (omega arith)),
      (from, lt, at),
      few,
    )

pub ctz_index-lt :
    (block_size pos : ℕ)
    → 128 ≤ block_size
    → block_size ≤ 2 ^ 31
    → pos < 2 ^ 31
    → (ctz_index block_size pos).0 < 2 ^ 31
ctz_index-lt block_size pos wide narrow small =
    let (i, off, found, place, few) = index_found block_size pos wide narrow small in rw found few

-- `lfs_ctz_index`, for blocks of at least 128 and at most 2^31 bytes and a position below 2^31:
-- the offset lies in the block behind its pointers, and the bytes of the file in the blocks before
-- and those in front of it in its own are as many as the position says.
pub ctz_index-IsPlace :
    (block_size pos : ℕ)
    → 128 ≤ block_size
    → block_size ≤ 2 ^ 31
    → pos < 2 ^ 31
    → IsPlace block_size pos (ctz_index block_size pos)
ctz_index-IsPlace block_size pos wide narrow small =
    let (i, off, found, place, few) = index_found block_size pos wide narrow small in rw found place

-- A later byte lies in no earlier block.
pub place_mono :
    (block_size pos pos' : ℕ) (p q : ℕ × ℕ)
    → pos ≤ pos'
    → IsPlace block_size pos p
    → IsPlace block_size pos' q
    → p.0 ≤ q.0
place_mono block_size pos pos' (i, off) (k, off') le (from, lt, at) (from', lt', at') =
    elim (dec_lt k i) [
      | yes p ↦
          let step : start_of block_size (suc k) ≡ start_of block_size k + (block_size - header k) =
            unfold start_of in refl in
          absurd (omega (arith, start_mono block_size (suc k) i p, step))
      | no p ↦ omega arith
    ]
