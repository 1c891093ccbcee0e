-- ===== src/Alloc/Rounds.antt =====
-- `lfs_alloc` ends, and gives out no block in use.
use littlefs.Prelude.{
  none, some, ℕ, zero, suc, ◌*◌, ◌%◌, ◌≤◌, ◌<◌, ◌≡◌, refl, ap, arith, ◌∙◌, sym, ◌==◌, length, sub32,
  mul32, Bool-cases,
}
use mathlib.Core.Logic.{◌⊎◌, inl, inr}
use littlefs.Exec.{Error, got, failed, M, Res, ok, err, fault, out_of_fuel, bind_res}
use littlefs.Config.{Config}
use littlefs.Lfs.{Free, Lfs}
use littlefs.Alloc.{Search, window_offset, scan_window, next_window, alloc_after, alloc_loop}
use littlefs.Alloc.Window.{IsFree, Finds, scan_window-Finds}
use littlefs.Alloc.Fresh.{
  next_window-IsFree, next_window_buffer, Marks, IsMarked, Allocates, Finds-IsFresh,
}

module _ {D : Type 0} (cfg : Config D) (traverse : M (Lfs D) (Unit {0})) where
  open cfg use {block_count, lookahead_size}

  module _ {Good : Lfs D → Type 0} {InUse : ℕ → Type 0}
      (laws : Marks block_count traverse Good InUse) where
    -- The traversal leaves the state ready for a search.
    traverse-IsMarked :
        (s t : Lfs D)
        → Good s
        → IsFree block_count s.free
        → s.free.size ≤ 32 * length s.free.buffer
        → traverse s ≡ ok tt t
        → Good t
          × IsFree block_count t.free
          × IsMarked block_count InUse t.free
          × (t.free.i ≡ s.free.i)
          × (t.free.size ≡ s.free.size)
          × (t.free.ack ≡ s.free.ack)
    unfolding window_offset
    traverse-IsMarked s t good v len e =
        let k = laws.keeps s t good e in
        let off_eq : t.free.off ≡ s.free.off = ap (λ (f : Free). f.off) k in
        let i_eq : t.free.i ≡ s.free.i = ap (λ (f : Free). f.i) k in
        let size_eq : t.free.size ≡ s.free.size = ap (λ (f : Free). f.size) k in
        let ack_eq : t.free.ack ≡ s.free.ack = ap (λ (f : Free). f.ack) k in
        (
          laws.good s t good e,
          ground (arith, v.count_le, v.off_lt, v.i_le, v.size_le, v.left_le, v.ack_le),
          record {
            room = omega (arith, laws.keeps_length s t good e, size_eq);
            marked = λ b u h p q.
                let w : window_offset block_count t.free b ≡ window_offset block_count s.free b =
                  rw off_eq refl in
                rw w (laws.marks s t b good e u h len (omega (arith, w, size_eq)));
          },
          i_eq,
          size_eq,
          ack_eq,
        )

    -- The next round, if it keeps the promise from every state that a traversal leaves.
    again-Allocates :
        (rest : M (Lfs D) ℕ) (s : Lfs D) (r : Res (Lfs D) (Unit {0}))
        → traverse s ≡ r
        → Good s
        → ((t : Lfs D) → traverse s ≡ ok tt t → Allocates block_count traverse Good InUse (rest t))
        → ((e : Error) (t : Lfs D) → traverse s ≡ err e t → Good t)
        → Allocates block_count traverse Good InUse (bind_res r (λ _. rest))
    again-Allocates rest s (ok u t) e good next bad = next t e
    again-Allocates rest s (err x t) e good next bad = (bad x t e, inr (s, good, e))
    again-Allocates rest s fault e good next bad = (s, good, e)
    again-Allocates rest s out_of_fuel e good next bad = laws.ends s good e

    -- One round, if the rounds after it keep the promise.
    alloc_after-Allocates :
        (fuel : ℕ) (rest : M (Lfs D) ℕ) (s : Lfs D) (r : Search)
        → Good s
        → IsFree block_count s.free
        → IsMarked block_count InUse s.free
        → 0 < mul32 8 lookahead_size
        → lookahead_size % 8 ≡ 0
        → (s.free.ack ≤ fuel) ⊎ ((s.free.i < s.free.size) × (s.free.ack ≤ suc fuel))
        → ((t : Lfs D)
            → Good t
            → IsFree block_count t.free
            → IsMarked block_count InUse t.free
            → t.free.i < t.free.size
            → t.free.ack ≤ fuel
            → Allocates block_count traverse Good InUse (rest t))
        → Finds block_count s.free r
        → Allocates block_count traverse Good InUse (alloc_after cfg traverse rest r s)
    unfolding alloc_after
    alloc_after-Allocates fuel rest s none good v m pos aligned enough next found =
        absurd (omega (arith, m.room))
    alloc_after-Allocates fuel rest s (some (got off, g)) good v m pos aligned enough next found =
        (laws.good_free s g good, Finds-IsFresh s.free g off v m found)
    alloc_after-Allocates fuel rest s (some (failed e, g)) good v m pos aligned enough next
          (w, later, ended, all) =
        elim (Bool-cases (g.ack == 0)) [
          | inl stop ↦
              rw stop (laws.good_free s g good, inl (refl, ground arith, ended ∙ sym later.size_eq))
          | inr go ↦
              let s' : Lfs D = record s { free = next_window block_count lookahead_size g } in
              let good' : Good s' = laws.good_free s s'.free good in
              let (u, lt, ack) =
                next_window-IsFree block_count lookahead_size g w pos (ground arith) in
              let fewer : g.ack ≤ fuel = elim enough [
                | inl h ↦ omega (arith, later.ack_eq, v.i_le)
                | inr h ↦ omega (arith, later.ack_eq, h.0, h.1)
              ] in
              rw go (
                again-Allocates rest s' (traverse s') refl good'
                  (λ t e'.
                    let (good'', v', m', i_eq, size_eq, ack_eq) =
                      traverse-IsMarked s' t good' u
                        (next_window_buffer block_count lookahead_size g aligned) e' in
                    next t good'' v' m' (omega (arith, i_eq, size_eq)) (omega (arith, ack_eq)))
                  (λ x t e'. laws.good_err s' x t good' e'))
        ]

    -- The loop of `lfs_alloc`, on a device of at most 2^31 blocks with a lookahead size that is a
    -- multiple of 8 and a nonzero number of bits, over any traversal: if the counters are
    -- consistent, the bitmap has a bit for each block of the window, the blocks in use of the part
    -- of the window not searched yet are marked, and the traversal ends, keeps the counters and
    -- the length of the bitmap and marks the blocks in use of a window, then `ack + 1` rounds of
    -- fuel (`ack`, if the window has blocks left) are never used up. A block that it returns lies
    -- on the device and is not in use; the search has passed it, the counters are consistent again
    -- and the window is marked. It returns an error only if that is LFS_ERR_NOSPC at the end of a
    -- window with no block left before the next ack, or the error of a traversal. An access
    -- outside the bitmap or another fault happens only where the traversal has one.
    pub alloc_loop-Allocates :
        (fuel : ℕ) (s : Lfs D)
        → Good s
        → IsFree block_count s.free
        → IsMarked block_count InUse s.free
        → 0 < mul32 8 lookahead_size
        → lookahead_size % 8 ≡ 0
        → (s.free.ack < fuel) ⊎ ((s.free.i < s.free.size) × (s.free.ack ≤ fuel))
        → Allocates block_count traverse Good InUse (alloc_loop cfg traverse fuel s)
    unfolding alloc_loop
    alloc_loop-Allocates zero s good v m pos aligned (inl enough) = omega arith
    alloc_loop-Allocates zero s good v m pos aligned (inr (some_left, enough)) =
        omega (arith, v.left_le)
    alloc_loop-Allocates (suc fuel) s good v m pos aligned enough =
        let left = sub32 s.free.size s.free.i in
        alloc_after-Allocates fuel (alloc_loop cfg traverse fuel) s (scan_window left s.free) good v
          m pos aligned (elim enough [ inl h ↦ inl (omega arith) | inr h ↦ inr h ])
          (λ t good' v' m' some_left few.
            alloc_loop-Allocates fuel t good' v' m' pos aligned (inr (some_left, few)))
          (scan_window-Finds block_count left s.free v
            (omega (arith, v.i_le, v.size_le, v.count_le)))
