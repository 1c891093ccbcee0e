-- ===== src/Alloc/Complete.antt =====
-- Right after an ack `lfs_alloc` gives up only if every block of the device is in use.
use littlefs.Prelude.{
  none, some, ℕ, zero, suc, ◌+◌, ◌-◌, ◌*◌, ◌%◌, ◌≤◌, ◌<◌, ◌≡◌, ◌⊎◌, inl, inr, refl, ap, ◌∙◌, arith,
  false, length, ◌==◌, sub32, mul32, Bool-cases,
}
use native.Mathlib.Nat.{mod-add-mod, mod-lt}
use littlefs.Exec.{got, failed, M, Res, ok, err, fault, out_of_fuel, bind_res}
use littlefs.Config.{Config}
use littlefs.Lfs.{Free, Lfs}
use littlefs.Alloc.{Search, is_used, scan_window, next_window, alloc_after, alloc_loop}
use littlefs.Alloc.Window.{IsFree, Finds, scan_window-Finds}
use littlefs.Alloc.Fresh.{next_window-IsFree, next_window_buffer, Marks, IsMarked, Allocates}
use littlefs.Alloc.Fresh.{IsFresh}
use littlefs.Alloc.Rounds.{alloc_loop-Allocates}
use littlefs.Alloc.Exhaust.{
  MarksOnly, IsExact, IsPassed, IsPassed-scan, IsPassed-next, all_passed, next_window-clear,
}

-- What the end of a window tells, when no block is left before the next ack.
abbrev pub Tells :
    {D : Type 0}
    → ℕ
    → M (Lfs D) (Unit {0})
    → (Lfs D → Type 0)
    → (ℕ → Type 0)
    → Res (Lfs D) ℕ
    → Type 0
Tells count traverse Good InUse (ok b t) = Unit {0}
Tells {D} count traverse Good InUse (err e t) =
    ((b : ℕ) → b < count → InUse b) ⊎ ((s : Lfs D) × Good s × (traverse s ≡ err e t))
Tells count traverse Good InUse fault = Unit {0}
Tells count traverse Good InUse out_of_fuel = Unit {0}

module _ {D : Type 0} (cfg : Config D) (traverse : M (Lfs D) (Unit {0})) where
  open cfg use {block_count, lookahead_size}

  module _ {Good : Lfs D → Type 0} {InUse : ℕ → Type 0}
      (laws : Marks block_count traverse Good InUse)
      (only : MarksOnly block_count traverse Good InUse) (start : ℕ)
      (start_lt : start < block_count) (pos : 0 < mul32 8 lookahead_size)
      (aligned : lookahead_size % 8 ≡ 0) where
    again-Tells :
        (rest : M (Lfs D) ℕ) (s : Lfs D) (r : Res (Lfs D) (Unit {0}))
        → traverse s ≡ r
        → Good s
        → ((t : Lfs D) → traverse s ≡ ok tt t → Tells block_count traverse Good InUse (rest t))
        → Tells block_count traverse Good InUse (bind_res r (λ _. rest))
    again-Tells rest s (ok u t) e good next = next t e
    again-Tells rest s (err x t) e good next = inr (s, good, e)
    again-Tells rest s fault e good next = tt
    again-Tells rest s out_of_fuel e good next = tt

    -- The state after a traversal of a new window.
    traverse-IsExact :
        (s t : Lfs D)
        → Good s
        → IsFree block_count s.free
        → s.free.size ≤ 32 * length s.free.buffer
        → ((k : ℕ) → is_used s.free.buffer k ≡ false)
        → IsPassed block_count InUse start s.free
        → traverse s ≡ ok tt t
        → IsFree block_count t.free
          × IsExact block_count InUse t.free
          × IsPassed block_count InUse start t.free
    traverse-IsExact s t good v len clear p e =
        let k = laws.keeps s t good e in
        let off_eq : t.free.off ≡ s.free.off = ap (λ (f : Free). f.off) k in
        let i_eq : t.free.i ≡ s.free.i = ap (λ (f : Free). f.i) k in
        let size_eq : t.free.size ≡ s.free.size = ap (λ (f : Free). f.size) k in
        let ack_eq : t.free.ack ≡ s.free.ack = ap (λ (f : Free). f.ack) k in
        (
          ground (arith, v.count_le, v.off_lt, v.i_le, v.size_le, v.left_le, v.ack_le),
          record {
            exact =
                λ o from to used. rw off_eq (only.only s t o good e v len clear (omega arith) used);
          },
          record {
            passed = λ j h. p.passed j (omega arith);
            position = rw (off_eq, i_eq, ack_eq) p.position;
          },
        )

    alloc_after-Tells :
        (rest : M (Lfs D) ℕ) (s : Lfs D) (r : Search)
        → Good s
        → IsFree block_count s.free
        → IsExact block_count InUse s.free
        → IsPassed block_count InUse start s.free
        → ((t : Lfs D)
            → Good t
            → IsFree block_count t.free
            → IsExact block_count InUse t.free
            → IsPassed block_count InUse start t.free
            → Tells block_count traverse Good InUse (rest t))
        → Finds block_count s.free r
        → Tells block_count traverse Good InUse (alloc_after cfg traverse rest r s)
    unfolding alloc_after
    alloc_after-Tells rest s none good v x p next found = tt
    alloc_after-Tells rest s (some (got off, g)) good v x p next found = tt
    alloc_after-Tells rest s (some (failed e, g)) good v x p next found =
        let (w, later, ended, all) = found in
        let q = IsPassed-scan s.free g e start v x p found in
        elim (Bool-cases (g.ack == 0)) [
          | inl stop ↦ rw stop (inl (all_passed g start start_lt (ground arith) q))
          | inr go ↦
              let s' : Lfs D = record s { free = next_window block_count lookahead_size g } in
              let good' : Good s' = laws.good_free s s'.free good in
              let (u, lt, ack) =
                next_window-IsFree block_count lookahead_size g w pos (ground arith) in
              let q' = IsPassed-next g start lookahead_size w (omega (arith, later.size_eq)) q in
              rw go (
                again-Tells rest s' (traverse s') refl good' (λ t e'.
                  let (v'', x'', q'') =
                    traverse-IsExact s' t good' u
                      (next_window_buffer block_count lookahead_size g aligned)
                      (next_window-clear block_count lookahead_size g) q' e' in
                  next t (laws.good s' t good' e') v'' x'' q''))
        ]

    pub alloc_loop-Tells :
        (fuel : ℕ) (s : Lfs D)
        → Good s
        → IsFree block_count s.free
        → IsExact block_count InUse s.free
        → IsPassed block_count InUse start s.free
        → Tells block_count traverse Good InUse (alloc_loop cfg traverse fuel s)
    unfolding alloc_loop
    alloc_loop-Tells zero s good v x p = tt
    alloc_loop-Tells (suc fuel) s good v x p =
        let left = sub32 s.free.size s.free.i in
        alloc_after-Tells (alloc_loop cfg traverse fuel) s (scan_window left s.free) good v x p
          (λ t good' v' x' p'. alloc_loop-Tells fuel t good' v' x' p')
          (scan_window-Finds block_count left s.free v
            (omega (arith, v.i_le, v.size_le, v.count_le)))

  -- What `lfs_alloc` promises where a block is free.
  abbrev pub Succeeds : (Lfs D → Type 0) → (ℕ → Type 0) → Res (Lfs D) ℕ → Type 0
  Succeeds Good InUse (ok b t) = IsFresh block_count InUse b t.free
  Succeeds Good InUse (err e t) = (s : Lfs D) × Good s × (traverse s ≡ err e t)
  Succeeds Good InUse fault = (s : Lfs D) × Good s × (traverse s ≡ fault)
  Succeeds Good InUse out_of_fuel = ⊥

  both-Succeeds :
      (Good : Lfs D → Type 0) (InUse : ℕ → Type 0) (r : Res (Lfs D) ℕ) (b : ℕ)
      → b < block_count
      → ¬ InUse b
      → Allocates block_count traverse Good InUse r
      → Tells block_count traverse Good InUse r
      → Succeeds Good InUse r
  both-Succeeds Good InUse (ok a t) b lt free (good, fresh) told = fresh
  both-Succeeds Good InUse (err e t) b lt free h (inl all) = absurd (free (all b lt))
  both-Succeeds Good InUse (err e t) b lt free h (inr unfinished) = unfinished
  both-Succeeds Good InUse fault b lt free h told = h
  both-Succeeds Good InUse out_of_fuel b lt free h told = h

  -- The loop of `lfs_alloc` right after an ack, on a device of at most 2^31 blocks with a lookahead
  -- size that is a multiple of 8 and a nonzero number of bits, over any traversal: if the counters
  -- are consistent, the bitmap has a bit for each block of the window, the bits of the part of the
  -- window not searched yet are those of the blocks in use, the traversal ends, keeps the counters
  -- and the length of the bitmap and marks the blocks in use of a window and no others, and some
  -- block of the device is not in use, then `ack + 1` rounds of fuel are never used up, and the
  -- loop returns a block of the device that is not in use, unless a traversal returns an error,
  -- which it then returns too, or has a fault.
  pub alloc_loop-Succeeds :
      {Good : Lfs D → Type 0} {InUse : ℕ → Type 0} (fuel : ℕ) (s : Lfs D) (b : ℕ)
      → Marks block_count traverse Good InUse
      → MarksOnly block_count traverse Good InUse
      → 0 < mul32 8 lookahead_size
      → lookahead_size % 8 ≡ 0
      → Good s
      → IsFree block_count s.free
      → IsMarked block_count InUse s.free
      → IsExact block_count InUse s.free
      → s.free.ack ≡ block_count
      → s.free.ack < fuel
      → b < block_count
      → ¬ InUse b
      → Succeeds Good InUse (alloc_loop cfg traverse fuel s)
  alloc_loop-Succeeds {Good} {InUse} fuel s b laws only pos aligned good v m x acked enough lt
        free =
      let start = (s.free.off + s.free.i) % block_count in
      let none_yet : IsPassed block_count InUse start s.free = record {
        passed = λ j h. absurd (omega arith);
        position =
            (let e : block_count - s.free.ack ≡ 0 = omega arith in
              rw e (
                mod-add-mod (s.free.off + s.free.i) block_count 0
                ∙ ap (λ (t : ℕ). t % block_count) (omega arith)));
      } in
      both-Succeeds Good InUse (alloc_loop cfg traverse fuel s) b lt free
        (alloc_loop-Allocates cfg traverse laws fuel s good v m pos aligned (inl enough))
        (alloc_loop-Tells laws only start (mod-lt (s.free.off + s.free.i) (omega arith)) pos aligned
          fuel s good v x none_yet)
