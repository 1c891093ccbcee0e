-- ===== src/Alloc/Window.antt =====
-- The search of the window: what `lfs_alloc` finds is not marked, and the counters stay in step.
use littlefs.Prelude.{
  ℕ, zero, suc, ◌+◌, ◌*◌, length, Option, none, some, ◌^◌, ◌≤◌, ◌<◌, ◌≡◌, ◌≢◌, arith, true, false,
  ◌==◌, Bool-cases,
}
use mathlib.Core.Logic.{inl, inr}
use native.Mathlib.Decide.{ℕ_discrete}
use littlefs.Exec.{got, failed}
use littlefs.Lfs.{Free}
use littlefs.Alloc.{is_used, in_buffer, advance, skip_used, Search, found_at, scan_window}

-- The counters of the allocator: the window has been looked through up to `i`, and what is left of
-- it is part of what is left before the next ack.
pub record IsFree (count : ℕ) (f : Free) : Type 0 where
  pub count_le : count ≤ 2 ^ 31
  pub off_lt : f.off < count
  pub i_le : f.i ≤ f.size
  pub size_le : f.size ≤ count
  pub left_le : f.size ≤ f.i + f.ack
  pub ack_le : f.ack ≤ count

-- `g` is further in the same window.
pub record Later (f g : Free) : Type 0 where
  pub off_eq : g.off ≡ f.off
  pub size_eq : g.size ≡ f.size
  pub buffer_eq : g.buffer ≡ f.buffer
  pub i_le : f.i ≤ g.i
  pub ack_eq : f.i + f.ack ≡ g.i + g.ack

Later-refl : (f : Free) → Later f f
Later-refl f = ground arith

Later-trans : {f g h : Free} → Later f g → Later g h → Later f h
Later-trans p q = ground arith

module _ {count : ℕ} where
  advance-IsFree :
      {f : Free} → IsFree count f → f.i ≢ f.size → IsFree count (advance f) × Later f (advance f)
  unfolding advance
  advance-IsFree v ne = (omega arith, ground arith)

module _ (count : ℕ) where
  -- What skipping promises: an access outside the buffer needs a window that is larger.
  abbrev Skips : Free → Option Free → Type 0
  Skips f none = 32 * length f.buffer < f.size
  Skips f (some g) = IsFree count g × Later f g

  Skips-advance :
      (f : Free) (r : Option Free) → Later f (advance f) → Skips (advance f) r → Skips f r
  unfolding advance
  Skips-advance f none step h = h
  Skips-advance f (some g) step (w, rest) = (w, Later-trans step rest)

  outside :
      (f : Free)
      → IsFree count f
      → f.i ≢ f.size
      → in_buffer f.buffer f.i ≡ false
      → 32 * length f.buffer < f.size
  unfolding in_buffer
  outside f v ne h = ground (arith, v.i_le)

  skip_used-Skips : (left : ℕ) (f : Free) → IsFree count f → Skips f (skip_used left f)
  unfolding skip_used
  skip_used-Skips zero f v = (v, Later-refl f)
  skip_used-Skips (suc left) f v = elim (Bool-cases (f.i == f.size)) [
    | inl stop ↦ rw stop (v, Later-refl f)
    | inr go ↦ rw go (elim (Bool-cases (in_buffer f.buffer f.i)) [
      | inr out ↦ rw out (outside f v (ground arith) out)
      | inl inside ↦ rw inside (elim (Bool-cases (is_used f.buffer f.i)) [
        | inr free ↦ rw free (v, Later-refl f)
        | inl used ↦ rw used (
            let (w, step) = advance-IsFree v (ground arith) in
            Skips-advance f _ step (skip_used-Skips left (advance f) w))
      ])
    ])
  ]

-- What the search of the window promises: an offset that is free and has not been looked at before,
-- or that there is none; or a read outside the buffer, which needs a window that is larger.
abbrev pub Finds : ℕ → Free → Search → Type 0
Finds count f none = 32 * length f.buffer < f.size
Finds count f (some (got off, g)) =
    (off < f.size)
    × (f.i ≤ off)
    × (is_used f.buffer off ≡ false)
    × IsFree count g
    × Later f g
    × (off < g.i)
Finds count f (some (failed e, g)) =
    IsFree count g
    × Later f g
    × (g.i ≡ f.size)
    × ((o : ℕ) → f.i ≤ o → o < f.size → is_used f.buffer o ≡ true)

module _ (count : ℕ) where
  Finds-advance :
      (f : Free) (r : Search)
      → IsFree count f
      → is_used f.buffer f.i ≡ true
      → Later f (advance f)
      → Finds count (advance f) r
      → Finds count f r
  unfolding advance
  Finds-advance f none v u step h = h
  Finds-advance f (some (got off, g)) v u step h =
      (h.0, omega arith, h.2, h.3, Later-trans step h.4, h.5)
  Finds-advance f (some (failed e, g)) v u step h = (
    h.0,
    Later-trans step h.1,
    h.2,
    λ o p q. elim (ℕ_discrete f.i o) [
      | yes same ↦ rw (← same) u
      | no other ↦ h.3 o (omega arith) q
    ],
  )

  -- The block at the position of the search is free, and the next ones are skipped.
  Finds-found :
      (f : Free) (r : Option Free)
      → IsFree count f
      → f.i ≢ f.size
      → is_used f.buffer f.i ≡ false
      → Skips count f r
      → Later f (advance f)
      → Skips count (advance f) r
      → Finds count f (found_at f.i r)
  unfolding advance
  Finds-found f none v ne free h step rest = h
  Finds-found f (some g) v ne free h step (u, rest) =
      (omega (arith, v.i_le), omega arith, free, u, h.1, omega (arith, rest.i_le))

  -- The search of the window, with consistent counters and fuel for the rest of the window: either
  -- it finds an offset, not below where it started and inside the window, whose bit is clear, and
  -- the search position is behind it; or the bits of the rest of the window are all set and the
  -- search position is at its end. In both cases only the position and `ack` change, their sum
  -- stays, and the counters are consistent. It reads outside the buffer only if the window has more
  -- blocks than the buffer has bits.
  pub scan_window-Finds :
      (left : ℕ) (f : Free)
      → IsFree count f
      → f.size ≤ f.i + left
      → Finds count f (scan_window left f)
  unfolding scan_window
  scan_window-Finds zero f v h = (v, Later-refl f, omega arith, λ o p q. absurd (omega arith))
  scan_window-Finds (suc left) f v h = elim (Bool-cases (f.i == f.size)) [
    | inl stop ↦ rw stop (v, Later-refl f, ground arith, λ o p q. absurd (ground arith))
    | inr go ↦
        let unlike : f.i ≢ f.size = ground arith in
        let (w, step) = advance-IsFree v unlike in
        rw go (elim (Bool-cases (in_buffer f.buffer f.i)) [
          | inr out ↦ rw out (outside count f v unlike out)
          | inl inside ↦ rw inside (elim (Bool-cases (is_used f.buffer f.i)) [
            | inl used ↦
                rw used (
                  Finds-advance f _ v used step
                    (scan_window-Finds left (advance f) w (omega arith)))
            | inr free ↦ rw free (
                let rest = skip_used-Skips count left (advance f) w in
                Finds-found f (skip_used left (advance f)) v unlike free
                  (Skips-advance count f _ step rest) step rest)
          ])
        ])
  ]
