-- ===== src/Alloc/Fresh.antt =====
-- Of `lfs_alloc`: what it needs of the traversal, what it promises, and why a block that the search
-- finds is not in use.
use littlefs.Prelude.{
  ℕ, ◌+◌, ◌-◌, ◌*◌, ◌/◌, ◌%◌, ◌^◌, ◌≤◌, ◌<◌, ◌≡◌, ◌≢◌, ◌⊎◌, refl, ◌∙◌, ap, arith, true, some, List,
  length, add32, sub32, mul32, length-replicate,
}
use native.Mathlib.Nat.{mod-eq_of_lt, mod-eq-sub-mod, mod-lt}
use native.Mathlib.Decide.{dec_lt}
use littlefs.Util.{lfs_min}
use littlefs.Exec.{Error, nospc, got, M, Res, ok, err, fault, out_of_fuel}
use littlefs.Lfs.{Free, Lfs}
use littlefs.Alloc.{is_used, window_offset, next_window}
use littlefs.Alloc.Window.{IsFree, Later, Finds}

-- On a device of at most 2^31 blocks, whose first block of the window is one of them: the block
-- that `lfs_alloc` computes from an offset below the number of blocks has that offset for
-- `lfs_alloc_lookahead`.
window_offset_block :
    (count off : ℕ) (f : Free)
    → count ≤ 2 ^ 31
    → f.off < count
    → off < count
    → window_offset count f (add32 f.off off % count) ≡ off
unfolding window_offset
window_offset_block count off f h hf ho = elim (dec_lt (f.off + off) count) [
  | yes p ↦
      let e : add32 f.off off % count ≡ f.off + off =
        ap (λ (t : ℕ). t % count) (let e : add32 f.off off ≡ f.off + off = omega arith in e)
        ∙ mod-eq_of_lt p in
      let e' : add32 (sub32 (f.off + off) f.off) count ≡ off + count = omega arith in
      rw (e, e')
        (mod-eq-sub-mod (omega arith) ∙ ap (λ (t : ℕ). t % count) (omega arith) ∙ mod-eq_of_lt ho)
  | no p ↦
      let e : add32 f.off off % count ≡ f.off + off - count =
        ap (λ (t : ℕ). t % count) (let e : add32 f.off off ≡ f.off + off = omega arith in e)
        ∙ mod-eq-sub-mod (omega arith)
        ∙ mod-eq_of_lt (omega arith) in
      let e' : add32 (sub32 (f.off + off - count) f.off) count ≡ off = omega arith in
      rw (e, e') (mod-eq_of_lt ho)
]

pub next_window-IsFree :
    (count lookahead : ℕ) (f : Free)
    → IsFree count f
    → 0 < mul32 8 lookahead
    → f.ack ≢ 0
    → IsFree count (next_window count lookahead f)
      × ((next_window count lookahead f).i < (next_window count lookahead f).size)
      × ((next_window count lookahead f).ack ≡ f.ack)
unfolding next_window lfs_min
next_window-IsFree count lookahead f v h ne =
    ground (arith, mod-lt (add32 f.off f.size) {m = count})

-- The bitmap has a bit for each block of the window.
pub next_window_buffer :
    (count lookahead : ℕ) (f : Free)
    → lookahead % 8 ≡ 0
    → (next_window count lookahead f).size ≤ 32 * length (next_window count lookahead f).buffer
unfolding next_window lfs_min
next_window_buffer count lookahead f h =
    rw (length-replicate {A = ℕ} (lookahead / 4) 0) (ground arith)

-- What the allocator needs of the traversal that it is given: from a `Good` state it ends, and where
-- it succeeds it leaves the counters and the length of the bitmap as they were and every block in
-- use of the window marked.
pub record Marks {D : Type 0} (count : ℕ) (traverse : M (Lfs D) (Unit {0})) (Good : Lfs D → Type 0)
    (InUse : ℕ → Type 0) : Type 0 where
  pub good_free : (s : Lfs D) (f : Free) → Good s → Good (record s { free = f })
  pub ends : (s : Lfs D) → Good s → traverse s ≢ out_of_fuel
  pub good : (s t : Lfs D) → Good s → traverse s ≡ ok tt t → Good t
  pub good_err : (s : Lfs D) (e : Error) (t : Lfs D) → Good s → traverse s ≡ err e t → Good t
  pub keeps :
      (s t : Lfs D)
      → Good s
      → traverse s ≡ ok tt t
      → t.free ≡ record s.free { buffer = t.free.buffer }
  pub keeps_length :
      (s t : Lfs D) → Good s → traverse s ≡ ok tt t → length t.free.buffer ≡ length s.free.buffer
  pub marks :
      (s t : Lfs D) (b : ℕ)
      → Good s
      → traverse s ≡ ok tt t
      → InUse b
      → b < count
      → s.free.size ≤ 32 * length s.free.buffer
      → window_offset count s.free b < s.free.size
      → is_used t.free.buffer (window_offset count s.free b) ≡ true

-- The bitmap has a bit for each block of the window, and the blocks in use among those that the
-- search of the window has not reached are marked.
pub record IsMarked (count : ℕ) (InUse : ℕ → Type 0) (f : Free) : Type 0 where
  pub room : f.size ≤ 32 * length f.buffer
  pub marked :
      (b : ℕ)
      → InUse b
      → b < count
      → f.i ≤ window_offset count f b
      → window_offset count f b < f.size
      → is_used f.buffer (window_offset count f b) ≡ true

pub IsMarked-Later :
    {count : ℕ} {InUse : ℕ → Type 0} {f g : Free}
    → IsMarked count InUse f
    → Later f g
    → IsMarked count InUse g
unfolding window_offset
IsMarked-Later {count} {InUse} {f} {g} m l = record {
  room = omega (arith, m.room, l.size_eq, ap (λ (b : List ℕ). length b) l.buffer_eq);
  marked = λ b u h p q.
      let e : window_offset count g b ≡ window_offset count f b = rw l.off_eq refl in
      rw (l.buffer_eq, e) (m.marked b u h (omega (arith, l.i_le, e)) (omega (arith, l.size_eq, e)));
}

-- A block that is handed out: inside the device, not in use, and behind the search.
pub record IsFresh (count : ℕ) (InUse : ℕ → Type 0) (b : ℕ) (f : Free) : Type 0 where
  pub block_lt : b < count
  pub unused : ¬ InUse b
  pub counters : IsFree count f
  pub marked : IsMarked count InUse f
  pub behind : window_offset count f b < f.i

-- What `lfs_alloc` promises of its result. It gives up only at the end of a window, when no block is
-- left before the next ack, or with an error of the traversal, and a fault is one of the traversal.
abbrev pub Allocates :
    {D : Type 0}
    → ℕ
    → M (Lfs D) (Unit {0})
    → (Lfs D → Type 0)
    → (ℕ → Type 0)
    → Res (Lfs D) ℕ
    → Type 0
Allocates count traverse Good InUse (ok b t) = Good t × IsFresh count InUse b t.free
Allocates {D} count traverse Good InUse (err e t) =
    Good t
    × (((e ≡ nospc) × (t.free.ack ≡ 0) × (t.free.i ≡ t.free.size))
        ⊎ ((s : Lfs D) × Good s × (traverse s ≡ err e t)))
Allocates {D} count traverse Good InUse fault = (s : Lfs D) × Good s × (traverse s ≡ fault)
Allocates count traverse Good InUse out_of_fuel = ⊥

-- What the search finds is fresh.
pub Finds-IsFresh :
    {count : ℕ} {InUse : ℕ → Type 0}
    → (f g : Free) (off : ℕ) → IsFree count f
    → IsMarked count InUse f
    → Finds count f (some (got off, g))
    → IsFresh count InUse (add32 g.off off % count) g
unfolding window_offset
Finds-IsFresh {count} f g off v m (below, from, free, w, later, behind) =
    let e : g.off ≡ f.off = later.off_eq in
    let b = add32 g.off off % count in
    let place : window_offset count f b ≡ off =
      rw e (window_offset_block count off f v.count_le v.off_lt (omega (arith, v.size_le))) in
    let place' : window_offset count g b ≡ off =
      window_offset_block count off g v.count_le w.off_lt (omega (arith, v.size_le)) in
    let lt : b < count = mod-lt (add32 g.off off) (omega (arith, v.off_lt)) in
    record {
      block_lt = lt;
      unused = λ u.
          absurd
            (ground (arith, m.marked b u lt (omega (arith, place)) (omega (arith, place)), place));
      counters = w;
      marked = IsMarked-Later m later;
      behind = omega (arith, place');
    }
