-- ===== src/Tests/Alloc.antt =====
-- The block allocator on concrete inputs, and its theorems at them.
use littlefs.Prelude.{ℕ, ◌≡◌, refl, arith, ◌==◌, ◌||◌, none, some, List, [], ◌∷◌, inl, inr, ◌<◌}
use littlefs.Util.{lfs_min}
use littlefs.Exec.{got, ok}
use littlefs.Config.{Config, Cache, block_null}
use littlefs.Gstate.{gstate_zero}
use littlefs.Lfs.{Free, Lfs}
use littlefs.Alloc.{is_used, mark_used, scan_window, alloc_loop, alloc_lookahead, alloc_after}
use littlefs.Alloc.Bitmap.{is_used-mark_used}
use littlefs.Alloc.Window.{IsFree, Finds, scan_window-Finds}
use littlefs.Alloc.Fresh.{Marks, IsMarked, Allocates}
use littlefs.Alloc.Visit.{Occurs, visit_all, fill_from, fill_from-laws, fill_from-Marks}
use littlefs.Alloc.Rounds.{alloc_loop-Allocates}
use littlefs.Alloc.Complete.{Succeeds, alloc_loop-Succeeds}
use littlefs.Alloc.Only.{fill_from-MarksOnly}

is_used-mark_used_example :
    is_used (mark_used (4 ∷ 0 ∷ []) 33) 34 ≡ ((33 == 34) || is_used (4 ∷ 0 ∷ []) 34)
is_used-mark_used_example = is_used-mark_used (4 ∷ 0 ∷ []) 33 34 (omega arith)

-- A window of 20 blocks from block 30 of 40 on, of which the first three are in use and two have been
-- looked at.
abbrev window : Free
window = record { off = 30; size = 20; i = 2; ack = 35; buffer = 7 ∷ 0 ∷ [] }

window-IsFree : IsFree 40 window
window-IsFree = omega arith

scan_window_check : scan_window 18 window ≡ some (got 3, record window { i = 4; ack = 33 })
unfolding scan_window
scan_window_check = refl

scan_window-Finds_example : Finds 40 window (scan_window 18 window)
scan_window-Finds_example = scan_window-Finds 40 18 window window-IsFree (omega arith)

-- A device whose callbacks do nothing.
abbrev pub device : Config (Unit {0})
device = record {
  dev_read = λ b o n d. (none, [], d);
  dev_prog = λ b o bytes d. (none, d);
  dev_erase = λ b d. (none, d);
  dev_sync = λ d. (none, d);
  read_size = 16;
  prog_size = 16;
  block_size = 512;
  block_count = 40;
  cache_size = 16;
  lookahead_size = 8;
  block_cycles = 500;
  cfg_name_max = 255;
  cfg_file_max = 2147483647;
  cfg_attr_max = 1022;
}

abbrev empty_cache : Cache
empty_cache = record { block = block_null; off = 0; size = 0; buffer = [] }

-- The window has been looked through.
abbrev pub full_window : Lfs (Unit {0})
full_window = record {
  bd = record { rcache = empty_cache; pcache = empty_cache; dev = tt };
  root = (0, 1);
  mlist = [];
  seed = 0;
  gstate = gstate_zero;
  globals = record { gpending = gstate_zero; gdelta = gstate_zero };
  free = record { off = 30; size = 20; i = 20; ack = 17; buffer = 0 ∷ 0 ∷ [] };
  name_max = 255;
  file_max = 2147483647;
  attr_max = 1022;
  lfs1 = none;
}

abbrev in_use : List ℕ
in_use = 0 ∷ 1 ∷ 10 ∷ 11 ∷ 39 ∷ []

-- Blocks 10 and 11 start the next window, and are passed over.
alloc_check :
    alloc_loop device (fill_from 40 in_use) 19 full_window
    ≡ ok 12 (record full_window {
      free = record { off = 10; size = 17; i = 3; ack = 14; buffer = 3 ∷ 0 ∷ [] };
    })
unfolding alloc_loop alloc_lookahead visit_all is_used mark_used alloc_after lfs_min
alloc_check = refl

fill_from-Marks_example :
    Marks {D = Unit {0}} 40 (fill_from 40 in_use) (λ s. Unit {0}) (λ b. Occurs b in_use)
    × ((t : Lfs (Unit {0})) × (fill_from 40 in_use full_window ≡ ok tt t))
fill_from-Marks_example = fill_from-Marks 40 in_use full_window (omega arith)

full_window-IsFree : IsFree 40 full_window.free
full_window-IsFree = omega arith

full_window-IsMarked : IsMarked 40 (λ b. Occurs b in_use) full_window.free
full_window-IsMarked = record { room = omega arith; marked = λ b u h p q. absurd (omega arith) }

alloc_loop-Allocates_example :
    Allocates {D = Unit {0}} 40
      (fill_from 40 in_use)
      (λ s. Unit {0})
      (λ b. Occurs b in_use)
      (alloc_loop device (fill_from 40 in_use) 19 full_window)
alloc_loop-Allocates_example =
    alloc_loop-Allocates device (fill_from 40 in_use) (fill_from-laws 40 in_use) 19 full_window tt
      full_window-IsFree full_window-IsMarked (omega arith) (omega arith) (inl (omega arith))

-- Every block has been looked at since the ack, and the window is used up.
abbrev acked : Lfs (Unit {0})
acked = record full_window {
  free = record { off = 30; size = 20; i = 20; ack = 40; buffer = 0 ∷ 0 ∷ [] };
}

in_use-lt : (b : ℕ) → Occurs b in_use → b < 40
in_use-lt b (inl e) = omega arith
in_use-lt b (inr (inl e)) = omega arith
in_use-lt b (inr (inr (inl e))) = omega arith
in_use-lt b (inr (inr (inr (inl e)))) = omega arith
in_use-lt b (inr (inr (inr (inr (inl e))))) = omega arith
in_use-lt b (inr (inr (inr (inr (inr h))))) = absurd h

unused_block : ¬ Occurs 20 in_use
unused_block (inl e) = absurd (omega arith)
unused_block (inr (inl e)) = absurd (omega arith)
unused_block (inr (inr (inl e))) = absurd (omega arith)
unused_block (inr (inr (inr (inl e)))) = absurd (omega arith)
unused_block (inr (inr (inr (inr (inl e))))) = absurd (omega arith)
unused_block (inr (inr (inr (inr (inr h))))) = h

alloc_loop-Succeeds_example :
    Succeeds device
      (fill_from 40 in_use)
      (λ s. Unit {0})
      (λ b. Occurs b in_use)
      (alloc_loop device (fill_from 40 in_use) 42 acked)
alloc_loop-Succeeds_example =
    alloc_loop-Succeeds device (fill_from 40 in_use) 42 acked 20 (fill_from-laws 40 in_use)
      (fill_from-MarksOnly 40 in_use in_use-lt) (omega arith) (omega arith) tt (omega arith)
      (record { room = omega arith; marked = λ b u h p q. absurd (omega arith) })
      (record { exact = λ o p q u. absurd (omega arith) }) refl (omega arith) (omega arith)
      unused_block
