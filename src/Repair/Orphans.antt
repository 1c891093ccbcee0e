-- ===== src/Repair/Orphans.antt =====
-- The count of orphans after `lfs_fs_deorphan`.
use littlefs.Prelude.{◌-◌, ◌%◌, ◌^◌, ◌≤◌, ◌<◌, ◌≡◌, refl, arith, true, false, u8, add32}
use littlefs.Exec.{ok}
use littlefs.Config.{Config}
use littlefs.Tag.{tag_size}
use littlefs.Tag.Laws.{tag_size_lem}
use littlefs.Gstate.{Globals, gstate_getorphans, gstate_hasorphans, fs_preporphans}
use littlefs.Gstate.Laws.{fs_preporphans_tag}
use littlefs.Lfs.{Lfs}
use littlefs.Meta.Relocate.{prep_orphans}
use littlefs.Fs.{first_dir, pairs_max}
use littlefs.Repair.{s8, no_dir, mark_fixed, orphan_loop, fs_deorphan}

-- The negated count is taken off a count of at most 128.
negated_count :
    (g : Globals)
    → g.gpending.tag < 2 ^ 32
    → tag_size g.gpending.tag ≤ 128
    → gstate_hasorphans (fs_preporphans (s8 (2 ^ 32 - gstate_getorphans g.gpending)) g).gpending
      ≡ false
unfolding s8 gstate_getorphans gstate_hasorphans
negated_count g h few =
    let n = tag_size g.gpending.tag in
    let tag : n ≡ g.gpending.tag % 2 ^ 10 = tag_size_lem g.gpending.tag in
    let back : add32 g.gpending.tag (s8 (2 ^ 32 - u8 n)) % 2 ^ 10 ≡ 0 = ground arith in
    let all : (fs_preporphans (s8 (2 ^ 32 - u8 n)) g).gpending.tag % 2 ^ 10 ≡ 0 =
      ground (arith, fs_preporphans_tag (s8 (2 ^ 32 - u8 n)) g) in
    ground (arith, tag_size_lem (fs_preporphans (s8 (2 ^ 32 - u8 n)) g).gpending.tag)

module _ {D : Type 0} where
  -- The pending and the committed state count the same orphans, at most 128.
  pub record IsCounted (s : Lfs D) : Type 0 where
    pub tag_lt : s.globals.gpending.tag < 2 ^ 32
    pub few : tag_size s.globals.gpending.tag ≤ 128
    pub same : gstate_getorphans s.gstate ≡ gstate_getorphans s.globals.gpending

  -- Nothing but the global state has changed, the committed state is the pending one, and it has
  -- no orphans.
  pub record IsCleared (s t : Lfs D) : Type 0 where
    pub committed : t.gstate ≡ t.globals.gpending
    pub no_orphans : gstate_hasorphans t.gstate ≡ false
    pub rest : t ≡ record s { gstate = t.gstate; globals = t.globals }

  mark_fixed-IsCleared :
      (s : Lfs D) → IsCounted s → (t : Lfs D) × (mark_fixed s ≡ ok tt t) × IsCleared s t
  unfolding mark_fixed prep_orphans
  mark_fixed-IsCleared s c =
      let g = fs_preporphans (s8 (2 ^ 32 - gstate_getorphans s.gstate)) s.globals in
      (
        record s { gstate = g.gpending; globals = g },
        refl,
        record {
          committed = refl;
          no_orphans = rw c.same (negated_count s.globals c.tag_lt c.few);
          rest = refl;
        },
      )

  -- If `lfs_fs_deorphan` finds orphans in the committed state, its loop over the directories ends
  -- without an error, and after that loop the pending and the committed state count the same
  -- orphans, at most 128, in a pending tag of 32 bits, then it succeeds; nothing but the global
  -- state has changed since the loop, the committed state is the pending one, and it has no
  -- orphans.
  pub deorphan_none :
      (cfg : Config D) (s s' : Lfs D)
      → gstate_hasorphans s.gstate ≡ true
      → orphan_loop cfg (pairs_max cfg) (record no_dir { split = true }) first_dir s ≡ ok tt s'
      → IsCounted s'
      → (t : Lfs D) × (fs_deorphan cfg s ≡ ok tt t) × IsCleared s' t
  unfolding fs_deorphan
  deorphan_none cfg s s' has ended c =
      let (t, e, cleared) = mark_fixed-IsCleared s' c in (t, rw (has, ended) e, cleared)
