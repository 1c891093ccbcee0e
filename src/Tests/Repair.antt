-- ===== src/Tests/Repair.antt =====
-- A filesystem of one empty directory whose state counts two orphans, and the theorem at it.
use littlefs.Prelude.{ℕ, ◌≡◌, refl, arith, none, List, [], ◌∷◌, get_or, if◌then◌else◌, ◌==◌, true}
use littlefs.Util.{
  aligndown, lfs_min, alignup, scmp_gt, fromle32, frombe32, tole32, crc, crc_nibble,
}
use littlefs.Exec.{ok}
use littlefs.Bd.{
  bd_read, read_loop, consult_const, consult, from_pcache, from_rcache, serve, cache_load,
  cache_fill, mem_read,
}
use littlefs.Dir.Fetch.{
  dir_fetch, dir_fetchmatch, read_rev, try_blocks, scan_loop, scan_step, read_at, scan_crc,
}
use littlefs.Dir.Fetch.Tags.{found, scan_start, scan_commit, best_after_move}
use littlefs.Tag.{tag_size, pair_isnull, tag_isvalid, tag_dsize, tag_type1, tag_chunk, tag_id}
use littlefs.Gstate.{gstate_zero, gstate_hasorphans, gstate_hasmovehere}
use littlefs.Lfs.{Lfs}
use littlefs.Alloc.Visit.{state_of}
use littlefs.Fs.{first_dir, pairs_max}
use littlefs.Repair.{no_dir, orphan_loop, fs_deorphan}
use littlefs.Repair.Orphans.{IsCounted, IsCleared, deorphan_none}
use littlefs.Tests.Device.{Memory, ram, blank}

-- The first commit of the directory: a revision count and a checksum.
abbrev stored : List ℕ
stored = 1 ∷ 0 ∷ 0 ∷ 0 ∷ 175 ∷ 240 ∷ 3 ∷ 251 ∷ 220 ∷ 34 ∷ 249 ∷ 247 ∷ []

abbrev two_orphans : Lfs Memory
two_orphans = record {
  bd = record blank { dev = λ b o. if b == 0 then get_or stored o 0xff else 0xff };
  root = (0, 1);
  mlist = [];
  seed = 0;
  gstate = record gstate_zero { tag = 0x80000002 };
  globals = record { gpending = record gstate_zero { tag = 0x80000002 }; gdelta = gstate_zero };
  free = record { off = 0; size = 0; i = 0; ack = 40; buffer = 0 ∷ 0 ∷ [] };
  name_max = 255;
  file_max = 2147483647;
  attr_max = 1022;
  lfs1 = none;
}

-- The state after the loop over the directories.
abbrev looked_at : Lfs Memory
looked_at =
    state_of two_orphans
      (orphan_loop ram (pairs_max ram) (record no_dir { split = true }) first_dir two_orphans)

-- The loop ends, and leaves the global state as it was.
loop_ends :
    (orphan_loop ram (pairs_max ram) (record no_dir { split = true }) first_dir two_orphans
      ≡ ok tt looked_at)
    × (looked_at.globals ≡ two_orphans.globals)
    × (looked_at.gstate ≡ two_orphans.gstate)
unfolding orphan_loop pair_isnull dir_fetch dir_fetchmatch read_rev bd_read read_loop consult_const
    consult from_pcache from_rcache serve cache_load cache_fill aligndown lfs_min alignup mem_read
    scmp_gt fromle32 try_blocks scan_loop scan_start scan_step read_at frombe32 tag_isvalid
    tag_dsize tag_type1 scan_crc crc crc_nibble scan_commit tag_chunk best_after_move tole32 found
    gstate_hasmovehere tag_id
loop_ends = (refl, refl, refl)

has : gstate_hasorphans two_orphans.gstate ≡ true
unfolding gstate_hasorphans tag_size
has = refl

two : tag_size 0x80000002 ≡ 2
unfolding tag_size
two = refl

counted : IsCounted looked_at
counted =
    let (e, globals, gstate) = loop_ends in
    record {
      tag_lt = rw globals (omega arith);
      few = rw globals (omega (arith, two));
      same = rw (globals, gstate) refl;
    }

deorphan_none_example :
    (t : Lfs Memory) × (fs_deorphan ram two_orphans ≡ ok tt t) × IsCleared looked_at t
deorphan_none_example = deorphan_none ram two_orphans looked_at has loop_ends.0 counted
