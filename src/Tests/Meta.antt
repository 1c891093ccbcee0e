-- ===== src/Tests/Meta.antt =====
-- Commits, renames, mounts and repairs on concrete inputs, and the theorems on them at these.
use littlefs.Prelude.{
  ℕ, ◌-◌, ◌≡◌, refl, arith, false, true, some, List, [], ◌∷◌, get_or, remove_at, insert_at,
}
use littlefs.Config.{block_null}
use littlefs.Tag.{mktag, tag_id, tag_type1, tag_type3}
use littlefs.Tag.Kind
use littlefs.Disk.{Superblock, superblock_tole32, superblock_fromle32}
use littlefs.Disk.Laws.{IsSuperblock}
use littlefs.Lfs.{open_here, reg, Mdir, Open, dir, open_id, with_mdir}
use littlefs.Dir.Commit.{Mattr, from_null, from_memory}
use littlefs.Repair.{no_dir}
use littlefs.Meta.Change.{Changes, changes, shift_open, shifted}
use littlefs.Meta.Shift.{shift_open-remove, shift_open-insert, shift_open-replace}
use littlefs.Meta.Moved.{some_names, move_all-unnamed}
use littlefs.Meta.Relocate.{move_all}
use littlefs.Meta.Count.{tally, tails_known, Tallies, changes-Tallies}
use littlefs.Api.Rename.{moved_id}
use littlefs.Api.Rename.Ids.{moved_id-insert}
use littlefs.Mount.{take_superblock, format_superblock}
use littlefs.Mount.Limits.{Lowers, take_superblock-Lowers, take_superblock-format}
use littlefs.Tests.Alloc.{device, full_window}

abbrev home : Mdir
home = record no_dir { pair = (4, 5); count = 4 }

abbrev open_third : Open
open_third = dir (record { here = 7; id = 2; m = home; pos = 4; head = (4, 5) })

abbrev names_there : List ℕ
names_there = 10 ∷ 11 ∷ 12 ∷ 13 ∷ []

abbrev deleted : ℕ → Changes
deleted id = record { deletetag = mktag Kind.delete id 0; createtag = block_null; m = home }

abbrev created : ℕ → Changes
created id = record { deletetag = block_null; createtag = mktag Kind.create id 0; m = home }

abbrev replaced : ℕ → Changes
replaced id = record {
  deletetag = mktag Kind.delete id 0;
  createtag = mktag Kind.create id 0;
  m = home;
}

id-deleted : tag_id (mktag Kind.delete 0 0) ≡ 0
unfolding tag_id mktag
id-deleted = refl

id-created : tag_id (mktag Kind.create 0 0) ≡ 0
unfolding tag_id mktag
id-created = refl

id-none : tag_id block_null ≡ 0x3ff
unfolding tag_id
id-none = refl

open_third-id : open_id open_third ≡ 2
unfolding open_id
open_third-id = refl

-- The directory stands at the same entry one place further down.
shift_open_check : open_id (shift_open (deleted 0) false open_third) ≡ 1
unfolding shift_open shifted with_mdir open_id tag_id mktag
shift_open_check = refl

shift_open-remove_example :
    get_or
      (remove_at (tag_id (mktag Kind.delete 0 0)) names_there)
      (open_id (shift_open (deleted 0) false open_third))
      0
    ≡ get_or names_there (open_id open_third) 0
shift_open-remove_example =
    shift_open-remove (deleted 0) open_third names_there 0 (omega (arith, open_third-id)) false
      id-none (omega (arith, open_third-id, id-deleted))

shift_open-insert_example :
    get_or
      (insert_at (tag_id (mktag Kind.create 0 0)) 20 names_there)
      (open_id (shift_open (created 0) false open_third))
      0
    ≡ get_or names_there (open_id open_third) 0
shift_open-insert_example =
    shift_open-insert (created 0) open_third names_there 0 (omega (arith, open_third-id)) 20 id-none
      (omega (arith, id-created))

shift_open-replace_example :
    let d = tag_id (mktag Kind.delete 0 0) in
    let after = insert_at d 20 (remove_at d names_there) in
    (get_or after (open_id open_third) 0 ≡ get_or names_there (open_id open_third) 0)
    × (get_or after (open_id (shift_open (replaced 0) false open_third)) 0
        ≡ get_or names_there (open_id open_third - 1) 0)
shift_open-replace_example =
    shift_open-replace (replaced 0) open_third names_there 0 (omega (arith, open_third-id)) false 20
      (omega (arith, id-created, id-deleted)) (omega (arith, open_third-id, id-deleted))
      (omega (arith, id-deleted))

with_mdir-here : (o : Open) → open_here (with_mdir home o) ≡ open_here o
unfolding open_here with_mdir
with_mdir-here (reg f) = refl
with_mdir-here (dir d) = refl

-- The pair (4, 5) becomes (9, 4).
move_all-unnamed_example : some_names 5 (move_all (5, 4) (9, 4) (open_third ∷ [])) ≡ false
move_all-unnamed_example = move_all-unnamed 5 (5, 4) (9, 4) (open_third ∷ []) refl refl

-- What `lfs_mkdir` commits to the parent.
abbrev made : List Mattr
made =
    record { tag = mktag Kind.create 4 0; buffer = from_null }
    ∷ record { tag = mktag Kind.dir 4 1; buffer = from_memory (100 ∷ []) }
    ∷ record { tag = mktag Kind.delete 0 0; buffer = from_null }
    ∷ []

abbrev before : Changes
before = record { deletetag = block_null; createtag = block_null; m = home }

made-known : tails_known made ≡ true
unfolding tag_type1 mktag
made-known = refl

made-created : tally Kind.create made ≡ 1
unfolding tag_type3 mktag
made-created = refl

made-deleted : tally Kind.delete made ≡ 1
unfolding tag_type3 mktag
made-deleted = refl

changes-Tallies_example :
    Tallies before (tally Kind.create made) (tally Kind.delete made) (changes before made)
changes-Tallies_example =
    changes-Tallies before made made-known (omega (arith, made-deleted))
      (omega (arith, made-created))

moved_id-insert_example :
    get_or (insert_at 1 20 names_there) (moved_id true 1 2) 0 ≡ get_or names_there 2 0
moved_id-insert_example = moved_id-insert names_there 1 2 20 0 (omega arith) (omega arith)

abbrev stored : Superblock
stored = record {
  version = 0x00020000;
  block_size = 512;
  block_count = 40;
  name_max = 32;
  file_max = 0;
  attr_max = 1000;
}

take_superblock-Lowers_example : Lowers full_window (take_superblock stored full_window)
take_superblock-Lowers_example = take_superblock-Lowers stored full_window

device-IsSuperblock : IsSuperblock (format_superblock device full_window)
unfolding format_superblock
device-IsSuperblock = record {
  version_lt = omega arith;
  block_size_lt = omega arith;
  block_count_lt = omega arith;
  name_max_lt = omega arith;
  file_max_lt = omega arith;
  attr_max_lt = omega arith;
}

take_superblock-format_example :
    take_superblock
      (superblock_fromle32 (superblock_tole32 (format_superblock device full_window)))
      full_window
    ≡ some full_window
take_superblock-format_example = take_superblock-format device full_window device-IsSuperblock
