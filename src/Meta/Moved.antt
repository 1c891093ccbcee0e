-- ===== src/Meta/Moved.antt =====
-- The open structures after a relocation.
use littlefs.Prelude.{
  ℕ, ◌≡◌, refl, Bool, true, false, ◌||◌, ◌==◌, arith, List, [], ◌∷◌, if◌then◌else◌,
}
use littlefs.Tag.{Pair, pair_overlap}
use littlefs.Lfs.{Open, reg, dir}
use littlefs.Meta.Relocate.{move_open, move_all}

-- Whether a block is one of a pair.
abbrev pub has : ℕ → Pair → Bool
has b (x, y) = (b == x) || (b == y)

-- Whether an open structure, or one of a list, names a block as one of its metadata pairs.
abbrev pub names : ℕ → Open → Bool
names b (reg f) = has b (let m = f.m in m.pair)
names b (dir d) = has b (let m = d.m in m.pair) || has b d.head

abbrev pub some_names : ℕ → List Open → Bool
some_names b [] = false
some_names b (o ∷ os) = names b o || some_names b os

overlap_has : (b : ℕ) (p q : Pair) → has b p ≡ true → has b q ≡ true → pair_overlap p q ≡ true
unfolding pair_overlap
overlap_has b (x, y) (z, w) h k = ground arith

-- A pair after a relocation.
moved_pair :
    (b : ℕ) (old new p : Pair)
    → has b old ≡ true
    → has b new ≡ false
    → has b (if pair_overlap old p then new else p) ≡ false
moved_pair b old new p h k = ground (arith, overlap_has b old p)

move_open-unnamed :
    (b : ℕ) (old new : Pair) (o : Open)
    → has b old ≡ true
    → has b new ≡ false
    → names b (move_open old new o) ≡ false
unfolding move_open
move_open-unnamed b old new (reg f) h k =
    let m = f.m in ground (arith, moved_pair b old new m.pair h k)
move_open-unnamed b old new (dir d) h k =
    let m = d.m in ground (arith, moved_pair b old new m.pair h k, moved_pair b old new d.head h k)

-- When `lfs_fs_relocate` replaces a pair by another, no open file or directory names a block of
-- the old pair that the new pair does not have, neither as its metadata pair nor as the head of
-- the directory.
pub move_all-unnamed :
    (b : ℕ) (old new : Pair) (os : List Open)
    → has b old ≡ true
    → has b new ≡ false
    → some_names b (move_all old new os) ≡ false
unfolding move_all
move_all-unnamed b old new [] h k = refl
move_all-unnamed b old new (o ∷ os) h k =
    rw (move_open-unnamed b old new o h k, move_all-unnamed b old new os h k) refl
