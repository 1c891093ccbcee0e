-- ===== src/Meta/Count.antt =====
-- The count of a directory after a commit.
use littlefs.Prelude.{
  ℕ, ◌+◌, ◌^◌, ◌<◌, ◌≤◌, ◌≡◌, ◌∙◌, not, ◌&&◌, ◌||◌, Bool-cases, inl, inr, refl, arith, Bool, true,
  false, ◌==◌, ltb, Option, none, some, List, [], ◌∷◌, if◌then◌else◌, u16,
}
use littlefs.Tag.{tag_type1, tag_type3}
use littlefs.Tag.Kind
use littlefs.Dir.Commit.{Mattr, Source, from_memory}
use littlefs.Meta.Change.{Changes, tail_change, change, changes}

-- How many attributes have a type.
abbrev pub is_one : ℕ → Mattr → ℕ
is_one type a = if tag_type3 a.tag == type then 1 else 0

abbrev pub tally : ℕ → List Mattr → ℕ
tally type [] = 0
tally type (a ∷ rest) = is_one type a + tally type rest

-- Whether the tails among the attributes are bytes in memory.
abbrev pub is_memory : Source → Bool
is_memory (from_memory bytes) = true
is_memory other = false

abbrev pub tails_known : List Mattr → Bool
tails_known [] = true
tails_known (a ∷ rest) =
    (not (tag_type1 a.tag == Kind.tail) || is_memory a.buffer) && tails_known rest

-- The directory after a commit of as many entries that come and go, at the same pair.
abbrev pub Tallies : Changes → ℕ → ℕ → Option Changes → Type 0
Tallies c come go none = ⊥
Tallies c come go (some c') =
    (let m = c.m in let m' = c'.m in (m'.count + go ≡ m.count + come) × (m'.pair ≡ m.pair))

tail_change-Tallies :
    (c : Changes) (tag : ℕ) (s : Source) → is_memory s ≡ true → Tallies c 0 0 (tail_change c tag s)
unfolding tail_change
tail_change-Tallies c tag (from_memory bytes) h = (refl, refl)
tail_change-Tallies c tag other h = absurd (ground arith)

change-Tallies :
    (c : Changes) (a : Mattr)
    → (not (tag_type1 a.tag == Kind.tail) || is_memory a.buffer) ≡ true
    → is_one Kind.delete a ≤ c.m.count
    → c.m.count + is_one Kind.create a < 2 ^ 16
    → Tallies c (is_one Kind.create a) (is_one Kind.delete a) (change c a)
unfolding change
change-Tallies c a known enough small = elim (Bool-cases (tag_type3 a.tag == Kind.create)) [
  | inl comes ↦
      let stays : tag_type3 a.tag == Kind.delete ≡ false = ground arith in
      let next : u16 (c.m.count + 1) ≡ c.m.count + 1 = ground arith in
      rw (comes, stays, next) (omega arith, refl)
  | inr comes ↦ elim (Bool-cases (tag_type3 a.tag == Kind.delete)) [
    | inl goes ↦
        let some_left : ltb 0 c.m.count ≡ true = ground (arith, goes) in
        rw (comes, goes, some_left) (ground arith, refl)
    | inr goes ↦ elim (Bool-cases (tag_type1 a.tag == Kind.tail)) [
      | inl tail ↦ rw (comes, goes, tail) (tail_change-Tallies c a.tag a.buffer (ground arith))
      | inr tail ↦ rw (comes, goes, tail) (refl, refl)
    ]
  ]
]

Tallies-trans :
    (c c' : Changes) (x y x' y' : ℕ) (r : Option Changes)
    → Tallies c x y (some c')
    → Tallies c' x' y' r
    → Tallies c (x + x') (y + y') r
Tallies-trans c c' x y x' y' none (p, q) h = h
Tallies-trans c c' x y x' y' (some d) (p, q) (p', q') = (omega arith, q' ∙ q)

after_change :
    (c : Changes) (a : Mattr) (rest : List Mattr) (r : Option Changes)
    → Tallies c (is_one Kind.create a) (is_one Kind.delete a) r
    → ((c' : Changes)
        → Tallies c (is_one Kind.create a) (is_one Kind.delete a) (some c')
        → Tallies c' (tally Kind.create rest) (tally Kind.delete rest) (changes c' rest))
    → Tallies c
        (tally Kind.create (a ∷ rest))
        (tally Kind.delete (a ∷ rest))
        (elim r [ none ↦ none | some c' ↦ changes c' rest ])
after_change c a rest none h more = h
after_change c a rest (some c') h more =
    Tallies-trans c c' (is_one Kind.create a) (is_one Kind.delete a) (tally Kind.create rest)
      (tally Kind.delete rest) (changes c' rest) h (more c' h)

-- The loop of `lfs_dir_commit` over the attributes, if the buffers of tails are bytes in memory,
-- the directory has at least as many entries as are deleted, and its count with those that are
-- created is below 2^16: no assertion fails, the count grows by the number of creates less that of
-- deletes, and the pair stays.
pub changes-Tallies :
    (c : Changes) (attrs : List Mattr)
    → tails_known attrs ≡ true
    → tally Kind.delete attrs ≤ c.m.count
    → c.m.count + tally Kind.create attrs < 2 ^ 16
    → Tallies c (tally Kind.create attrs) (tally Kind.delete attrs) (changes c attrs)
unfolding changes
changes-Tallies c [] known enough small = (refl, refl)
changes-Tallies c (a ∷ rest) known enough small =
    after_change c a rest (change c a)
      (change-Tallies c a (ground arith) (omega arith) (omega arith))
      (λ c' h. changes-Tallies c' rest (ground arith) (omega (arith, h.0)) (omega (arith, h.0)))
