-- ===== src/Lfs/Links.antt =====
-- The list of open files and directories, by their addresses.
use littlefs.Prelude.{
  ℕ, ◌≡◌, refl, arith, true, false, ◌==◌, Option, none, some, List, [], ◌∷◌, if◌then◌else◌,
  Bool-cases, inl, inr,
}
use littlefs.Lfs.{Open, open_here, find_open, update_open}

-- What stands at an address once the structure at another, or this, is changed.
abbrev pub changed : (here there : ℕ) → (Open → Open) → Option Open → Option Open
changed here there f none = none
changed here there f (some o) = some (if here == there then f o else o)

changed-other :
    (here there : ℕ) (f : Open → Open) (r : Option Open)
    → here == there ≡ false
    → r ≡ changed here there f r
changed-other here there f none h = refl
changed-other here there f (some o) h = rw h refl

module _ (here : ℕ) (f : Open → Open) (stays : (o : Open) → open_here (f o) ≡ open_here o) where
  -- A change of the open file or directory at an address, which keeps addresses, changes what is
  -- found at this address, and nothing that is found at another.
  find_open-update_open :
      (there : ℕ) (os : List Open)
      → find_open there (update_open here f os) ≡ changed here there f (find_open there os)
  unfolding find_open update_open
  find_open-update_open there [] = refl
  find_open-update_open there (o ∷ os) = elim (Bool-cases (open_here o == here)) [
    | inl at ↦ elim (Bool-cases (open_here o == there)) [
      | inl found ↦
          let same : here == there ≡ true = ground arith in
          let kept : open_here (f o) == there ≡ true = ground (arith, stays o) in
          rw (at, kept, found, same) refl
      | inr missed ↦
          let kept : open_here (f o) == there ≡ false = ground (arith, stays o) in
          let other : here == there ≡ false = ground arith in
          rw (at, kept, missed) (changed-other here there f (find_open there os) other)
    ]
    | inr not_at ↦ elim (Bool-cases (open_here o == there)) [
      | inl found ↦
          let other : here == there ≡ false = ground arith in rw (not_at, found, other) refl
      | inr missed ↦ rw (not_at, missed) (find_open-update_open there os)
    ]
  ]
