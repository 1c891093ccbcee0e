-- ===== src/Meta/Shift.antt =====
-- The ids of open files and directories after a commit, against the list of the entries of their
-- directory.
use littlefs.Prelude.{
  ℕ, suc, ◌+◌, ◌-◌, ◌≤◌, ◌<◌, ◌≡◌, ◌≢◌, ◌∙◌, ap, arith, Bool, false, not, ◌&&◌, List, length,
  get_or, remove_at, insert_at, get_or-remove_before, get_or-remove_after, get_or-insert_before,
  get_or-insert_after, length-remove_at, ltb, leb, ◌==◌, if◌then◌else◌, Bool-cases, inl, inr,
}
use littlefs.Tag.{tag_id}
use littlefs.Lfs.{Open, reg, dir, open_id, with_mdir}
use littlefs.Meta.Change.{Changes, shifted, shift_open}

-- The id of the result.
shift_open-id :
    (c : Changes) (mine : Bool) (o : Open)
    → open_id o < 0x3ff
    → open_id (shift_open c mine o) ≡ (
        if open_id o == tag_id c.deletetag
        then open_id o
        else (if ltb (tag_id c.deletetag) (open_id o)
            then open_id o - 1
            else (if not mine && leb (tag_id c.createtag) (open_id o)
                then open_id o + 1
                else open_id o)))
unfolding shift_open shifted with_mdir open_id
shift_open-id c mine (reg f) h = ground arith
shift_open-id c mine (dir d) h = ground arith

module _ {A : Type 0} (c : Changes) (o : Open) (entries : List A) (x : A)
    (near : open_id o < 0x3ff) where
  -- After a commit that deletes an entry and creates none, an open file or directory with an id
  -- below 0x3ff that is not that of the deleted entry has the id of the entry that it had before,
  -- in the list of entries without the deleted one.
  pub shift_open-remove :
      (mine : Bool)
      → tag_id c.createtag ≡ 0x3ff
      → tag_id c.deletetag ≢ open_id o
      → get_or (remove_at (tag_id c.deletetag) entries) (open_id (shift_open c mine o)) x
        ≡ get_or entries (open_id o) x
  shift_open-remove mine none_comes other =
      elim (Bool-cases (ltb (tag_id c.deletetag) (open_id o))) [
        | inl h ↦
            let e : open_id (shift_open c mine o) ≡ open_id o - 1 =
              ground (arith, shift_open-id c mine o near) in
            let back : suc (open_id o - 1) ≡ open_id o = ground arith in
            rw e (
              get_or-remove_after entries (tag_id c.deletetag) (open_id o - 1) x (ground arith)
              ∙ ap (λ (t : ℕ). get_or entries t x) back)
        | inr h ↦
            let e : open_id (shift_open c mine o) ≡ open_id o =
              ground (arith, shift_open-id c mine o near) in
            rw e (get_or-remove_before entries (tag_id c.deletetag) (open_id o) x (ground arith))
      ]

  -- After a commit that creates an entry at an id within the directory and deletes none, an open
  -- file or directory with an id below 0x3ff, through which the commit was not made, has the id of
  -- the entry that it had before, in the list of entries with the new one.
  pub shift_open-insert :
      (v : A)
      → tag_id c.deletetag ≡ 0x3ff
      → tag_id c.createtag ≤ length entries
      → get_or (insert_at (tag_id c.createtag) v entries) (open_id (shift_open c false o)) x
        ≡ get_or entries (open_id o) x
  shift_open-insert v none_goes inside = elim (Bool-cases (leb (tag_id c.createtag) (open_id o))) [
    | inl h ↦
        let e : open_id (shift_open c false o) ≡ suc (open_id o) =
          ground (arith, shift_open-id c false o near) in
        rw e
          (get_or-insert_after entries (tag_id c.createtag) (open_id o) v x (ground arith) inside)
    | inr h ↦
        let e : open_id (shift_open c false o) ≡ open_id o =
          ground (arith, shift_open-id c false o near) in
        rw e
          (get_or-insert_before entries (tag_id c.createtag) (open_id o) v x (ground arith) inside)
  ]

  -- After a commit that deletes an entry and creates one at the same id, as `lfs_rename` does over
  -- an existing entry, the entries behind it are where they were; but an open file or directory
  -- with an id below 0x3ff that is at least two behind has the id of the entry before its own.
  pub shift_open-replace :
      (mine : Bool) (v : A)
      → tag_id c.createtag ≡ tag_id c.deletetag
      → suc (tag_id c.deletetag) < open_id o
      → tag_id c.deletetag < length entries
      → let d = tag_id c.deletetag in
        let after = insert_at d v (remove_at d entries) in
        (get_or after (open_id o) x ≡ get_or entries (open_id o) x)
        × (get_or after (open_id (shift_open c mine o)) x ≡ get_or entries (open_id o - 1) x)
  shift_open-replace mine v same behind inside =
      let d = tag_id c.deletetag in
      let e : open_id (shift_open c mine o) ≡ open_id o - 1 =
        ground (arith, shift_open-id c mine o near) in
      rw e (
        kept d (open_id o) v entries x (omega arith) inside,
        kept d (open_id o - 1) v entries x (omega arith) inside,
      )
    where
      kept :
          (d i : ℕ) (v : A) (entries : List A) (x : A)
          → d < i
          → d < length entries
          → get_or (insert_at d v (remove_at d entries)) i x ≡ get_or entries i x
      kept d i v entries x h le =
          let back : i ≡ suc (i - 1) = omega arith in
          rw back (
            get_or-insert_after (remove_at d entries) d (i - 1) v x (omega arith)
              (omega (arith, length-remove_at entries d le))
            ∙ get_or-remove_after entries d (i - 1) x (omega arith))
