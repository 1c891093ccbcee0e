-- ===== src/Api/Rename/Ids.antt =====
-- The id of the old entry of a rename within one directory, against the list of the entries.
use littlefs.Prelude.{
  ℕ, suc, ◌+◌, ◌≤◌, ◌<◌, ◌≡◌, arith, true, List, length, get_or, insert_at, leb,
  get_or-insert_before, get_or-insert_after, u16, Bool-cases, inl, inr,
}
use littlefs.Api.Rename.{moved_id}

module _ {A : Type 0} (entries : List A) (newid oldid : ℕ) (v x : A) where
  -- `lfs_rename` within one directory to a free name: in the list of entries with the new one at
  -- its id, which is within the directory, the id that the pending move records is that of the old
  -- entry, if its id was below 0x3ff.
  pub moved_id-insert :
      newid ≤ length entries
      → oldid < 0x3ff
      → get_or (insert_at newid v entries) (moved_id true newid oldid) x ≡ get_or entries oldid x
  unfolding moved_id
  moved_id-insert inside near = elim (Bool-cases (leb newid oldid)) [
    | inl before ↦
        let next : u16 (oldid + 1) ≡ suc oldid = omega arith in
        rw (before, next) (get_or-insert_after entries newid oldid v x (ground arith) inside)
    | inr after ↦ rw after (get_or-insert_before entries newid oldid v x (ground arith) inside)
  ]
