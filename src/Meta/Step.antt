-- ===== src/Meta/Step.antt =====
-- The parts that a commit and a compaction share: traversals with a variable, the global state, and
-- steps that may find a bad block.
use littlefs.Prelude.{ℕ, Bool, false, List, if◌then◌else◌, add32, sub32}
use littlefs.Exec.{
  corrupt, M, got, failed, pure, throw, attempt, get, put, modify, zoom, ◌>>=◌, ◌>>◌,
}
use littlefs.Config.{Config}
use littlefs.Tag.{Pair, mktag, tag_dsize}
use littlefs.Tag.Kind
use littlefs.Gstate.{gstate_zero, gstate_hasmovehere, gstate_xormove}
use littlefs.Lfs.{Lfs, Mdir}
use littlefs.Dir.Get.{dir_getgstate}
use littlefs.Dir.Commit.{Commit, Source, Mattr, dir_commitattr}
use littlefs.Dir.Traverse.{Cursor, Choice, s16, dir_traverse, rounds_max}

-- Whether a compaction has succeeded, or goes to `relocate`.
pub data Attempt : Type 0 where
  done relocate : Attempt

-- A step whose LFS_ERR_CORRUPT means that the block is bad.
unfoldable pub or_bad : {S A : Type 0} → M S A → (A → M S Attempt) → M S Attempt
or_bad m k = do
  r ← attempt m
  elim r [ got a ↦ k a | failed corrupt ↦ pure relocate | failed e ↦ throw e ]

-- `lfs_dir_commit_size`
unfoldable pub dir_commit_size : {D : Type 0} → ℕ → Source → M (Lfs D × ℕ) Bool
dir_commit_size tag source = do s ← get; put (s.0, add32 s.1 (tag_dsize tag)); pure false

module _ {D : Type 0} (cfg : Config D) where
  open cfg use {block_size, block_count, block_cycles, prog_size}

  -- `lfs_dir_commit_commit`
  unfoldable pub dir_commit_commit : ℕ → Source → M (Lfs D × Commit) Bool
  dir_commit_commit tag source = do
    s ← get
    c ← zoom (λ s. s.0) (λ s l. (l, s.1)) (dir_commitattr cfg s.1 tag source)
    modify λ s. (s.0, c)
    pure false

  -- The traversals of `lfs_dir_compact`: without the tags that only order others.
  unfoldable pub compact_choice : ℕ → ℕ → Choice
  compact_choice begin end = record {
    tmask = mktag 0x400 0x3ff 0;
    ttag = mktag Kind.name 0 0;
    begin = begin;
    end = end;
    diff = s16 (sub32 0 begin);
  }

  -- A traversal with a variable of type `A`, which is returned.
  unfoldable pub traverse_with :
      {A : Type 0}
      → (ℕ → Source → M (Lfs D × A) Bool)
      → A
      → Mdir
      → List Mattr
      → Choice
      → Cursor
      → M (Lfs D) A
  traverse_with {A} cb a dir attrs choice c =
      zoom (λ l. (l, a)) (λ l w. w.0)
        (do stop ← dir_traverse cfg (rounds_max cfg attrs) A cb dir choice c; w ← get; pure w.1)

  -- "There's nothing special about our global delta".
  unfoldable pub take_gstate : Mdir → M (Lfs D) (Unit {0})
  take_gstate dir = do
    s ← get
    g ← dir_getgstate cfg dir s.globals.gdelta
    modify λ s. record s { globals = record s.globals { gdelta = g } }

  -- "note we able to have already handled move here"
  unfoldable pub move_done : Pair → Lfs D → Lfs D
  move_done pair s =
      let p = s.globals.gpending in
      if gstate_hasmovehere p pair
      then record s { globals = record s.globals { gpending = gstate_xormove p p 0x3ff (0, 0) } }
      else s

  -- `lfs->gstate = lfs->gpending; lfs->gdelta = (struct lfs_gstate){0};`
  unfoldable pub settle : Lfs D → Lfs D
  settle s = record s {
    gstate = s.globals.gpending;
    globals = record s.globals { gdelta = gstate_zero };
  }
