-- ===== src/Meta/Commit.antt =====
-- `lfs_dir_commit`: a commit to the log of a directory, or a compaction.
use littlefs.Prelude.{
  ℕ, ◌-◌, ◌%◌, bit_and, Bool, true, false, not, ◌&&◌, ◌||◌, none, some, List, [], ◌∷◌, ltb, leb,
  ◌==◌, if◌then◌else◌, sub32,
}
use littlefs.Exec.{
  nospc, corrupt, M, got, failed, pure, throw, crash, attempt, get, modify, assert, ◌>>=◌, ◌>>◌,
}
use littlefs.Config.{Config, block_null}
use littlefs.Bd.{cache_drop}
use littlefs.Tag.{mktag, tag_isvalid, pair_overlap}
use littlefs.Tag.Kind
use littlefs.Gstate.{gstate_iszero, gstate_hasmovehere, gstate_xormove}
use littlefs.Disk.{gstate_tole32}
use littlefs.Lfs.{Lfs, Mdir, Open, reg, dir, f_inline, has_flag, open_mdir}
use littlefs.Fs.{fs_pred}
use littlefs.Dir.Commit.{Commit, from_memory, Mattr, dir_commitattr, dir_commitcrc}
use littlefs.Dir.Traverse.{Cursor, everything}
use littlefs.Meta.Ref.{Ref, is_at, on_lfs, get_dir, set_dir}
use littlefs.Meta.Step.{traverse_with, dir_commit_commit, take_gstate, move_done, settle}
use littlefs.Meta.Change.{Changes, changes, all_here, open_at, update_all}

module _ {D : Type 0} (cfg : Config D) where
  open cfg use {block_size, block_count, prog_size, cache_size}

  -- An inline file that is larger than the cache.
  unfoldable pub must_evict : Open → Bool
  must_evict (reg f) = has_flag f.flags f_inline && ltb cache_size f.ctz.size
  must_evict (dir d) = false

  -- "check for any inline files that aren't RAM backed": `evict` is `lfs_file_outline` and
  -- `lfs_file_flush`.
  unfoldable pub evict_all : (ℕ → M (Lfs D) (Unit {0})) → Ref → List ℕ → M (Mdir × Lfs D) (Unit {0})
  unfolding open_at must_evict
  evict_all evict ref [] = pure tt
  evict_all evict ref (here ∷ rest) = do
    o ← on_lfs (open_at cfg here)
    m ← get_dir ref
    if not (is_at ref here) && (pair_overlap (open_mdir o).pair m.pair && must_evict o)
        then on_lfs (evict here)
        else pure tt
    evict_all evict ref rest

  -- "do we have a pending move?"
  unfoldable pub pending_move : Ref → Changes → M (Mdir × Lfs D) Changes
  pending_move ref c = do
    s ← get
    let g = s.1.globals
    m ← get_dir ref
    if not (gstate_hasmovehere g.gpending m.pair) then pure c else do
      assert (ltb 0 m.count)
      set_dir ref (record m { count = m.count - 1 })
      on_lfs (
          modify λ s. record s {
            globals = record g { gdelta = gstate_xormove g.gdelta g.gpending 0x3ff (0, 0) };
          })
      pure (record c { deletetag = bit_and g.gpending.tag (mktag 0x7ff 0x3ff 0) })

  -- Errors after which the commit falls back to compaction: `true` if it has succeeded.
  unfoldable pub or_compact : {S A : Type 0} → M S A → (A → M S Bool) → M S Bool
  or_compact m k = do
    r ← attempt m
    elim r [
      | got a ↦ k a
      | failed nospc ↦ pure false
      | failed corrupt ↦ pure false
      | failed e ↦ throw e
    ]

  -- "try to commit": to the log of the block, after its last commit.
  unfoldable pub try_commit : Ref → List Mattr → M (Mdir × Lfs D) Bool
  unfolding or_compact
  try_commit ref attrs = do
    m ← get_dir ref
    let commit : Commit = record {
      block = m.pair.0;
      off = m.off;
      ptag = m.etag;
      crc = block_null;
      begin = m.off;
      end = sub32 block_size 8;
    }
    let cursor : Cursor = record { off = m.off; ptag = m.etag; attrs = attrs; seen = false }
    or_compact (on_lfs (traverse_with cfg (dir_commit_commit cfg) commit m attrs everything cursor))
        λ c1. (do
          s ← get
          let flat = gstate_iszero s.1.globals.gdelta
          if flat then pure tt else on_lfs (take_gstate cfg m)
          s' ← get
          or_compact
              (if flat
                then pure c1
                else on_lfs (
                    dir_commitattr cfg c1 (mktag Kind.movestate 0x3ff 12)
                      (from_memory (gstate_tole32 s'.1.globals.gdelta))))
              λ c2. or_compact (on_lfs (dir_commitcrc cfg c2)) λ c3. (do
                assert (c3.off % prog_size == 0)
                m' ← get_dir ref
                set_dir ref (record m' { off = c3.off; etag = c3.ptag })
                on_lfs (modify (move_done cfg m'.pair))
                on_lfs (modify (settle cfg))
                pure true))

  module _ (compact_r : Ref → List Mattr → Ref → ℕ → ℕ → M (Mdir × Lfs D) (Unit {0}))
      (drop_r : Mdir → Mdir → M (Lfs D) (Unit {0})) (evict : ℕ → M (Lfs D) (Unit {0})) where
    -- "try to commit" or "fall back to compaction".
    unfoldable pub write_out : Ref → List Mattr → M (Mdir × Lfs D) (Unit {0})
    unfolding try_commit
    write_out ref attrs = do
      m ← get_dir ref
      stuck ← if m.erased || leb 0xff m.count then try_commit ref attrs else pure false
      if stuck then pure tt else do
        on_lfs (modify λ s. record s { bd = record s.bd { pcache = cache_drop s.bd.pcache } })
        m' ← get_dir ref
        compact_r ref attrs ref 0 m'.count

    -- "we've deleted the last entry": `true` if the directory is dropped.
    unfoldable pub try_drop : Mdir → M (Lfs D) Bool
    try_drop m = do
      pred ← fs_pred cfg m.pair
      elim pred [
        | none ↦ pure false
        | some pdir ↦ if not pdir.split then pure false else do drop_r pdir m; pure true
      ]

    unfoldable pub dir_commit : Ref → List Mattr → M (Mdir × Lfs D) (Unit {0})
    unfolding evict_all changes pending_move write_out update_all all_here try_drop
    dir_commit ref attrs = do
      s ← get
      evict_all evict ref (all_here s.1.mlist)
      m ← get_dir ref
      let before : Changes = record { deletetag = block_null; createtag = block_null; m = m }
      elim (changes before attrs) [
        | none ↦ crash
        | some c ↦ do
          set_dir ref c.m
          c' ← pending_move ref c
          m' ← get_dir ref
          dropped ←
              if tag_isvalid c'.deletetag && (m'.count == 0)
              then on_lfs (try_drop m')
              else pure false
          if dropped then pure tt else do
            write_out ref attrs
            m'' ← get_dir ref
            s' ← get
            update_all cfg m''.pair c' ref (all_here s'.1.mlist)
      ]
