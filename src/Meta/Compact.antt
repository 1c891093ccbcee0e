-- ===== src/Meta/Compact.antt =====
-- `lfs_dir_split` and `lfs_dir_compact`. The functions that they call in a circle are parameters.
use littlefs.Prelude.{
  ℕ, zero, suc, ◌+◌, ◌-◌, ◌/◌, ◌%◌, ◌^◌, Bool, true, false, not, ◌&&◌, none, some, List, ltb, leb,
  ◌==◌, if◌then◌else◌, u16, add32, sub32,
}
use littlefs.Util.{lfs_min, alignup, tole32}
use littlefs.Exec.{
  nospc, M, got, failed, pure, throw, no_fuel, attempt, get, modify, assert, ◌>>=◌, ◌>>◌,
}
use littlefs.Config.{Config, block_null}
use littlefs.Bd.{cache_drop, bd_erase}
use littlefs.Tag.{Pair, mktag, pair_swap, pair_isnull, pair_overlap}
use littlefs.Tag.Kind
use littlefs.Gstate.{gstate_iszero}
use littlefs.Disk.{pair_tole32, gstate_tole32}
use littlefs.Lfs.{Lfs, Mdir, on_bd}
use littlefs.Alloc.{free_ack}
use littlefs.Fs.{alloc, fs_size}
use littlefs.Dir.Get.{signed_tag}
use littlefs.Dir.Commit.{
  Commit, from_memory, Mattr, dir_commitprog, dir_commitattr, dir_commitcrc, dir_alloc,
}
use littlefs.Dir.Traverse.{start}
use littlefs.Meta.Ref.{Ref, local, on_lfs, with_local, get_dir, set_dir, from_callee}
use littlefs.Meta.Step.{
  Attempt, done, relocate, or_bad, dir_commit_size, dir_commit_commit, compact_choice,
  traverse_with, take_gstate, move_done, settle,
}

module _ {D : Type 0} (cfg : Config D) where
  open cfg use {block_size, block_count, block_cycles, prog_size}

  module _ (compact_r : Ref → List Mattr → Ref → ℕ → ℕ → M (Mdir × Lfs D) (Unit {0}))
      (relocate_r : Pair → Pair → M (Lfs D) (Unit {0})) (dir : Ref) (attrs : List Mattr)
      (source : Ref) where
    -- `lfs_dir_split`
    unfoldable pub dir_split : ℕ → ℕ → M (Mdir × Lfs D) (Unit {0})
    dir_split split end = do
      on_lfs (modify λ s. record s { free = free_ack block_count s.free })
      tail ← on_lfs (dir_alloc cfg 0)
      m ← get_dir dir
      s ← get
      (_, tail') ← on_lfs (
          with_local (record tail { split = m.split; tail = m.tail })
            (compact_r local attrs (from_callee source s.0) split end))
      m' ← get_dir dir
      set_dir dir (record m' { tail = tail'.pair; split = true })
      on_lfs (
          modify λ s.
            if pair_overlap m'.pair s.root && (split == 0)
            then record s { root = tail'.pair }
            else s)

    -- "should we split?": the new end, on fuel; it falls in every round.
    unfoldable pub split_loop : ℕ → ℕ → ℕ → M (Mdir × Lfs D) ℕ
    split_loop zero begin end = no_fuel
    split_loop (suc fuel) begin end = if not (ltb 1 (end - begin)) then pure end else do
      from ← get_dir source
      size ← on_lfs (
          traverse_with cfg dir_commit_size 0 from attrs (compact_choice cfg begin end)
            (record (start false) { attrs = attrs }))
      if ltb (end - begin) 0xff
            && leb size (lfs_min (sub32 block_size 36) (alignup (block_size / 2) prog_size))
          then pure end
          else do
            let split = u16 (begin + (end - begin) / 2)
            r ← attempt (dir_split split end)
            elim r [
              | got _ ↦ split_loop fuel begin split
              | failed nospc ↦ if leb size (sub32 block_size 36) then pure end else throw nospc
              | failed e ↦ throw e
            ]

    -- "should we expand?": the new end of the superblock's directory.
    unfoldable pub expand : ℕ → ℕ → M (Mdir × Lfs D) ℕ
    expand begin end = do
      n ← on_lfs (fs_size cfg)
      res ← signed_tag n
      if ltb res (block_count / 2)
          then (do
            r ← attempt (dir_split begin end)
            elim r [ got _ ↦ pure begin | failed nospc ↦ pure end | failed e ↦ throw e ])
          else pure end

    -- "increment revision count": the new end, and whether the block is exhausted, which a
    -- migration does not look at.
    unfoldable pub count_revision : ℕ → ℕ → M (Mdir × Lfs D) (ℕ × Bool)
    unfolding expand
    count_revision begin end = do
      m ← get_dir dir
      let rev = add32 m.rev 1
      set_dir dir (record m { rev = rev })
      if (ltb 0 block_cycles && ltb block_cycles (2 ^ 31)) && (rev % (block_cycles + 1) == 0)
          then if pair_overlap m.pair (0, 1)
            then (do end' ← expand begin end; pure (end', false))
            else (do
              s ← get
              let migrating : Bool = elim s.1.lfs1 [ none ↦ false | some _ ↦ true ]
              pure (end, not migrating))
          else pure (end, false)

    -- "setup commit state" and what is written to the other block of the pair.
    unfoldable pub compact_round : ℕ → ℕ → Bool → M (Mdir × Lfs D) Attempt
    unfolding or_bad
    compact_round begin end relocated = do
      m ← get_dir dir
      on_lfs (take_gstate cfg m)
      let commit : Commit = record {
        block = m.pair.1;
        off = 0;
        ptag = block_null;
        crc = block_null;
        begin = 0;
        end = sub32 block_size 8;
      }
      or_bad (on_lfs (on_bd (bd_erase cfg m.pair.1))) λ _.
          or_bad (on_lfs (dir_commitprog cfg commit (tole32 m.rev))) λ c1. (do
            from ← get_dir source
            or_bad
                (on_lfs (
                  traverse_with cfg (dir_commit_commit cfg) c1 from attrs
                    (compact_choice cfg begin end) (record (start false) { attrs = attrs })))
                λ c2. (do
                  m' ← get_dir dir
                  or_bad
                      (if pair_isnull m'.tail
                        then pure c2
                        else on_lfs (
                            dir_commitattr cfg c2
                              (mktag (Kind.tail + (if m'.split then 1 else 0)) 0x3ff 8)
                              (from_memory (pair_tole32 m'.tail))))
                      λ c3. (do
                        s ← get
                        let delta = s.1.globals.gdelta
                        or_bad
                            (if not relocated && not (gstate_iszero delta)
                              then on_lfs (
                                  dir_commitattr cfg c3 (mktag Kind.movestate 0x3ff 12)
                                    (from_memory (gstate_tole32 delta)))
                              else pure c3)
                            λ c4. or_bad (on_lfs (dir_commitcrc cfg c4)) λ c5. (do
                              assert (c5.off % prog_size == 0)
                              m'' ← get_dir dir
                              set_dir dir (record m'' {
                                pair = pair_swap m''.pair;
                                count = u16 (sub32 end begin);
                                off = c5.off;
                                etag = c5.ptag;
                              })
                              on_lfs (modify (move_done cfg (pair_swap m''.pair)))
                              pure done))))

    -- "commit was corrupted, drop caches and prepare to relocate block"
    unfoldable pub prepare_relocate : Pair → Bool → M (Mdir × Lfs D) (Unit {0})
    prepare_relocate oldpair exhausted = do
      on_lfs (modify λ s. record s { bd = record s.bd { pcache = cache_drop s.bd.pcache } })
      if pair_overlap oldpair (0, 1) then throw nospc else do
        r ← attempt (on_lfs (alloc cfg))
        elim r [
          | got block ↦ do m ← get_dir dir; set_dir dir (record m { pair = (m.pair.0, block) })
          | failed nospc ↦ pure tt
          | failed e ↦ if exhausted then pure tt else throw e
        ]

    -- "begin loop to commit compaction to blocks until a compact sticks", on fuel.
    unfoldable pub compact_loop : ℕ → Pair → Bool → ℕ → ℕ → Bool → M (Mdir × Lfs D) Bool
    compact_loop zero oldpair exhausted begin end relocated = no_fuel
    compact_loop (suc fuel) oldpair exhausted begin end relocated = do
      r ← compact_round begin end relocated
      elim r [
        | done ↦ pure relocated
        | relocate ↦ do
          prepare_relocate oldpair exhausted
          compact_loop fuel oldpair exhausted begin end true
      ]

    -- `lfs_dir_compact`; each block may turn out to be bad.
    unfoldable pub dir_compact : ℕ → ℕ → M (Mdir × Lfs D) (Unit {0})
    unfolding settle
    dir_compact begin end = do
      m ← get_dir dir
      let oldpair : Pair = (m.pair.1, m.pair.0)
      end' ← split_loop (suc end) begin end
      (end'', exhausted) ← count_revision begin end'
      if exhausted then prepare_relocate oldpair true else pure tt
      relocated ← compact_loop (block_count + 2) oldpair exhausted begin end'' exhausted
      if not relocated
          then on_lfs (modify (settle cfg))
          else do m' ← get_dir dir; on_lfs (relocate_r oldpair m'.pair)
