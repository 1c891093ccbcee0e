-- ===== src/Meta/Change.antt =====
-- What the attributes of a commit change in the directory, and the update of the open files and
-- directories at the end of `lfs_dir_commit`.
use littlefs.Prelude.{
  ℕ, zero, suc, ◌+◌, ◌-◌, ◌^◌, bit_and, Bool, not, ◌&&◌, Option, none, some, List, [], ◌∷◌, ltb,
  leb, ◌==◌, if◌then◌else◌, u16, add32,
}
use littlefs.Exec.{M, pure, crash, no_fuel, get, modify, ◌>>=◌, ◌>>◌}
use littlefs.Config.{Config}
use littlefs.Tag.{Pair, pair_null, tag_type1, tag_type3, tag_chunk, tag_id, pair_overlap}
use littlefs.Tag.Kind
use littlefs.Disk.{pair_fromle32}
use littlefs.Lfs.{
  Lfs, Mdir, Open, reg, dir, open_here, open_id, open_mdir, with_mdir, find_open, update_open,
}
use littlefs.Fs.{pairs_max}
use littlefs.Dir.Fetch.{dir_fetch}
use littlefs.Dir.Commit.{Source, from_memory, Mattr}
use littlefs.Meta.Ref.{Ref, is_at, on_lfs, get_dir}

-- "calculate changes to the directory": the tags of the last entry that goes and of the last one
-- that comes, and the directory.
pub record Changes : Type 0 where
  pub deletetag : ℕ
  pub createtag : ℕ
  pub m : Mdir

-- The change of a tail.
unfoldable pub tail_change : Changes → ℕ → Source → Option Changes
tail_change c tag (from_memory bytes) = some (
    let m = c.m in
    record c {
      m = record m { tail = pair_fromle32 bytes; split = bit_and (tag_chunk tag) 1 == 1 };
    })
tail_change c tag other = none

-- The change of one attribute; `none` for a failed assertion.
unfoldable pub change : Changes → Mattr → Option Changes
unfolding tail_change
change c a =
    if tag_type3 a.tag == Kind.create
    then some
        (let m = c.m in record c { createtag = a.tag; m = record m { count = u16 (m.count + 1) } })
    else (if tag_type3 a.tag == Kind.delete
        then (if ltb 0 c.m.count
            then some (
                let m = c.m in record c { deletetag = a.tag; m = record m { count = m.count - 1 } })
            else none)
        else (if tag_type1 a.tag == Kind.tail then tail_change c a.tag a.buffer else some c))

unfoldable pub changes : Changes → List Mattr → Option Changes
unfolding change
changes c [] = some c
changes c (a ∷ rest) = elim (change c a) [ none ↦ none | some c' ↦ changes c' rest ]

-- The id, and the position of a directory, moved by a number modulo 2^32.
unfoldable pub shifted : Open → ℕ → Open
shifted (reg f) k = reg (record f { id = u16 (f.id + k) })
shifted (dir d) k = dir (record d { id = u16 (d.id + k); pos = add32 d.pos k })

-- What an open file or directory becomes when entries of its directory went or came. `mine` says
-- that the commit was made through this structure.
unfoldable pub shift_open : Changes → Bool → Open → Open
unfolding shifted
shift_open c mine o =
    let m = c.m in
    let o' = with_mdir m o in
    if open_id o == tag_id c.deletetag
    then with_mdir (record m { pair = pair_null }) o'
    else (if ltb (tag_id c.deletetag) (open_id o)
        then shifted o' (2 ^ 32 - 1)
        else (if not mine && leb (tag_id c.createtag) (open_id o) then shifted o' 1 else o'))

-- Whether the entry of an open structure is on the tail.
unfoldable pub is_past : Open → Bool
is_past o = leb (open_mdir o).count (open_id o) && (open_mdir o).split

-- "we split and id is on tail now"
unfoldable pub step_tail : Open → Open
step_tail (reg f) = reg (record f { id = u16 (f.id + (2 ^ 16 - f.m.count)) })
step_tail (dir d) = dir (record d { id = u16 (d.id + (2 ^ 16 - d.m.count)) })

-- The addresses of the open structures.
unfoldable pub all_here : List Open → List ℕ
all_here [] = []
all_here (o ∷ os) = open_here o ∷ all_here os

module _ {D : Type 0} (cfg : Config D) where
  open cfg use {block_size, block_count, prog_size, cache_size}

  unfoldable pub open_at : ℕ → M (Lfs D) Open
  open_at here = do s ← get; elim (find_open here s.mlist) [ none ↦ crash | some o ↦ pure o ]

  unfoldable pub change_open : ℕ → (Open → Open) → M (Lfs D) (Unit {0})
  change_open here f = modify λ s. record s { mlist = update_open here f s.mlist }

  -- The loop along the tails, on fuel.
  unfoldable pub tail_loop : ℕ → ℕ → M (Lfs D) (Unit {0})
  unfolding open_at change_open is_past step_tail
  tail_loop zero here = no_fuel
  tail_loop (suc fuel) here = do
    o ← open_at here
    if not (is_past o) then pure tt else do
      change_open here step_tail
      m ← dir_fetch cfg (open_mdir o) (open_mdir o).tail
      change_open here (with_mdir m)
      tail_loop fuel here

  -- "update any directories that are affected": the structures at these addresses.
  unfoldable pub update_all : Pair → Changes → Ref → List ℕ → M (Mdir × Lfs D) (Unit {0})
  unfolding open_at change_open tail_loop shift_open
  update_all pair c ref [] = pure tt
  update_all pair c ref (here ∷ rest) = do
    o ← on_lfs (open_at here)
    if not (pair_overlap (open_mdir o).pair pair) then pure tt else do
      m ← get_dir ref
      on_lfs (change_open here (shift_open (record c { m = m }) (is_at ref here)))
      on_lfs (tail_loop (pairs_max cfg) here)
    update_all pair c ref rest
