-- ===== src/Files/State.antt =====
-- The state of a file, and the calls of the block device layer with the cache of a file.
use littlefs.Prelude.{ℕ, Option, none, some}
use littlefs.Exec.{M, got, failed, pure, throw, crash, attempt, get, modify, zoom, ◌>>=◌, ◌>>◌}
use littlefs.Config.{Bd}
use littlefs.Lfs.{Lfs, File, Open, reg, dir, f_erred, find_open, update_open, set_flag}

-- The file of an open structure; a directory has none.
unfoldable pub as_file : Open → Option File
as_file (reg f) = some f
as_file (dir d) = none

-- A change of the file of an open structure.
unfoldable pub on_reg : (File → File) → Open → Open
on_reg g (reg f) = reg (g f)
on_reg g (dir d) = dir d

module _ {D : Type 0} where
  -- The file at an address.
  unfoldable pub file_at : ℕ → M (Lfs D) File
  unfolding as_file
  file_at here = do
    s ← get
    elim (find_open here s.mlist) [
      | none ↦ crash
      | some o ↦ elim (as_file o) [ none ↦ crash | some f ↦ pure f ]
    ]

  unfoldable pub change_file : ℕ → (File → File) → M (Lfs D) (Unit {0})
  unfolding on_reg
  change_file here g = modify λ s. record s { mlist = update_open here (on_reg g) s.mlist }

  unfoldable pub in_file : (File → File) → M (File × Lfs D) (Unit {0})
  in_file g = modify λ s. (g s.0, s.1)

  -- A function of a file that does not look at the list.
  unfoldable pub on_file : {A : Type 0} → ℕ → M (File × Lfs D) A → M (Lfs D) A
  unfolding file_at on_reg
  on_file here m = do
    f ← file_at here
    zoom (λ s. (f, s))
        (λ s w. let l = w.1 in record l { mlist = update_open here (on_reg λ _. w.0) l.mlist }) m

  -- The cache of the file as the program cache: `&file->cache, &lfs->rcache`.
  unfoldable pub on_pcache : {A : Type 0} → M (Bd D) A → M (File × Lfs D) A
  on_pcache m =
      zoom (λ s. let f = s.0 in let l = s.1 in record l.bd { pcache = f.cache })
        (λ s b.
          let l = s.1 in
          let own = l.bd in
          (record s.0 { cache = b.pcache }, record l { bd = record b { pcache = own.pcache } }))
        m

  -- The cache of the file as the read cache: `NULL, &file->cache`.
  unfoldable pub on_rcache : {A : Type 0} → M (Bd D) A → M (File × Lfs D) A
  on_rcache m =
      zoom (λ s. let f = s.0 in let l = s.1 in record l.bd { rcache = f.cache })
        (λ s b.
          let l = s.1 in
          let own = l.bd in
          (record s.0 { cache = b.rcache }, record l { bd = record b { rcache = own.rcache } }))
        m

  -- `file->flags |= LFS_F_ERRED` where a call fails.
  unfoldable pub or_erred : {A : Type 0} → ℕ → M (Lfs D) A → M (Lfs D) A
  unfolding change_file
  or_erred here m = do
    r ← attempt m
    elim r [
      | got a ↦ pure a
      | failed e ↦ do change_file here λ f. record f { flags = set_flag f_erred f.flags }; throw e
    ]
