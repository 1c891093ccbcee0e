-- ===== src/Meta/Ref.antt =====
-- Pointers to an `lfs_mdir_t`: to a local variable of the function, to one of a caller, or to the
-- field `m` of an open file or directory, which the list of open ones reaches as well.
use littlefs.Prelude.{ℕ, ◌==◌, Bool, false, none, some}
use littlefs.Exec.{M, pure, crash, get, modify, zoom, ◌>>=◌}
use littlefs.Lfs.{Lfs, Mdir, open_mdir, with_mdir, find_open, update_open}

pub data Ref : Type 0 where
  local : Ref
  outer : Mdir → Ref
  at : ℕ → Ref

-- `&d->m != dir` for the structure at an address.
unfoldable pub is_at : Ref → ℕ → Bool
is_at (at h) here = h == here
is_at other here = false

-- What a pointer is to a function that is called with another local variable.
unfoldable pub from_callee : Ref → Mdir → Ref
from_callee local m = outer m
from_callee other m = other

module _ {D : Type 0} where
  -- The state of a function with a local `lfs_mdir_t`.
  abbrev pub on_lfs : {A : Type 0} → M (Lfs D) A → M (Mdir × Lfs D) A
  on_lfs m = zoom (λ s. s.1) (λ s l. (s.0, l)) m

  -- A call with a local variable of its own; what is in it afterwards is returned.
  unfoldable pub with_local : {A : Type 0} → Mdir → M (Mdir × Lfs D) A → M (Lfs D) (A × Mdir)
  with_local m call = zoom (λ s. (m, s)) (λ s w. w.1) (do a ← call; w ← get; pure (a, w.0))

  unfoldable pub get_dir : Ref → M (Mdir × Lfs D) Mdir
  get_dir local = do s ← get; pure s.0
  get_dir (outer m) = pure m
  get_dir (at h) = do
    s ← get
    elim (find_open h s.1.mlist) [ none ↦ crash | some o ↦ pure (open_mdir o) ]

  unfoldable pub set_dir : Ref → Mdir → M (Mdir × Lfs D) (Unit {0})
  set_dir local m = modify λ s. (m, s.1)
  set_dir (outer m') m = crash
  set_dir (at h) m =
      modify λ s. (s.0, (let l = s.1 in record l { mlist = update_open h (with_mdir m) l.mlist }))
