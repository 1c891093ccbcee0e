-- ===== src/Exec.antt =====
-- What a C function of lfs.c does to the state that it is passed by pointer: it returns a value, a
-- negative error code, or it does not return. The state after an error is kept, as it is in C.
use littlefs.Prelude.{ℕ, Bool, true, false, Option, none, some}

-- `enum lfs_error`, and any other negative code that a callback of the user may return.
pub data Error : Type 0 where
  io corrupt noent exist notdir isdir notempty badf fbig inval nospc nomem noattr : Error
  nametoolong : Error
  other : ℕ → Error

-- `fault` is a failed LFS_ASSERT or an access outside a buffer.
pub data Res (S A : Type 0) : Type 0 where
  ok : A → S → Res S A
  err : Error → S → Res S A
  fault : Res S A
  out_of_fuel : Res S A

abbrev pub M : Type 0 → Type 0 → Type 0
M S A = S → Res S A

-- The result of a call whose error the caller looks at.
pub data Try (A : Type 0) : Type 0 where
  got : A → Try A
  failed : Error → Try A

module _ {S A : Type 0} where
  abbrev pub pure : A → M S A
  pure a s = ok a s

  abbrev pub throw : Error → M S A
  throw e s = err e s

  abbrev pub crash : M S A
  crash s = fault

  abbrev pub no_fuel : M S A
  no_fuel s = out_of_fuel

  abbrev pub attempt_res : Res S A → Res S (Try A)
  attempt_res (ok a s) = ok (got a) s
  attempt_res (err e s) = ok (failed e) s
  attempt_res fault = fault
  attempt_res out_of_fuel = out_of_fuel

  abbrev pub attempt : M S A → M S (Try A)
  attempt m s = attempt_res (m s)

  -- A read of memory that is `none` outside its buffer.
  abbrev pub in_bounds : Option A → M S A
  in_bounds none = crash
  in_bounds (some a) = pure a

module _ {S : Type 0} where
  abbrev pub get : M S S
  get s = ok s s

  abbrev pub put : S → M S (Unit {0})
  put s' s = ok tt s'

  abbrev pub modify : (S → S) → M S (Unit {0})
  modify f s = ok tt (f s)

  abbrev pub assert : Bool → M S (Unit {0})
  assert true = pure tt
  assert false = crash

abbrev pub gets : {S A : Type 0} → (S → A) → M S A
gets f s = ok (f s) s

abbrev pub bind_res : {S A B : Type 0} → Res S A → (A → M S B) → Res S B
bind_res (ok a s) f = f a s
bind_res (err e s) f = err e s
bind_res fault f = fault
bind_res out_of_fuel f = out_of_fuel

infixl 5 ◌>>=◌ ◌>>◌
abbrev pub ◌>>=◌ : {S A B : Type 0} → M S A → (A → M S B) → M S B
◌>>=◌ m f s = bind_res (m s) f

abbrev pub ◌>>◌ : {S B : Type 0} → M S (Unit {0}) → M S B → M S B
m >> k = m >>= λ _. k

-- A call that is passed a pointer to a part `T` of the state.
abbrev pub zoom_res : {S T A : Type 0} → (T → S) → Res T A → Res S A
zoom_res wrap (ok a t) = ok a (wrap t)
zoom_res wrap (err e t) = err e (wrap t)
zoom_res wrap fault = fault
zoom_res wrap out_of_fuel = out_of_fuel

abbrev pub zoom : {S T A : Type 0} → (S → T) → (S → T → S) → M T A → M S A
zoom part replace m s = zoom_res (replace s) (m (part s))
