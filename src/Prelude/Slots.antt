-- ===== src/Prelude/Slots.antt =====
-- Lists from which an element goes at an index, or to which one comes.
use Prim.Native.Nat.{ℕ, zero, suc, ◌≤◌, ◌<◌}
use mathlib.Core.Path.{◌≡◌, refl, ap}
use mathlib.Core.List.{List, [], ◌∷◌}
use native.Mathlib.Omega.{arith}
use littlefs.Prelude.Lists.{length, get_or}

module _ {ℓ} {A : Type ℓ} where
  abbrev pub remove_at : ℕ → List A → List A
  remove_at i [] = []
  remove_at zero (x ∷ xs) = xs
  remove_at (suc i) (x ∷ xs) = x ∷ remove_at i xs

  -- At the end if the index is past it.
  abbrev pub insert_at : ℕ → A → List A → List A
  insert_at zero v xs = v ∷ xs
  insert_at (suc i) v [] = v ∷ []
  insert_at (suc i) v (x ∷ xs) = x ∷ insert_at i v xs

  pub get_or-remove_before :
      (xs : List A) (i j : ℕ) (d : A) → j < i → get_or (remove_at i xs) j d ≡ get_or xs j d
  get_or-remove_before [] i j d h = refl
  get_or-remove_before (x ∷ xs) zero j d h = absurd (omega arith)
  get_or-remove_before (x ∷ xs) (suc i) zero d h = refl
  get_or-remove_before (x ∷ xs) (suc i) (suc j) d h = get_or-remove_before xs i j d (omega arith)

  pub get_or-remove_after :
      (xs : List A) (i j : ℕ) (d : A) → i ≤ j → get_or (remove_at i xs) j d ≡ get_or xs (suc j) d
  get_or-remove_after [] i j d h = refl
  get_or-remove_after (x ∷ xs) zero j d h = refl
  get_or-remove_after (x ∷ xs) (suc i) zero d h = absurd (omega arith)
  get_or-remove_after (x ∷ xs) (suc i) (suc j) d h = get_or-remove_after xs i j d (omega arith)

  pub get_or-insert_before :
      (xs : List A) (i j : ℕ) (v d : A)
      → j < i
      → i ≤ length xs
      → get_or (insert_at i v xs) j d ≡ get_or xs j d
  get_or-insert_before xs zero j v d h le = absurd (omega arith)
  get_or-insert_before [] (suc i) j v d h le = absurd (omega arith)
  get_or-insert_before (x ∷ xs) (suc i) zero v d h le = refl
  get_or-insert_before (x ∷ xs) (suc i) (suc j) v d h le =
      get_or-insert_before xs i j v d (omega arith) (omega arith)

  pub get_or-insert_after :
      (xs : List A) (i j : ℕ) (v d : A)
      → i ≤ j
      → i ≤ length xs
      → get_or (insert_at i v xs) (suc j) d ≡ get_or xs j d
  get_or-insert_after xs zero j v d h le = refl
  get_or-insert_after [] (suc i) j v d h le = absurd (omega arith)
  get_or-insert_after (x ∷ xs) (suc i) zero v d h le = absurd (omega arith)
  get_or-insert_after (x ∷ xs) (suc i) (suc j) v d h le =
      get_or-insert_after xs i j v d (omega arith) (omega arith)

  pub length-remove_at :
      (xs : List A) (i : ℕ) → i < length xs → suc (length (remove_at i xs)) ≡ length xs
  length-remove_at [] i h = absurd (omega arith)
  length-remove_at (x ∷ xs) zero h = refl
  length-remove_at (x ∷ xs) (suc i) h = ap suc (length-remove_at xs i (omega arith))
