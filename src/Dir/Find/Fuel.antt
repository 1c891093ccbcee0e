-- ===== src/Dir/Find/Fuel.antt =====
-- The fuel of the loops of `lfs_dir_find` over a path: more than the length of the path is enough.
use littlefs.Prelude.{
  ℕ, zero, suc, ◌+◌, ◌-◌, ◌≤◌, ◌<◌, ◌≡◌, ◌≢◌, refl, arith, true, false, ◌||◌, ◌&&◌, ◌==◌, Option,
  none, some, ◌∙◌, List, [], ◌∷◌, take, drop, length, length-drop, Bool-cases, inl, inr,
  if◌then◌else◌,
}
use mathlib.Core.Path.{subst}
use littlefs.Dir.Find.{skip_slashes, name_length, is_dot, is_dotdot, matched_suffix, next_name}

length-skip_slashes : (s : List ℕ) → length (skip_slashes s) ≤ length s
unfolding skip_slashes
length-skip_slashes [] = omega arith
length-skip_slashes (c ∷ cs) = elim (Bool-cases (c == b'/')) [
  | inl e ↦ rw e (omega (arith, length-skip_slashes cs))
  | inr e ↦ rw e (omega arith)
]

-- A path goes on after its first name, if there is one.
rest-shorter :
    (path : List ℕ)
    → name_length (skip_slashes path) ≢ 0
    → length (drop (name_length (skip_slashes path)) (skip_slashes path)) < length path
unfolding skip_slashes name_length
rest-shorter path h =
    let s = skip_slashes path in
    omega (arith, length-drop (name_length s) s, length-skip_slashes path, nonempty s h)
  where
    nonempty : (s : List ℕ) → name_length s ≢ 0 → 0 < length s
    nonempty [] h = absurd (h refl)
    nonempty (c ∷ cs) h = omega arith

-- The suffix of a search that has found one is shorter than the path.
abbrev IsShorter : List ℕ → Option (Option (List ℕ)) → Type 0
IsShorter path none = Unit {0}
IsShorter path (some none) = Unit {0}
IsShorter path (some (some t)) = length t < length path

IsShorter-longer :
    (s s' : List ℕ) (m : Option (Option (List ℕ)))
    → length s ≤ length s'
    → IsShorter s m
    → IsShorter s' m
IsShorter-longer s s' none h p = tt
IsShorter-longer s s' (some none) h p = tt
IsShorter-longer s s' (some (some t)) h p = omega arith

matched_suffix-IsShorter : (fuel depth : ℕ) (s : List ℕ) → IsShorter s (matched_suffix fuel depth s)
unfolding matched_suffix
matched_suffix-IsShorter zero depth s = tt
matched_suffix-IsShorter (suc fuel) depth path =
    let s = skip_slashes path in
    let n = name_length s in
    let up = is_dotdot (take n s) in
    elim (Bool-cases (n == 0)) [
      | inl e ↦ rw e tt
      | inr e ↦
          let less = rest-shorter path (ground arith) in
          rw e (elim (Bool-cases (up && (depth == 1))) [
            | inl found ↦ rw found less
            | inr deeper ↦ rw deeper (
                let m = matched_suffix fuel (if up then depth - 1 else depth + 1) (drop n s) in
                IsShorter-longer (drop n s) path m (omega (arith, less))
                  (matched_suffix-IsShorter fuel (if up then depth - 1 else depth + 1) (drop n s)))
          ])
    ]

-- A loop on fuel has not run out of it.
abbrev pub Returns : {A : Type 0} → Option A → Type 0
Returns none = ⊥
Returns (some a) = Unit {0}

-- What a loop that has not run out of fuel returns.
result : {A : Type 0} (m : Option A) → Returns m → (a : A) × (m ≡ some a)
result none h = absurd h
result (some a) h = (a, refl)

matched_suffix-Returns :
    (fuel depth : ℕ) (s : List ℕ) → length s < fuel → Returns (matched_suffix fuel depth s)
unfolding matched_suffix
matched_suffix-Returns zero depth s h = absurd (omega arith)
matched_suffix-Returns (suc fuel) depth path h =
    let s = skip_slashes path in
    let n = name_length s in
    let up = is_dotdot (take n s) in
    elim (Bool-cases (n == 0)) [
      | inl e ↦ rw e tt
      | inr e ↦
          let less = rest-shorter path (ground arith) in
          rw e (elim (Bool-cases (up && (depth == 1))) [
            | inl found ↦ rw found tt
            | inr deeper ↦ rw deeper (
                matched_suffix-Returns fuel (if up then depth - 1 else depth + 1) (drop n s)
                  (omega (arith, less)))
          ])
    ]

matched_suffix_same :
    (fuel fuel' depth : ℕ) (s : List ℕ)
    → length s < fuel
    → length s < fuel'
    → matched_suffix fuel depth s ≡ matched_suffix fuel' depth s
unfolding matched_suffix
matched_suffix_same zero fuel' depth s h h' = absurd (omega arith)
matched_suffix_same (suc fuel) zero depth s h h' = absurd (omega arith)
matched_suffix_same (suc fuel) (suc fuel') depth path h h' =
    let s = skip_slashes path in
    let n = name_length s in
    let up = is_dotdot (take n s) in
    elim (Bool-cases (n == 0)) [
      | inl e ↦ rw e refl
      | inr e ↦
          let less = rest-shorter path (ground arith) in
          rw
            (
              e,
              matched_suffix_same fuel fuel' (if up then depth - 1 else depth + 1) (drop n s)
                  (omega (arith, less)) (omega (arith, less)),
            )
            refl
    ]

-- The loop of `lfs_dir_find` that looks for the `..` of a name ends, at whatever depth: with any
-- two fuels above the number of bytes of the path it does not run out of fuel, and returns the same
-- result, the suffix that it finds or that there is none.
pub matched_suffix-fuel :
    (fuel fuel' depth : ℕ) (s : List ℕ)
    → length s < fuel
    → length s < fuel'
    → (m : Option (List ℕ)) × (matched_suffix fuel depth s ≡ some m)
      × (matched_suffix fuel' depth s ≡ some m)
matched_suffix-fuel fuel fuel' depth s h h' =
    let (m, e) = result (matched_suffix fuel depth s) (matched_suffix-Returns fuel depth s h) in
    (m, e, matched_suffix_same fuel' fuel depth s h' h ∙ e)

dots-length :
    (s : List ℕ)
    → (is_dot (take (name_length s) s) || is_dotdot (take (name_length s) s)) ≡ true
    → name_length s ≢ 0
unfolding name_length is_dot is_dotdot
dots-length [] h e = ground (arith, h)
dots-length (c ∷ cs) h e =
    let none_left : false ≡ true =
      subst (λ (t : ℕ). (is_dot (take t (c ∷ cs)) || is_dotdot (take t (c ∷ cs))) ≡ true) e h in
    absurd (ground (arith, none_left))

-- What follows the search for a suffix.
abbrev pub follow : (List ℕ → Option (List ℕ)) → List ℕ → Option (Option (List ℕ)) → Option (List ℕ)
follow next name none = none
follow next name (some none) = some name
follow next name (some (some suffix)) = next suffix

follow_same :
    (next next' : List ℕ → Option (List ℕ)) (name : List ℕ) (m : Option (Option (List ℕ)))
    (bound : List ℕ)
    → IsShorter bound m
    → ((t : List ℕ) → length t < length bound → next t ≡ next' t)
    → follow next name m ≡ follow next' name m
follow_same next next' name none bound p h = refl
follow_same next next' name (some none) bound p h = refl
follow_same next next' name (some (some t)) bound p h = h t p

follow-Returns :
    (next : List ℕ → Option (List ℕ)) (name : List ℕ) (m : Option (Option (List ℕ)))
    (bound : List ℕ)
    → Returns m
    → IsShorter bound m
    → ((t : List ℕ) → length t < length bound → Returns (next t))
    → Returns (follow next name m)
follow-Returns next name none bound r p h = r
follow-Returns next name (some none) bound r p h = tt
follow-Returns next name (some (some t)) bound r p h = h t p

rest-le :
    (path : List ℕ)
    → let name = skip_slashes path in length (drop (name_length name) name) ≤ length path
rest-le path =
    let name = skip_slashes path in
    omega (arith, length-drop (name_length name) name, length-skip_slashes path)

pub next_name-Returns :
    (fuel : ℕ) (path : List ℕ) → length path < fuel → Returns (next_name fuel path)
unfolding next_name
next_name-Returns zero path h = absurd (omega arith)
next_name-Returns (suc fuel) path h =
    let name = skip_slashes path in
    let n = name_length name in
    let this = take n name in
    let rest = drop n name in
    elim (Bool-cases (is_dot this || is_dotdot this)) [
      | inl e ↦
          let less = rest-shorter path (dots-length name e) in
          rw e (next_name-Returns fuel rest (omega (arith, less)))
      | inr e ↦ rw e (
          follow-Returns (next_name fuel) name (matched_suffix (suc (length rest)) 1 rest) rest
            (matched_suffix-Returns (suc (length rest)) 1 rest (omega arith))
            (matched_suffix-IsShorter (suc (length rest)) 1 rest)
            (λ t less. next_name-Returns fuel t (omega (arith, less, rest-le path))))
    ]

next_name_same :
    (fuel fuel' : ℕ) (path : List ℕ)
    → length path < fuel
    → length path < fuel'
    → next_name fuel path ≡ next_name fuel' path
unfolding next_name
next_name_same zero fuel' path h h' = absurd (omega arith)
next_name_same (suc fuel) zero path h h' = absurd (omega arith)
next_name_same (suc fuel) (suc fuel') path h h' =
    let name = skip_slashes path in
    let n = name_length name in
    let this = take n name in
    let rest = drop n name in
    let short = rest-le path in
    elim (Bool-cases (is_dot this || is_dotdot this)) [
      | inl e ↦
          let less = rest-shorter path (dots-length name e) in
          rw e (next_name_same fuel fuel' rest (omega (arith, less)) (omega (arith, less)))
      | inr e ↦ rw e (
          follow_same (next_name fuel) (next_name fuel') name
            (matched_suffix (suc (length rest)) 1 rest) rest
            (matched_suffix-IsShorter (suc (length rest)) 1 rest)
            (λ t less.
              next_name_same fuel fuel' t (omega (arith, less, short))
                (omega (arith, less, short))))
    ]

-- The loop of `lfs_dir_find` that skips names ends: with any two fuels above the number of bytes of
-- the path it does not run out of fuel, and returns the same rest of the path.
pub next_name-fuel :
    (fuel fuel' : ℕ) (path : List ℕ)
    → length path < fuel
    → length path < fuel'
    → (name : List ℕ) × (next_name fuel path ≡ some name) × (next_name fuel' path ≡ some name)
next_name-fuel fuel fuel' path h h' =
    let (name, e) = result (next_name fuel path) (next_name-Returns fuel path h) in
    (name, e, next_name_same fuel' fuel path h' h ∙ e)
