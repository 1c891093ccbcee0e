-- ===== src/Dir/Find/Name.antt =====
-- The names of a path that `lfs_dir_find` looks up.
use littlefs.Prelude.{
  ℕ, zero, suc, ◌≤◌, ◌<◌, ◌≡◌, refl, arith, false, ◌||◌, ◌==◌, Option, none, some, List, [], ◌∷◌,
  take, drop, length, Bool-cases, inl, inr,
}
use native.Mathlib.Decide.{dec_lt}
use littlefs.Dir.Find.Fuel.{follow, Returns, next_name-Returns}
use littlefs.Dir.Find.{skip_slashes, name_length, is_dot, is_dotdot, matched_suffix, next_name}

skip_slashes-skip_slashes : (s : List ℕ) → skip_slashes (skip_slashes s) ≡ skip_slashes s
unfolding skip_slashes
skip_slashes-skip_slashes [] = refl
skip_slashes-skip_slashes (c ∷ cs) = elim (Bool-cases (c == b'/')) [
  | inl e ↦ rw e (skip_slashes-skip_slashes cs)
  | inr e ↦ rw (e, e) refl
]

-- The path starts with a name to look up: it has no slash before it, and is not `.` or `..`.
pub record IsName (path : List ℕ) : Type 0 where
  pub no_slash : skip_slashes path ≡ path
  pub no_dot : is_dot (take (name_length path) path) ≡ false
  pub no_dotdot : is_dotdot (take (name_length path) path) ≡ false

-- The result of the loop on fuel is such a path, if there is one.
abbrev Names : Option (List ℕ) → Type 0
Names none = Unit {0}
Names (some name) = IsName name

follow-Names :
    (next : List ℕ → Option (List ℕ)) (path : List ℕ) (m : Option (Option (List ℕ)))
    → ((suffix : List ℕ) → Names (next suffix))
    → (let name = skip_slashes path in
        (is_dot (take (name_length name) name) || is_dotdot (take (name_length name) name)) ≡ false)
    → Names (follow next (skip_slashes path) m)
follow-Names next path none h e = tt
follow-Names next path (some none) h e = record {
  no_slash = skip_slashes-skip_slashes path;
  no_dot = ground (arith, e);
  no_dotdot = ground (arith, e);
}
follow-Names next path (some (some suffix)) h e = h suffix

next_name-Names : (fuel : ℕ) (path : List ℕ) → Names (next_name fuel path)
unfolding next_name
next_name-Names zero path = tt
next_name-Names (suc fuel) path =
    let name = skip_slashes path in
    let this = take (name_length name) name in
    let rest = drop (name_length name) name in
    elim (Bool-cases (is_dot this || is_dotdot this)) [
      | inl e ↦ rw e (next_name-Names fuel rest)
      | inr e ↦ rw e (
          follow-Names (next_name fuel) path (matched_suffix (suc (length rest)) 1 rest)
            (λ suffix. next_name-Names fuel suffix) e)
    ]

-- A result that runs out of fuel only if there is no more of it than the path has bytes.
abbrev pub Named : ℕ → List ℕ → Option (List ℕ) → Type 0
Named fuel path none = fuel ≤ length path
Named fuel path (some name) = IsName name

Names-Named :
    (fuel : ℕ) (path : List ℕ) (m : Option (List ℕ))
    → Names m
    → (length path < fuel → Returns m)
    → Named fuel path m
Names-Named fuel path none h r = elim (dec_lt (length path) fuel) [
  | yes enough ↦ absurd (r enough)
  | no few ↦ omega arith
]
Names-Named fuel path (some name) h r = h

-- Whatever the path and the fuel, the rest of the path at which `lfs_dir_find` looks up its next
-- name has no slash in front, and its first name is neither `.` nor `..`; there is no such rest
-- only if the fuel is used up, which takes a fuel of at most the number of bytes of the path.
pub next_name-IsName : (fuel : ℕ) (path : List ℕ) → Named fuel path (next_name fuel path)
next_name-IsName fuel path =
    Names-Named fuel path (next_name fuel path) (next_name-Names fuel path)
      (next_name-Returns fuel path)
