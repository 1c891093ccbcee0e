-- ===== src/Dir/Find.antt =====
-- `lfs_dir_find`: a path is walked name by name. A path is the bytes of a C string.
pub mod Name
pub mod Fuel
use littlefs.Prelude.{
  ℕ, zero, suc, ◌+◌, ◌-◌, Bool, false, not, ◌&&◌, ◌||◌, Option, none, some, List, [], ◌∷◌, ◌==◌,
  if◌then◌else◌, length, take, drop,
}
use littlefs.Exec.{noent, notdir, M, Try, got, failed, pure, no_fuel, attempt, get, ◌>>=◌}
use littlefs.Config.{Config}
use littlefs.Tag.{mktag, tag_type3, tag_id}
use littlefs.Tag.Kind
use littlefs.Disk.{pair_fromle32}
use littlefs.Lfs.{Lfs, Mdir}
use littlefs.Dir.Get.{dir_get}
use littlefs.Dir.Fetch.{dir_fetchmatch, dir_find_match}
use littlefs.Dir.Fetch.Tags.{Found}
use littlefs.Fs.{pairs_max}

-- `name += strspn(name, "/")`
unfoldable pub skip_slashes : List ℕ → List ℕ
skip_slashes [] = []
skip_slashes (c ∷ cs) = if c == b'/' then skip_slashes cs else c ∷ cs

-- `strcspn(name, "/")`
unfoldable pub name_length : List ℕ → ℕ
name_length [] = 0
name_length (c ∷ cs) = if c == b'/' then 0 else suc (name_length cs)

-- `memcmp` with "." and "..".
unfoldable pub is_dot : List ℕ → Bool
is_dot (a ∷ []) = a == b'.'
is_dot name = false

unfoldable pub is_dotdot : List ℕ → Bool
is_dotdot (a ∷ b ∷ []) = (a == b'.') && (b == b'.')
is_dotdot name = false

-- "skip if matched by '..' in name": what stands behind the '..' that takes the name back, or `none`
-- if the path ends before. On fuel: the outer `none` is out of fuel.
unfoldable pub matched_suffix : ℕ → ℕ → List ℕ → Option (Option (List ℕ))
matched_suffix zero depth suffix = none
matched_suffix (suc fuel) depth suffix =
    let s = skip_slashes suffix in
    let n = name_length s in
    let up = is_dotdot (take n s) in
    let deeper = matched_suffix fuel (if up then depth - 1 else depth + 1) (drop n s) in
    if n == 0 then some none else (if up && (depth == 1) then some (some (drop n s)) else deeper)

-- The label `nextname`: the path from the next name on that is looked up. On fuel, `none` is out of
-- fuel.
unfoldable pub next_name : ℕ → List ℕ → Option (List ℕ)
unfolding skip_slashes name_length is_dot is_dotdot matched_suffix
next_name zero path = none
next_name (suc fuel) path =
    let name = skip_slashes path in
    let n = name_length name in
    let this = take n name in
    let rest = drop n name in
    let skipped = next_name fuel rest in
    let after = matched_suffix (suc (length rest)) 1 rest in
    if is_dot this || is_dotdot this then skipped else elim after [
      | none ↦ none
      | some none ↦ some name
      | some (some suffix) ↦ next_name fuel suffix
    ]

-- `strchr(name, '/') == NULL`
unfoldable pub is_last : List ℕ → Bool
unfolding name_length
is_last name = name_length name == length name

-- What the call leaves in `*path`, `*id` and `*dir`, beside its result.
pub record Walk : Type 0 where
  pub dir : Mdir
  pub path : List ℕ
  pub id : ℕ
  pub tag : Try ℕ

module _ {D : Type 0} (cfg : Config D) where
  -- "find entry matching name", along the blocks of one directory, on fuel.
  unfoldable pub find_entry : ℕ → Mdir → List ℕ → M (Lfs D) Found
  find_entry zero dir name = no_fuel
  find_entry (suc fuel) dir name = do
    f ←
        dir_fetchmatch cfg (mktag 0x780 0 0) (mktag Kind.name 0 (length name))
          (dir_find_match cfg name) dir dir.tail
    elim f.tag [
      | failed e ↦ pure f
      | got tag ↦
          if not (tag == 0)
          then pure f
          else (if not f.dir.split
              then pure (record f { tag = failed noent })
              else find_entry fuel f.dir name)
    ]

  -- "grab the entry data": the tail becomes the pair of the directory that was found.
  unfoldable pub enter_dir : Mdir → ℕ → M (Lfs D) Mdir
  enter_dir dir tag = if tag_id tag == 0x3ff then pure dir else do
    (_, bytes) ← dir_get cfg dir (mktag 0x700 0x3ff 0) (mktag Kind.struct (tag_id tag) 8)
    pure (record dir { tail = pair_fromle32 bytes })

  -- The outer loop, on fuel: a round uses up a name.
  unfoldable pub find_names : ℕ → Walk → ℕ → List ℕ → M (Lfs D) Walk
  find_names zero w tag path = no_fuel
  find_names (suc fuel) w tag path = elim (next_name (suc (length path)) path) [
    | none ↦ no_fuel
    | some name ↦ do
      let n = name_length name
      if n == 0
          then pure (record w { tag = got tag })
          else (if not (tag_type3 tag == Kind.dir)
              then pure (record w { path = name; tag = failed notdir })
              else do
                entered ← attempt (enter_dir w.dir tag)
                elim entered [
                  | failed e ↦ pure (record w { path = name; tag = failed e })
                  | got dir ↦ do
                    f ← find_entry (pairs_max cfg) dir (take n name)
                    let id = if is_last name then f.id else w.id
                    let w' = record w { dir = f.dir; path = name; id = id; tag = f.tag }
                    elim f.tag [
                      | failed e ↦ pure w'
                      | got tag' ↦ find_names fuel w' tag' (drop n name)
                    ]
                ])
  ]

  unfoldable pub dir_find : Mdir → List ℕ → M (Lfs D) Walk
  dir_find dir path = do
    s ← get
    let w : Walk = record {
      dir = record dir { tail = s.root };
      path = path;
      id = 0x3ff;
      tag = failed noent;
    }
    find_names (suc (length path)) w (mktag Kind.dir 0x3ff 0) path
