-- ===== src/Ctz/Walk.antt =====
-- `lfs_ctz_find` follows the pointers of the skip list to the block that holds a position.
use littlefs.Prelude.{
  ℕ, zero, suc, ◌+◌, ◌-◌, ◌*◌, ◌^◌, ◌≤◌, ◌<◌, ◌≡◌, refl, ◌∙◌, ap, sym, arith, true, ◌&&◌, Option,
  none, some, List, [], ◌∷◌, get_or, ltb, leb, if◌then◌else◌, sub32, mul32, ◌<<◌, Bool-cases, inl,
  inr,
}
use native.Mathlib.Nat.{one-le-pow}
use littlefs.Util.{lfs_min, fromle32}
use littlefs.Util.Ones.{trailing, trailing-lt, ctz-eq-trailing}
use littlefs.Exec.{Res, ok, err, fault, out_of_fuel, bind_res, assert, ◌>>◌}
use littlefs.Config.{Config, Cache, Bd}
use littlefs.Bd.View.{IsGeometry, IsDevice, IsLoaded, covers, view}
use littlefs.Bd.Load.{Fails}
use littlefs.Bd.Reads.{Reads, IsPcache}
use littlefs.Bd.Read.{bd_read-Reads}
use littlefs.Ctz.{skip_of, find_loop}
use littlefs.Ctz.Skip.{skip-le}

-- The four bytes at an offset of a block, as a reader sees it.
abbrev pub four : (ℕ → ℕ → ℕ) → ℕ → ℕ → List ℕ
four seen b o = seen b o ∷ seen b (o + 1) ∷ seen b (o + 2) ∷ seen b (o + 3) ∷ []

-- The blocks of a file up to the index `last`, as a reader sees them: each lies on the device
-- behind the superblocks, and its pointers name the blocks 1, 2, 4 and so on before it.
pub record IsSkipList (block_count : ℕ) (seen : ℕ → ℕ → ℕ) (blocks : ℕ → ℕ) (last : ℕ)
    : Type 0 where
  pub from_two : (i : ℕ) → i ≤ last → 2 ≤ blocks i
  pub on_device : (i : ℕ) → i ≤ last → blocks i < block_count
  pub pointers :
      (i k : ℕ)
      → 0 < i
      → i ≤ last
      → k ≤ trailing 32 i
      → fromle32 (four seen (blocks i) (4 * k)) ≡ blocks (i - 2 ^ k)

fromle32-cong :
    (xs ys : List ℕ) → ((j : ℕ) → j < 4 → get_or xs j 0 ≡ get_or ys j 0) → fromle32 xs ≡ fromle32 ys
unfolding fromle32
fromle32-cong xs ys same =
    rw (same 0 (omega arith), same 1 (omega arith), same 2 (omega arith), same 3 (omega arith)) refl

min-le_right : (a b : ℕ) → lfs_min a b ≤ b
unfolding lfs_min
min-le_right a b = ground arith

skip-le-trailing :
    (current target : ℕ)
    → 0 < current
    → current < 2 ^ 31
    → skip_of current target ≤ trailing 32 current
unfolding skip_of
skip-le-trailing current target pos lt =
    rw (ctz-eq-trailing current pos (omega arith)) (min-le_right _ (trailing 32 current))

get_or-four : (seen : ℕ → ℕ → ℕ) (b o j : ℕ) → j < 4 → get_or (four seen b o) j 0 ≡ seen b (o + j)
get_or-four seen b o zero h = ap (seen b) (omega arith)
get_or-four seen b o (suc zero) h = refl
get_or-four seen b o (suc (suc zero)) h = refl
get_or-four seen b o (suc (suc (suc zero))) h = refl
get_or-four seen b o (suc (suc (suc (suc j)))) h = absurd (omega arith)

view_same :
    (pcache : Option Cache) (f g : ℕ → ℕ → ℕ)
    → ((c k : ℕ) → f c k ≡ g c k)
    → (b o : ℕ) → view pcache f b o ≡ view pcache g b o
view_same none f g same b o = same b o
view_same (some c) f g same b o =
    ap (λ (x : ℕ). if covers c b o then get_or c.buffer (o - c.off) 0 else x) (same b o)

module _ {D : Type 0} (cfg : Config D) (image : D → ℕ → ℕ → ℕ) where
  open cfg use {block_size, block_count, cache_size}

  -- What a walk over blocks promises: it ends, and changes neither the program cache nor the
  -- contents of the device.
  abbrev pub Walks : {A : Type 0} → (A → Type 0) → Bd D → Res (Bd D) A → Type 0
  Walks P s (ok a t) =
      (t.pcache ≡ s.pcache)
      × ((c k : ℕ) → image t.dev c k ≡ image s.dev c k)
      × IsLoaded cache_size (image t.dev) t.rcache
      × P a
  Walks P s (err e t) =
      (t.pcache ≡ s.pcache)
      × ((c k : ℕ) → image t.dev c k ≡ image s.dev c k)
      × ((b : ℕ) × Fails cfg image b e)
  Walks P s fault = ⊥
  Walks P s out_of_fuel = ⊥

  Walks-from :
      {A : Type 0} (P : A → Type 0) (s t : Bd D) (r : Res (Bd D) A)
      → t.pcache ≡ s.pcache
      → ((c k : ℕ) → image t.dev c k ≡ image s.dev c k)
      → Walks P t r
      → Walks P s r
  Walks-from P s t (ok a u) p same (q, same', loaded, here) =
      (q ∙ p, λ c k. same' c k ∙ same c k, loaded, here)
  Walks-from P s t (err e u) p same (q, same', why) = (q ∙ p, λ c k. same' c k ∙ same c k, why)
  Walks-from P s t fault p same h = h
  Walks-from P s t out_of_fuel p same h = h

  module _ (device : IsDevice cfg image) (geometry : IsGeometry cfg) (wide : 128 ≤ block_size)
      (pcache : Option Cache) (valid : IsPcache cfg image pcache) (seen : ℕ → ℕ → ℕ)
      (blocks : ℕ → ℕ) (last : ℕ) (short : last < 2 ^ 31) (count_le : block_count < 2 ^ 32)
      (list : IsSkipList block_count (view pcache seen) blocks last) where
    -- What one read gives: the pointer of the skip list.
    read_pointer :
        (s : Bd D) (current skip : ℕ) (bytes : List ℕ)
        → 0 < current
        → current ≤ last
        → skip ≤ trailing 32 current
        → ((c k : ℕ) → image s.dev c k ≡ seen c k)
        → ((j : ℕ)
            → j < 4
            → get_or bytes j 0 ≡ view pcache (image s.dev) (blocks current) (4 * skip + j))
        → fromle32 bytes ≡ blocks (current - 2 ^ skip)
    read_pointer s current skip bytes pos le few same here =
        fromle32-cong bytes (four (view pcache seen) (blocks current) (4 * skip)) (λ j h.
          here j h
          ∙ view_same pcache (image s.dev) seen same (blocks current) (4 * skip + j)
          ∙ sym (get_or-four (view pcache seen) (blocks current) (4 * skip) j h))
        ∙ list.pointers current skip pos le few

    -- The rest of a round, after the read of the pointer.
    jump-Walks :
        (fuel : ℕ) (s : Bd D) (current target skip : ℕ) (r : Res (Bd D) (List ℕ))
        → 0 < current
        → current ≤ last
        → skip ≤ trailing 32 current
        → 2 ^ skip ≤ current
        → skip < 32
        → ((c k : ℕ) → image s.dev c k ≡ seen c k)
        → Reads cfg image pcache s (blocks current) (4 * skip) 4 r
        → ((t : Bd D)
            → IsLoaded cache_size (image t.dev) t.rcache
            → ((c k : ℕ) → image t.dev c k ≡ image s.dev c k)
            → Walks
                (λ b. b ≡ blocks target)
                t
                (find_loop cfg pcache fuel
                  (blocks (current - 2 ^ skip))
                  (current - 2 ^ skip)
                  target
                  t))
        → Walks
            (λ b. b ≡ blocks target)
            s
            (bind_res r (λ bytes.
              assert {S = Bd D} (leb 2 (fromle32 bytes) && leb (fromle32 bytes) block_count)
              >> find_loop cfg pcache fuel (fromle32 bytes) (sub32 current (1 << skip)) target))
    jump-Walks fuel s current target skip (ok bytes t) pos le few back small same
          (q, kept, v, len, here) next =
        let head = blocks (current - 2 ^ skip) in
        let named : fromle32 bytes ≡ head =
          read_pointer s current skip bytes pos le few same here in
        let low = list.from_two (current - 2 ^ skip) (omega arith) in
        let high = list.on_device (current - 2 ^ skip) (omega arith) in
        let known : leb 2 head && leb head block_count ≡ true = ground arith in
        let index : sub32 current (1 << skip) ≡ current - 2 ^ skip = omega arith in
        rw (named, known, index) (Walks-from (λ b. b ≡ blocks target) s t _ q kept (next t v kept))
    jump-Walks fuel s current target skip (err e t) pos le few back small same (q, kept, why) next =
        (q, kept, (blocks current, why))
    jump-Walks fuel s current target skip fault pos le few back small same h next = h
    jump-Walks fuel s current target skip out_of_fuel pos le few back small same h next = h

    pub find_loop-Walks :
        (fuel : ℕ) (s : Bd D) (current target : ℕ)
        → IsLoaded cache_size (image s.dev) s.rcache
        → ((c k : ℕ) → image s.dev c k ≡ seen c k)
        → target ≤ current
        → current ≤ last
        → current - target < fuel
        → Walks
            (λ b. b ≡ blocks target)
            s
            (find_loop cfg pcache fuel (blocks current) current target s)
    unfolding find_loop
    find_loop-Walks zero s current target v same le last_le enough = absurd (omega arith)
    find_loop-Walks (suc fuel) s current target v same le last_le enough =
        elim (Bool-cases (ltb target current)) [
          | inr stop ↦ rw stop (refl, λ c k. refl, v, ap blocks (ground arith))
          | inl go ↦
              let skip = skip_of current target in
              let lt : target < current = ground arith in
              let back : 2 ^ skip ≤ current - target = skip-le current target lt (omega arith) in
              let few : skip ≤ trailing 32 current =
                skip-le-trailing current target (omega arith) (omega arith) in
              let small : trailing 32 current < 32 =
                trailing-lt 32 current (omega arith) (omega arith) in
              let unit : 0 < 2 ^ skip = one-le-pow skip 2 (omega arith) in
              let at : mul32 4 skip ≡ 4 * skip = omega arith in
              let high = list.on_device current last_le in
              rw (go, at)
                (jump-Walks fuel s current target skip _ (omega arith) last_le few (omega arith)
                  (omega arith) same
                  (bd_read-Reads cfg image device geometry pcache 4 (blocks current) high
                    (omega arith) (omega arith) valid s (4 * skip) 4 v (omega arith) (omega arith))
                  (λ t v' kept.
                    find_loop-Walks fuel t (current - 2 ^ skip) target v'
                      (λ c k. kept c k ∙ same c k) (omega arith) (omega arith) (omega arith)))
        ]
