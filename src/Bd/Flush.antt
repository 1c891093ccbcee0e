-- ===== src/Bd/Flush.antt =====
-- `lfs_bd_flush` without validation: what waits in the program cache reaches the device.
use littlefs.Prelude.{
  ℕ, ◌+◌, ◌-◌, ◌/◌, ◌%◌, ◌^◌, ◌≤◌, ◌<◌, ◌≡◌, refl, ◌∙◌, arith, true, false, ◌||◌, Option, none,
  some, List, length, get_or, ltb, ◌==◌, ◌⊎◌,
}
use native.Mathlib.Nat.{div-add-mod, mul-le-mul_left, add-mod, mod-eq_of_lt}
use native.Mathlib.Decide.{dec_lt}
use littlefs.Util.{alignup}
use littlefs.Util.Align.{alignup_lem}
use littlefs.Exec.{Error, Res, ok, err, fault, out_of_fuel, bind_res, modify}
use littlefs.Config.{Config, Bd, block_null, block_inline}
use littlefs.Bd.{call, cache_zero, bd_flush}
use littlefs.Bd.Consult.{mem_read-IsPart, IsPart}
use littlefs.Bd.Written.{within, written}

-- The program and erase callbacks: bytes that are programmed where the device is erased are what it
-- holds then, and the rest of it is as it was.
pub record IsFlash {D : Type 0} (cfg : Config D) (image : D → ℕ → ℕ → ℕ)
    (Erased : D → ℕ → ℕ → Type 0) : Type 0 where
  pub programs :
      (b o : ℕ) (bytes : List ℕ) (d d' : D)
      → cfg.dev_prog b o bytes d ≡ (none, d')
      → ((k : ℕ) → o ≤ k → k < o + length bytes → Erased d b k)
      → (c k : ℕ) → image d' c k ≡ written b o bytes (image d) c k
  pub leaves_erased :
      (b o : ℕ) (bytes : List ℕ) (d d' : D)
      → cfg.dev_prog b o bytes d ≡ (none, d')
      → (c k : ℕ) → within b o (length bytes) c k ≡ false
      → Erased d c k
      → Erased d' c k
  pub syncs : (d d' : D) → cfg.dev_sync d ≡ (none, d') → (c k : ℕ) → image d' c k ≡ image d c k

-- The parts of `lfs_config` that `lfs_init` asserts, as far as programming needs them.
pub record IsWritable {D : Type 0} (cfg : Config D) : Type 0 where
  pub prog_pos : 0 < cfg.prog_size
  pub cache_pos : 0 < cfg.cache_size
  pub prog_divides : cfg.cache_size % cfg.prog_size ≡ 0
  pub block_multiple : cfg.block_size % cfg.prog_size ≡ 0
  pub cache_le : cfg.cache_size ≤ cfg.block_size
  pub prog_le : cfg.prog_size ≤ cfg.cache_size
  pub block_le : cfg.block_size ≤ 2 ^ 30
  pub count_lt : cfg.block_count < block_inline

-- Of two multiples, one that is less than a step above the other is not above it.
pub multiple-le : (p x y : ℕ) → 0 < p → x % p ≡ 0 → y % p ≡ 0 → x < y + p → x ≤ y
multiple-le p x y pos hx hy lt = elim (dec_lt (y / p) (x / p)) [
  | yes h ↦ absurd (
      omega (
        arith,
        div-add-mod x p,
        div-add-mod y p,
        mul-le-mul_left {m = y / p + 1} {n = x / p} p (omega arith),
      ))
  | no h ↦ omega (
    arith,
    div-add-mod x p,
    div-add-mod y p,
    mul-le-mul_left {m = x / p} {n = y / p} p (omega arith),
  )
]

pub multiple-add : (p x y : ℕ) → 0 < p → x % p ≡ 0 → y % p ≡ 0 → (x + y) % p ≡ 0
multiple-add p x y pos hx hy = rw (add-mod x y p, hx, hy) (mod-eq_of_lt pos)

module _ {D : Type 0} (cfg : Config D) (image : D → ℕ → ℕ → ℕ) (Erased : D → ℕ → ℕ → Type 0) where
  open cfg use {dev_prog, dev_sync, prog_size, block_size, block_count, cache_size}

  -- An error that the device has reported, of some program of the block.
  abbrev pub ProgFails : ℕ → Error → Type 0
  ProgFails b e = (x : ℕ) × (bytes : List ℕ) × (d d' : D) × (dev_prog b x bytes d ≡ (some e, d'))

  -- The program cache holds the bytes of a block that were written last, up to `o`, and the device
  -- is erased from the first of them on.
  pub record IsOpen (b o : ℕ) (s : Bd D) : Type 0 where
    pub whole : length s.pcache.buffer ≡ cache_size
    pub size_lt : s.pcache.size < cache_size
    pub off_multiple : s.pcache.off % prog_size ≡ 0
    pub same_block : s.pcache.block ≡ b
    pub ends_at : s.pcache.off + s.pcache.size ≡ o
    pub erased : (k : ℕ) → s.pcache.off ≤ k → k < block_size → Erased s.dev b k

  -- The program cache is not in use, and a program may start at `o`.
  pub record IsIdle (b o : ℕ) (s : Bd D) : Type 0 where
    pub whole : length s.pcache.buffer ≡ cache_size
    pub unused : s.pcache.block ≡ block_null
    pub o_multiple : o % prog_size ≡ 0
    pub erased : (k : ℕ) → o ≤ k → k < block_size → Erased s.dev b k

  abbrev pub IsAt : ℕ → ℕ → Bd D → Type 0
  IsAt b o s = IsOpen b o s ⊎ IsIdle b o s

  -- What a flush promises.
  abbrev pub Flushes : Bd D → Res (Bd D) (Unit {0}) → Type 0
  Flushes s (ok x t) =
      (t.pcache ≡ cache_zero cfg s.pcache)
      × (t.rcache ≡ s.rcache)
      × ((c k : ℕ)
          → within s.pcache.block s.pcache.off s.pcache.size c k ≡ true
          → image t.dev c k ≡ get_or s.pcache.buffer (k - s.pcache.off) 0)
      × ((c k : ℕ)
          → within s.pcache.block s.pcache.off (alignup s.pcache.size prog_size) c k ≡ false
          → (image t.dev c k ≡ image s.dev c k) × (Erased s.dev c k → Erased t.dev c k))
  Flushes s (err e t) = ProgFails s.pcache.block e
  Flushes s fault = ⊥
  Flushes s out_of_fuel = ⊥

  module _ (flash : IsFlash cfg image Erased) (geometry : IsWritable cfg) where
    after_prog :
        (s : Bd D) (bytes : List ℕ) (size : ℕ) (r : Option Error × D)
        → dev_prog s.pcache.block s.pcache.off bytes s.dev ≡ r
        → IsPart s.pcache.buffer 0 size bytes
        → s.pcache.size ≤ size
        → alignup s.pcache.size prog_size ≡ size
        → ((k : ℕ) → s.pcache.off ≤ k → k < s.pcache.off + size → Erased s.dev s.pcache.block k)
        → Flushes s (
            bind_res
              (elim r.0 [
                | none ↦ ok tt (record s { dev = r.1 })
                | some x ↦ err x (record s { dev = r.1 })
              ])
              (λ x. modify (λ t. record t { pcache = cache_zero cfg t.pcache })))
    after_prog s bytes size (none, d) e part le aligned clear =
        let len = part.length_eq in
        let now =
          flash.programs s.pcache.block s.pcache.off bytes s.dev d e
            (λ k p q. clear k p (omega (arith, len))) in
        (
          refl,
          refl,
          λ c k here.
              (let all : within s.pcache.block s.pcache.off (length bytes) c k ≡ true =
                  ground (arith, len) in
                let e' : 0 + (k - s.pcache.off) ≡ k - s.pcache.off = omega arith in
                now c k ∙ rw all (rw e' at (part.get_eq (k - s.pcache.off) (ground arith)))),
          λ c k out.
              (let none_there : within s.pcache.block s.pcache.off (length bytes) c k ≡ false =
                  ground (arith, len) in
                (
                  now c k ∙ rw none_there refl,
                  flash.leaves_erased s.pcache.block s.pcache.off bytes s.dev d e c k none_there,
                )),
        )
    after_prog s bytes size (some x, d) e part le aligned clear = (s.pcache.off, bytes, s.dev, d, e)

    -- The region that a flush programs: whole steps, inside the cache and inside the block.
    pub aligned_region :
        (off size : ℕ)
        → off % prog_size ≡ 0
        → size ≤ cache_size
        → off + size ≤ block_size
        → (size ≤ alignup size prog_size)
          × (alignup size prog_size ≤ cache_size)
          × (off + alignup size prog_size ≤ block_size)
    aligned_region off size multiple fits inside =
        let (m, le, lt) =
          alignup_lem size prog_size
            (omega (arith, geometry.block_le, geometry.cache_le, geometry.prog_le))
            geometry.prog_pos in
        (
          le,
          multiple-le prog_size (alignup size prog_size) cache_size geometry.prog_pos m
              geometry.prog_divides (omega arith),
          multiple-le prog_size (off + alignup size prog_size) block_size geometry.prog_pos
              (multiple-add prog_size off (alignup size prog_size) geometry.prog_pos multiple m)
              geometry.block_multiple (omega arith),
        )

    pub bd_flush-Flushes :
        (s : Bd D)
        → s.pcache.block < block_count
        → s.pcache.size ≤ cache_size
        → length s.pcache.buffer ≡ cache_size
        → s.pcache.off % prog_size ≡ 0
        → s.pcache.off + s.pcache.size ≤ block_size
        → ((k : ℕ) → s.pcache.off ≤ k → k < block_size → Erased s.dev s.pcache.block k)
        → Flushes s (bd_flush cfg false s)
    unfolding bd_flush call
    bd_flush-Flushes s here fits whole multiple inside clear =
        let (le, small, within_block) =
          aligned_region s.pcache.off s.pcache.size multiple fits inside in
        let known : (s.pcache.block == block_null) || (s.pcache.block == block_inline) ≡ false =
          ground (arith, geometry.count_lt) in
        let lt : ltb s.pcache.block block_count ≡ true = ground arith in
        let (bytes, e, part) =
          mem_read-IsPart s.pcache.buffer 0 (alignup s.pcache.size prog_size) (omega arith) in
        rw (known, lt, e)
          (after_prog s bytes (alignup s.pcache.size prog_size) _ refl part le refl
            (λ k p q. clear k p (omega arith)))
