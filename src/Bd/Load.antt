-- ===== src/Bd/Load.antt =====
-- The load of the read cache: afterwards the cache stands for the byte asked for.
use littlefs.Prelude.{
  Option, none, some, ℕ, ◌+◌, ◌%◌, ◌^◌, ◌≤◌, ◌<◌, ◌≡◌, refl, ◌∙◌, sym, arith, List, length, lt→ltb,
  drop, ◌++◌, length-append, length-drop, get_or-append_left, sub32, add32,
}
use littlefs.Util.{lfs_min, aligndown, alignup}
use littlefs.Util.Align.{aligndown_lem, alignup_lem}
use littlefs.Exec.{Error, Res, ok, err, fault, out_of_fuel}
use littlefs.Config.{Config, Bd}
use littlefs.Bd.{cache_fill, cache_load}
use littlefs.Bd.View.{IsGeometry, IsDevice, IsLoaded}
use native.Mathlib.Nat.{mod-eq_of_lt}
use native.Mathlib.Decide.{dec_lt}

pub divisor-le : (k n : ℕ) → n % k ≡ 0 → 0 < n → k ≤ n
divisor-le k n multiple pos = elim (dec_lt n k) [
  | yes p ↦ absurd (omega (arith, mod-eq_of_lt p))
  | no p ↦ omega arith
]

-- The length that is loaded reaches past the byte asked for.
unfoldable pub load_len : (hint o read_size block_size cache_size : ℕ) → ℕ
load_len hint o read_size block_size cache_size =
    lfs_min (sub32 (lfs_min (alignup (add32 o hint) read_size) block_size) (aligndown o read_size))
      cache_size

pub load_len-lt :
    (hint o rs bs cs : ℕ)
    → 0 < rs
    → rs ≤ cs
    → rs ≤ 2 ^ 30
    → bs ≤ 2 ^ 30
    → 0 < hint
    → hint ≤ 2 ^ 30
    → o < bs
    → (aligndown o rs ≤ o)
      × (o < aligndown o rs + load_len hint o rs bs cs)
      × (load_len hint o rs bs cs ≤ cs)
      × (aligndown o rs + load_len hint o rs bs cs < 2 ^ 32)
unfolding load_len lfs_min
load_len-lt hint o rs bs cs pos le1 le2 le3 ph le4 lt =
    let e : add32 o hint ≡ o + hint = omega arith in
    let (d0, d1, d2) = aligndown_lem o rs (omega arith) pos in
    let (u0, u1, u2) = alignup_lem (o + hint) rs (omega arith) pos in
    rw e (ground (arith, d1, d2, u1, u2))

module _ {D : Type 0} (cfg : Config D) (image : D → ℕ → ℕ → ℕ) where
  open cfg use {dev_read, read_size, block_size, block_count, cache_size}

  -- An error that the device has reported, of some read of the block.
  abbrev pub Fails : ℕ → Error → Type 0
  Fails b e = (x n : ℕ) × (left : List ℕ) × (d d' : D) × (dev_read b x n d ≡ (some e, left, d'))

  -- What `cache_load` promises from a state.
  abbrev pub Loads : Bd D → ℕ → ℕ → Res (Bd D) (Unit {0}) → Type 0
  Loads s b o (ok x t) =
      (t.pcache ≡ s.pcache)
      × ((c k : ℕ) → image t.dev c k ≡ image s.dev c k)
      × IsLoaded cache_size (image t.dev) t.rcache
      × (t.rcache.block ≡ b)
      × (t.rcache.off ≤ o)
      × (o < t.rcache.off + t.rcache.size)
  Loads s b o (err e t) =
      (t.pcache ≡ s.pcache) × ((c k : ℕ) → image t.dev c k ≡ image s.dev c k) × Fails b e
  Loads s b o fault = ⊥
  Loads s b o out_of_fuel = ⊥

  module _ (device : IsDevice cfg image) (geometry : IsGeometry cfg) where
    cache_fill-Loads :
        (s : Bd D) (b start len o : ℕ) (r : Option Error × List ℕ × D)
        → dev_read b start len s.dev ≡ r
        → length s.rcache.buffer ≡ cache_size
        → start ≤ o
        → o < start + len
        → len ≤ cache_size
        → start + len < 2 ^ 32
        → Loads s b o (
            cache_fill cfg r
              (record s { rcache = record s.rcache { block = b; off = start; size = len } }))
    unfolding cache_fill
    cache_fill-Loads s b start len o (none, bytes, d) e whole le lt fits small =
        let (size, here, same) = device.reads b start len s.dev bytes d e in
        let all : length (bytes ++ drop (length bytes) s.rcache.buffer) ≡ cache_size = omega (
          arith,
          length-append {0} bytes (drop (length bytes) s.rcache.buffer),
          length-drop {0} (length bytes) s.rcache.buffer,
        ) in
        (
          refl,
          same,
          record {
            is_cache = record { fits = omega (arith, all); whole = all; small = small };
            holds = λ named k h.
                get_or-append_left bytes (drop (length bytes) s.rcache.buffer) k 0
                  (omega (arith, size))
                ∙ here k h
                ∙ sym (same b (start + k));
          },
          refl,
          le,
          lt,
        )
    cache_fill-Loads s b start len o (some x, left, d) e whole le lt fits small =
        (refl, device.fails b start len s.dev x left d e, (start, len, left, s.dev, d, e))

    pub cache_load-Loads :
        (s : Bd D) (hint b o : ℕ)
        → length s.rcache.buffer ≡ cache_size
        → b < block_count
        → o < block_size
        → 0 < hint
        → hint ≤ 2 ^ 30
        → Loads s b o (cache_load cfg hint b o s)
    unfolding cache_load load_len
    cache_load-Loads s hint b o whole lt inside pos le =
        let at_least : read_size ≤ cache_size =
          divisor-le read_size cache_size geometry.read_multiple geometry.cache_pos in
        let (start, past, fits, small) =
          load_len-lt hint o read_size block_size cache_size geometry.read_pos at_least
            (omega (arith, geometry.read_le, geometry.block_le)) geometry.block_le pos le inside in
        rw (lt→ltb b block_count lt) (
          cache_fill-Loads s b (aligndown o read_size)
            (load_len hint o read_size block_size cache_size) o _ refl whole start past fits small)
