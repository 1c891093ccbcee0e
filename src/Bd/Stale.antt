-- ===== src/Bd/Stale.antt =====
-- What a failed read leaves behind: `lfs_bd_read` claims the region for the read cache before it
-- calls the read callback.
use littlefs.Prelude.{
  ℕ, suc, ◌+◌, ◌-◌, ◌*◌, ◌^◌, ◌≤◌, ◌<◌, ◌≡◌, ◌≢◌, refl, ap, arith, true, false, not, none, List, [],
  length, ltb, lt→ltb, leb, ◌==◌, ◌++◌, ◌∷◌, sub32, add32, take, drop, some, length-append,
  length-drop,
}
use littlefs.Util.{lfs_min, aligndown}
use littlefs.Exec.{Error, ok, err}
use littlefs.Config.{Config, Bd, block_null}
use littlefs.Bd.{
  consult, consult_const, mem_read, cache_load, cache_fill, serve, from_rcache, from_pcache,
  read_loop, bd_read,
}
use littlefs.Bd.View.{IsGeometry}
use littlefs.Bd.Load.{load_len, load_len-lt, divisor-le}

append_nil : (xs : List ℕ) → xs ++ [] ≡ xs
append_nil [] = refl
append_nil (x ∷ xs) = ap (λ (t : List ℕ). x ∷ t) (append_nil xs)

module _ {D : Type 0} (cfg : Config D) (hint b o size : ℕ) where
  open cfg use {dev_read, read_size, block_size, block_count, cache_size}

  -- The state after the failed read, whose callback has written the bytes of `left`.
  abbrev pub stale : Bd D → List ℕ → D → Bd D
  stale s left d = record s {
    rcache = record s.rcache {
      block = b;
      off = aligndown o read_size;
      size = load_len hint o read_size block_size cache_size;
      buffer = left ++ drop (length left) s.rcache.buffer;
    };
    dev = d;
  }

  bd_read-stale :
      (s : Bd D) (e : Error) (left : List ℕ) (d : D)
      → 0 < size
      → b ≢ block_null
      → b < block_count
      → b ≢ s.rcache.block
      → o + size ≤ block_size
      → block_size ≤ 2 ^ 30
      → dev_read b (aligndown o read_size) (load_len hint o read_size block_size cache_size) s.dev
        ≡ (some e, left, d)
      → bd_read cfg none hint b o size s ≡ err e (stale s left d)
  unfolding bd_read read_loop from_pcache from_rcache consult_const consult cache_load load_len
      cache_fill
  bd_read-stale s e left d pos named here other inside small fails =
      let known : not (b == block_null) ≡ true = ground arith in
      let fits : ltb block_size (add32 o size) ≡ false = ground arith in
      let go : size == 0 ≡ false = ground arith in
      let miss : b == s.rcache.block ≡ false = ground arith in
      let fuel : 2 * size + 1 ≡ suc (2 * size) = omega arith in
      rw (known, fits, fuel, go, miss, lt→ltb b block_count here, fails) refl

  bd_read-stale_hit :
      (s : Bd D) (left : List ℕ) (d : D)
      → 0 < size
      → b ≢ block_null
      → o + size ≤ block_size
      → block_size ≤ 2 ^ 30
      → aligndown o read_size ≤ o
      → o + size ≤ aligndown o read_size + load_len hint o read_size block_size cache_size
      → aligndown o read_size + load_len hint o read_size block_size cache_size < 2 ^ 32
      → load_len hint o read_size block_size cache_size
        ≤ length (left ++ drop (length left) s.rcache.buffer)
      → bd_read cfg none hint b o size (stale s left d)
        ≡ ok
            (take size
              (drop (o - aligndown o read_size) (left ++ drop (length left) s.rcache.buffer)))
            (stale s left d)
  unfolding bd_read read_loop from_pcache from_rcache consult_const consult serve mem_read lfs_min
  bd_read-stale_hit s left d pos named inside small from to wide held =
      let start = aligndown o read_size in
      let len = load_len hint o read_size block_size cache_size in
      let known : not (b == block_null) ≡ true = ground arith in
      let fits : ltb block_size (add32 o size) ≡ false = ground arith in
      let go : size == 0 ≡ false = ground arith in
      let same : b == b ≡ true = ground arith in
      let before : ltb o (add32 start len) ≡ true = ground arith in
      let after : leb start o ≡ true = ground arith in
      let at : sub32 o start ≡ o - start = omega arith in
      let all : lfs_min size (sub32 len (o - start)) ≡ size = ground arith in
      let part : leb (o - start + size) (length (left ++ drop (length left) s.rcache.buffer))
          ≡ true =
        ground arith in
      let fuel : 2 * size + 1 ≡ suc (suc (2 * size - 1)) = omega arith in
      let done : size - size ≡ 0 = omega arith in
      rw (known, fits, fuel, go, same, before, after, at, all, part, done)
        (ap (λ (t : List ℕ). ok t (stale s left d)) (append_nil _))

  -- A call of `lfs_bd_read` without a program cache, for a nonempty region of a block that the
  -- read cache does not hold and that one load of the read cache covers, whose read callback
  -- fails after it has written some bytes at the front of the buffer, none or at most as many as
  -- were asked for: it returns this error, and leaves the read cache with the block, offset and
  -- size of the load, and with those bytes in front of the rest of its old ones. The same call
  -- after that succeeds without a call of the read callback, and returns what lies there.
  pub bd_read-after_failure :
      (s : Bd D) (e : Error) (left : List ℕ) (d : D)
      → IsGeometry cfg
      → 0 < hint
      → hint ≤ 2 ^ 30
      → 0 < size
      → b ≢ block_null
      → b < block_count
      → b ≢ s.rcache.block
      → o + size ≤ block_size
      → o + size ≤ aligndown o read_size + load_len hint o read_size block_size cache_size
      → length s.rcache.buffer ≡ cache_size
      → length left ≤ load_len hint o read_size block_size cache_size
      → dev_read b (aligndown o read_size) (load_len hint o read_size block_size cache_size) s.dev
        ≡ (some e, left, d)
      → (bd_read cfg none hint b o size s ≡ err e (stale s left d))
        × (bd_read cfg none hint b o size (stale s left d)
            ≡ ok
                (take size
                  (drop (o - aligndown o read_size) (left ++ drop (length left) s.rcache.buffer)))
                (stale s left d))
  bd_read-after_failure s e left d g some_hint near pos named here other inside to whole short
        fails =
      let (start, past, fits, small) =
        load_len-lt hint o read_size block_size cache_size g.read_pos
          (divisor-le read_size cache_size g.read_multiple g.cache_pos)
          (omega (arith, g.read_le, g.block_le)) g.block_le some_hint near (omega arith) in
      (
        bd_read-stale s e left d pos named here other inside g.block_le fails,
        bd_read-stale_hit s left d pos named inside g.block_le start to small (
            omega (
              arith,
              length-append {0} left (drop (length left) s.rcache.buffer),
              length-drop {0} (length left) s.rcache.buffer,
            )),
      )
