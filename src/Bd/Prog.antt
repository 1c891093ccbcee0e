-- ===== src/Bd/Prog.antt =====
-- `lfs_bd_prog` without validation, as a whole.
use littlefs.Prelude.{
  ℕ, zero, suc, ◌+◌, ◌*◌, ◌%◌, ◌^◌, ◌≤◌, ◌<◌, ◌≡◌, refl, ◌∙◌, arith, true, false, not, some, List,
  length, ltb, leb, ◌==◌, ◌&&◌, ◌⊎◌, inl, inr, take, drop, length-drop, sub32, add32, Bool-cases,
}
use littlefs.Util.{lfs_min, aligndown}
use littlefs.Util.Align.{aligndown_lem}
use littlefs.Exec.{M, Res, ok, err, fault, out_of_fuel, bind_res}
use littlefs.Config.{Config, Cache, Bd, block_null}
use littlefs.Bd.{prog_loop, bd_prog}
use littlefs.Bd.View.{covers, view}
use littlefs.Bd.Written.{within, written, written-cong, written_parts, length-take-le}
use littlefs.Bd.Flush.{IsFlash, IsWritable, IsOpen, IsIdle, IsAt, multiple-le}
use littlefs.Bd.Fit.{Programs, prog_fit-Programs}

module _ {D : Type 0} (cfg : Config D) (image : D → ℕ → ℕ → ℕ) (Erased : D → ℕ → ℕ → Type 0) where
  open cfg use {prog_size, block_size, block_count, cache_size}

  -- A part of the bytes, and what is programmed after it.
  prog_parts :
      (s : Bd D) (b o n : ℕ) (bytes : List ℕ) (r : Res (Bd D) (Unit {0}))
      (rest : M (Bd D) (Unit {0}))
      → n ≤ length bytes
      → Programs cfg image Erased s b o (take n bytes) r
      → ((t : Bd D)
          → IsAt cfg image Erased b (o + n) t
          → Programs cfg image Erased t b (o + n) (drop n bytes) (rest t))
      → Programs cfg image Erased s b o bytes (bind_res r (λ x. rest))
  prog_parts s b o n bytes (ok x t) rest le (at, kept, now) next =
      let e : o + length (take n bytes) ≡ o + n = omega (arith, length-take-le n bytes le) in
      joined (rest t) (next t (rw e at at))
    where
      joined :
          (r : Res (Bd D) (Unit {0}))
          → Programs cfg image Erased t b (o + n) (drop n bytes) r
          → Programs cfg image Erased s b o bytes r
      joined (ok y u) (at', kept', now') = (
        (let e : o + n + length (drop n bytes) ≡ o + length bytes =
              omega (arith, length-drop n bytes) in
            rw e at at'),
        kept' ∙ kept,
        λ c k named.
            now' c k named
            ∙ written-cong b (o + n) (drop n bytes) (view (some t.pcache) (image t.dev))
                (written b o (take n bytes) (view (some s.pcache) (image s.dev))) c k
                (now c k named)
            ∙ written_parts b o n bytes (view (some s.pcache) (image s.dev)) c k le,
      )
      joined (err e u) h = h
      joined fault h = h
      joined out_of_fuel h = h
  prog_parts s b o n bytes (err e t) rest le h next = h
  prog_parts s b o n bytes fault rest le h next = h
  prog_parts s b o n bytes out_of_fuel rest le h next = h

  -- An empty program cache shows nothing, whichever block it is for.
  claimed :
      (s : Bd D) (b o : ℕ) (bytes : List ℕ) (r : Res (Bd D) (Unit {0}))
      → IsIdle cfg image Erased b o s
      → Programs cfg image Erased
          (record s { pcache = record s.pcache { block = b; off = o; size = 0 } })
          b
          o
          bytes
          r
      → Programs cfg image Erased s b o bytes r
  claimed s b o bytes (ok x t) v (at, kept, now) = (
    at,
    kept,
    λ c k named.
        (let c' : Cache = record s.pcache { block = b; off = o; size = 0 } in
          let old : covers s.pcache c k ≡ false = ground (arith, v.unused) in
          let new : covers c' c k ≡ false = ground arith in
          let same : view (some c') (image s.dev) c k ≡ view (some s.pcache) (image s.dev) c k =
            rw (old, new) refl in
          now c k named
          ∙ written-cong b o bytes (view (some c') (image s.dev))
              (view (some s.pcache) (image s.dev)) c k same),
  )
  claimed s b o bytes (err e t) v h = h
  claimed s b o bytes fault v h = h
  claimed s b o bytes out_of_fuel v h = h

  -- The rounds that are left are enough.
  abbrev IsEnough : ℕ → ℕ → Bd D → ℕ → ℕ → Type 0
  IsEnough b o s size fuel =
      (2 * size < fuel) ⊎ (IsOpen cfg image Erased b o s × (0 < size) × (2 * size ≤ fuel))

  module _ (flash : IsFlash cfg image Erased) (geometry : IsWritable cfg) (b : ℕ)
      (here : b < block_count) where
    start-eq : (o : ℕ) → o % prog_size ≡ 0 → o < 2 ^ 32 → aligndown o prog_size ≡ o
    start-eq o multiple lt =
        let (m, le, gt) = aligndown_lem o prog_size lt geometry.prog_pos in
        omega
          (arith, multiple-le prog_size o (aligndown o prog_size) geometry.prog_pos multiple m gt)

    -- What one round takes.
    part_bounds :
        (s : Bd D) (o : ℕ) (bytes : List ℕ)
        → IsOpen cfg image Erased b o s
        → o + length bytes ≤ block_size
        → 0 < length bytes
        → (let n = lfs_min (length bytes) (sub32 cache_size (sub32 o s.pcache.off)) in
            (0 < n) × (n ≤ length bytes) × (s.pcache.size + n ≤ cache_size))
    unfolding lfs_min
    part_bounds s o bytes v inside pos =
        ground (arith, v.ends_at, v.size_lt, geometry.block_le, geometry.cache_le)

    claimed-IsOpen :
        (s : Bd D) (o : ℕ)
        → IsIdle cfg image Erased b o s
        → IsOpen cfg image Erased b o
            (record s { pcache = record s.pcache { block = b; off = o; size = 0 } })
    claimed-IsOpen s o v = record {
      whole = v.whole;
      size_lt = geometry.cache_pos;
      off_multiple = v.o_multiple;
      same_block = refl;
      ends_at = omega arith;
      erased = v.erased;
    }

    prog_loop-Programs :
        (fuel : ℕ) (s : Bd D) (o : ℕ) (bytes : List ℕ)
        → IsAt cfg image Erased b o s
        → o + length bytes ≤ block_size
        → IsEnough b o s (length bytes) fuel
        → Programs cfg image Erased s b o bytes (prog_loop cfg false b fuel o bytes s)
    unfolding prog_loop
    prog_loop-Programs zero s o bytes at inside enough = elim enough [
      | inl h ↦ absurd (omega arith)
      | inr h ↦ absurd (omega (arith, h.1, h.2))
    ]
    prog_loop-Programs (suc fuel) s o bytes at inside enough =
        elim (Bool-cases (length bytes == 0)) [
          | inl stop ↦
              let e : o + length bytes ≡ o = ground arith in
              rw stop (
                rw e at,
                refl,
                λ c k named.
                    (let out : within b o (length bytes) c k ≡ false = ground arith in rw out refl),
              )
          | inr go ↦ rw go (elim at [
            | inl v ↦
                let off = s.pcache.off in
                let n = lfs_min (length bytes) (sub32 cache_size (sub32 o off)) in
                let (pos, le, fits) = part_bounds s o bytes v inside (ground arith) in
                let cond : (b == s.pcache.block) && (leb off o && ltb o (add32 off cache_size))
                    ≡ true =
                  ground (
                    arith, v.same_block, v.ends_at, v.size_lt, geometry.block_le, geometry.cache_le,
                  ) in
                let next : add32 o n ≡ o + n = omega (arith, geometry.block_le) in
                rw (cond, next)
                  (prog_parts s b o n bytes _ (prog_loop cfg false b fuel (o + n) (drop n bytes)) le
                    (prog_fit-Programs cfg image Erased flash geometry s b o (take n bytes) v here
                      (omega (arith, length-take-le n bytes le))
                      (omega (arith, length-take-le n bytes le)))
                    (λ t at'.
                      prog_loop-Programs fuel t (o + n) (drop n bytes) at'
                        (omega (arith, length-drop n bytes))
                        (inl (elim enough [
                          | inl h ↦ omega (arith, length-drop n bytes)
                          | inr h ↦ omega (arith, h.2, length-drop n bytes)
                        ]))))
            | inr v ↦
                let other : b == s.pcache.block ≡ false =
                  ground (arith, v.unused, geometry.count_lt) in
                let free : s.pcache.block == block_null ≡ true = ground (arith, v.unused) in
                let start : aligndown o prog_size ≡ o = start-eq o v.o_multiple (omega arith) in
                let s' : Bd D = record s {
                  pcache = record s.pcache { block = b; off = o; size = 0 };
                } in
                rw (other, free, start)
                  (claimed s b o bytes _ v (
                    prog_loop-Programs fuel s' o bytes (inl (claimed-IsOpen s o v)) inside (
                      inr (
                        claimed-IsOpen s o v,
                        ground arith,
                        elim enough [
                          | inl h ↦ omega arith
                          | inr h ↦
                              absurd (ground (arith, h.0.same_block, v.unused, geometry.count_lt))
                        ],
                      ))))
          ])
        ]

    -- `lfs_bd_prog` without validation, of bytes inside a block of the device: if the program cache
    -- holds the bytes of the block that were written last, up to the offset, or is not in use and
    -- the offset is a multiple of the program size, if the device is erased behind it, and if the
    -- configuration and the program callback are as assumed, then it ends, with no failed assertion
    -- and no access out of bounds. If it succeeds, a reader sees the bytes at the offset and
    -- everything else as before, the program cache is again in one of the two states, for the
    -- offset behind the bytes, and the read cache is as it was. If it fails, the error is one that
    -- the program callback has returned for the block.
    pub bd_prog-Programs :
        (s : Bd D) (o : ℕ) (bytes : List ℕ)
        → IsAt cfg image Erased b o s
        → o + length bytes ≤ block_size
        → Programs cfg image Erased s b o bytes (bd_prog cfg false b o bytes s)
    unfolding bd_prog
    bd_prog-Programs s o bytes at inside =
        let known : not (b == block_null) ≡ true = ground (arith, geometry.count_lt) in
        let fits : leb (add32 o (length bytes)) block_size ≡ true =
          ground (arith, geometry.block_le) in
        rw (known, fits)
          (prog_loop-Programs (2 * length bytes + 1) s o bytes at inside (inl (omega arith)))
