-- ===== src/Bd/Read.antt =====
-- `lfs_bd_read`: it ends, and gives what a reader of the block sees.
use littlefs.Prelude.{
  ℕ, zero, suc, ◌+◌, ◌-◌, ◌*◌, ◌^◌, ◌≤◌, ◌<◌, ◌≡◌, ◌≢◌, refl, ◌∙◌, ap₂, sym, arith, true, false,
  not, Option, List, ltb, ◌==◌, sub32, add32, Bool-cases, inl, inr,
}
use mathlib.Core.Path.{subst}
use littlefs.Exec.{M, Res, ok, err, fault, out_of_fuel, bind_res}
use littlefs.Config.{Config, Cache, Bd, block_null}
use littlefs.Bd.{
  Lookup, served, missed, consult, consult_const, buffer_of, offset_of, cache_load, serve,
  from_rcache, from_pcache, read_loop, bd_read,
}
use littlefs.Bd.View.{IsGeometry, IsDevice, IsLoaded, covers?}
use littlefs.Bd.Consult.{Finds, consult-Finds}
use littlefs.Bd.Load.{Loads, cache_load-Loads}
use littlefs.Bd.Reads.{
  Reads, Reads-from, serve-Reads, under_pcache, IsReady, IsEnough, IsPcache, Finds?,
  consult_const-Finds?,
}

module _ {D : Type 0} (cfg : Config D) (image : D → ℕ → ℕ → ℕ) where
  open cfg use {block_size, block_count, cache_size}

  module _ (device : IsDevice cfg image) (geometry : IsGeometry cfg) (pcache : Option Cache)
      (hint b : ℕ) (here : b < block_count) (pos : 0 < hint) (near : hint ≤ 2 ^ 30)
      (valid : IsPcache cfg image pcache) where
    from_rcache-Reads :
        (named : b ≢ block_null) (rest : ℕ → M (Bd D) (List ℕ)) (again : M (Bd D) (List ℕ))
        (s : Bd D) (o limit size : ℕ) (l : Lookup)
        → IsLoaded cache_size (image s.dev) s.rcache
        → limit ≤ size
        → o < block_size
        → ((k : ℕ) → k < limit → covers? pcache b (o + k) ≡ false)
        → Finds s.rcache b o limit l
        → ((n : ℕ) → 0 < n → n ≤ size → Reads cfg image pcache s b (o + n) (size - n) (rest n s))
        → (¬ IsReady cfg image s b o
            → (t : Bd D) → IsLoaded cache_size (image t.dev) t.rcache
            → IsReady cfg image t b o
            → Reads cfg image pcache t b o size (again t))
        → Reads cfg image pcache s b o size (from_rcache cfg rest again hint b o s.rcache l s)
    unfolding from_rcache
    from_rcache-Reads named rest again s o limit size (served n) v le inside free
          (p, le', same, from, to) more reload =
        let c = s.rcache in
        let at : sub32 o c.off ≡ o - c.off = omega (arith, geometry.block_le) in
        let all : n + (size - n) ≡ size = omega arith in
        let r =
          serve-Reads cfg image pcache s b o n (size - n) c.buffer (o - c.off) (rest n)
            (omega (arith, v.is_cache.fits))
            (λ j h.
              v.holds (λ e. named (same ∙ e)) (o - c.off + j) (omega arith)
              ∙ ap₂ (image s.dev) (sym same) (omega arith)
              ∙ sym (under_pcache cfg image pcache (image s.dev) b (o + j) (free j (omega arith))))
            (more n p (omega arith)) in
        rw at (
          subst
            (λ (z : ℕ).
              Reads cfg image pcache s b o z (serve cfg c.buffer (o - c.off) n (rest n) s))
            all r)
    from_rcache-Reads named rest again s o limit size (missed n) v le inside free
          (p, le', none_here) more reload =
        let unready : ¬ IsReady cfg image s b o =
          λ r. absurd (ground (arith, none_here 0 p, r.0, r.1, r.2)) in
        loaded (cache_load cfg hint b o s)
          (cache_load-Loads cfg image device geometry s hint b o v.is_cache.whole here inside pos
            near)
          (reload unready)
      where
        loaded :
            (r : Res (Bd D) (Unit {0}))
            → Loads cfg image s b o r
            → ((t : Bd D)
                → IsLoaded cache_size (image t.dev) t.rcache
                → IsReady cfg image t b o
                → Reads cfg image pcache t b o size (again t))
            → Reads cfg image pcache s b o size (bind_res r (λ _. again))
        loaded (ok x t) (q, same, v', block, from, to) next =
            Reads-from cfg image pcache s t b o size (again t) q same (next t v' (block, from, to))
        loaded (err e t) h next = h
        loaded fault h next = h
        loaded out_of_fuel h next = h

    from_pcache-Reads :
        (named : b ≢ block_null) (rest : ℕ → M (Bd D) (List ℕ)) (again : M (Bd D) (List ℕ))
        (s : Bd D) (o size : ℕ) (l : Lookup)
        → IsLoaded cache_size (image s.dev) s.rcache
        → o + size ≤ block_size
        → 0 < size
        → Finds? cfg image pcache b o size l
        → ((n : ℕ) → 0 < n → n ≤ size → Reads cfg image pcache s b (o + n) (size - n) (rest n s))
        → (¬ IsReady cfg image s b o
            → (t : Bd D) → IsLoaded cache_size (image t.dev) t.rcache
            → IsReady cfg image t b o
            → Reads cfg image pcache t b o size (again t))
        → Reads cfg image pcache s b o size (from_pcache cfg rest again hint b o pcache l s)
    unfolding from_pcache
    from_pcache-Reads named rest again s o size (served n) v inside some_left
          (p, le, fits, from, bytes) more reload =
        let at : sub32 o (offset_of pcache) ≡ o - offset_of pcache =
          omega (arith, geometry.block_le) in
        let all : n + (size - n) ≡ size = omega arith in
        let r =
          serve-Reads cfg image pcache s b o n (size - n) (buffer_of pcache) (o - offset_of pcache)
            (rest n) fits (bytes (image s.dev)) (more n p le) in
        rw at (
          subst
            (λ (z : ℕ).
              Reads cfg image pcache s b o z
                (serve cfg (buffer_of pcache) (o - offset_of pcache) n (rest n) s))
            all r)
    from_pcache-Reads named rest again s o size (missed limit) v inside some_left (p, le, free) more
          reload =
        from_rcache-Reads named rest again s o limit size (consult s.rcache b o limit) v le
          (omega arith) free
          (consult-Finds cache_size s.rcache b o limit v.is_cache p
            (omega (arith, geometry.block_le)))
          more reload

    pub read_loop-Reads :
        (named : b ≢ block_null) (fuel : ℕ) (s : Bd D) (o size : ℕ)
        → IsLoaded cache_size (image s.dev) s.rcache
        → o + size ≤ block_size
        → IsEnough cfg image s b o size fuel
        → Reads cfg image pcache s b o size (read_loop cfg pcache hint b fuel o size s)
    unfolding read_loop
    read_loop-Reads named zero s o size v inside enough = elim enough [
      | inl h ↦ absurd (omega arith)
      | inr h ↦ absurd (omega (arith, h.1, h.2))
    ]
    read_loop-Reads named (suc fuel) s o size v inside enough = elim (Bool-cases (size == 0)) [
      | inl stop ↦ rw stop (refl, λ c k. refl, v, ground arith, λ j h. absurd (ground arith))
      | inr go ↦ rw go (
          from_pcache-Reads named _ _ s o size (consult_const pcache b o size) v inside
            (ground arith)
            (consult_const-Finds? cfg image pcache b o size valid (ground arith)
              (omega (arith, geometry.block_le)))
            (λ n p le.
              let at : add32 o n ≡ o + n = omega (arith, geometry.block_le) in
              rw at (
                read_loop-Reads named fuel s (o + n) (size - n) v (omega arith)
                  (inl (elim enough [ inl h ↦ omega arith | inr h ↦ omega (arith, h.2) ]))))
            (λ unready t v' ready. read_loop-Reads named fuel t o size v' inside (
              inr (
                ready,
                ground arith,
                elim enough [ inl h ↦ omega arith | inr h ↦ absurd (unready h.0) ],
              ))))
    ]

    -- `lfs_bd_read` of a region inside a block of the device, whose address is not LFS_BLOCK_NULL,
    -- with a hint from 1 to 2^30, a program cache that lies in its buffer or none, a read cache
    -- that holds what the device holds or stands for no block, and a configuration and a read
    -- callback as assumed, ends: it uses up no fuel and makes no access out of bounds. If it
    -- succeeds, the bytes are those of the region as the device has them under the bytes of the
    -- program cache, and the read cache again holds what the device holds. If it fails, the error
    -- is one that the read callback has returned for the block. In both cases the program cache and
    -- the contents of the device are as they were.
    pub bd_read-Reads :
        (s : Bd D) (o size : ℕ)
        → IsLoaded cache_size (image s.dev) s.rcache
        → b ≢ block_null
        → o + size ≤ block_size
        → Reads cfg image pcache s b o size (bd_read cfg pcache hint b o size s)
    unfolding bd_read
    bd_read-Reads s o size v named inside =
        let known : not (b == block_null) ≡ true = ground arith in
        let fits : ltb block_size (add32 o size) ≡ false = ground (arith, geometry.block_le) in
        rw (known, fits)
          (read_loop-Reads named (2 * size + 1) s o size v inside (inl (omega arith)))
