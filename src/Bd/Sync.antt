-- ===== src/Bd/Sync.antt =====
-- `lfs_bd_sync` without validation.
use littlefs.Prelude.{
  ℕ, ◌≤◌, ◌<◌, ◌≡◌, ◌≢◌, refl, ◌∙◌, sym, arith, true, false, ◌||◌, Option, none, some, ◌==◌, ◌⊎◌,
  inl, inr,
}
use mathlib.Core.Path.{subst}
use littlefs.Exec.{Error, Res, ok, err, fault, out_of_fuel, bind_res}
use littlefs.Config.{Config, Bd, block_null, block_inline}
use littlefs.Bd.{cache_drop, call, bd_flush, bd_sync}
use littlefs.Bd.View.{covers, view}
use littlefs.Bd.Flush.{IsFlash, IsWritable, ProgFails, IsOpen, IsAt, Flushes, bd_flush-Flushes}
use littlefs.Bd.Fit.{flush-view}

module _ {D : Type 0} (cfg : Config D) (image : D → ℕ → ℕ → ℕ) (Erased : D → ℕ → ℕ → Type 0) where
  open cfg use {dev_sync, prog_size, block_size, block_count, cache_size}

  -- An error that the sync callback has returned.
  abbrev pub SyncFails : Error → Type 0
  SyncFails e = (d d' : D) × (dev_sync d ≡ (some e, d'))

  -- A byte that no padding may overwrite: of another block, or in front of what is written next.
  abbrev pub IsSettled : ℕ → ℕ → ℕ → ℕ → Type 0
  IsSettled b o c k = (c ≢ block_null) × ((c ≢ b) ⊎ (k < o))

  -- What a sync promises: the device holds what a reader saw.
  abbrev pub Syncs : Bd D → ℕ → ℕ → Res (Bd D) (Unit {0}) → Type 0
  Syncs s b o (ok x t) =
      (t.rcache ≡ cache_drop s.rcache)
      × ((c k : ℕ) → IsSettled b o c k → image t.dev c k ≡ view (some s.pcache) (image s.dev) c k)
  Syncs s b o (err e t) = ProgFails cfg image Erased b e ⊎ SyncFails e
  Syncs s b o fault = ⊥
  Syncs s b o out_of_fuel = ⊥

  module _ (flash : IsFlash cfg image Erased) (geometry : IsWritable cfg) where
    -- The call of the sync callback at the end.
    last_call :
        (s : Bd D) (b o : ℕ) (t : Bd D) (r : Option Error × D)
        → dev_sync t.dev ≡ r
        → t.rcache ≡ cache_drop s.rcache
        → ((c k : ℕ) → IsSettled b o c k → image t.dev c k ≡ view (some s.pcache) (image s.dev) c k)
        → Syncs s b o (elim r.0 [
          | none ↦ ok tt (record t { dev = r.1 })
          | some x ↦ err x (record t { dev = r.1 })
        ])
    last_call s b o t (none, d) e kept same =
        (kept, λ c k settled. flash.syncs t.dev d e c k ∙ same c k settled)
    last_call s b o t (some x, d) e kept same = inr (t.dev, d, e)

    after_flush :
        (s : Bd D) (b o : ℕ) (r : Res (Bd D) (Unit {0}))
        → IsOpen cfg image Erased b o s
        → Flushes cfg image Erased (record s { rcache = cache_drop s.rcache }) r
        → Syncs s b o (bind_res r (λ x. call cfg dev_sync))
    unfolding call
    after_flush s b o (ok x t) v f = last_call s b o t _ refl f.1 (λ c k settled.
        flush-view cfg image Erased (record s { rcache = cache_drop s.rcache }) t c k f
          (λ out. ground (arith, settled.1, v.same_block, v.ends_at)))
    after_flush s b o (err e t) v why =
        inl (subst (λ (z : ℕ). ProgFails cfg image Erased z e) v.same_block why)
    after_flush s b o fault v h = h
    after_flush s b o out_of_fuel v h = h

    pub bd_sync-Syncs :
        (s : Bd D) (b o : ℕ)
        → IsAt cfg image Erased b o s
        → b < block_count
        → o ≤ block_size
        → Syncs s b o (bd_sync cfg false s)
    unfolding bd_sync
    bd_sync-Syncs s b o (inl v) here inside = after_flush s b o _ v (
        bd_flush-Flushes cfg image Erased flash geometry (record s { rcache = cache_drop s.rcache })
          (omega (arith, v.same_block)) (omega (arith, v.size_lt)) v.whole v.off_multiple
          (omega (arith, v.ends_at))
          (λ k p q. subst (λ (z : ℕ). Erased s.dev z k) (sym v.same_block) (v.erased k p q)))
    bd_sync-Syncs s b o (inr v) here inside =
        unfold bd_flush call in
        (let idle : (s.pcache.block == block_null) || (s.pcache.block == block_inline) ≡ true =
            ground (arith, v.unused) in
          rw idle (
            last_call s b o (record s { rcache = cache_drop s.rcache }) _ refl refl
              (λ c k settled.
                let out : covers s.pcache c k ≡ false = ground (arith, settled.0, v.unused) in
                rw out refl)))
