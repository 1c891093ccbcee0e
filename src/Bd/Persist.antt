-- ===== src/Bd/Persist.antt =====
-- What is programmed and synced is what is read.
use littlefs.Prelude.{
  ℕ, zero, suc, ◌+◌, ◌-◌, ◌^◌, ◌≤◌, ◌<◌, ◌≡◌, ◌≢◌, refl, ◌∙◌, arith, true, false, none, some, List,
  [], ◌∷◌, length, get_or, ◌⊎◌, inl, inr,
}
use littlefs.Exec.{Res, ok, err, fault, out_of_fuel, bind_res, ◌>>◌}
use littlefs.Config.{Config, Bd, block_null}
use littlefs.Bd.{cache_drop, bd_sync, bd_prog, bd_read}
use littlefs.Bd.View.{IsGeometry, IsDevice, IsCache, IsLoaded, view}
use littlefs.Bd.Load.{Fails}
use littlefs.Bd.Reads.{Reads}
use littlefs.Bd.Read.{bd_read-Reads}
use littlefs.Bd.Written.{within}
use littlefs.Bd.Flush.{IsFlash, IsWritable, ProgFails, IsAt}
use littlefs.Bd.Fit.{Programs}
use littlefs.Bd.Prog.{bd_prog-Programs}
use littlefs.Bd.Sync.{SyncFails, Syncs, bd_sync-Syncs}

list_ext :
    (xs ys : List ℕ)
    → length xs ≡ length ys
    → ((j : ℕ) → j < length ys → get_or xs j 0 ≡ get_or ys j 0)
    → xs ≡ ys
list_ext [] [] e h = refl
list_ext [] (y ∷ ys) e h = absurd (omega arith)
list_ext (x ∷ xs) [] e h = absurd (omega arith)
list_ext (x ∷ xs) (y ∷ ys) e h =
    let first : x ≡ y = h zero (omega arith) in
    let rest : xs ≡ ys = list_ext xs ys (omega arith) (λ j p. h (suc j) (omega arith)) in
    rw (first, rest) refl

module _ {D : Type 0} (cfg : Config D) (image : D → ℕ → ℕ → ℕ) (Erased : D → ℕ → ℕ → Type 0) where
  open cfg use {block_size, block_count, cache_size}

  -- Either the bytes come back, or a callback has failed.
  abbrev pub Persists : ℕ → List ℕ → Res (Bd D) (List ℕ) → Type 0
  Persists b bytes (ok found t) = found ≡ bytes
  Persists b bytes (err e t) =
      ProgFails cfg image Erased b e ⊎ (SyncFails cfg image Erased e ⊎ Fails cfg image b e)
  Persists b bytes fault = ⊥
  Persists b bytes out_of_fuel = ⊥

  module _ (flash : IsFlash cfg image Erased) (geometry : IsWritable cfg)
      (device : IsDevice cfg image) (reading : IsGeometry cfg) (hint b o : ℕ) (bytes : List ℕ)
      (here : b < block_count) (pos : 0 < hint) (near : hint ≤ 2 ^ 30)
      (inside : o + length bytes ≤ block_size) where
    after_read :
        (s : Bd D) (r : Res (Bd D) (List ℕ))
        → ((j : ℕ) → j < length bytes → image s.dev b (o + j) ≡ get_or bytes j 0)
        → Reads cfg image none s b o (length bytes) r
        → Persists b bytes r
    after_read s (ok found t) same (q, kept, v, len, now) =
        list_ext found bytes len (λ j h. now j h ∙ same j h)
    after_read s (err e t) same h = inr (inr h.2)
    after_read s fault same h = h
    after_read s out_of_fuel same h = h

    after_sync :
        (s : Bd D) (r : Res (Bd D) (Unit {0}))
        → IsCache cache_size s.rcache
        → ((j : ℕ)
            → j < length bytes
            → view (some s.pcache) (image s.dev) b (o + j) ≡ get_or bytes j 0)
        → Syncs cfg image Erased s b (o + length bytes) r
        → Persists b bytes (bind_res r (λ x. bd_read cfg none hint b o (length bytes)))
    unfolding cache_drop
    after_sync s (ok x t) c seen (dropped, now) =
        let loaded : IsLoaded cache_size (image t.dev) t.rcache = rw dropped (record {
          is_cache = record { fits = c.fits; whole = c.whole; small = c.small };
          holds = λ named k h. absurd (named refl);
        }) in
        let named : b ≢ block_null = omega (arith, geometry.count_lt) in
        after_read t _ (λ j h. now b (o + j) (named, inr (omega arith)) ∙ seen j h)
          (bd_read-Reads cfg image device reading none hint b here pos near tt t o (length bytes)
            loaded named inside)
    after_sync s (err e t) c seen (inl h) = inl h
    after_sync s (err e t) c seen (inr h) = inr (inl h)
    after_sync s fault c seen h = h
    after_sync s out_of_fuel c seen h = h

    after_prog :
        (s : Bd D) (r : Res (Bd D) (Unit {0}))
        → IsCache cache_size s.rcache
        → Programs cfg image Erased s b o bytes r
        → Persists b bytes
            (bind_res r (λ x. bd_sync cfg false >> bd_read cfg none hint b o (length bytes)))
    after_prog s (ok x t) c (at, kept, now) =
        after_sync t _ (rw kept c)
          (λ j h.
            let in_region : within b o (length bytes) b (o + j) ≡ true = ground arith in
            let e : o + j - o ≡ j = omega arith in
            now b (o + j) (omega (arith, geometry.count_lt)) ∙ rw (in_region, e) refl)
          (bd_sync-Syncs cfg image Erased flash geometry t b (o + length bytes) at here inside)
    after_prog s (err e t) c h = inl h
    after_prog s fault c h = h
    after_prog s out_of_fuel c h = h

    -- Bytes that `lfs_bd_prog` writes inside a block of the device, without validation, where the
    -- program cache is at the offset and the device is erased behind it: after `lfs_bd_sync`,
    -- `lfs_bd_read` of the region, with a hint from 1 to 2^30, returns these bytes. The three
    -- calls end, with no failed assertion and no access out of bounds, and if one of them fails,
    -- the error is one that a callback has returned. The configuration and the callbacks are as
    -- assumed, and the read cache lies in its buffer.
    pub bd_read-bd_sync-bd_prog :
        (s : Bd D)
        → IsAt cfg image Erased b o s
        → IsCache cache_size s.rcache
        → Persists b bytes (
            (bd_prog cfg false b o bytes
                >> (bd_sync cfg false >> bd_read cfg none hint b o (length bytes)))
              s)
    bd_read-bd_sync-bd_prog s at c =
        after_prog s _ c
          (bd_prog-Programs cfg image Erased flash geometry b here s o bytes at inside)
