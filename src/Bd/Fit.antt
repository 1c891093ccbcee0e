-- ===== src/Bd/Fit.antt =====
-- One round of `lfs_bd_prog`: bytes that fit into the program cache.
use littlefs.Prelude.{
  ℕ, ◌+◌, ◌-◌, ◌≤◌, ◌<◌, ◌≡◌, ◌≢◌, refl, ◌∙◌, ap, ap₂, sym, arith, true, false, some, List, length,
  get_or, ◌==◌, if◌then◌else◌, sub32, add32, length-replicate, Bool-cases, inl, inr,
}
use mathlib.Core.Path.{subst}
use littlefs.Util.{lfs_max, alignup}
use littlefs.Exec.{Res, ok, err, fault, out_of_fuel, pure}
use littlefs.Config.{Config, Cache, Bd, block_null}
use littlefs.Bd.{cache_zero, bd_flush, prog_fit}
use littlefs.Bd.View.{covers, view}
use littlefs.Bd.Written.{within, written, IsCopied, mem_write-IsCopied}
use littlefs.Bd.Flush.{
  IsFlash, IsWritable, ProgFails, IsOpen, IsAt, Flushes, aligned_region, multiple-add,
  bd_flush-Flushes,
}

-- A cache to whose end bytes have been added.
abbrev grown : Cache → List ℕ → List ℕ → Cache
grown c bytes buffer = record c { buffer = buffer; size = c.size + length bytes }

view-grown :
    (c : Cache) (bytes buffer : List ℕ) (blocks : ℕ → ℕ → ℕ) (b k : ℕ)
    → IsCopied c.buffer c.size bytes buffer
    → view (some (grown c bytes buffer)) blocks b k
      ≡ written c.block (c.off + c.size) bytes (view (some c) blocks) b k
view-grown c bytes buffer blocks b k copied =
    elim (Bool-cases (within c.block (c.off + c.size) (length bytes) b k)) [
      | inl here ↦
          let all : covers (grown c bytes buffer) b k ≡ true = ground arith in
          let e : k - c.off - c.size ≡ k - (c.off + c.size) = omega arith in
          rw (all, here)
            (copied.inside (k - c.off) (ground arith) (ground arith)
              ∙ ap (λ (t : ℕ). get_or bytes t 0) e)
      | inr out ↦ elim (Bool-cases (covers c b k)) [
        | inl old ↦
            let all : covers (grown c bytes buffer) b k ≡ true = ground arith in
            rw (all, out, old) (copied.before (k - c.off) (ground arith))
        | inr none_here ↦
            let nothing : covers (grown c bytes buffer) b k ≡ false = ground arith in
            rw (nothing, out, none_here) refl
      ]
    ]

module _ {D : Type 0} (cfg : Config D) (image : D → ℕ → ℕ → ℕ) (Erased : D → ℕ → ℕ → Type 0) where
  open cfg use {prog_size, block_size, block_count, cache_size}

  -- What a program of a block promises: either an error that the program callback has returned for
  -- the block, or a reader sees the bytes where they were written and all else as before.
  abbrev pub Programs : Bd D → ℕ → ℕ → List ℕ → Res (Bd D) (Unit {0}) → Type 0
  Programs s b o bytes (ok x t) =
      IsAt cfg image Erased b (o + length bytes) t
      × (t.rcache ≡ s.rcache)
      × ((c k : ℕ)
          → c ≢ block_null
          → view (some t.pcache) (image t.dev) c k
            ≡ written b o bytes (view (some s.pcache) (image s.dev)) c k)
  Programs s b o bytes (err e t) = ProgFails cfg image Erased b e
  Programs s b o bytes fault = ⊥
  Programs s b o bytes out_of_fuel = ⊥

  -- After a flush the device holds what a reader saw, but for the padding.
  pub flush-view :
      (s t : Bd D) (a k : ℕ)
      → Flushes cfg image Erased s (ok tt t)
      → (covers s.pcache a k ≡ false
          → within s.pcache.block s.pcache.off (alignup s.pcache.size prog_size) a k ≡ false)
      → image t.dev a k ≡ view (some s.pcache) (image s.dev) a k
  flush-view s t a k (zeroed, kept, now, rest) padding = elim (Bool-cases (covers s.pcache a k)) [
    | inl here ↦ now a k here ∙ rw here refl
    | inr out ↦ (rest a k (padding out)).0 ∙ rw out refl
  ]

  module _ (flash : IsFlash cfg image Erased) (geometry : IsWritable cfg) where
    -- A full cache is flushed.
    flushed :
        (s : Bd D) (b : ℕ) (bytes buffer : List ℕ) (r : Res (Bd D) (Unit {0}))
        → IsOpen cfg image Erased b (s.pcache.off + s.pcache.size) s
        → IsCopied s.pcache.buffer s.pcache.size bytes buffer
        → s.pcache.size + length bytes ≡ cache_size
        → s.pcache.off + s.pcache.size + length bytes ≤ block_size
        → Flushes cfg image Erased (record s { pcache = grown s.pcache bytes buffer }) r
        → Programs s b (s.pcache.off + s.pcache.size) bytes r
    unfolding cache_zero
    flushed s b bytes buffer (ok x t) v copied full inside (zeroed, kept, now, rest) =
        let c = grown s.pcache bytes buffer in
        let (le, small, fits) =
          aligned_region cfg image Erased flash geometry c.off c.size v.off_multiple (omega arith)
            (omega arith) in
        let exact : alignup c.size prog_size ≡ c.size = omega arith in
        let gone : t.pcache.block ≡ block_null = ap (λ (z : Cache). z.block) zeroed in
        let end : s.pcache.off + s.pcache.size + length bytes ≡ s.pcache.off + cache_size =
          omega arith in
        (
          inr (record {
            whole = ap (λ (z : Cache). length z.buffer) zeroed ∙ length-replicate cache_size 0xff;
            unused = gone;
            o_multiple = rw end (
                multiple-add prog_size s.pcache.off cache_size geometry.prog_pos v.off_multiple
                  geometry.prog_divides);
            erased = λ k p q. (rest b k (ground (arith, exact))).1 (v.erased k (omega arith) q);
          }),
          kept,
          λ a k named.
              (let unseen : covers t.pcache a k ≡ false = ground arith in
                rw unseen (
                  flush-view (record s { pcache = c }) t a k (zeroed, kept, now, rest)
                    (λ out. ground (arith, exact))
                  ∙ view-grown s.pcache bytes buffer (image s.dev) a k copied
                  ∙ ap
                      (λ (z : ℕ).
                        written z (s.pcache.off + s.pcache.size) bytes
                          (view (some s.pcache) (image s.dev)) a k)
                      v.same_block)),
        )
    flushed s b bytes buffer (err e t) v copied full inside why =
        subst (λ (z : ℕ). ProgFails cfg image Erased z e) v.same_block why
    flushed s b bytes buffer fault v copied full inside h = h
    flushed s b bytes buffer out_of_fuel v copied full inside h = h

    flush_full :
        (s : Bd D) (b o : ℕ) (bytes buffer : List ℕ)
        → IsOpen cfg image Erased b o s
        → IsCopied s.pcache.buffer s.pcache.size bytes buffer
        → b < block_count
        → o + length bytes ≤ block_size
        → s.pcache.size + length bytes ≤ cache_size
        → Programs s b o bytes (
            (if s.pcache.size + length bytes == cache_size then bd_flush cfg false else pure tt)
              (record s { pcache = grown s.pcache bytes buffer }))
    flush_full s b o bytes buffer v copied here inside fits =
        let c = grown s.pcache bytes buffer in
        let len = copied.length_eq in
        elim (Bool-cases (s.pcache.size + length bytes == cache_size)) [
          | inl full ↦
              let from : IsOpen cfg image Erased b (s.pcache.off + s.pcache.size) s = record {
                whole = v.whole;
                size_lt = v.size_lt;
                off_multiple = v.off_multiple;
                same_block = v.same_block;
                ends_at = refl;
                erased = v.erased;
              } in
              rw full (
                subst
                  (λ (z : ℕ). Programs s b z bytes (bd_flush cfg false (record s { pcache = c })))
                  v.ends_at
                  (flushed s b bytes buffer _ from copied (ground arith) (omega (arith, v.ends_at))
                    (bd_flush-Flushes cfg image Erased flash geometry (record s { pcache = c })
                      (omega (arith, v.same_block)) fits (omega (arith, v.whole)) v.off_multiple
                      (omega (arith, v.ends_at))
                      (λ k p q.
                        subst (λ (z : ℕ). Erased s.dev z k) (sym v.same_block) (v.erased k p q)))))
          | inr room ↦ rw room (
            inl (record {
              whole = omega (arith, v.whole);
              size_lt = ground arith;
              off_multiple = v.off_multiple;
              same_block = v.same_block;
              ends_at = omega (arith, v.ends_at);
              erased = v.erased;
            }),
            refl,
            λ a k named.
                view-grown s.pcache bytes buffer (image s.dev) a k copied
                ∙ ap₂ (λ (z y : ℕ). written z y bytes (view (some s.pcache) (image s.dev)) a k)
                    v.same_block v.ends_at,
          )
        ]

    -- A program that the program cache takes.
    pub prog_fit-Programs :
        (s : Bd D) (b o : ℕ) (bytes : List ℕ)
        → IsOpen cfg image Erased b o s
        → b < block_count
        → o + length bytes ≤ block_size
        → s.pcache.size + length bytes ≤ cache_size
        → Programs s b o bytes (prog_fit cfg false o bytes s)
    unfolding prog_fit lfs_max
    prog_fit-Programs s b o bytes v here inside fits =
        let at : sub32 o s.pcache.off ≡ s.pcache.size =
          omega (arith, v.ends_at, geometry.block_le) in
        let (buffer, e, copied) =
          mem_write-IsCopied s.pcache.buffer s.pcache.size bytes (omega (arith, v.whole)) in
        let size : lfs_max s.pcache.size (sub32 (add32 o (length bytes)) s.pcache.off)
            ≡ s.pcache.size + length bytes =
          ground (arith, v.ends_at, geometry.block_le) in
        rw (at, e, size) (flush_full s b o bytes buffer v copied here inside fits)
