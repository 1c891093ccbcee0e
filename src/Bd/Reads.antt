-- ===== src/Bd/Reads.antt =====
-- What a read promises, and the bytes that a cache gives.
use littlefs.Prelude.{
  ℕ, ◌+◌, ◌-◌, ◌*◌, ◌^◌, ◌≤◌, ◌<◌, ◌≡◌, refl, ◌∙◌, ap, arith, true, false, Option, none, some, List,
  length, get_or, ltb, ◌++◌, length-append, get_or-append_left, get_or-append_right, Bool-cases,
  inl, inr, ◌⊎◌, if◌then◌else◌,
}
use littlefs.Exec.{M, Res, ok, err, fault, out_of_fuel, bind_res}
use littlefs.Config.{Config, Cache, Bd}
use littlefs.Bd.{Lookup, served, missed, consult, consult_const, buffer_of, offset_of, serve}
use littlefs.Bd.View.{IsCache, IsLoaded, covers, covers?, view}
use littlefs.Bd.Consult.{Finds, consult-Finds, mem_read-IsPart}
use littlefs.Bd.Load.{Fails}

module _ {D : Type 0} (cfg : Config D) (image : D → ℕ → ℕ → ℕ) where
  open cfg use {block_size, block_count, cache_size}

  -- What a read promises from a state.
  abbrev pub Reads : Option Cache → Bd D → ℕ → ℕ → ℕ → Res (Bd D) (List ℕ) → Type 0
  Reads pcache s b o size (ok bytes t) =
      (t.pcache ≡ s.pcache)
      × ((c k : ℕ) → image t.dev c k ≡ image s.dev c k)
      × IsLoaded cache_size (image t.dev) t.rcache
      × (length bytes ≡ size)
      × ((j : ℕ) → j < size → get_or bytes j 0 ≡ view pcache (image s.dev) b (o + j))
  Reads pcache s b o size (err e t) =
      (t.pcache ≡ s.pcache) × ((c k : ℕ) → image t.dev c k ≡ image s.dev c k) × Fails cfg image b e
  Reads pcache s b o size fault = ⊥
  Reads pcache s b o size out_of_fuel = ⊥

  view-cong :
      (pcache : Option Cache) (s t : Bd D)
      → ((c k : ℕ) → image t.dev c k ≡ image s.dev c k)
      → (b o : ℕ) → view pcache (image t.dev) b o ≡ view pcache (image s.dev) b o
  view-cong none s t same b o = same b o
  view-cong (some c) s t same b o =
      ap (λ (x : ℕ). if covers c b o then get_or c.buffer (o - c.off) 0 else x) (same b o)

  -- What is read from a state with the same contents.
  pub Reads-from :
      (pcache : Option Cache) (s t : Bd D) (b o size : ℕ) (r : Res (Bd D) (List ℕ))
      → t.pcache ≡ s.pcache
      → ((c k : ℕ) → image t.dev c k ≡ image s.dev c k)
      → Reads pcache t b o size r
      → Reads pcache s b o size r
  Reads-from pcache s t b o size (ok bytes u) p same (q, same', loaded, len, here) = (
    q ∙ p,
    λ c k. same' c k ∙ same c k,
    loaded,
    len,
    λ j h. here j h ∙ view-cong pcache s t same b (o + j),
  )
  Reads-from pcache s t b o size (err e u) p same (q, same', why) =
      (q ∙ p, λ c k. same' c k ∙ same c k, why)
  Reads-from pcache s t b o size fault p same h = h
  Reads-from pcache s t b o size out_of_fuel p same h = h

  -- A part from a cache, and what is read after it.
  pub append-Reads :
      (pcache : Option Cache) (s : Bd D) (b o n left : ℕ) (part : List ℕ) (r : Res (Bd D) (List ℕ))
      → length part ≡ n
      → ((j : ℕ) → j < n → get_or part j 0 ≡ view pcache (image s.dev) b (o + j))
      → Reads pcache s b (o + n) left r
      → Reads pcache s b o (n + left) (bind_res r (λ bytes t. ok (part ++ bytes) t))
  append-Reads pcache s b o n left part (ok bytes t) len first (q, same, loaded, len', rest) = (
    q,
    same,
    loaded,
    omega (arith, length-append {0} part bytes),
    λ j h. elim (Bool-cases (ltb j n)) [
      | inl lt ↦ get_or-append_left part bytes j 0 (ground (arith, len)) ∙ first j (ground arith)
      | inr ge ↦
          let e : j ≡ length part + (j - n) = ground (arith, len) in
          let e' : o + n + (j - n) ≡ o + j = ground arith in
          ap (λ (x : ℕ). get_or (part ++ bytes) x 0) e
          ∙ get_or-append_right part bytes (j - n) 0
          ∙ rest (j - n) (ground arith)
          ∙ ap (view pcache (image s.dev) b) e'
    ],
  )
  append-Reads pcache s b o n left part (err e t) len first h = h
  append-Reads pcache s b o n left part fault len first h = h
  append-Reads pcache s b o n left part out_of_fuel len first h = h

  pub serve-Reads :
      (pcache : Option Cache) (s : Bd D) (b o n left : ℕ) (buffer : List ℕ) (at : ℕ)
      (rest : M (Bd D) (List ℕ))
      → at + n ≤ length buffer
      → ((j : ℕ) → j < n → get_or buffer (at + j) 0 ≡ view pcache (image s.dev) b (o + j))
      → Reads pcache s b (o + n) left (rest s)
      → Reads pcache s b o (n + left) (serve cfg buffer at n rest s)
  unfolding serve
  serve-Reads pcache s b o n left buffer at rest fits here more =
      let (part, e, is_part) = mem_read-IsPart buffer at n fits in
      rw e (
        append-Reads pcache s b o n left part (rest s) is_part.length_eq
          (λ j h. is_part.get_eq j h ∙ here j h) more)

  -- The next round can take a byte from the read cache.
  abbrev pub IsReady : Bd D → ℕ → ℕ → Type 0
  IsReady s b o = (s.rcache.block ≡ b) × (s.rcache.off ≤ o) × (o < s.rcache.off + s.rcache.size)

  -- The rounds that are left are enough.
  abbrev pub IsEnough : Bd D → ℕ → ℕ → ℕ → ℕ → Type 0
  IsEnough s b o size fuel = (2 * size < fuel) ⊎ (IsReady s b o × (0 < size) × (2 * size ≤ fuel))

  -- A byte of the read cache that the program cache does not stand for.
  pub under_pcache :
      (pcache : Option Cache) (blocks : ℕ → ℕ → ℕ) (b o : ℕ)
      → covers? pcache b o ≡ false
      → view pcache blocks b o ≡ blocks b o
  under_pcache none blocks b o h = refl
  under_pcache (some c) blocks b o h = rw h refl

  abbrev pub IsPcache : Option Cache → Type 0
  IsPcache none = Unit {0}
  IsPcache (some c) = IsCache cache_size c

  -- What a look into the program cache finds.
  abbrev pub Finds? : Option Cache → ℕ → ℕ → ℕ → Lookup → Type 0
  Finds? pcache b o diff (served n) =
      (0 < n)
      × (n ≤ diff)
      × (o - offset_of pcache + n ≤ length (buffer_of pcache))
      × (offset_of pcache ≤ o)
      × ((blocks : ℕ → ℕ → ℕ) (j : ℕ)
          → j < n
          → get_or (buffer_of pcache) (o - offset_of pcache + j) 0 ≡ view pcache blocks b (o + j))
  Finds? pcache b o diff (missed n) =
      (0 < n) × (n ≤ diff) × ((k : ℕ) → k < n → covers? pcache b (o + k) ≡ false)

  Finds-pcache :
      (c : Cache) (b o diff : ℕ) (l : Lookup)
      → IsCache cache_size c
      → Finds c b o diff l
      → Finds? (some c) b o diff l
  Finds-pcache c b o diff (missed n) v h = h
  Finds-pcache c b o diff (served n) v (pos, le, same, from, to) = (
    pos,
    le,
    omega (arith, v.fits),
    from,
    λ blocks j h.
        let e : o + j - c.off ≡ o - c.off + j = omega arith in
        let inside : covers c b (o + j) ≡ true = ground arith in rw (inside, e) refl,
  )

  pub consult_const-Finds? :
      (pcache : Option Cache) (b o diff : ℕ)
      → IsPcache pcache
      → 0 < diff
      → o + diff < 2 ^ 32
      → Finds? pcache b o diff (consult_const pcache b o diff)
  unfolding consult_const
  consult_const-Finds? none b o diff v pos small = (pos, omega arith, λ k h. refl)
  consult_const-Finds? (some c) b o diff v pos small =
      Finds-pcache c b o diff (consult c b o diff) v
        (consult-Finds cache_size c b o diff v pos small)
