-- ===== src/Bd.antt =====
-- "Caching block device operations" of lfs.c. `const lfs_cache_t *pcache` of a read is an option.
pub mod View
pub mod Consult
pub mod Load
pub mod Flush
pub mod Fit
pub mod Persist
pub mod Prog
pub mod Reads
pub mod Read
pub mod Stale
pub mod Sync
pub mod Written
use littlefs.Prelude.{
  ℕ, zero, suc, ◌+◌, ◌-◌, ◌*◌, Bool, not, ◌&&◌, ◌||◌, Option, none, some, List, [], ◌∷◌, ◌++◌, ltb,
  leb, ◌==◌, if◌then◌else◌, length, get_or, take, drop, replicate, add32, sub32,
}
use littlefs.Util.{lfs_min, lfs_max, aligndown, alignup}
use littlefs.Exec.{
  Error, corrupt, ok, err, M, Try, got, failed, pure, throw, no_fuel, in_bounds, get, put, modify,
  assert, ◌>>=◌, ◌>>◌,
}
use littlefs.Config.{Config, Cache, Bd, block_null, block_inline}

-- `memcpy(data, &buffer[at], n)`, if the buffer holds that much.
unfoldable pub mem_read : List ℕ → ℕ → ℕ → Option (List ℕ)
mem_read buffer at n = if leb (at + n) (length buffer) then some (take n (drop at buffer)) else none

-- `memcpy(&buffer[at], bytes, length)`.
unfoldable pub mem_write : List ℕ → ℕ → List ℕ → Option (List ℕ)
mem_write buffer at bytes =
    if leb (at + length bytes) (length buffer)
    then some (take at buffer ++ (bytes ++ drop (at + length bytes) buffer))
    else none

unfoldable pub cache_drop : Cache → Cache
cache_drop c = record c { block = block_null }

-- Whether a cache serves the next `diff` bytes, or how many lie before the part that it serves.
pub data Lookup : Type 0 where
  served : ℕ → Lookup
  missed : ℕ → Lookup

unfoldable pub consult : Cache → ℕ → ℕ → ℕ → Lookup
consult c b o diff =
    if (b == c.block) && ltb o (add32 c.off c.size)
    then (if leb c.off o
        then served (lfs_min diff (sub32 c.size (sub32 o c.off)))
        else missed (lfs_min diff (sub32 c.off o)))
    else missed diff

unfoldable pub consult_const : Option Cache → ℕ → ℕ → ℕ → Lookup
consult_const none b o diff = missed diff
consult_const (some c) b o diff = consult c b o diff

abbrev pub buffer_of : Option Cache → List ℕ
buffer_of none = []
buffer_of (some c) = c.buffer

abbrev pub offset_of : Option Cache → ℕ
offset_of none = 0
offset_of (some c) = c.off

-- `enum { LFS_CMP_EQ, LFS_CMP_LT, LFS_CMP_GT }`
pub data Cmp : Type 0 where
  cmp_eq cmp_lt cmp_gt : Cmp

module _ {D : Type 0} (cfg : Config D) where
  open cfg use {
    dev_read, dev_prog, dev_erase, dev_sync, read_size, prog_size, block_size, block_count,
    cache_size,
  }

  unfoldable pub cache_zero : Cache → Cache
  cache_zero c = record c { buffer = replicate cache_size 0xff; block = block_null }

  -- A callback that returns no data.
  unfoldable pub call : (D → Option Error × D) → M (Bd D) (Unit {0})
  call f s =
      let (e, d) = f s.dev in
      elim e [ none ↦ ok tt (record s { dev = d }) | some x ↦ err x (record s { dev = d }) ]

  -- What the read callback leaves in the buffer of the cache, whether it fails or not.
  unfoldable pub cache_fill : Option Error × List ℕ × D → M (Bd D) (Unit {0})
  cache_fill (e, bytes, d) s =
      let s' : Bd D = record s {
        rcache = record s.rcache { buffer = bytes ++ drop (length bytes) s.rcache.buffer };
        dev = d;
      } in
      elim e [ none ↦ ok tt s' | some x ↦ err x s' ]

  -- "load to cache": the part of the block that holds `o`, as far as `hint` asks and the cache takes.
  unfoldable pub cache_load : ℕ → ℕ → ℕ → M (Bd D) (Unit {0})
  cache_load hint b o = do
    assert (ltb b block_count)
    let start = aligndown o read_size
    let len =
        lfs_min (sub32 (lfs_min (alignup (add32 o hint) read_size) block_size) start) cache_size
    modify λ s. record s { rcache = record s.rcache { block = b; off = start; size = len } }
    s ← get
    cache_fill (dev_read b start len s.dev)

  -- "is already in pcache?", "is already in rcache?": `n` bytes of a buffer, then the rest.
  unfoldable pub serve : List ℕ → ℕ → ℕ → M (Bd D) (List ℕ) → M (Bd D) (List ℕ)
  serve buffer at n rest = do
    part ← in_bounds (mem_read buffer at n)
    bytes ← rest
    pure (part ++ bytes)

  -- The read cache, which is loaded where it does not serve; `rest n` reads on after `n` bytes.
  unfoldable pub from_rcache :
      (ℕ → M (Bd D) (List ℕ)) → M (Bd D) (List ℕ) → ℕ → ℕ → ℕ → Cache → Lookup → M (Bd D) (List ℕ)
  unfolding serve
  from_rcache rest again hint b o c (served n) = serve c.buffer (sub32 o c.off) n (rest n)
  from_rcache rest again hint b o c (missed limit) = do cache_load hint b o; again

  -- The program cache comes first.
  unfoldable pub from_pcache :
      (ℕ → M (Bd D) (List ℕ))
      → M (Bd D) (List ℕ)
      → ℕ
      → ℕ
      → ℕ
      → Option Cache
      → Lookup
      → M (Bd D) (List ℕ)
  unfolding serve from_rcache
  from_pcache rest again hint b o pcache (served n) =
      serve (buffer_of pcache) (sub32 o (offset_of pcache)) n (rest n)
  from_pcache rest again hint b o pcache (missed limit) = do
    s ← get
    from_rcache rest again hint b o s.rcache (consult s.rcache b o limit)

  -- The loop of `lfs_bd_read`, on fuel: a round copies at least one byte or fills the cache.
  unfoldable pub read_loop : Option Cache → ℕ → ℕ → ℕ → ℕ → ℕ → M (Bd D) (List ℕ)
  unfolding from_pcache
  read_loop pcache hint b zero o size = no_fuel
  read_loop pcache hint b (suc fuel) o size =
      let round =
        from_pcache (λ n. read_loop pcache hint b fuel (add32 o n) (size - n))
          (read_loop pcache hint b fuel o size) hint b o pcache (consult_const pcache b o size) in
      if size == 0 then pure [] else round

  unfoldable pub bd_read : Option Cache → ℕ → ℕ → ℕ → ℕ → M (Bd D) (List ℕ)
  bd_read pcache hint b o size = do
    assert (not (b == block_null))
    if ltb block_size (add32 o size)
        then throw corrupt
        else read_loop pcache hint b (2 * size + 1) o size

  -- The comparison of a block with a buffer, from its byte `i` on.
  unfoldable pub bd_cmp : Option Cache → ℕ → ℕ → ℕ → ℕ → List ℕ → M (Bd D) Cmp
  bd_cmp pcache hint b o i [] = pure cmp_eq
  bd_cmp pcache hint b o i (x ∷ xs) = do
    found ← bd_read pcache (sub32 hint i) b (add32 o i) 1
    let dat = get_or found 0 0
    if dat == x
        then bd_cmp pcache hint b o (i + 1) xs
        else pure (if ltb dat x then cmp_lt else cmp_gt)

  -- "check data on disk"
  unfoldable pub validate_prog : ℕ → List ℕ → M (Bd D) (Unit {0})
  validate_prog diff bytes = do
    modify λ s. record s { rcache = cache_drop s.rcache }
    s ← get
    res ← bd_cmp none diff s.pcache.block s.pcache.off 0 bytes
    elim res [ cmp_eq ↦ pure tt | _ ↦ throw corrupt ]

  unfoldable pub bd_flush : Bool → M (Bd D) (Unit {0})
  bd_flush validate = do
    s ← get
    if (s.pcache.block == block_null) || (s.pcache.block == block_inline) then pure tt else do
      assert (ltb s.pcache.block block_count)
      let diff = alignup s.pcache.size prog_size
      bytes ← in_bounds (mem_read s.pcache.buffer 0 diff)
      call (dev_prog s.pcache.block s.pcache.off bytes)
      if validate then validate_prog diff bytes else pure tt
      modify λ s. record s { pcache = cache_zero s.pcache }

  unfoldable pub bd_sync : Bool → M (Bd D) (Unit {0})
  bd_sync validate = do
    modify λ s. record s { rcache = cache_drop s.rcache }
    bd_flush validate
    call dev_sync

  -- `memcpy` of what fits into the program cache; a full cache is flushed.
  unfoldable pub prog_fit : Bool → ℕ → List ℕ → M (Bd D) (Unit {0})
  prog_fit validate o bytes = do
    s ← get
    buffer ← in_bounds (mem_write s.pcache.buffer (sub32 o s.pcache.off) bytes)
    let size = lfs_max s.pcache.size (sub32 (add32 o (length bytes)) s.pcache.off)
    put (record s { pcache = record s.pcache { buffer = buffer; size = size } })
    if size == cache_size then bd_flush validate else pure tt

  -- The loop of `lfs_bd_prog`, on fuel: a round writes at least one byte or claims the cache.
  unfoldable pub prog_loop : Bool → ℕ → ℕ → ℕ → List ℕ → M (Bd D) (Unit {0})
  prog_loop validate b zero o bytes = no_fuel
  prog_loop validate b (suc fuel) o bytes = if length bytes == 0 then pure tt else do
    s ← get
    if (b == s.pcache.block) && (leb s.pcache.off o && ltb o (add32 s.pcache.off cache_size))
        then (do
          let diff = lfs_min (length bytes) (sub32 cache_size (sub32 o s.pcache.off))
          prog_fit validate o (take diff bytes)
          prog_loop validate b fuel (add32 o diff) (drop diff bytes))
        else do
          assert (s.pcache.block == block_null)
          put (record s {
            pcache = record s.pcache { block = b; off = aligndown o prog_size; size = 0 };
          })
          prog_loop validate b fuel o bytes

  unfoldable pub bd_prog : Bool → ℕ → ℕ → List ℕ → M (Bd D) (Unit {0})
  bd_prog validate b o bytes = do
    assert (not (b == block_null))
    assert (leb (add32 o (length bytes)) block_size)
    prog_loop validate b (2 * length bytes + 1) o bytes

  unfoldable pub bd_erase : ℕ → M (Bd D) (Unit {0})
  bd_erase b = do assert (ltb b block_count); call (dev_erase b)
