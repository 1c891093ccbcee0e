-- ===== src/Tests/Device.antt =====
-- A device of bytes in memory, a file on it, and the theorems at them.
use littlefs.Prelude.{
  ℕ, zero, suc, ◌+◌, ◌-◌, ◌*◌, ◌/◌, ◌%◌, ◌^◌, ◌<◌, ◌≤◌, ◌≡◌, refl, ap, sym, ◌∙◌, arith, false,
  Option, none, List, [], ◌∷◌, length, get_or, replicate, ◌==◌, if◌then◌else◌, inr,
}
use littlefs.Util.{popc, fromle32}
use littlefs.Util.Ones.{trailing}
use littlefs.Exec.{Error, ◌>>◌}
use littlefs.Config.{Config, Cache, Bd, block_null}
use littlefs.Bd.{bd_prog, bd_sync, bd_read}
use littlefs.Bd.View.{IsGeometry, IsDevice, IsCache, view}
use littlefs.Bd.Written.{written}
use littlefs.Bd.Flush.{IsFlash, IsWritable, IsAt}
use littlefs.Bd.Fit.{Programs}
use littlefs.Bd.Prog.{bd_prog-Programs}
use littlefs.Bd.Persist.{Persists, bd_read-bd_sync-bd_prog}
use littlefs.Ctz.{ctz_index, ctz_find}
use littlefs.Ctz.Layout.{header, start_of}
use littlefs.Ctz.Index.{ctz_index_of_place}
use littlefs.Ctz.Places.{IsPlace, ctz_index-IsPlace}
use littlefs.Ctz.Walk.{IsSkipList, Walks, four}
use littlefs.Ctz.Position.{IsPosition, ctz_find-Walks}

abbrev pub Memory : Type 0
Memory = ℕ → ℕ → ℕ

-- `n` bytes from an offset on.
abbrev bytes_at : (ℕ → ℕ) → ℕ → ℕ → List ℕ
bytes_at f o zero = []
bytes_at f o (suc n) = f o ∷ bytes_at f (suc o) n

length-bytes_at : (f : ℕ → ℕ) (o n : ℕ) → length (bytes_at f o n) ≡ n
length-bytes_at f o zero = refl
length-bytes_at f o (suc n) = ap suc (length-bytes_at f (suc o) n)

get_or-bytes_at : (f : ℕ → ℕ) (o n j : ℕ) → j < n → get_or (bytes_at f o n) j 0 ≡ f (o + j)
get_or-bytes_at f o zero j h = absurd (omega arith)
get_or-bytes_at f o (suc n) zero h = ap f (omega arith)
get_or-bytes_at f o (suc n) (suc j) h =
    get_or-bytes_at f (suc o) n j (omega arith) ∙ ap f (omega arith)

abbrev pub ram : Config Memory
ram = record {
  dev_read = λ b o n d. (none, bytes_at (d b) o n, d);
  dev_prog = λ b o bytes d. (none, written b o bytes d);
  dev_erase = λ b d. (none, d);
  dev_sync = λ d. (none, d);
  read_size = 16;
  prog_size = 16;
  block_size = 512;
  block_count = 40;
  cache_size = 64;
  lookahead_size = 8;
  block_cycles = 500;
  cfg_name_max = 255;
  cfg_file_max = 2147483647;
  cfg_attr_max = 1022;
}

abbrev image : Memory → ℕ → ℕ → ℕ
image d = d

abbrev Erased : Memory → ℕ → ℕ → Type 0
Erased d b k = d b k ≡ 0xff

ram-IsDevice : IsDevice ram image
ram-IsDevice = record {
  reads = λ b o n d bytes d' h.
      (let e : bytes_at (d b) o n ≡ bytes = ap (λ (r : Option Error × List ℕ × Memory). r.1) h in
        let e' : d ≡ d' = ap (λ (r : Option Error × List ℕ × Memory). r.2) h in
        (
          rw (sym e) (length-bytes_at (d b) o n),
          λ j lt. rw (sym e) (get_or-bytes_at (d b) o n j lt),
          λ c k. ap (λ (f : Memory). f c k) (sym e'),
        ));
  fails = λ b o n d e left d' h c k.
      ap (λ (f : Memory). f c k) (sym (ap (λ (r : Option Error × List ℕ × Memory). r.2) h));
}

ram-IsFlash : IsFlash ram image Erased
ram-IsFlash = record {
  programs = λ b o bytes d d' h clear c k. ap (λ (r : Option Error × Memory). r.1 c k) (sym h);
  leaves_erased = λ b o bytes d d' h c k out blank.
      ap (λ (r : Option Error × Memory). r.1 c k) (sym h) ∙ rw out blank;
  syncs = λ d d' h c k. ap (λ (r : Option Error × Memory). r.1 c k) (sym h);
}

ram-IsGeometry : IsGeometry ram
ram-IsGeometry = omega arith

ram-IsWritable : IsWritable ram
ram-IsWritable = omega arith

abbrev unused : Cache
unused = record { block = block_null; off = 0; size = 0; buffer = replicate 64 0xff }

unused-IsCache : IsCache 64 unused
unused-IsCache = record { fits = omega arith; whole = refl; small = omega arith }

-- An erased device.
abbrev pub blank : Bd Memory
blank = record { rcache = unused; pcache = unused; dev = λ b o. 0xff }

blank-IsAt : IsAt ram image Erased 3 32 blank
blank-IsAt =
    inr (record { whole = refl; unused = refl; o_multiple = omega arith; erased = λ k p q. refl })

abbrev bytes : List ℕ
bytes = 1 ∷ 2 ∷ 3 ∷ 4 ∷ 5 ∷ []

bd_prog-Programs_example :
    Programs ram image Erased blank 3 32 bytes (bd_prog ram false 3 32 bytes blank)
bd_prog-Programs_example =
    bd_prog-Programs ram image Erased ram-IsFlash ram-IsWritable 3 (omega arith) blank 32 bytes
      blank-IsAt (omega arith)

bd_read-bd_sync-bd_prog_example :
    Persists ram image Erased 3 bytes
      ((bd_prog ram false 3 32 bytes >> (bd_sync ram false >> bd_read ram none 4 3 32 5)) blank)
bd_read-bd_sync-bd_prog_example =
    bd_read-bd_sync-bd_prog ram image Erased ram-IsFlash ram-IsWritable ram-IsDevice ram-IsGeometry
      4 3 32 bytes (omega arith) (omega arith) (omega arith) (omega arith) blank blank-IsAt
      unused-IsCache

ctz_index_of_place_example : ctz_index 512 (start_of 512 2 + (8 - header 2)) ≡ (2, 8)
unfolding start_of header trailing
ctz_index_of_place_example =
    ctz_index_of_place 512 2 8 (omega arith) (omega arith) (omega arith) (omega arith) (omega arith)
      (omega arith)

-- With blocks of 104 bytes, which `lfs_init` accepts, a position beyond 1.6 GB is taken for one in
-- the pointers at the front of the next block: its 25 pointers take 100 bytes.
ctz_index_small_blocks : ctz_index 104 (96 * 2 ^ 24 + 96) ≡ (2 ^ 24, 92)
unfolding ctz_index popc
ctz_index_small_blocks = refl

header_small_blocks : header (2 ^ 24) ≡ 100
unfolding header trailing
header_small_blocks = refl

ctz_index-IsPlace_example : IsPlace 512 1600 (ctz_index 512 1600)
ctz_index-IsPlace_example = ctz_index-IsPlace 512 1600 (omega arith) (omega arith) (omega arith)

-- The block at the index `i` of a file is block `10 + i`, and each block has the pointers back.
abbrev chain : Memory
chain b o = if o % 4 == 0 then b - 2 ^ (o / 4) else 0

abbrev on_chain : Bd Memory
on_chain = record blank { dev = chain }

chain_pointers :
    (i k : ℕ)
    → 0 < i
    → i ≤ 3
    → k ≤ trailing 32 i
    → fromle32 (four chain (10 + i) (4 * k)) ≡ 10 + (i - 2 ^ k)
unfolding trailing fromle32
chain_pointers zero k pos le few = absurd (omega arith)
chain_pointers (suc zero) zero pos le few = refl
chain_pointers (suc zero) (suc k) pos le few = absurd (omega arith)
chain_pointers (suc (suc zero)) zero pos le few = refl
chain_pointers (suc (suc zero)) (suc zero) pos le few = refl
chain_pointers (suc (suc zero)) (suc (suc k)) pos le few = absurd (omega arith)
chain_pointers (suc (suc (suc zero))) zero pos le few = refl
chain_pointers (suc (suc (suc zero))) (suc k) pos le few = absurd (omega arith)
chain_pointers (suc (suc (suc (suc i)))) k pos le few = absurd (omega arith)

chain-IsSkipList : IsSkipList 40 (view none chain) (λ i. 10 + i) 3
chain-IsSkipList = record {
  from_two = λ i le. omega arith;
  on_device = λ i le. omega arith;
  pointers = chain_pointers;
}

ctz_find-Walks_example :
    Walks ram image
      (IsPosition (λ i. 10 + i) 512 1600)
      on_chain
      (ctz_find ram none 13 2000 1600 on_chain)
unfolding ctz_index popc
ctz_find-Walks_example =
    ctz_find-Walks ram image on_chain none (λ i. 10 + i) 2000 1600 ram-IsDevice ram-IsGeometry
      (omega arith) (omega arith) tt
      (record { is_cache = unused-IsCache; holds = λ named o h. absurd (omega arith) })
      (omega arith) (omega arith) chain-IsSkipList
