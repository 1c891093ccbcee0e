-- ===== src/Tests/Bd.antt =====
-- Reads of two concrete devices, and the theorems on reading at them.
use littlefs.Prelude.{
  ℕ, zero, suc, ◌+◌, ◌-◌, ◌%◌, ◌<◌, ◌≤◌, ◌≡◌, refl, ap, sym, ◌∙◌, arith, none, some, Option, List,
  [], ◌∷◌, length, get_or, take, drop, replicate,
}
use littlefs.Util.{lfs_min, aligndown, alignup}
use littlefs.Exec.{Error, io, Res, ok, err}
use littlefs.Config.{Config, Cache, Bd, block_null}
use littlefs.Bd.{
  bd_read, read_loop, from_pcache, from_rcache, consult_const, consult, cache_load, cache_fill,
  serve, mem_read,
}
use littlefs.Bd.View.{IsGeometry, IsDevice, IsCache}
use littlefs.Bd.Reads.{Reads}
use littlefs.Bd.Read.{bd_read-Reads}
use littlefs.Bd.Load.{load_len}
use littlefs.Bd.Stale.{stale, bd_read-after_failure}

-- `n` bytes that count up.
abbrev run : ℕ → ℕ → List ℕ
run start zero = []
run start (suc n) = (start % 256) ∷ run (suc start) n

length-run : (start n : ℕ) → length (run start n) ≡ n
length-run start zero = refl
length-run start (suc n) = ap suc (length-run (suc start) n)

get_or-run : (start n j : ℕ) → j < n → get_or (run start n) j 0 ≡ (start + j) % 256
get_or-run start zero j h = absurd (omega arith)
get_or-run start (suc n) zero h = omega arith
get_or-run start (suc n) (suc j) h =
    let e : suc start + j ≡ start + suc j = omega arith in
    rw (get_or-run (suc start) n j (omega arith), e) refl

-- A device whose byte at `o` of block `b` is `b + o`, and one whose reads fail when they have
-- written the first two bytes.
abbrev device : (ℕ → ℕ → ℕ → Option Error × List ℕ) → Config (Unit {0})
device answer = record {
  dev_read = λ b o n d. (let r = answer b o n in (r.0, r.1, d));
  dev_prog = λ b o bytes d. (none, d);
  dev_erase = λ b d. (none, d);
  dev_sync = λ d. (none, d);
  read_size = 16;
  prog_size = 16;
  block_size = 512;
  block_count = 40;
  cache_size = 64;
  lookahead_size = 8;
  block_cycles = 500;
  cfg_name_max = 255;
  cfg_file_max = 2147483647;
  cfg_attr_max = 1022;
}

abbrev counting : Config (Unit {0})
counting = device λ b o n. (none, run (b + o) n)

abbrev broken : Config (Unit {0})
broken = device λ b o n. (some io, 0 ∷ 0 ∷ [])

abbrev contents : Unit {0} → ℕ → ℕ → ℕ
contents d b o = (b + o) % 256

device-IsGeometry : (answer : ℕ → ℕ → ℕ → Option Error × List ℕ) → IsGeometry (device answer)
device-IsGeometry answer = record {
  read_pos = omega arith;
  read_multiple = omega arith;
  cache_pos = omega arith;
  read_le = omega arith;
  block_le = omega arith;
}

counting-IsDevice : IsDevice counting contents
counting-IsDevice = record {
  reads = λ b o n d bytes d' h.
      (let e : run (b + o) n ≡ bytes = ap (λ (r : Option Error × List ℕ × Unit {0}). r.1) h in
        (
          rw (sym e) (length-run (b + o) n),
          λ j lt. rw (sym e) (get_or-run (b + o) n j lt ∙ ap (λ (k : ℕ). k % 256) (omega arith)),
          λ c k. refl,
        ));
  fails = λ b o n d e left d' h c k. refl;
}

abbrev unused : Cache
unused = record { block = block_null; off = 0; size = 0; buffer = replicate 64 0xff }

abbrev start : Bd (Unit {0})
start = record { rcache = unused; pcache = unused; dev = tt }

unused-IsCache : IsCache 64 unused
unused-IsCache = record { fits = omega arith; whole = refl; small = omega arith }

-- The program cache holds two bytes of the region.
abbrev waiting : Cache
waiting = record unused { block = 3; off = 32; size = 2 }

waiting-IsCache : IsCache 64 waiting
waiting-IsCache = record { fits = omega arith; whole = refl; small = omega arith }

abbrev bytes_of : Res (Bd (Unit {0})) (List ℕ) → List ℕ
bytes_of (ok bytes s) = bytes
bytes_of other = []

bd_read_check :
    bytes_of (bd_read counting (some waiting) 4 3 30 6 start) ≡ 33 ∷ 34 ∷ 255 ∷ 255 ∷ 37 ∷ 38 ∷ []
unfolding bd_read read_loop from_pcache from_rcache consult_const consult cache_load cache_fill
    serve mem_read lfs_min aligndown alignup
bd_read_check = refl

bd_read-Reads_example :
    Reads counting contents
      (some waiting)
      start
      3
      30
      6
      (bd_read counting (some waiting) 4 3 30 6 start)
bd_read-Reads_example =
    bd_read-Reads counting contents counting-IsDevice (device-IsGeometry _) (some waiting) 4 3
      (omega arith) (omega arith) (omega arith) waiting-IsCache start 30 6
      (record { is_cache = unused-IsCache; holds = λ named o h. absurd (omega arith) })
      (omega arith) (omega arith)

long_enough : 30 + 6 ≤ aligndown 30 16 + load_len 4 30 16 512 64
unfolding load_len lfs_min aligndown alignup
long_enough = omega arith

long_enough_for : 2 ≤ load_len 4 30 16 512 64
unfolding load_len lfs_min aligndown alignup
long_enough_for = omega arith

bd_read-after_failure_example :
    (bd_read broken none 4 3 30 6 start ≡ err io (stale broken 4 3 30 6 start (0 ∷ 0 ∷ []) tt))
    × (bd_read broken none 4 3 30 6 (stale broken 4 3 30 6 start (0 ∷ 0 ∷ []) tt)
        ≡ ok
            (take 6 (drop (30 - aligndown 30 16) (0 ∷ 0 ∷ replicate 62 0xff)))
            (stale broken 4 3 30 6 start (0 ∷ 0 ∷ []) tt))
bd_read-after_failure_example =
    bd_read-after_failure broken 4 3 30 6 start io (0 ∷ 0 ∷ []) tt (device-IsGeometry _)
      (omega arith) (omega arith) (omega arith) (omega arith) (omega arith) (omega arith)
      (omega arith) long_enough refl long_enough_for refl
