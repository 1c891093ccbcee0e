-- ===== src/Migrate/Fetched.antt =====
-- What `lfs1_dir_fetch` leaves, whatever the blocks hold.
use littlefs.Prelude.{
  ℕ, ◌+◌, ◌-◌, List, ◌≤◌, ◌≡◌, refl, arith, Bool, true, false, Bool-cases, inl, inr, ◌⊎◌, ◌==◌,
}
use littlefs.Exec.{
  corrupt, Res, ok, err, fault, out_of_fuel, M, Try, got, failed, bind_res, zoom_res, attempt,
}
use littlefs.Util.{crc}
use littlefs.Config.{Config, block_null}
use littlefs.Tag.{Pair, pair_swap}
use littlefs.Lfs.{Lfs}
use littlefs.Migrate.Disk1.{Dir1, DiskDir1, dir1_bytes, size1, dir1_fromle32, dir1_tole32}
use littlefs.Migrate.Fetch.{
  dir1_valid, is_passed, take_sum, take_head, take_read, fetch_round, dir1_fetch, bd1_read, bd1_crc,
}

-- A statement about the result and the state of a call that succeeds.
abbrev pub Holds : {S A : Type 0} → (A → S → Type 0) → Res S A → Type 0
Holds Q (ok a s) = Q a s
Holds Q (err e s) = Unit {0}
Holds Q fault = Unit {0}
Holds Q out_of_fuel = Unit {0}

module _ {S A B : Type 0} (P : A → S → Type 0) (Q : B → S → Type 0) where
  pub Holds-bind :
      (r : Res S A) (f : A → M S B)
      → Holds P r
      → ((a : A) (s : S) → P a s → Holds Q (f a s))
      → Holds Q (bind_res r f)
  Holds-bind (ok a s) f p k = k a s p
  Holds-bind (err e s) f p k = tt
  Holds-bind fault f p k = tt
  Holds-bind out_of_fuel f p k = tt

-- A call that works on the filesystem alone keeps the directory.
pub Holds-in_lfs1 :
    {D A B : Type 0} (Q : B → Lfs D × Dir1 → Type 0) (dir : Dir1) (r : Res (Lfs D) A)
    (f : A → M (Lfs D × Dir1) B)
    → ((a : A) (s : Lfs D) → Holds Q (f a (s, dir)))
    → Holds Q (bind_res (zoom_res {S = Lfs D × Dir1} (λ l. (l, dir)) r) f)
Holds-in_lfs1 Q dir (ok a s) f k = k a s
Holds-in_lfs1 Q dir (err e s) f k = tt
Holds-in_lfs1 Q dir fault f k = tt
Holds-in_lfs1 Q dir out_of_fuel f k = tt

-- A directory of a pair, with room for its own structure and a checksum in a block.
pub record IsFetched (block_size : ℕ) (pair : Pair) (dir : Dir1) : Type 0 where
  pub of_pair : (dir.pair ≡ pair) ⊎ (dir.pair ≡ pair_swap pair)
  pub starts : dir.off ≡ dir1_bytes
  pub least : dir1_bytes + 4 ≤ size1 dir.d
  pub most : size1 dir.d ≤ block_size

module _ {D : Type 0} (cfg : Config D) (pair : Pair) where
  open cfg use {block_size}

  -- What the loop over the blocks keeps.
  abbrev pub Valid : Bool → Lfs D × Dir1 → Type 0
  Valid valid w = valid ≡ true → IsFetched block_size pair w.1

  dir1_valid-IsFetched :
      (valid : Bool) (tpair : Pair) (test : DiskDir1) (dir : Dir1)
      → (tpair ≡ pair) ⊎ (tpair ≡ pair_swap pair)
      → is_passed cfg valid test dir ≡ false
      → IsFetched block_size pair (dir1_valid cfg tpair test dir)
  unfolding dir1_valid is_passed
  dir1_valid-IsFetched valid tpair test dir p h = record {
    of_pair = p;
    starts = refl;
    least = ground arith;
    most = ground arith;
  }

  -- An error of a read other than a corrupt block ends the fetch.
  module _ (valid : Bool) (tpair : Pair) (of_pair : (tpair ≡ pair) ⊎ (tpair ≡ pair_swap pair)) where
    take_sum-Valid :
        (s : Lfs D) (dir : Dir1) (test : DiskDir1) (sum : Try ℕ)
        → Valid valid (s, dir)
        → is_passed cfg valid test dir ≡ false
        → Holds Valid (take_sum cfg valid tpair test sum (s, dir))
    unfolding take_sum
    take_sum-Valid s dir test (failed corrupt) v h = v
    take_sum-Valid s dir test (failed e) v h = tt
    take_sum-Valid s dir test (got c) v h = elim (Bool-cases (c == 0)) [
      | inl good ↦ rw good (λ _. dir1_valid-IsFetched valid tpair test dir of_pair h)
      | inr bad ↦ rw bad v
    ]

    take_head-Valid :
        (s : Lfs D) (dir : Dir1) (test : DiskDir1)
        → Valid valid (s, dir)
        → Holds Valid (take_head cfg valid tpair test (s, dir))
    unfolding take_head
    take_head-Valid s dir test v = elim (Bool-cases (is_passed cfg valid test dir)) [
      | inl passed ↦ rw passed v
      | inr taken ↦ rw taken (
          Holds-in_lfs1 Valid dir
            (attempt
              (bd1_crc cfg tpair.0 dir1_bytes (size1 test - dir1_bytes)
                (crc block_null (dir1_tole32 test)))
              s)
            (take_sum cfg valid tpair test) λ sum s'. take_sum-Valid s' dir test sum v taken)
    ]

    take_read-Valid :
        (s : Lfs D) (dir : Dir1) (read : Try (List ℕ))
        → Valid valid (s, dir)
        → Holds Valid (take_read cfg valid tpair read (s, dir))
    unfolding take_read
    take_read-Valid s dir (failed corrupt) v = v
    take_read-Valid s dir (failed e) v = tt
    take_read-Valid s dir (got bytes) v = take_head-Valid s dir (dir1_fromle32 bytes) v

    fetch_round-Valid :
        (s : Lfs D) (dir : Dir1)
        → Valid valid (s, dir)
        → Holds Valid (fetch_round cfg valid tpair (s, dir))
    unfolding fetch_round
    fetch_round-Valid s dir v =
        Holds-in_lfs1 Valid dir (attempt (bd1_read cfg tpair.0 0 dir1_bytes) s)
          (take_read cfg valid tpair) λ read s'. take_read-Valid s' dir read v

  -- If `lfs1_dir_fetch` succeeds, whatever the device returns and the structure held before: the
  -- pair that it leaves is the given one or that one swapped, the offset is that of the first
  -- entry, and the size, without its top bit, is at least 20 and at most the size of a block.
  pub dir1_fetch-IsFetched :
      (s : Lfs D) (dir : Dir1)
      → Holds (λ _ w. IsFetched block_size pair w.1) (dir1_fetch cfg pair (s, dir))
  unfolding dir1_fetch
  dir1_fetch-IsFetched s dir =
      Holds-bind Valid (λ _ w. IsFetched block_size pair w.1) (fetch_round cfg false pair (s, dir))
        _ (fetch_round-Valid false pair (inl refl) s dir λ impossible. absurd (ground arith))
        λ first w v.
          Holds-bind Valid (λ _ w'. IsFetched block_size pair w'.1)
            (fetch_round cfg first (pair_swap pair) w) _
            (fetch_round-Valid first (pair_swap pair) (inr refl) w.0 w.1 v)
            λ second w' v'. elim (Bool-cases second) [
              | inl good ↦ rw good (v' good)
              | inr bad ↦ rw bad tt
            ]
