-- ===== src/Gstate/Laws.antt =====
-- The global state as a group under exclusive or, and what the functions that prepare a move or an
-- orphan leave in it.
use littlefs.Prelude.{
  ℕ, ◌+◌, ◌-◌, ◌*◌, ◌/◌, ◌%◌, ◌^◌, ◌<◌, ◌≡◌, ◌∙◌, arith, bit_and, bit_xor, true, false, not, ◌==◌,
  if◌then◌else◌, xor_cancel, xor_self, xor-zero, xor_cancel_left, xor_swap, masked_replace, add32,
  ◌<<◌,
}
use littlefs.Tag.{Pair, mktag, tag_size, tag_type3, tag_id, pair_overlap}
use littlefs.Tag.Kind
use littlefs.Tag.Laws.{mktag_sum, fields, tag_size_lem, tag_type1_lem}
use littlefs.Gstate.{
  Gstate, gstate_xor, gstate_hasorphans, gstate_hasmove, gstate_hasmovehere, gstate_xormove,
  Globals, fs_preporphans, fs_prepmove,
}

-- What is xored in twice is gone.
pub gstate_xor_cancel : (a b : Gstate) → gstate_xor (gstate_xor a b) b ≡ a
unfolding gstate_xor
gstate_xor_cancel a b = λ i. record {
  tag = xor_cancel a.tag b.tag i;
  pair = (xor_cancel a.pair.0 b.pair.0 i, xor_cancel a.pair.1 b.pair.1 i);
}

xor_balance : (p d x : ℕ) → bit_xor (bit_xor p x) (bit_xor d x) ≡ bit_xor p d
xor_balance p d x = xor_swap p x d x ∙ rw (xor_self x) (xor-zero (bit_xor p d))

-- `lfs_fs_prepmove`, whatever the id and the pair, keeps the exclusive or of the pending state and
-- the delta.
pub fs_prepmove_balance :
    (id : ℕ) (pair : Pair) (g : Globals)
    → gstate_xor (fs_prepmove id pair g).gpending (fs_prepmove id pair g).gdelta
      ≡ gstate_xor g.gpending g.gdelta
unfolding fs_prepmove gstate_xormove gstate_xor
fs_prepmove_balance id pair g =
    let here = not (id == 0x3ff) in
    let p = g.gpending in
    λ i. record {
      tag =
          xor_balance p.tag g.gdelta.tag
            (bit_and (mktag 0x7ff 0x3ff 0)
              (bit_xor p.tag (if here then mktag Kind.delete id 0 else 0)))
            i;
      pair = (
        xor_balance p.pair.0 g.gdelta.pair.0 (bit_xor p.pair.0 (if here then pair.0 else 0)) i,
        xor_balance p.pair.1 g.gdelta.pair.1 (bit_xor p.pair.1 (if here then pair.1 else 0)) i,
      );
    }

-- The tag that a move leaves, as a number.
xormove_tag :
    (a : Gstate) (id : ℕ) (pair : Pair)
    → id < 0x3ff
    → (gstate_xormove a a id pair).tag
      ≡ (a.tag / 2 ^ 10 / 2 ^ 21 * 2 ^ 21 + (0x4ff * 2 ^ 10 + id)) * 2 ^ 10 + a.tag % 2 ^ 10
unfolding gstate_xormove
xormove_tag a id pair h =
    let here : not (id == 0x3ff) ≡ true = ground arith in
    let mask : mktag 0x7ff 0x3ff 0 ≡ (2 ^ 21 - 1) * 2 ^ 10 =
      mktag_sum 0x7ff 0x3ff 0 (omega arith) (omega arith) (omega arith) in
    rw
      (
        here,
        mask,
        masked_replace 21 10 a.tag (mktag Kind.delete id 0),
        mktag_sum Kind.delete id 0 (omega arith) (omega arith) (omega arith),
      )
      (omega arith)

pair-eq : (p q : Pair) → p.0 ≡ q.0 → p.1 ≡ q.1 → p ≡ q
pair-eq p q e f = λ i. (e i, f i)

xormove_pair :
    (a : Gstate) (id : ℕ) (pair : Pair) → id < 0x3ff → (gstate_xormove a a id pair).pair ≡ pair
unfolding gstate_xormove
xormove_pair a id pair h =
    let here : not (id == 0x3ff) ≡ true = ground arith in
    rw here (pair-eq _ pair (xor_cancel_left a.pair.0 pair.0) (xor_cancel_left a.pair.1 pair.1))

pair_overlap_self : (p : Pair) → pair_overlap p p ≡ true
unfolding pair_overlap
pair_overlap_self (a, b) = ground arith

-- `lfs_gstate_xormove` of a state with itself, for an id below 0x3ff, whatever 32-bit tag and
-- whatever pair it had: the state then has the type of a delete, that id and the given pair, its
-- count of orphans is what it was, and `lfs_gstate_hasmovehere` holds for that pair.
pub xormove_self :
    (a : Gstate) (id : ℕ) (pair : Pair)
    → a.tag < 2 ^ 32
    → id < 0x3ff
    → let m = gstate_xormove a a id pair in
      (tag_type3 m.tag ≡ Kind.delete)
      × (tag_id m.tag ≡ id)
      × (tag_size m.tag ≡ tag_size a.tag)
      × (m.pair ≡ pair)
      × (gstate_hasmovehere m pair ≡ true)
unfolding gstate_hasmovehere
xormove_self a id pair h hid =
    let e = xormove_tag a id pair hid in
    let q = xormove_pair a id pair hid in
    (
      omega (fields, e),
      omega (fields, e),
      omega (fields, e),
      q,
      rw (q, pair_overlap_self pair)
          (ground (arith, tag_type1_lem (gstate_xormove a a id pair).tag, e)),
    )

-- `lfs_gstate_xormove` of a state with a 32-bit tag with itself, for the id 0x3ff: no move is left
-- and the pair is zero, and the count of orphans is what it was.
pub xormove_clear :
    (a : Gstate) (pair : Pair)
    → a.tag < 2 ^ 32
    → let m = gstate_xormove a a 0x3ff pair in
      (gstate_hasmove m ≡ false) × (tag_size m.tag ≡ tag_size a.tag) × (m.pair ≡ (0, 0))
unfolding gstate_xormove gstate_hasmove
xormove_clear a pair h =
    let mask : mktag 0x7ff 0x3ff 0 ≡ (2 ^ 21 - 1) * 2 ^ 10 =
      mktag_sum 0x7ff 0x3ff 0 (omega arith) (omega arith) (omega arith) in
    let e : (gstate_xormove a a 0x3ff pair).tag
        ≡ (a.tag / 2 ^ 10 / 2 ^ 21 * 2 ^ 21) * 2 ^ 10 + a.tag % 2 ^ 10 =
      rw mask (masked_replace 21 10 a.tag 0 ∙ omega arith) in
    (
      ground (arith, tag_type1_lem (gstate_xormove a a 0x3ff pair).tag, e),
      omega (fields, e),
      pair-eq _ (0, 0) (xor_cancel_left a.pair.0 0) (xor_cancel_left a.pair.1 0),
    )

-- `lfs_fs_preporphans` adds its argument to the pending tag, modulo 2^32, and sets the top bit of
-- the sum if the low ten bits, the count of orphans, are not 0, and clears it if they are.
pub fs_preporphans_tag :
    (orphans : ℕ) (g : Globals)
    → let t = add32 g.gpending.tag orphans in
      (fs_preporphans orphans g).gpending.tag ≡ (if t % 2 ^ 10 == 0 then 0 else 2 ^ 31) + t % 2 ^ 31
unfolding fs_preporphans gstate_hasorphans
fs_preporphans_tag orphans g =
    let t = add32 g.gpending.tag orphans in
    let mask : mktag 0x800 0 0 ≡ (2 ^ 1 - 1) * 2 ^ 31 =
      mktag_sum 0x800 0 0 (omega arith) (omega arith) (omega arith) in
    let v = (if not (tag_size t == 0) then 1 else 0) << 31 in
    rw (mask, masked_replace 1 31 t v) (ground (arith, tag_size_lem t))

-- After `lfs_fs_preporphans` the exclusive or of the pending state and the delta is that of the
-- pending state with the argument added to its tag, modulo 2^32, and the old delta.
pub fs_preporphans_balance :
    (orphans : ℕ) (g : Globals)
    → let p = record g.gpending { tag = add32 g.gpending.tag orphans } in
      gstate_xor (fs_preporphans orphans g).gpending (fs_preporphans orphans g).gdelta
      ≡ gstate_xor p g.gdelta
unfolding fs_preporphans gstate_xor
fs_preporphans_balance orphans g =
    let p = record g.gpending { tag = add32 g.gpending.tag orphans } in
    λ i. record {
      tag =
          xor_balance p.tag g.gdelta.tag
            (bit_and (mktag 0x800 0 0)
              (bit_xor p.tag ((if gstate_hasorphans p then 1 else 0) << 31)))
            i;
      pair = (bit_xor p.pair.0 g.gdelta.pair.0, bit_xor p.pair.1 g.gdelta.pair.1);
    }
