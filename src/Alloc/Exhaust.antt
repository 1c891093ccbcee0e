-- ===== src/Alloc/Exhaust.antt =====
-- The blocks that `lfs_alloc` has looked at since the last ack.
use littlefs.Prelude.{
  some, ℕ, zero, suc, ◌+◌, ◌-◌, ◌*◌, ◌/◌, ◌%◌, ◌≤◌, ◌<◌, ◌≡◌, refl, ap, sym, ◌∙◌, arith, true,
  false, length, get_or, replicate, add32, bit_and, and_comm, and-zero, ◌<<◌,
}
use mathlib.Core.Path.{subst}
use native.Mathlib.Nat.{mod-eq_of_lt, mod-eq-sub-mod, mod-add-mod}
use native.Mathlib.Decide.{dec_lt}
use littlefs.Exec.{Error, failed, M, ok}
use littlefs.Lfs.{Free, Lfs}
use littlefs.Alloc.{is_used, next_window}
use littlefs.Alloc.Window.{IsFree, Finds}

-- A clear bitmap in which the traversal sets bits, sets those of blocks in use only.
pub record MarksOnly {D : Type 0} (count : ℕ) (traverse : M (Lfs D) (Unit {0}))
    (Good : Lfs D → Type 0) (InUse : ℕ → Type 0) : Type 0 where
  pub only :
      (s t : Lfs D) (o : ℕ)
      → Good s
      → traverse s ≡ ok tt t
      → IsFree count s.free
      → s.free.size ≤ 32 * length s.free.buffer
      → ((k : ℕ) → is_used s.free.buffer k ≡ false)
      → o < s.free.size
      → is_used t.free.buffer o ≡ true
      → InUse ((s.free.off + o) % count)

-- The bits of the part of the window not searched yet are set for blocks in use only.
pub record IsExact (count : ℕ) (InUse : ℕ → Type 0) (f : Free) : Type 0 where
  pub exact :
      (o : ℕ) → f.i ≤ o → o < f.size → is_used f.buffer o ≡ true → InUse ((f.off + o) % count)

-- The blocks from `start` to the position of the search are in use: those looked at since the ack.
pub record IsPassed (count : ℕ) (InUse : ℕ → Type 0) (start : ℕ) (f : Free) : Type 0 where
  pub passed : (j : ℕ) → j + f.ack < count → InUse ((start + j) % count)
  pub position : (start + (count - f.ack)) % count ≡ (f.off + f.i) % count

get_or-replicate : (n k : ℕ) → get_or (replicate {A = ℕ} n 0) k 0 ≡ 0
get_or-replicate zero k = refl
get_or-replicate (suc n) zero = refl
get_or-replicate (suc n) (suc k) = get_or-replicate n k

is_used-clear : (n o : ℕ) → is_used (replicate {A = ℕ} n 0) o ≡ false
unfolding is_used
is_used-clear n o =
    let mask = 1 << (o % 32) in
    let nothing : bit_and 0 mask ≡ 0 = and_comm 0 mask ∙ and-zero mask in
    rw (get_or-replicate n (o / 32), nothing) refl

pub next_window-clear :
    (count lookahead : ℕ) (f : Free) (k : ℕ)
    → is_used (next_window count lookahead f).buffer k ≡ false
unfolding next_window
next_window-clear count lookahead f k = is_used-clear (lookahead / 4) k

same_residue : (a b k count : ℕ) → a % count ≡ b % count → (a + k) % count ≡ (b + k) % count
same_residue a b k count e =
    sym (mod-add-mod a count k) ∙ ap (λ (t : ℕ). (t + k) % count) e ∙ mod-add-mod b count k

module _ {count : ℕ} {InUse : ℕ → Type 0} where
  -- The search comes to the end of a window.
  pub IsPassed-scan :
      (f g : Free) (e : Error) (start : ℕ)
      → IsFree count f
      → IsExact count InUse f
      → IsPassed count InUse start f
      → Finds count f (some (failed e, g))
      → IsPassed count InUse start g
  IsPassed-scan f g e start v x p (w, later, ended, all) = record {
    passed = λ j h. elim (dec_lt (j + f.ack) count) [
      | yes old ↦ p.passed j old
      | no new ↦
          let m = j + f.ack - count in
          let used =
            x.exact (f.i + m) (omega arith) (omega (arith, later.ack_eq))
              (all (f.i + m) (omega arith) (omega (arith, later.ack_eq))) in
          let e : start + j ≡ start + (count - f.ack) + m = omega (arith, v.ack_le) in
          let e' : f.off + f.i + m ≡ f.off + (f.i + m) = omega arith in
          subst InUse
            (sym (
              ap (λ (t : ℕ). t % count) e
              ∙ same_residue (start + (count - f.ack)) (f.off + f.i) m count p.position
              ∙ ap (λ (t : ℕ). t % count) e'))
            used
    ];
    position =
        (let m = f.size - f.i in
          let e : start + (count - g.ack) ≡ start + (count - f.ack) + m =
            omega (arith, later.ack_eq, v.ack_le, v.i_le) in
          let e' : f.off + f.i + m ≡ g.off + g.i = omega (arith, later.off_eq, v.i_le) in
          ap (λ (t : ℕ). t % count) e
          ∙ same_residue (start + (count - f.ack)) (f.off + f.i) m count p.position
          ∙ ap (λ (t : ℕ). t % count) e');
  }

  pub IsPassed-next :
      (f : Free) (start lookahead : ℕ)
      → IsFree count f
      → f.i ≡ f.size
      → IsPassed count InUse start f
      → IsPassed count InUse start (next_window count lookahead f)
  unfolding next_window
  IsPassed-next f start lookahead v ended p = record {
    passed = p.passed;
    position =
        (let e : f.off + f.i ≡ f.off + f.size = omega arith in
          let e' : add32 f.off f.size ≡ f.off + f.size =
            omega (arith, v.off_lt, v.size_le, v.count_le) in
          p.position
          ∙ ap (λ (t : ℕ). t % count) (e ∙ omega (arith, e'))
          ∙ sym (mod-add-mod (add32 f.off f.size) count 0));
  }

  -- All blocks have been looked at.
  pub all_passed :
      (f : Free) (start : ℕ)
      → start < count
      → f.ack ≡ 0
      → IsPassed count InUse start f
      → (b : ℕ) → b < count
      → InUse b
  all_passed f start lt done p b h = elim (dec_lt b start) [
    | yes before ↦
        let e : start + (b + count - start) ≡ b + count = omega arith in
        let e' : b + count - count ≡ b = omega arith in
        subst InUse
          (ap (λ (t : ℕ). t % count) e
            ∙ mod-eq-sub-mod (omega arith)
            ∙ ap (λ (t : ℕ). t % count) e'
            ∙ mod-eq_of_lt h)
          (p.passed (b + count - start) (omega arith))
    | no behind ↦
        let e : start + (b - start) ≡ b = omega arith in
        subst InUse (ap (λ (t : ℕ). t % count) e ∙ mod-eq_of_lt h)
          (p.passed (b - start) (omega arith))
  ]
