-- ===== src/Alloc/Visit.antt =====
-- A traversal that calls `lfs_alloc_lookahead` for each block of a list marks these blocks.
use littlefs.Prelude.{
  ℕ, ◌*◌, ◌/◌, ◌≤◌, ◌<◌, ◌≡◌, refl, ◌∙◌, ap, sym, arith, true, ◌==◌, ◌||◌, ◌&&◌, if◌then◌else◌,
  List, [], ◌∷◌, length, Bool-cases, ltb, ◌⊎◌, inl, inr,
}
use mathlib.Core.Path.{subst}
use littlefs.Exec.{M, Res, ok, err, fault, out_of_fuel, bind_res, zoom}
use littlefs.Lfs.{Free, Lfs}
use littlefs.Alloc.{is_used, in_buffer, mark_used, window_offset, alloc_lookahead}
use littlefs.Alloc.Bitmap.{is_used-mark_used, length-mark_used}
use littlefs.Alloc.Fresh.{Marks}

-- The block is one of the list.
abbrev pub Occurs : ℕ → List ℕ → Type 0
Occurs b [] = ⊥
Occurs b (x ∷ xs) = (b ≡ x) ⊎ Occurs b xs

-- The calls that a traversal makes, block after block.
unfoldable pub visit_all : {S : Type 0} → (ℕ → M S (Unit {0})) → List ℕ → M S (Unit {0})
visit_all f [] s = ok tt s
visit_all f (x ∷ xs) s = bind_res (f x s) (λ _. visit_all f xs)

-- The bitmap after one call.
unfoldable pub marked : ℕ → Free → ℕ → Free
marked count f b =
    let off = window_offset count f b in
    if ltb off f.size then record f { buffer = mark_used f.buffer off } else f

unfoldable pub marked_all : ℕ → List ℕ → Free → Free
marked_all count [] f = f
marked_all count (x ∷ xs) f = marked_all count xs (marked count f x)

abbrev Faults : {S : Type 0} → Res S (Unit {0}) → Type 0
Faults fault = Unit {0}
Faults other = ⊥

-- A call marks the block, or its word lies outside the buffer.
alloc_lookahead-marked :
    (count b : ℕ) (f : Free)
    → (alloc_lookahead count b f ≡ ok tt (marked count f b)) ⊎ (alloc_lookahead count b f ≡ fault)
unfolding alloc_lookahead marked
alloc_lookahead-marked count b f = elim (Bool-cases (ltb (window_offset count f b) f.size)) [
  | inl e ↦ rw e (elim (Bool-cases (in_buffer f.buffer (window_offset count f b))) [
    | inl inside ↦ rw inside (inl refl)
    | inr out ↦ rw out (inr refl)
  ])
  | inr e ↦ rw e (inl refl)
]

alloc_lookahead-ok :
    (count b : ℕ) (f : Free)
    → f.size ≤ 32 * length f.buffer
    → alloc_lookahead count b f ≡ ok tt (marked count f b)
unfolding alloc_lookahead marked in_buffer
alloc_lookahead-ok count b f h = elim (Bool-cases (ltb (window_offset count f b) f.size)) [
  | inl e ↦
      let inside : ltb (window_offset count f b / 32) (length f.buffer) ≡ true = ground arith in
      rw (e, inside) refl
  | inr e ↦ rw e refl
]

visit_all-marked_all :
    (count : ℕ) (xs : List ℕ) (f : Free)
    → (visit_all (alloc_lookahead count) xs f ≡ ok tt (marked_all count xs f))
      ⊎ (visit_all (alloc_lookahead count) xs f ≡ fault)
unfolding visit_all marked_all
visit_all-marked_all count [] f = inl refl
visit_all-marked_all count (x ∷ xs) f = elim (alloc_lookahead-marked count x f) [
  | inl e ↦ rw e (visit_all-marked_all count xs (marked count f x))
  | inr e ↦ rw e (inr refl)
]

pub marked-keeps :
    (count : ℕ) (f : Free) (b : ℕ)
    → (marked count f b ≡ record f { buffer = (marked count f b).buffer })
      × (length (marked count f b).buffer ≡ length f.buffer)
      × ((o : ℕ)
          → f.size ≤ 32 * length f.buffer
          → is_used (marked count f b).buffer o ≡ (
              ((window_offset count f b == o) && ltb (window_offset count f b) f.size)
              || is_used f.buffer o))
unfolding marked
marked-keeps count f b = elim (Bool-cases (ltb (window_offset count f b) f.size)) [
  | inl e ↦ rw e (
    refl,
    length-mark_used f.buffer (window_offset count f b),
    λ o h. is_used-mark_used f.buffer (window_offset count f b) o (ground arith) ∙ ground arith,
  )
  | inr e ↦ rw e (refl, refl, λ o h. ground arith)
]

marked_all-keeps :
    (count : ℕ) (xs : List ℕ) (f : Free)
    → (marked_all count xs f ≡ record f { buffer = (marked_all count xs f).buffer })
unfolding marked_all
marked_all-keeps count [] f = refl
marked_all-keeps count (x ∷ xs) f =
    let k = (marked-keeps count f x).0 in
    let b = (marked_all count xs (marked count f x)).buffer in
    marked_all-keeps count xs (marked count f x) ∙ ap (λ (g : Free). record g { buffer = b }) k

-- A mark stays.
marked_all-used :
    (count : ℕ) (xs : List ℕ) (f : Free) (o : ℕ)
    → f.size ≤ 32 * length f.buffer
    → is_used f.buffer o ≡ true
    → is_used (marked_all count xs f).buffer o ≡ true
unfolding marked_all
marked_all-used count [] f o h u = u
marked_all-used count (x ∷ xs) f o h u =
    let (k, len, used) = marked-keeps count f x in
    let size_eq : (marked count f x).size ≡ f.size = ap (λ (g : Free). g.size) k in
    marked_all-used count xs (marked count f x) o (omega (arith, len, size_eq))
      (used o h ∙ rw u (ground arith))

marked_all-Occurs :
    (count : ℕ) (xs : List ℕ) (f : Free) (b : ℕ)
    → f.size ≤ 32 * length f.buffer
    → window_offset count f b < f.size
    → Occurs b xs
    → is_used (marked_all count xs f).buffer (window_offset count f b) ≡ true
unfolding marked_all window_offset
marked_all-Occurs count [] f b h p none_there = absurd none_there
marked_all-Occurs count (x ∷ xs) f b h p (inl e) =
    let (k, len, used) = marked-keeps count f x in
    let size_eq : (marked count f x).size ≡ f.size = ap (λ (g : Free). g.size) k in
    marked_all-used count xs (marked count f x) (window_offset count f b)
      (omega (arith, len, size_eq)) (used (window_offset count f b) h ∙ rw e (ground arith))
marked_all-Occurs count (x ∷ xs) f b h p (inr there) =
    let (k, len, used) = marked-keeps count f x in
    let size_eq : (marked count f x).size ≡ f.size = ap (λ (g : Free). g.size) k in
    let off_eq : (marked count f x).off ≡ f.off = ap (λ (g : Free). g.off) k in
    let w : window_offset count (marked count f x) b ≡ window_offset count f b = rw off_eq refl in
    let u =
      marked_all-Occurs count xs (marked count f x) b (omega (arith, len, size_eq))
        (omega (arith, w, size_eq)) there in
    rw (sym w) u

-- A traversal that visits the blocks of a list.
abbrev pub fill_from : {D : Type 0} → ℕ → List ℕ → M (Lfs D) (Unit {0})
fill_from count xs =
    zoom (λ s. s.free) (λ s f. record s { free = f }) (visit_all (alloc_lookahead count) xs)

abbrev pub state_of : {D : Type 0} → Lfs D → Res (Lfs D) (Unit {0}) → Lfs D
state_of s (ok x t) = t
state_of s (err e t) = s
state_of s fault = s
state_of s out_of_fuel = s

abbrev Returns : {D : Type 0} → Res (Lfs D) (Unit {0}) → Type 0
Returns (ok x t) = Unit {0}
Returns (err e t) = ⊥
Returns fault = ⊥
Returns out_of_fuel = ⊥

fill_from-eq :
    {D : Type 0}
    → (count : ℕ) (xs : List ℕ) (s : Lfs D)
    → (fill_from count xs s ≡ ok tt (record s { free = marked_all count xs s.free }))
      ⊎ (fill_from count xs s ≡ fault)
fill_from-eq count xs s = elim (visit_all-marked_all count xs s.free) [
  | inl e ↦ rw e (inl refl)
  | inr e ↦ rw e (inr refl)
]

-- The state that it leaves, if it returns one.
pub fill_from-state :
    {D : Type 0}
    → (count : ℕ) (xs : List ℕ) (s t : Lfs D) → fill_from count xs s ≡ ok tt t
    → record s { free = marked_all count xs s.free } ≡ t
fill_from-state count xs s t e = elim (fill_from-eq count xs s) [
  | inl q ↦ ap (state_of s) (sym q ∙ e)
  | inr q ↦ absurd (subst Returns (sym e ∙ q) tt)
]

marked_all-length :
    (count : ℕ) (xs : List ℕ) (f : Free) → length (marked_all count xs f).buffer ≡ length f.buffer
unfolding marked_all
marked_all-length count [] f = refl
marked_all-length count (x ∷ xs) f =
    marked_all-length count xs (marked count f x) ∙ (marked-keeps count f x).1

visit_all-ok :
    (count : ℕ) (xs : List ℕ) (f : Free)
    → f.size ≤ 32 * length f.buffer
    → visit_all (alloc_lookahead count) xs f ≡ ok tt (marked_all count xs f)
unfolding visit_all marked_all
visit_all-ok count [] f h = refl
visit_all-ok count (x ∷ xs) f h =
    let (k, len, used) = marked-keeps count f x in
    let size_eq : (marked count f x).size ≡ f.size = ap (λ (g : Free). g.size) k in
    rw (alloc_lookahead-ok count x f h)
      (visit_all-ok count xs (marked count f x) (omega (arith, len, size_eq)))

pub fill_from-laws :
    {D : Type 0}
    → (count : ℕ) (xs : List ℕ)
    → Marks {D = D} count (fill_from count xs) (λ s. Unit {0}) (λ b. Occurs b xs)
fill_from-laws {D} count xs = record {
  good_free = λ s f g. tt;
  ends = λ s g e. elim (fill_from-eq count xs s) [
    | inl q ↦ absurd (subst Returns (sym q ∙ e) tt)
    | inr q ↦ absurd (subst Faults (sym q ∙ e) tt)
  ];
  good = λ s t g e. tt;
  good_err = λ s x t g e. tt;
  keeps = λ s t g e. rw (← fill_from-state count xs s t e) (marked_all-keeps count xs s.free);
  keeps_length =
      λ s t g e. rw (← fill_from-state count xs s t e) (marked_all-length count xs s.free);
  marks = λ s t b g e u h len p.
      rw (← fill_from-state count xs s t e) (marked_all-Occurs count xs s.free b len p u);
}

-- Calling `lfs_alloc_lookahead` for every block of a list, one after the other, gives a traversal
-- as the allocator needs it, with the blocks of the list as those in use: it ends, and where it
-- succeeds it has changed only the bitmap, not its length, and has marked each of these blocks that
-- lies in the window, if the bitmap had a bit for each block of the window. From a state whose
-- bitmap has that, it succeeds, with no error and no fault.
pub fill_from-Marks :
    {D : Type 0}
    → (count : ℕ) (xs : List ℕ) (s : Lfs D) → s.free.size ≤ 32 * length s.free.buffer
    → Marks {D = D} count (fill_from count xs) (λ s. Unit {0}) (λ b. Occurs b xs)
      × ((t : Lfs D) × (fill_from count xs s ≡ ok tt t))
fill_from-Marks count xs s room = (
  fill_from-laws count xs,
  (record s { free = marked_all count xs s.free }, rw (visit_all-ok count xs s.free room) refl),
)
