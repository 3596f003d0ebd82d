-- ===== src/Heaps/Release.antt =====
-- `FreeOnHeap` of kernel/source/memory/heaps.c against the insertion of a block into the list of free
-- blocks by address, merged with its neighbours.
use star_struck.Base.{
  ℕ, zero, suc, ◌+◌, ◌<◌, ◌≡◌, refl, ◌∙◌, ap, Bool, true, false, Bool-cases, inl, inr, ltb, le→ltb,
  lt→ltb, ◌==◌, ◌||◌, if◌then◌else◌, List, [], ◌∷◌, ◌++◌, length, arith, ok,
}
use star_struck.Heaps.State.{HeapBlock, null}
use star_struck.Heaps.Free.{find_before}
use star_struck.Heaps.Chain.{Span, Chain, Below, Away}
use star_struck.Heaps.Merge.{join}

-- The block comes before the first one of the list.
abbrev pub precedes : ℕ → List Span → Bool
precedes b [] = true
precedes b (y ∷ ys) = ltb b y.0

-- The free blocks with one more: in its place by address, and merged with those that touch it.
unfoldable pub release : Span → List Span → List Span
release x [] = x ∷ []
release x (y ∷ ys) =
    let rest = release x ys in
    if ltb x.0 y.0
    then join x (y ∷ ys)
    else if precedes x.0 ys
    then join y (join x ys)
    else y ∷ rest

abbrev pub total : List Span → ℕ
total [] = 0
total (x ∷ xs) = x.1 + total xs

total-join : (x : Span) (ys : List Span) → total (join x ys) ≡ x.1 + total ys
unfolding join
total-join x [] = refl
total-join x (y ∷ ys) = ground arith

pub total-release : (x : Span) (ys : List Span) → total (release x ys) ≡ x.1 + total ys
unfolding release
total-release x [] = refl
total-release x (y ∷ ys) =
    ground
      (arith, total-release x ys, total-join x (y ∷ ys), total-join y (join x ys), total-join x ys)

pub Below-precedes : (b : ℕ) (ys : List Span) → precedes b ys ≡ true → Below b ys
Below-precedes b [] h = tt
Below-precedes b (y ∷ ys) h = ground arith

pub release-front : (x : Span) (xs : List Span) → Below x.0 xs → release x xs ≡ join x xs
unfolding release join
release-front x [] below = refl
release-front x (y ∷ ys) below = let e = lt→ltb x.0 y.0 below in rw e refl

release-join :
    (x y : Span) (ys : List Span)
    → ltb x.0 y.0 ≡ false
    → precedes x.0 ys ≡ true
    → release x (y ∷ ys) ≡ join y (join x ys)
unfolding release
release-join x y ys e p = rw (e, p) refl

release-cons :
    (x y : Span) (ys : List Span)
    → ltb x.0 y.0 ≡ false
    → precedes x.0 ys ≡ false
    → release x (y ∷ ys) ≡ y ∷ release x ys
unfolding release
release-cons x y ys e p = rw (e, p) refl

-- Where the loop stops: at the last block before the one to free.
pub record Located (m : ℕ → HeapBlock) (b t : ℕ) (xs : List Span) (fuel : ℕ) : Type 0 where
  pub pre : List Span
  pub c : Span
  pub post : List Span
  pub split : xs ≡ pre ++ c ∷ post
  pub found : find_before fuel m b t ≡ ok c.0
  pub before : c.0 < b
  pub below : precedes b post ≡ true
  pub released : (s : ℕ) → release (b, s) xs ≡ pre ++ join c (join (b, s) post)

pub find_before-stop :
    (fuel b t : ℕ) (m : ℕ → HeapBlock)
    → 0 < t
    → (((m t).next_block == null) || ltb b (m t).next_block) ≡ true
    → find_before (suc fuel) m b t ≡ ok t
unfolding find_before
find_before-stop fuel b t m some stop =
    let e : (t == null) ≡ false = ground arith in rw (e, stop) refl

find_before-step :
    (fuel b t : ℕ) (m : ℕ → HeapBlock)
    → 0 < t
    → (((m t).next_block == null) || ltb b (m t).next_block) ≡ false
    → find_before (suc fuel) m b t ≡ find_before fuel m b (m t).next_block
unfolding find_before
find_before-step fuel b t m some go = let e : (t == null) ≡ false = ground arith in rw (e, go) refl

pub find_before-Located :
    (fuel : ℕ) (m : ℕ → HeapBlock) (b p t : ℕ) (y : Span) (ys : List Span)
    → Chain m p t (y ∷ ys)
    → Away b (y ∷ ys)
    → y.0 < b
    → length (y ∷ ys) < fuel
    → Located m b t (y ∷ ys) fuel
find_before-Located zero m b p t y ys h away lt room = absurd (omega (arith, room))
find_before-Located (suc fuel) m b p t y [] h away lt room = record {
  pre = [];
  c = y;
  post = [];
  split = refl;
  found = rw (h.0) (find_before-stop fuel b y.0 m (omega (arith, h.1.0)) (ground (arith, h.2)));
  before = lt;
  below = refl;
  released = λ s. release-join (b, s) y [] (le→ltb b y.0 (omega (arith, lt))) refl;
}
find_before-Located (suc fuel) m b p t y (z ∷ zs) h away lt room =
    let first : 0 < y.0 = omega (arith, h.1.0) in
    elim (Bool-cases (ltb b z.0)) [
      | inl stop ↦ record {
        pre = [];
        c = y;
        post = z ∷ zs;
        split = refl;
        found = rw (h.0) (find_before-stop fuel b y.0 m first (ground (arith, h.2.0, stop)));
        before = lt;
        below = stop;
        released = λ s. release-join (b, s) y (z ∷ zs) (le→ltb b y.0 (omega (arith, lt))) stop;
      }
      | inr on ↦
          let r =
            find_before-Located fuel m b y.0 (m y.0).next_block z zs h.2 away.1
              (ground (arith, away.1.0, on)) (omega (arith, room)) in
          record {
            pre = y ∷ r.pre;
            c = r.c;
            post = r.post;
            split = ap (λ l. y ∷ l) r.split;
            found = rw (h.0) (
                find_before-step fuel b y.0 m first (ground (arith, h.2.0, h.2.1.0, on)) ∙ r.found);
            before = r.before;
            below = r.below;
            released = λ s.
                release-cons (b, s) y (z ∷ zs) (le→ltb b y.0 (omega (arith, lt))) on
                ∙ ap (λ l. y ∷ l) (r.released s);
          }
    ]
