-- ===== src/Heaps/Loop.antt =====
-- One round of the loop of `MallocateOnHeap` in kernel/source/memory/heaps.c, and the loop's ends.
use star_struck.Base.{
  ◌∷◌, [], inl, inr, ℕ, suc, ◌<◌, ◌≤◌, ◌≡◌, ◌≢◌, ◌⊎◌, refl, ◌∙◌, true, false, Run, Option, none,
  some, ◌==◌, ◌&&◌, not, if◌then◌else◌, List, arith, ok, add_u32,
}
use star_struck.Heaps.State.{HeapBlock, null, offset_of}
use star_struck.Heaps.Mallocate.{Search, look_at, is_exact, find_block}
use star_struck.Heaps.Chain.{Span}
use star_struck.Heaps.Best.{
  is_worse, all_worse, address, better, From, From-cons, listed-head, better-worse, better_room,
  exact_worse,
}

-- What the loop's variables say of the blocks that it has seen.
unfoldable pub Held : (ℕ → HeapBlock) → ℕ → Search → Option Span → Type 0
Held m need s none = s.block_to_allocate ≡ null
Held m need s (some x) =
    (s.block_to_allocate ≡ x.0)
    × (0 < x.0)
    × ((m x.0).size ≡ x.1)
    × (need ≤ x.1)
    × (x.1 ≢ need)
    × (s.aligned_offset ≡ 0x10)

-- The offset behind the header of a block that was found.
unfoldable pub Offset : Search → Option Span → Type 0
Offset s none = Unit {0}
Offset s (some x) = s.aligned_offset ≡ 0x10

unfoldable pub Fits : ℕ → Option Span → Type 0
Fits need none = Unit {0}
Fits need (some x) = need ≤ x.1

-- What the loop finds from a state on.
pub record Found (m : ℕ → HeapBlock) (need : ℕ) (o : Option Span) (xs : List Span) (r : Run Search)
    : Type 0 where
  pub search : Search
  pub best : Option Span
  pub ended : r ≡ ok search
  pub at : search.block_to_allocate ≡ address best
  pub worse : all_worse need best xs ≡ true
  pub keeps : (y : Span) → is_worse need o y ≡ true → is_worse need best y ≡ true
  pub source : From o best xs
  pub room : Fits need best
  pub offset : Offset search best

pub find_block-null :
    (fuel a alignment t : ℕ) (m : ℕ → HeapBlock) (s : Search)
    → t ≡ null
    → find_block (suc fuel) m a alignment t s ≡ ok s
unfolding find_block
find_block-null fuel a alignment t m s e = rw e refl

pub find_block-exact :
    (fuel a alignment t : ℕ) (m : ℕ → HeapBlock) (s : Search)
    → 0 < t
    → is_exact m a (look_at m a alignment t s) ≡ true
    → find_block (suc fuel) m a alignment t s ≡ ok (look_at m a alignment t s)
unfolding find_block
find_block-exact fuel a alignment t m s after e =
    let n : (t == null) ≡ false = ground arith in rw (n, e) refl

pub find_block-next :
    (fuel a alignment t : ℕ) (m : ℕ → HeapBlock) (s : Search)
    → 0 < t
    → is_exact m a (look_at m a alignment t s) ≡ false
    → find_block (suc fuel) m a alignment t s
      ≡ find_block fuel m a alignment (m t).next_block (look_at m a alignment t s)
unfolding find_block
find_block-next fuel a alignment t m s after e =
    let n : (t == null) ≡ false = ground arith in rw (n, e) refl

pub look_at-better :
    (m : ℕ → HeapBlock) (a : ℕ) (x : Span) (s : Search) (o : Option Span)
    → offset_of 0x20 x.0 ≡ 0x10
    → (m x.0).size ≡ x.1
    → Held m (add_u32 a 0x10) s o
    → look_at m a 0x20 x.0 s ≡ record {
      block_to_allocate = if better (add_u32 a 0x10) o x then x.0 else address o;
      block_size = x.1;
      aligned_offset = 0x10;
    }
unfolding look_at Held better
look_at-better m a x s none off size h = rw (off, size, h) refl
look_at-better m a x s (some y) off size h =
    let e = h.0 in
    let z = h.2 in let n : (y.0 == null) ≡ false = ground arith in rw (off, size, e, z, n) refl

pub is_exact-at :
    (m : ℕ → HeapBlock) (a f : ℕ) (s : Search)
    → s.block_to_allocate ≡ f
    → s.aligned_offset ≡ 0x10
    → is_exact m a s ≡ (not (f == null) && ((m f).size == add_u32 a 0x10))
is_exact-at m a f s e off = rw (e, off) refl

pub exact_size :
    (m : ℕ → HeapBlock) (need f z : ℕ)
    → 0 < f
    → (m f).size ≡ z
    → (not (f == null) && ((m f).size == need)) ≡ (z == need)
exact_size m need f z after size = let n : (f == null) ≡ false = ground arith in rw (n, size) refl

-- What is found behind a block is found from it on.
pub Found-cons :
    (m : ℕ → HeapBlock) (need : ℕ) (o o1 : Option Span) (x : Span) (xs : List Span)
    (r1 r : Run Search)
    → r ≡ r1
    → (o1 ≡ o) ⊎ (o1 ≡ some x)
    → ((y : Span) → is_worse need o y ≡ true → is_worse need o1 y ≡ true)
    → is_worse need o1 x ≡ true
    → Found m need o1 xs r1
    → Found m need o (x ∷ xs) r
Found-cons m need o o1 x xs r1 r e choice keeps worse f = record {
  search = f.search;
  best = f.best;
  ended = e ∙ f.ended;
  at = f.at;
  worse = let h = f.keeps x worse in let rest = f.worse in ground arith;
  keeps = λ y h. f.keeps y (keeps y h);
  source = From-cons o o1 f.best x xs choice f.source;
  room = f.room;
  offset = f.offset;
}

pub Held-same :
    (m : ℕ → HeapBlock) (need : ℕ) (s s1 : Search) (o : Option Span)
    → s1.block_to_allocate ≡ address o
    → s1.aligned_offset ≡ 0x10
    → Held m need s o
    → Held m need s1 o
unfolding Held
Held-same m need s s1 none e off h = e
Held-same m need s s1 (some y) e off h = (e, h.1, h.2, h.3, h.4, off)

pub Held-inexact :
    (m : ℕ → HeapBlock) (need : ℕ) (s : Search) (o : Option Span)
    → Held m need s o
    → (not (address o == null) && ((m (address o)).size == need)) ≡ false
unfolding Held
Held-inexact m need s none h = refl
Held-inexact m need s (some y) h = ground arith

pub Found-end :
    (m : ℕ → HeapBlock) (need : ℕ) (s : Search) (o : Option Span) (r : Run Search)
    → r ≡ ok s
    → Held m need s o
    → Found m need o [] r
unfolding Held From Fits Offset
Found-end m need s none r e h = record {
  search = s;
  best = none;
  ended = e;
  at = h;
  worse = refl;
  keeps = λ y k. k;
  source = refl;
  room = tt;
  offset = tt;
}
Found-end m need s (some y) r e h = record {
  search = s;
  best = some y;
  ended = e;
  at = h.0;
  worse = refl;
  keeps = λ z k. k;
  source = inl refl;
  room = h.3;
  offset = h.5;
}

-- The loop stops at a block of the size that is looked for.
pub Found-exact :
    (m : ℕ → HeapBlock) (need : ℕ) (s : Search) (o : Option Span) (x : Span) (xs : List Span)
    (r : Run Search)
    → r ≡ ok s
    → s.block_to_allocate ≡ x.0
    → s.aligned_offset ≡ 0x10
    → better need o x ≡ true
    → x.1 ≡ need
    → Found m need o (x ∷ xs) r
unfolding From Fits Offset
Found-exact m need s o x xs r e at off b same = record {
  search = s;
  best = some x;
  ended = e;
  at = at;
  worse = exact_worse need x (x ∷ xs) same;
  keeps = λ y k. better-worse need o x y b k;
  source = inr (listed-head x x xs refl);
  room = better_room need o x b;
  offset = off;
}
