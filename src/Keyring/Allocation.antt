-- ===== src/Keyring/Allocation.antt =====
-- `Keyring_GetKeyIndexFitSize` of kernel/source/crypto/keyring.c: which entries a new key gets.
use star_struck.Base.{
  ℕ, zero, suc, ◌+◌, ◌*◌, ◌≤◌, ◌<◌, ◌≡◌, ◌≢◌, refl, ap, sym, ◌∙◌, inl, inr, true, false, List, [],
  ◌∷◌, ◌++◌, pos, negsuc, has, length, ltb, ◌==◌, ==_refl, Bool-cases, arith, ok, length-append,
  le→ltb,
}
use star_struck.Keyring.State.{Keyring, KeyringEntry, total_entries}
use star_struck.Keyring.Alloc.{Fit, take_entry, fit_entries, get_key_index_fit_size}
use star_struck.Keyring.Chains.{Parts}
use star_struck.Keyring.Entries.{
  free_entries, last, IsFit, fresh_entry, take_entry_first, take_entry_new, take_entry_linked,
  take_entry_kept, has-last, ne_of_mem, ne_test, Parts-snoc, mem-snoc, not_mem-snoc,
}

module _ (r : Keyring) (i : ℕ) (ps : List ℕ) (f : Fit) (s : IsFit r i ps f) where
  new-not-mem : has i ps ≡ false
  new-not-mem = elim (Bool-cases (has i ps)) [
    | inl m ↦ absurd (omega (arith, s.below i m))
    | inr n ↦ n
  ]

  below-snoc : (j : ℕ) → has j (ps ++ (i ∷ [])) ≡ true → j < i + 1
  below-snoc j m = elim (mem-snoc j i ps m) [
    | inl old ↦ omega (arith, s.below j old)
    | inr e ↦ omega (arith, e)
  ]

  fresh-snoc :
      (f.ring.entries i).is_used ≡ false
      → (j : ℕ) → has j (ps ++ (i ∷ [])) ≡ true
      → (r.entries j).is_used ≡ false
  fresh-snoc free j m = elim (mem-snoc j i ps m) [
    | inl old ↦ s.fresh j old
    | inr e ↦ rw e (ap (λ (x : KeyringEntry). x.is_used) (sym (s.kept i new-not-mem)) ∙ free)
  ]

  count-snoc : (take_entry i f).running_key_size ≡ 32 * length (ps ++ (i ∷ []))
  unfolding take_entry
  count-snoc = omega (arith, s.count, length-append ps (i ∷ []))

  handles-snoc : (take_entry i f).ring.handles ≡ r.handles
  unfolding take_entry
  handles-snoc = ground (arith, s.handles)

last-snoc : (p : ℕ) (ps : List ℕ) (i : ℕ) → last p (ps ++ (i ∷ [])) ≡ i
last-snoc p [] i = refl
last-snoc p (q ∷ qs) i = last-snoc q qs i

-- The next round at a free entry.
take_entry-IsFit :
    (r : Keyring) (i : ℕ) (ps : List ℕ) (f : Fit)
    → IsFit r i ps f
    → i < total_entries
    → (f.ring.entries i).is_used ≡ false
    → IsFit r (i + 1) (ps ++ (i ∷ [])) (take_entry i f)
take_entry-IsFit r i [] f s lt free =
    let h : (f.running_key_size == 0) ≡ true = rw (s.count) refl in
    let new : (take_entry i f).ring.entries i ≡ fresh_entry =
      take_entry_first i f i h ∙ rw (==_refl i) refl in
    record {
      parts = unfold fresh_entry in (lt, rw new refl, rw new refl, refl, rw new refl, tt);
      count = count-snoc r i [] f s;
      below = below-snoc r i [] f s;
      ends = unfold take_entry in (rw h refl, refl);
      fresh = fresh-snoc r i [] f s free;
      kept = λ j m.
          take_entry_first i f j h ∙ rw (ne_test i j (not_mem-snoc j i [] m).1) (s.kept j refl);
      handles = handles-snoc r i [] f s;
      few = omega arith;
    }
take_entry-IsFit r i (p ∷ ps) f s lt free =
    let h : (f.running_key_size == 0) ≡ false = running_pos f (length ps) s.count in
    let out = new-not-mem r i (p ∷ ps) f s in
    let other : f.previous_link ≢ i =
      rw (s.ends.1) (λ e. ne_of_mem i (last p ps) (p ∷ ps) out (has-last p ps) (sym e)) in
    let prev = s.ends.1 in
    record {
      parts =
          Parts-snoc f.ring (take_entry i f).ring p ps i s.parts
            (pos_of_mem i p (s.below p (mem_head p ps))) lt out (take_entry_new i f h other)
            (rw (← prev) (take_entry_linked i f h other))
            (λ j a b. take_entry_kept i f h other j a (rw prev b));
      count = count-snoc r i (p ∷ ps) f s;
      below = below-snoc r i (p ∷ ps) f s;
      ends =
          ((unfold take_entry in rw h (s.ends.0)), (unfold take_entry in sym (last-snoc p ps i)));
      fresh = fresh-snoc r i (p ∷ ps) f s free;
      kept = λ j m.
          let apart = not_mem-snoc j i (p ∷ ps) m in
          take_entry_kept i f h other j apart.1
            (rw prev (ne_of_mem j (last p ps) (p ∷ ps) apart.0 (has-last p ps)))
          ∙ s.kept j apart.0;
      handles = handles-snoc r i (p ∷ ps) f s;
      few = omega (arith, s.few, length-append (p ∷ ps) (i ∷ []));
    }
  where
    running_pos :
        (f : Fit) (n : ℕ) → f.running_key_size ≡ 32 * suc n → (f.running_key_size == 0) ≡ false
    running_pos f n e = ground arith

    pos_of_mem : (i p : ℕ) → p < i → i ≢ 0
    pos_of_mem i p h = omega arith

    mem_head : (p : ℕ) (ps : List ℕ) → has p (p ∷ ps) ≡ true
    mem_head p ps = rw (==_refl p) refl

skip-IsFit : (r : Keyring) (i : ℕ) (ps : List ℕ) (f : Fit) → IsFit r i ps f → IsFit r (i + 1) ps f
skip-IsFit r i ps f s = record {
  parts = s.parts;
  count = s.count;
  below = λ j m. omega (arith, s.below j m);
  ends = s.ends;
  fresh = s.fresh;
  kept = s.kept;
  handles = s.handles;
  few = omega (arith, s.few);
}

take_entry_size : (i : ℕ) (f : Fit) → (take_entry i f).running_key_size ≡ f.running_key_size + 32
unfolding take_entry
take_entry_size i f = refl

-- The loop ends with enough parts if there are enough free entries.
fit_entries-IsFit :
    (n : ℕ) (r : Keyring) (i size : ℕ) (ps : List ℕ) (f : Fit)
    → IsFit r i ps f
    → i + n ≡ total_entries
    → size ≤ f.running_key_size + 32 * free_entries n i r
    → (j : ℕ) × (qs : List ℕ) × IsFit r j qs (fit_entries n i size f)
      × (size ≤ (fit_entries n i size f).running_key_size)
      × (j ≤ total_entries)
unfolding fit_entries free_entries
fit_entries-IsFit zero r i size ps f s e room = (i, ps, s, omega (arith, room), omega (arith, e))
fit_entries-IsFit (suc n) r i size ps f s e room = elim (Bool-cases (ltb f.running_key_size size)) [
  | inr enough ↦ rw enough (i, ps, s, ground arith, omega (arith, e))
  | inl more ↦
      let same : f.ring.entries i ≡ r.entries i = s.kept i (new-not-mem r i ps f s) in
      elim (Bool-cases ((r.entries i).is_used)) [
        | inl used ↦
            rw (more, same, used)
              (fit_entries-IsFit n r (i + 1) size ps f (skip-IsFit r i ps f s) (omega arith)
                (let r' = rw used at room in omega (arith, r')))
        | inr free ↦
            rw (more, same, free)
              (fit_entries-IsFit n r (i + 1) size (ps ++ (i ∷ [])) (take_entry i f)
                (take_entry-IsFit r i ps f s (omega arith) (rw same free)) (omega arith)
                (let r' = rw free at room in omega (arith, r', take_entry_size i f)))
      ]
]

-- What an allocation leaves: a chain of entries that were free, with room for the size, and all
-- other entries and the handles as they were.
pub record Allocated (r : Keyring) (size p : ℕ) (ps : List ℕ) (g : Keyring) : Type 0 where
  pub parts : Parts g (p ∷ ps)
  pub room : size ≤ 32 * length (p ∷ ps)
  pub fresh : (j : ℕ) → has j (p ∷ ps) ≡ true → (r.entries j).is_used ≡ false
  pub kept : (j : ℕ) → has j (p ∷ ps) ≡ false → g.entries j ≡ r.entries j
  pub handles : g.handles ≡ r.handles
  pub short : length ps < total_entries

start_fit : Keyring → Fit
start_fit r = record { ring = r; running_key_size = 0; previous_link = 0; head = negsuc 0 }

start-IsFit : (r : Keyring) → IsFit r 0 [] (start_fit r)
unfolding start_fit
start-IsFit r = record {
  parts = tt;
  count = refl;
  below = λ j m. absurd cc;
  ends = refl;
  fresh = λ j m. absurd cc;
  kept = λ j m. refl;
  handles = refl;
  few = omega arith;
}

fitted :
    (r : Keyring) (size j : ℕ) (ps : List ℕ) (f : Fit)
    → 0 < size
    → IsFit r j ps f
    → size ≤ f.running_key_size
    → j ≤ total_entries
    → (p : ℕ) × (qs : List ℕ) × (f.head ≡ pos p) × Allocated r size p qs f.ring
fitted r size j [] f some_size s enough most = absurd (omega (arith, s.count))
fitted r size j (p ∷ qs) f some_size s enough most = (
  p,
  qs,
  s.ends.0,
  record {
    parts = s.parts;
    room = omega (arith, s.count);
    fresh = s.fresh;
    kept = s.kept;
    handles = s.handles;
    short = omega (arith, s.few, most);
  },
)

-- Where the free entries have room for a key, its entries are found.
pub get_key_index_fit_size-Allocated :
    (r : Keyring) (size : ℕ)
    → 0 < size
    → size ≤ 32 * free_entries total_entries 0 r
    → (p : ℕ) × (ps : List ℕ) × (g : Keyring) × (get_key_index_fit_size size r ≡ ok (pos p, g))
      × Allocated r size p ps g
unfolding get_key_index_fit_size start_fit
get_key_index_fit_size-Allocated r size some_size room =
    let f = fit_entries total_entries 0 size (start_fit r) in
    let d =
      fit_entries-IsFit total_entries r 0 size [] (start_fit r) (start-IsFit r) refl
        (omega (arith, room)) in
    let e = fitted r size d.0 d.1 f some_size d.2 d.3 d.4 in
    let enough : ltb f.running_key_size size ≡ false = le→ltb f.running_key_size size d.3 in
    (e.0, e.1, f.ring, rw (enough, e.2) refl, e.3)
