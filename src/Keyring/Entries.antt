-- ===== src/Keyring/Entries.antt =====
-- What a round of `Keyring_GetKeyIndexFitSize` in kernel/source/crypto/keyring.c does to the chain.
use star_struck.Base.{
  ℕ, zero, suc, ◌+◌, ◌*◌, ◌≤◌, ◌<◌, ◌≡◌, ◌≢◌, refl, ap, ◌⊎◌, inl, inr, true, false, List, [], ◌∷◌,
  ◌++◌, pos, negsuc, has, length, ◌==◌, ==_refl, Bool-cases, if◌then◌else◌, arith, has-append,
}
use star_struck.Keyring.State.{Keyring, KeyringEntry, total_entries, cleared_entry}
use star_struck.Keyring.Alloc.{Fit, take_entry}
use star_struck.Keyring.Chains.{Parts}

-- The unused entries among the `n` from `i` on.
unfoldable pub free_entries : ℕ → ℕ → Keyring → ℕ
free_entries zero i r = 0
free_entries (suc n) i r = (if (r.entries i).is_used then 0 else 1) + free_entries n (i + 1) r

abbrev pub last : ℕ → List ℕ → ℕ
last p [] = p
last p (q ∷ qs) = last q qs

-- The first and the last part that the loop knows.
abbrev pub Ends : Fit → List ℕ → Type 0
Ends f [] = f.head ≡ negsuc 0
Ends f (p ∷ ps) = (f.head ≡ pos p) × (f.previous_link ≡ last p ps)

-- The loop before entry `i`, with the entries `ps` of the key store `r` taken.
pub record IsFit (r : Keyring) (i : ℕ) (ps : List ℕ) (f : Fit) : Type 0 where
  pub parts : Parts f.ring ps
  pub count : f.running_key_size ≡ 32 * length ps
  pub below : (j : ℕ) → has j ps ≡ true → j < i
  pub ends : Ends f ps
  pub fresh : (j : ℕ) → has j ps ≡ true → (r.entries j).is_used ≡ false
  pub kept : (j : ℕ) → has j ps ≡ false → f.ring.entries j ≡ r.entries j
  pub handles : f.ring.handles ≡ r.handles
  pub few : length ps ≤ i

unfoldable pub fresh_entry : KeyringEntry
fresh_entry = record cleared_entry { is_used = true }

-- What a round does to the entries: for the first part, and for a later one.
pub take_entry_first :
    (i : ℕ) (f : Fit) (j : ℕ)
    → (f.running_key_size == 0) ≡ true
    → (take_entry i f).ring.entries j ≡ (if i == j then fresh_entry else f.ring.entries j)
unfolding take_entry fresh_entry
take_entry_first i f j h = rw (h, ==_refl i) (ground arith)

module _ (i : ℕ) (f : Fit) (h : (f.running_key_size == 0) ≡ false)
    (other : f.previous_link ≢ i) where
  pub take_entry_new : (take_entry i f).ring.entries i ≡ fresh_entry
  unfolding take_entry fresh_entry
  take_entry_new = rw (h, ==_refl i) (ground arith)

  pub take_entry_linked :
      (take_entry i f).ring.entries f.previous_link
      ≡ record (f.ring.entries f.previous_link) { key_next_part_index = i }
  unfolding take_entry
  take_entry_linked = rw (h, ==_refl (f.previous_link)) (ground arith)

  pub take_entry_kept :
      (j : ℕ) → j ≢ i → j ≢ f.previous_link → (take_entry i f).ring.entries j ≡ f.ring.entries j
  unfolding take_entry
  take_entry_kept j a b = rw h (ground arith)

pub has-last : (q : ℕ) (qs : List ℕ) → has (last q qs) (q ∷ qs) ≡ true
has-last q [] = rw (==_refl q)
has-last q (x ∷ xs) = ground (arith, has-last x xs)

pub ne_of_mem : (a b : ℕ) (xs : List ℕ) → has a xs ≡ false → has b xs ≡ true → a ≢ b
ne_of_mem a b [] h m = cc
ne_of_mem a b (x ∷ xs) h m = ground (arith, ne_of_mem a b xs)

ne_of_has_cons : (i p : ℕ) (ps : List ℕ) → has i (p ∷ ps) ≡ false → p ≢ i
ne_of_has_cons i p ps h = ground arith

has_tail : (i p : ℕ) (ps : List ℕ) → has i (p ∷ ps) ≡ false → has i ps ≡ false
has_tail i p ps h = ground arith

has-snoc : (a i : ℕ) (xs : List ℕ) → has a xs ≡ false → a ≢ i → has a (xs ++ (i ∷ [])) ≡ false
has-snoc a i xs h n = rw (has-append a xs (i ∷ []), h) (ground arith)

pub ne_test : (i j : ℕ) → j ≢ i → (i == j) ≡ false
ne_test i j h = ground arith

-- A chain to whose last part a fresh entry is linked.
pub Parts-snoc :
    (r g : Keyring) (p : ℕ) (ps : List ℕ) (i : ℕ)
    → Parts r (p ∷ ps)
    → i ≢ 0
    → i < total_entries
    → has i (p ∷ ps) ≡ false
    → g.entries i ≡ fresh_entry
    → g.entries (last p ps) ≡ record (r.entries (last p ps)) { key_next_part_index = i }
    → ((j : ℕ) → j ≢ i → j ≢ last p ps → g.entries j ≡ r.entries j)
    → Parts g (p ∷ (ps ++ (i ∷ [])))
unfolding fresh_entry
Parts-snoc r g p [] i parts pos_i lt out new linked kept = (
  parts.0,
  rw linked parts.1,
  rw linked parts.2,
  has-snoc p i [] refl (ne_of_has_cons i p [] out),
  (ap (λ (e : KeyringEntry). e.key_next_part_index) linked, rw linked pos_i),
  (lt, rw new refl, rw new refl, refl, rw new refl, tt),
)
Parts-snoc r g p (q ∷ qs) i parts pos_i lt out new linked kept =
    let same : g.entries p ≡ r.entries p =
      kept p (ne_of_has_cons i p (q ∷ qs) out)
        (ne_of_mem p (last q qs) (q ∷ qs) parts.3 (has-last q qs)) in
    (
      parts.0,
      rw same parts.1,
      rw same parts.2,
      has-snoc p i (q ∷ qs) parts.3 (ne_of_has_cons i p (q ∷ qs) out),
      rw same parts.4,
      Parts-snoc r g q qs i parts.5 pos_i lt (has_tail i p (q ∷ qs) out) new linked kept,
    )

pub mem-snoc : (j i : ℕ) (xs : List ℕ) → has j (xs ++ (i ∷ [])) ≡ true → (has j xs ≡ true) ⊎ (j ≡ i)
mem-snoc j i [] h = inr (ground arith)
mem-snoc j i (x ∷ xs) h = elim (Bool-cases (j == x)) [
  | inl e ↦ inl (rw e refl)
  | inr n ↦ elim (mem-snoc j i xs (rw n at h)) [ inl m ↦ inl (rw (n, m) refl) | inr e ↦ inr e ]
]

pub not_mem-snoc :
    (j i : ℕ) (xs : List ℕ) → has j (xs ++ (i ∷ [])) ≡ false → (has j xs ≡ false) × (j ≢ i)
not_mem-snoc j i xs h = ground (arith, has-append j xs (i ∷ []))
