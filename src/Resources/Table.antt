-- ===== src/Resources/Table.antt =====
-- The table of `RegisterResourceManager` in kernel/source/messaging/resourceManager.c.
use star_struck.Base.{
  ℕ, zero, suc, ◌+◌, ◌≤◌, ◌<◌, ltb, ◌==◌, ◌≡◌, ◌≢◌, refl, sym, ap, ap₂, ◌∙◌, ◌⊎◌, inl, inr, ltb→lt,
  true, false, Bool-cases, List, [], ◌∷◌, ==_refl, arith,
}
use star_struck.Interrupts.State.{max_devices}
use star_struck.Resources.Register.{
  Resources, ResourceManager, HashTable, Place, exists, free_at, full, same_path, is_empty,
  find_place, registered,
}

-- The first `n` places have managers with different paths, and the others are free.
pub record IsTable (n : ℕ) (m : ℕ → ResourceManager) : Type 0 where
  pub most : n ≤ max_devices
  pub taken : (i : ℕ) → i < n → is_empty (m i).device_path ≡ false
  pub free : (i : ℕ) → n ≤ i → i < max_devices → (m i).device_path ≡ []
  pub distinct : (i j : ℕ) → i < j → j < n → same_path (m j).device_path (m i).device_path ≡ false

unfoldable pub Different : ℕ → ℕ → List ℕ → (ℕ → ResourceManager) → Type 0
Different i n path m = (j : ℕ) → i ≤ j → j < n → same_path path (m j).device_path ≡ false

-- The end of the loop of `RegisterResourceManager`.
pub data Found (i n : ℕ) (path : List ℕ) (m : ℕ → ResourceManager) (p : Place) : Type 0 where
  is_known : p ≡ exists → Found i n path m p
  is_new :
      p ≡ free_at n
      → n < max_devices
      → is_empty path ≡ false
      → Different i n path m
      → Found i n path m p
  is_full : p ≡ full → Found i n path m p

not_empty : (path : List ℕ) → same_path path [] ≡ false → is_empty path ≡ false
unfolding same_path
not_empty [] h = absurd cc
not_empty (x ∷ xs) h = refl

module _ (path : List ℕ) (m : ℕ → ResourceManager) (k i : ℕ) where
  find_place-known : same_path path (m i).device_path ≡ true → find_place (suc k) i path m ≡ exists
  unfolding find_place
  find_place-known h = rw h refl

  find_place-here :
      same_path path (m i).device_path ≡ false
      → is_empty (m i).device_path ≡ true
      → find_place (suc k) i path m ≡ free_at i
  unfolding find_place
  find_place-here h e = rw (h, e) refl

  find_place-next :
      same_path path (m i).device_path ≡ false
      → is_empty (m i).device_path ≡ false
      → find_place (suc k) i path m ≡ find_place k (i + 1) path m
  unfolding find_place
  find_place-next h e = rw (h, e) refl

none_from :
    (i n : ℕ) (path : List ℕ) (m : ℕ → ResourceManager)
    → same_path path (m i).device_path ≡ false
    → Different (i + 1) n path m
    → Different i n path m
unfolding Different
none_from i n path m h d j low high = elim (Bool-cases (j == i)) [
  | inl e ↦
      let same : j ≡ i = ground (arith, e) in
      ap (λ (x : ℕ). same_path path (m x).device_path) same ∙ h
  | inr other ↦ d j (ground (arith, low, other)) high
]

none_below : (i n : ℕ) (path : List ℕ) (m : ℕ → ResourceManager) → i ≡ n → Different i n path m
unfolding Different
none_below i n path m same j low high = absurd (omega (arith, same, low, high))

pub find_place-Found :
    (k i n : ℕ) (path : List ℕ) (m : ℕ → ResourceManager)
    → IsTable n m
    → i ≤ n
    → i + k ≡ max_devices
    → Found i n path m (find_place k i path m)
find_place-Found zero i n path m t low most = is_full (unfold find_place in refl)
find_place-Found (suc k) i n path m t low most =
    elim (Bool-cases (same_path path (m i).device_path)) [
      | inl known ↦ is_known (find_place-known path m k i known)
      | inr h ↦ elim (Bool-cases (ltb i n)) [
        | inl less ↦
            let taken = t.taken i (ltb→lt i n less) in
            let next = find_place-next path m k i h taken in
            elim (find_place-Found k (i + 1) n path m t (ground (arith, less))
              (omega (arith, most))) [
                | is_known e ↦ is_known (next ∙ e)
                | is_new e room some_path d ↦
                    is_new (next ∙ e) room some_path (none_from i n path m h d)
                | is_full e ↦ is_full (next ∙ e)
              ]
        | inr last ↦
            let same : i ≡ n = ground (arith, low, last) in
            let empty = t.free i (omega (arith, same)) (omega (arith, most)) in
            is_new (find_place-here path m k i h (rw empty refl) ∙ ap free_at same)
              (omega (arith, most, same)) (not_empty path (rw empty at h))
              (none_below i n path m same)
      ]
    ]

-- A path that the table has is found.
pub find_place-taken :
    (k i n j : ℕ) (path : List ℕ) (m : ℕ → ResourceManager)
    → IsTable n m
    → i ≤ j
    → j < n
    → j < i + k
    → same_path path (m j).device_path ≡ true
    → find_place k i path m ≡ exists
find_place-taken zero i n j path m t low high last same = absurd (omega (arith, low, last))
find_place-taken (suc k) i n j path m t low high last same =
    elim (Bool-cases (same_path path (m i).device_path)) [
      | inl known ↦ find_place-known path m k i known
      | inr h ↦
          let after = later_place i j path m low same h in
          find_place-next path m k i h (t.taken i (omega (arith, after, high)))
          ∙ find_place-taken k (i + 1) n j path m t after high (omega (arith, last)) same
    ]
  where
    later_place :
        (i j : ℕ) (path : List ℕ) (m : ℕ → ResourceManager)
        → i ≤ j
        → same_path path (m j).device_path ≡ true
        → same_path path (m i).device_path ≡ false
        → i + 1 ≤ j
    later_place i j path m low same h = elim (Bool-cases (i == j)) [
      | inl e ↦
          let eq : i ≡ j = ground (arith, e) in
          absurd (cc (sym h ∙ ap (λ (x : ℕ). same_path path (m x).device_path) eq ∙ same))
      | inr other ↦ ground (arith, low, other)
    ]

module _ (t : HashTable) (pid : ℕ) (path : List ℕ) (q n : ℕ) (r : Resources) where
  pub registered-path : ((registered t pid path q n r).managers n).device_path ≡ path
  unfolding registered
  registered-path = rw (==_refl n) refl

  registered-kept :
      (i : ℕ)
      → i ≢ n
      → ((registered t pid path q n r).managers i).device_path ≡ (r.managers i).device_path
  unfolding registered
  registered-kept i other = let ne : (n == i) ≡ false = ground (arith, other) in rw ne refl

last_or_below : (i n : ℕ) → i < n + 1 → (i ≡ n) ⊎ (i < n)
last_or_below i n h = elim (Bool-cases (ltb i n)) [
  | inl less ↦ inr (ltb→lt i n less)
  | inr last ↦ inl (ground (arith, h, last))
]

-- The table with a new manager.
pub IsTable-registered :
    (t : HashTable) (pid : ℕ) (path : List ℕ) (q n : ℕ) (r : Resources)
    → IsTable n r.managers
    → n < max_devices
    → is_empty path ≡ false
    → Different 0 n path r.managers
    → IsTable (n + 1) (registered t pid path q n r).managers
unfolding Different
IsTable-registered t pid path q n r table room some_path d =
    let path_at = λ (i : ℕ). ((registered t pid path q n r).managers i).device_path in
    let here = registered-path t pid path q n r in
    let kept = registered-kept t pid path q n r in
    record {
      most = omega (arith, room);
      taken = λ i lt. elim (last_or_below i n lt) [
        | inl e ↦ ap (λ (x : ℕ). is_empty (path_at x)) e ∙ (ap is_empty here ∙ some_path)
        | inr less ↦ ap is_empty (kept i (omega (arith, less))) ∙ table.taken i less
      ];
      free = λ i low lt. kept i (omega (arith, low)) ∙ table.free i (omega (arith, low)) lt;
      distinct = λ i j lt last.
          let old = kept i (omega (arith, lt, last)) in
          elim (last_or_below j n last) [
            | inl e ↦
                ap (λ (x : ℕ). same_path (path_at x) (path_at i)) e
                ∙ (ap₂ same_path here old ∙ d i (omega arith) (omega (arith, lt, e)))
            | inr less ↦
                ap₂ same_path (kept j (omega (arith, less))) old ∙ table.distinct i j lt less
          ];
    }
