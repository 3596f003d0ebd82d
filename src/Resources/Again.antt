-- ===== src/Resources/Again.antt =====
-- `RegisterResourceManager` of kernel/source/messaging/resourceManager.c on a well-formed table.
use star_struck.Base.{
  ℕ, ◌+◌, ◌<◌, leb, ◌==◌, ◌≡◌, ◌≢◌, refl, ap, inl, inr, true, false, Bool-cases, List, [], ◌∷◌,
  length, take, ℤ, pos, negsuc, eq_int, min, ==_refl, arith,
}
use star_struck.Interrupts.State.{max_devices}
use star_struck.Strings.Compared.{compare_strings}
use star_struck.Resources.Register.{
  Resources, HashTable, Place, same_path, find_place, registered_at, register_for,
  register_resource_manager, ipc_success, ipc_eexist, max_pathlen,
}
use star_struck.Resources.Table.{
  IsTable, Found, is_known, is_new, is_full, find_place-Found, find_place-taken, IsTable-registered,
  registered-path,
}

same_path_refl : (path : List ℕ) → same_path path path ≡ true
unfolding same_path
same_path_refl path = rw (compare_refl (take 63 path)) refl
  where
    compare_refl : (xs : List ℕ) → compare_strings xs xs ≡ pos 0
    compare_refl [] = unfold compare_strings in refl
    compare_refl (x ∷ xs) = unfold compare_strings in rw (==_refl x) (compare_refl xs)

-- What a call does to a table of `n` managers: it adds the path, or fails and changes nothing.
pub data Registered (n : ℕ) (path : List ℕ) (r : Resources) (s : ℤ × Resources) : Type 0 where
  is_added :
      s.0 ≡ ipc_success
      → IsTable (n + 1) (s.1).managers
      → ((s.1).managers n).device_path ≡ path
      → Registered n path r s
  is_refused : s.0 ≢ ipc_success → s.1 ≡ r → Registered n path r s

module _ (t : HashTable) (owners : ℕ → ℕ) (pid : ℕ) (path : List ℕ) (n : ℕ) (r : Resources)
    (table : IsTable n r.managers) where
  registered_at-Registered :
      (q : ℕ) (p : Place)
      → Found 0 n path r.managers p
      → Registered n path r (registered_at t pid path q r p)
  registered_at-Registered q p (is_known e) = rw e (is_refused (λ x. cc) refl)
  registered_at-Registered q p (is_full e) = rw e (is_refused (λ x. cc) refl)
  registered_at-Registered q p (is_new e room some_path d) = rw e (
      is_added refl (IsTable-registered t pid path q n r table room some_path d)
        (registered-path t pid path q n r))

  register_for-Registered :
      (queueid : ℤ) → Registered n path r (register_for t owners pid path queueid r)
  register_for-Registered (negsuc q) = is_refused (λ x. cc) refl
  register_for-Registered (pos q) = elim (Bool-cases (leb 0x100 q)) [
    | inl large ↦ rw large (is_refused (λ x. cc) refl)
    | inr valid ↦ elim (Bool-cases (owners q == pid)) [
      | inr other ↦ rw (valid, other) (is_refused (λ x. cc) refl)
      | inl own ↦
          rw (valid, own)
            (registered_at-Registered q (find_place max_devices 0 path r.managers)
              (find_place-Found max_devices 0 n path r.managers table (omega arith) refl))
    ]
  ]

  -- A call of `RegisterResourceManager` on a table of `n` managers with different paths adds a manager
  -- of the path behind them, and the paths are different again, or it fails and changes nothing.
  pub register_resource_manager-Registered :
      (checked queueid : ℤ)
      → Registered n path r (register_resource_manager t owners checked pid path queueid r)
  unfolding register_resource_manager
  register_resource_manager-Registered checked queueid =
      elim (Bool-cases (leb max_pathlen (min (length path) max_pathlen))) [
        | inl long ↦ rw long (is_refused (λ x. cc) refl)
        | inr short ↦ elim (Bool-cases (eq_int checked (pos 0))) [
          | inr bad ↦ rw (short, bad) (is_refused (λ x. cc) refl)
          | inl good ↦ rw (short, good) (register_for-Registered queueid)
        ]
      ]

  short_of_success :
      (checked queueid : ℤ)
      → (register_resource_manager t owners checked pid path queueid r).0 ≡ ipc_success
      → leb max_pathlen (min (length path) max_pathlen) ≡ false
  unfolding register_resource_manager
  short_of_success checked queueid done =
      elim (Bool-cases (leb max_pathlen (min (length path) max_pathlen))) [
        | inl long ↦ absurd (cc (rw long at done))
        | inr short ↦ short
      ]

-- A second call for a path that is in the table.
known_again :
    (t : HashTable) (owners : ℕ → ℕ) (pid q n j : ℕ) (path : List ℕ) (r : Resources)
    → IsTable n r.managers
    → j < n
    → (r.managers j).device_path ≡ path
    → leb max_pathlen (min (length path) max_pathlen) ≡ false
    → q < 0x100
    → owners q ≡ pid
    → register_resource_manager t owners (pos 0) pid path (pos q) r ≡ (ipc_eexist, r)
unfolding register_resource_manager
known_again t owners pid q n j path r table low here short valid own =
    let large : leb 0x100 q ≡ false = ground (arith, valid) in
    let mine : (owners q == pid) ≡ true = rw own (==_refl pid) in
    let found =
      find_place-taken max_devices 0 n j path r.managers table (omega arith) low
        (omega (arith, low, table.most)) (rw here (same_path_refl path)) in
    rw (short, large, mine, found) refl

-- After a call that has registered a path, every further call for the path, whichever process makes
-- it, returns IPC_EEXIST and changes nothing, where its pointer and its queue are in order.
pub register_resource_manager-again :
    (t t2 : HashTable) (owners owners2 : ℕ → ℕ) (pid pid2 q2 n : ℕ) (path : List ℕ)
    (checked queueid : ℤ) (r s : Resources)
    → IsTable n r.managers
    → register_resource_manager t owners checked pid path queueid r ≡ (ipc_success, s)
    → q2 < 0x100
    → owners2 q2 ≡ pid2
    → register_resource_manager t2 owners2 (pos 0) pid2 path (pos q2) s ≡ (ipc_eexist, s)
register_resource_manager-again t t2 owners owners2 pid pid2 q2 n path checked queueid r s table
      done valid own =
    let whole = register_resource_manager t owners checked pid path queueid r in
    let code : whole.0 ≡ ipc_success = ap (λ (x : ℤ × Resources). x.0) done in
    let state : whole.1 ≡ s = ap (λ (x : ℤ × Resources). x.1) done in
    let short = short_of_success t owners pid path n r table checked queueid code in
    elim (register_resource_manager-Registered t owners pid path n r table checked queueid) [
      | is_refused other same ↦ absurd (other code)
      | is_added e more here ↦
          known_again t2 owners2 pid2 q2 (n + 1) n path s (rw state at more) (omega arith)
            (rw state at here) short valid own
    ]
