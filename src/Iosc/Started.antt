-- ===== src/Iosc/Started.antt =====
-- What `IOSC_Init` of kernel/source/crypto/iosc.c leaves, and the calls behind it.
use star_struck.Base.{
  ℕ, zero, suc, ◌+◌, ◌≤◌, ◌<◌, ◌≡◌, refl, sym, ap, ◌∙◌, Bool, true, false, inl, inr, List, ℤ,
  Option, none, some, Run, ok, fault, hang, arith, Bool-cases, leb, ◌==◌,
}
use mathlib.Core.Option.{some_inj}
use star_struck.Keyring.State.{Keyring, KeyKind, ipc_success, other, unknown2, total_entries}
use star_struck.Keyring.Alloc.{get_key_index_fit_size}
use star_struck.Keyring.Access.{
  set_key_metadata, set_key_zeroes_if_any_private, set_key_owner_process, get_key_size_from_type,
}
use star_struck.Keyring.Bytes.{set_key}
use star_struck.Keyring.Entries.{free_entries}
use star_struck.Iosc.Counters.{Counters, Board}
use star_struck.Iosc.Objects.{owns_key, create_object, custom_start_index}
use star_struck.Iosc.Created.{create_object-IsCreated}
use star_struck.Iosc.Released.{owns_key-IsCreated}
use star_struck.Iosc.Init.{iosc_init}

-- The handles from `i` on, `n` of them, are in use.
abbrev InUse : ℕ → ℕ → Keyring → Type 0
InUse zero i g = Unit {0}
InUse (suc n) i g = ((g.handles i).is_used ≡ true) × InUse n (i + 1) g

handle_of_InUse :
    (n i : ℕ) (g : Keyring) (j : ℕ) → InUse n i g → i ≤ j → j < i + n → (g.handles j).is_used ≡ true
handle_of_InUse zero i g j u low high = absurd (omega (arith, low, high))
handle_of_InUse (suc n) i g j u low high = elim (Bool-cases (j == i)) [
  | inl e ↦ let same : j ≡ i = ground (arith, e) in ap (λ (k : ℕ). (g.handles k).is_used) same ∙ u.0
  | inr other ↦ handle_of_InUse n (i + 1) g j u.1 (ground (arith, low, other)) (omega (arith, high))
]

-- The key store behind `IOSC_Init`.
pub record IsStarted (g : Keyring) : Type 0 where
  pub in_use : InUse 12 0 g
  pub free : (g.handles 12).is_used ≡ false
  pub room : free_entries total_entries 0 g ≡ 57
  pub kind : (g.handles 7).kind ≡ record { type = other; subtype = unknown2 }
  pub owner : (g.handles 7).owner_process ≡ 3

-- The key store and the counters that a run leaves, or those from before.
unfoldable pub run_ring : Keyring → Run (ℤ × Keyring × Counters) → Keyring
run_ring r (ok a) = a.1
run_ring r fault = r
run_ring r hang = r

unfoldable pub run_counters : Counters → Run (ℤ × Keyring × Counters) → Counters
run_counters c (ok a) = a.2
run_counters c fault = c
run_counters c hang = c

run_code : Run (ℤ × Keyring × Counters) → Option ℤ
run_code (ok a) = some (a.0)
run_code fault = none
run_code hang = none

run_code-ok :
    (code : ℤ) (r : Keyring) (c : Counters) (x : Run (ℤ × Keyring × Counters))
    → run_code x ≡ some code
    → x ≡ ok (code, run_ring r x, run_counters c x)
unfolding run_code run_ring run_counters
run_code-ok code r c (ok a) e = ap (λ (n : ℤ). ok (n, a.1, a.2)) (some_inj.0 e)
run_code-ok code r c fault e = absurd cc
run_code-ok code r c hang e = absurd cc

module _ (stale : KeyKind) (word : ℕ → ℕ) (junk : List ℕ) (b : Board) (c : Counters)
    (r : Keyring) where
  unfoldable pub ring : Keyring
  ring = run_ring r (iosc_init stale word junk b c r)

  unfoldable pub counters : Counters
  counters = run_counters c (iosc_init stale word junk b c r)

  run_code-iosc_init : run_code (iosc_init stale word junk b c r) ≡ some ipc_success
  unfolding run_code iosc_init get_key_index_fit_size set_key_metadata set_key
      set_key_zeroes_if_any_private set_key_owner_process
  run_code-iosc_init = refl

  pub iosc_init-success : iosc_init stale word junk b c r ≡ ok (ipc_success, ring, counters)
  unfolding ring counters
  iosc_init-success =
      run_code-ok ipc_success r c (iosc_init stale word junk b c r) run_code-iosc_init

  ring-InUse : InUse 12 0 ring
  unfolding ring run_ring iosc_init get_key_index_fit_size set_key_metadata set_key
      set_key_zeroes_if_any_private set_key_owner_process
  ring-InUse = (
    refl,
    (refl, (refl, (refl, (refl, (refl, (refl, (refl, (refl, (refl, (refl, (refl, tt))))))))))),
  )

  pub ring-IsStarted : IsStarted ring
  unfolding ring run_ring iosc_init get_key_index_fit_size set_key_metadata set_key
      set_key_zeroes_if_any_private set_key_owner_process free_entries
  ring-IsStarted = record {
    in_use = ring-InUse;
    free = refl;
    room = refl;
    kind = refl;
    owner = refl;
  }

  pub ring_before : (j : ℕ) → j < 12 → (ring.handles j).is_used ≡ true
  ring_before j low = handle_of_InUse 12 0 ring j ring-InUse (omega arith) (omega (arith, low))

at_most_rsa4096 : Option ℕ → Bool
at_most_rsa4096 none = true
at_most_rsa4096 (some n) = leb n 0x200

sizes_at_most_rsa4096 :
    (type subtype : ℕ) → at_most_rsa4096 (get_key_size_from_type type subtype).1 ≡ true
unfolding at_most_rsa4096 get_key_size_from_type
sizes_at_most_rsa4096 type subtype = ground arith

get_key_size_from_type-small :
    (type subtype size : ℕ) → (get_key_size_from_type type subtype).1 ≡ some size → size ≤ 1824
unfolding at_most_rsa4096
get_key_size_from_type-small type subtype size sized =
    let test : leb size 0x200 ≡ true =
      sym (ap at_most_rsa4096 sized) ∙ sizes_at_most_rsa4096 type subtype in
    ground (arith, test)

-- `IOSC_Init` succeeds, whatever the memories hold, and the first key object that a process makes then
-- gets the first custom handle and belongs to the process.
pub iosc_init-create_object :
    (stale : KeyKind) (word : ℕ → ℕ) (junk : List ℕ) (b : Board) (c : Counters) (r : Keyring)
    (pid type subtype size : ℕ)
    → (get_key_size_from_type type subtype).1 ≡ some size
    → 0 < size
    → pid < 32
    → (g s : Keyring) × (d : Counters) × (iosc_init stale word junk b c r ≡ ok (ipc_success, g, d))
      × (create_object ipc_success ipc_success ipc_success pid type subtype g
          ≡ ok (ipc_success, some custom_start_index, s))
      × (owns_key pid custom_start_index s ≡ ipc_success)
iosc_init-create_object stale word junk b c r pid type subtype size sized some_size low =
    let g = ring stale word junk b c r in
    let started = ring-IsStarted stale word junk b c r in
    let (p, ps, s, made, k) =
      create_object-IsCreated pid type subtype size custom_start_index g sized some_size
        (rw started.room (get_key_size_from_type-small type subtype size sized)) (omega arith)
        started.free (ring_before stale word junk b c r) in
    (
      g,
      s,
      counters stale word junk b c r,
      iosc_init-success stale word junk b c r,
      made,
      owns_key-IsCreated g s pid custom_start_index p ps k (omega arith) low,
    )
