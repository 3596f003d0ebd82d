-- ===== src/Keyring/RoundTrip.antt =====
-- A key that `Keyring_SetKey` has stored is what `Keyring_GetKey` reads.
use star_struck.Base.{
  ℕ, zero, suc, ◌+◌, ◌*◌, ◌≤◌, ◌<◌, ◌≡◌, ◌≢◌, refl, ap, sym, ◌∙◌, true, false, List, [], ◌∷◌, ◌++◌,
  pos, has, length, take, drop, ◌==◌, ==_refl, if◌then◌else◌, arith, ok, take-append-drop,
  drop-drop, take-append, drop_all, length-take, length-drop,
}
use mathlib.Core.List.{append_assoc, append-nil}
use star_struck.Keyring.State.{Keyring, total_entries, ipc_success, is_invalid}
use star_struck.Keyring.Bytes.{
  bytes_to_copy, bad_entry, write_part, set_loop, set_key, get_loop, get_key, chain_fuel,
}
use star_struck.Keyring.Chains.{Follows, Parts, Parts-frame}

-- The parts that hold the bytes from `copied` on.
abbrev Stores : Keyring → List ℕ → ℕ → ℕ → List ℕ → Type 0
Stores r bytes size copied [] = Unit {0}
Stores r bytes size copied (p ∷ ps) =
    (p < total_entries)
    × ((r.entries p).is_used ≡ true)
    × Follows (r.entries p).key_next_part_index ps
    × (take (bytes_to_copy size copied) (r.entries p).key
        ≡ take (bytes_to_copy size copied) (drop copied bytes))
    × Stores r bytes size (copied + bytes_to_copy size copied) ps

-- What the read collects.
collected : List ℕ → ℕ → ℕ → List ℕ → List ℕ
collected bytes size copied [] = []
collected bytes size copied (p ∷ ps) =
    take (bytes_to_copy size copied) (drop copied bytes)
    ++ collected bytes size (copied + bytes_to_copy size copied) ps

collected_lem :
    (bytes : List ℕ) (size copied : ℕ) (ps : List ℕ)
    → length bytes ≡ size
    → copied ≤ size
    → size ≤ copied + 32 * length ps
    → collected bytes size copied ps ≡ drop copied bytes
unfolding collected
collected_lem bytes size copied [] h le room = sym (drop_all copied bytes (omega (arith, h, room)))
collected_lem bytes size copied (p ∷ ps) h le room =
    let n = bytes_to_copy size copied in
    ap (λ l. take n (drop copied bytes) ++ l)
      (collected_lem bytes size (copied + n) ps h (ground arith) (ground arith)
        ∙ sym (drop-drop copied n bytes))
    ∙ take-append-drop n (drop copied bytes)

get_loop-Stores :
    (fuel : ℕ) (bytes : List ℕ) (size copied p : ℕ) (ps : List ℕ) (r : Keyring) (out : List ℕ)
    → length ps < fuel
    → Stores r bytes size copied (p ∷ ps)
    → get_loop fuel size copied p r out
      ≡ ok (ipc_success, out ++ collected bytes size copied (p ∷ ps))
unfolding get_loop collected
get_loop-Stores zero bytes size copied p ps r out f s = absurd (omega arith)
get_loop-Stores (suc fuel) bytes size copied p [] r out f s =
    let good : bad_entry p r ≡ false = ground arith in rw (good, s.2, s.3, append-nil)
get_loop-Stores (suc fuel) bytes size copied p (q ∷ qs) r out f s =
    let good : bad_entry p r ≡ false = ground arith in
    let more : ((r.entries p).key_next_part_index == 0) ≡ false = ground arith in
    rw (good, more, s.2.0, s.3)
      (get_loop-Stores fuel bytes size (copied + bytes_to_copy size copied) q qs r
          (out ++ take (bytes_to_copy size copied) (drop copied bytes)) (omega arith) s.4
        ∙ ap (λ l. ok (ipc_success, l)) (append_assoc out _ _))

write_part-key :
    (i copied size : ℕ) (bytes : List ℕ) (r : Keyring)
    → length bytes ≡ size
    → copied ≤ size
    → take
        (bytes_to_copy size copied)
        ((write_part i (bytes_to_copy size copied) bytes copied r).entries i).key
      ≡ take (bytes_to_copy size copied) (drop copied bytes)
unfolding write_part
write_part-key i copied size bytes r h le =
    let n = bytes_to_copy size copied in
    let count : length (take n (drop copied bytes)) ≡ n =
      length-take n (drop copied bytes) ∙ ground (arith, length-drop copied bytes) in
    rw (==_refl i) (take-append n (take n (drop copied bytes)) (drop n (r.entries i).key) count)

-- What the loop of the write leaves.
record Stored (r : Keyring) (bytes : List ℕ) (size copied : ℕ) (ps : List ℕ) (g : Keyring)
    : Type 0 where
  stores : Stores g bytes size copied ps
  kept : (j : ℕ) → has j ps ≡ false → g.entries j ≡ r.entries j
  handles : g.handles ≡ r.handles

module _ (i n copied : ℕ) (bytes : List ℕ) (r : Keyring) where
  write_part-is_used : ((write_part i n bytes copied r).entries i).is_used ≡ (r.entries i).is_used
  unfolding write_part
  write_part-is_used = rw (==_refl i)

  write_part-link :
      ((write_part i n bytes copied r).entries i).key_next_part_index
      ≡ (r.entries i).key_next_part_index
  unfolding write_part
  write_part-link = rw (==_refl i)

  write_part-other : (j : ℕ) → i ≢ j → (write_part i n bytes copied r).entries j ≡ r.entries j
  unfolding write_part
  write_part-other j h = ground arith

  write_part-handles : (write_part i n bytes copied r).handles ≡ r.handles
  unfolding write_part
  write_part-handles = refl

-- One round of the loop of the write.
set_loop_step :
    (fuel : ℕ) (bytes : List ℕ) (size copied i following : ℕ) (r : Keyring)
    → bad_entry i r ≡ false
    → (r.entries i).key_next_part_index ≡ following
    → let n = bytes_to_copy size copied in
      let r1 = write_part i n bytes copied r in
      set_loop (suc fuel) bytes size copied i r ≡ (
        if following == 0
        then ok (ipc_success, r1)
        else set_loop fuel bytes size (copied + n) following r1)
unfolding set_loop
set_loop_step fuel bytes size copied i following r good e =
    rw (good, write_part-link i (bytes_to_copy size copied) copied bytes r, e)

ne_of_has : (p q : ℕ) (qs : List ℕ) → has p qs ≡ false → has q qs ≡ true → p ≢ q
ne_of_has p q [] h m = cc
ne_of_has p q (x ∷ xs) h m = ground (arith, ne_of_has p q xs)

set_loop-Stored :
    (fuel : ℕ) (bytes : List ℕ) (size copied p : ℕ) (ps : List ℕ) (r : Keyring)
    → length ps < fuel
    → length bytes ≡ size
    → copied ≤ size
    → Parts r (p ∷ ps)
    → (g : Keyring) × (set_loop fuel bytes size copied p r ≡ ok (ipc_success, g))
      × Stored r bytes size copied (p ∷ ps) g
set_loop-Stored zero bytes size copied p ps r f h le parts = absurd (omega arith)
set_loop-Stored (suc fuel) bytes size copied p [] r f h le parts =
    let n = bytes_to_copy size copied in
    let good : bad_entry p r ≡ false = ground arith in
    (
      write_part p n bytes copied r,
      set_loop_step fuel bytes size copied p 0 r good parts.4,
      record {
        stores = (
          parts.0,
          write_part-is_used p n copied bytes r ∙ parts.1,
          write_part-link p n copied bytes r ∙ parts.4,
          write_part-key p copied size bytes r h le,
          tt,
        );
        kept = λ j m. write_part-other p n copied bytes r j (ground arith);
        handles = write_part-handles p n copied bytes r;
      },
    )
set_loop-Stored (suc fuel) bytes size copied p (q ∷ qs) r f h le parts =
    let n = bytes_to_copy size copied in
    let r1 = write_part p n bytes copied r in
    let good : bad_entry p r ≡ false = ground arith in
    let more : (q == 0) ≡ false = ground arith in
    let (g, runs, rest) =
      set_loop-Stored fuel bytes size (copied + n) q qs r1 (omega arith) h (ground arith) (
        Parts-frame r r1 (q ∷ qs)
          (λ j m. write_part-other p n copied bytes r j (ne_of_has p j (q ∷ qs) parts.3 m))
          parts.5) in
    let same : g.entries p ≡ r1.entries p = rest.kept p parts.3 in
    (
      g,
      set_loop_step fuel bytes size copied p q r good (parts.4.0) ∙ rw more runs,
      record {
        stores = (
          parts.0,
          rw same (write_part-is_used p n copied bytes r ∙ parts.1),
          rw (same, write_part-link p n copied bytes r) parts.4,
          rw same (write_part-key p copied size bytes r h le),
          rest.stores,
        );
        kept = λ j m.
            rest.kept j (ground arith) ∙ write_part-other p n copied bytes r j (ground arith);
        handles = rest.handles ∙ write_part-handles p n copied bytes r;
      },
    )

-- Where a valid handle leads to a chain of used entries that has room for the bytes, `SetKey`
-- returns 0, and `GetKey` of as many bytes then returns 0 and these bytes. Entries outside the
-- chain and all handles stay as they were.
pub get_key-set_key :
    (r : Keyring) (h p : ℕ) (ps bytes : List ℕ)
    → is_invalid h r ≡ false
    → (r.handles h).keyring_index ≡ pos p
    → Parts r (p ∷ ps)
    → length ps < chain_fuel
    → length bytes ≤ 32 * length (p ∷ ps)
    → (g : Keyring) × (set_key h bytes (length bytes) r ≡ ok (ipc_success, g))
      × (get_key h (length bytes) g ≡ ok (ipc_success, bytes))
      × ((j : ℕ) → has j (p ∷ ps) ≡ false → g.entries j ≡ r.entries j)
      × (g.handles ≡ r.handles)
get_key-set_key r h p ps bytes valid index parts short room =
    let (g, sets, s) =
      set_loop-Stored chain_fuel bytes (length bytes) 0 p ps r short refl (omega arith) parts in
    let still : is_invalid h g ≡ false = rw (s.handles) valid in
    (
      g,
      unfold set_key in rw (valid, index) sets,
      unfold get_key in
          rw (still, s.handles, index)
            (get_loop-Stores chain_fuel bytes (length bytes) 0 p ps g [] short s.stores
              ∙ ap (λ l. ok (ipc_success, l))
                  (collected_lem bytes (length bytes) 0 (p ∷ ps) refl (omega arith) (omega arith))),
      s.kept,
      s.handles,
    )
