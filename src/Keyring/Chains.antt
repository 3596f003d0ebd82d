-- ===== src/Keyring/Chains.antt =====
-- Chains of entries: the parts of one key.
use star_struck.Base.{ℕ, ◌<◌, ◌≡◌, ◌≢◌, true, false, List, [], ◌∷◌, has, length, arith}
use star_struck.Keyring.State.{Keyring, total_entries}

-- What the link of an entry is, for the parts that follow.
abbrev pub Follows : ℕ → List ℕ → Type 0
Follows j [] = j ≡ 0
Follows j (q ∷ qs) = (j ≡ q) × (j ≢ 0)

-- The distinct used entries `ps` are linked in a row, and the last link is 0.
abbrev pub Parts : Keyring → List ℕ → Type 0
Parts r [] = Unit {0}
Parts r (p ∷ ps) =
    (p < total_entries)
    × ((r.entries p).is_used ≡ true)
    × (length (r.entries p).key ≡ 32)
    × (has p ps ≡ false)
    × Follows (r.entries p).key_next_part_index ps
    × Parts r ps

-- A chain reads its own entries only.
pub Parts-frame :
    (r g : Keyring) (ps : List ℕ)
    → ((j : ℕ) → has j ps ≡ true → g.entries j ≡ r.entries j)
    → Parts r ps
    → Parts g ps
Parts-frame r g [] same h = tt
Parts-frame r g (p ∷ ps) same h =
    let e : g.entries p ≡ r.entries p = same p (ground arith) in
    (h.0, rw e h.1, rw e h.2, h.3, rw e h.4, Parts-frame r g ps (λ j m. same j (ground arith)) h.5)
