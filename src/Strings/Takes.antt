-- ===== src/Strings/Takes.antt =====
-- The copying loops of core/source/string.c against the copy of a range.
use star_struck.Base.{
  ℕ, ◌+◌, ◌-◌, ◌≤◌, ◌≡◌, ◌⊎◌, inl, inr, refl, sym, ◌∙◌, ap, false, Bool-cases, ltb, leb, ◌==◌, ◌&&◌,
  if◌then◌else◌, update, arith,
}
use star_struck.Strings.Memory.{Memory, read_word, write_word}
use star_struck.Strings.Bytes.{IsBytes, write_word-bytes}

-- `n` bytes of `from`, those from `s` on, stand at `p`; all others are those of `m`.
abbrev pub take_range : Memory → Memory → ℕ → ℕ → ℕ → Memory
take_range m from p s n q = if leb p q && ltb q (p + n) then from (s + (q - p)) else m q

abbrev pub Takes : Memory → Memory → ℕ → ℕ → ℕ → Memory → Type 0
Takes m from p s n g = (q : ℕ) → g q ≡ take_range m from p s n q

-- Two ranges of `n` bytes do not overlap.
abbrev pub Apart : ℕ → ℕ → ℕ → Type 0
Apart p s n = (p + n ≤ s) ⊎ (s + n ≤ p)

pub take_nothing : (m from : Memory) (p s : ℕ) → Takes m from p s 0 m
take_nothing m from p s q = ground arith

pub Takes-length :
    (m from g : Memory) (p s n k : ℕ) → n ≡ k → Takes m from p s n g → Takes m from p s k g
Takes-length m from g p s n k e h = rw (sym e) h

pub take-take :
    (m from g h : Memory) (p s n k t u w : ℕ)
    → t ≡ p + n
    → u ≡ s + n
    → w ≡ n + k
    → Takes m from p s n g
    → Takes g from t u k h
    → Takes m from p s w h
take-take m from g h p s n k t u w e f l a b q = elim (Bool-cases (leb t q)) [
  | inl far ↦
      let place : u + (q - t) ≡ s + (q - p) = ground (arith, e, f, far) in
      ground (arith, a q, b q, ap from place)
  | inr near ↦ ground (arith, a q, b q)
]

-- A range that has been copied is read as before if it was copied elsewhere.
source_kept :
    (m g h : Memory) (p s n k t u : ℕ)
    → t ≡ p + n
    → u ≡ s + n
    → Apart p s (n + k)
    → Takes m m p s n g
    → Takes g g t u k h
    → Takes g m t u k h
source_kept m g h p s n k t u e f (inl before) a b q = ground (arith, b q, a (u + (q - t)))
source_kept m g h p s n k t u e f (inr behind) a b q = ground (arith, b q, a (u + (q - t)))

pub copy-copy :
    (m g h : Memory) (p s n k t u w : ℕ)
    → t ≡ p + n
    → u ≡ s + n
    → w ≡ n + k
    → Apart p s w
    → Takes m m p s n g
    → Takes g g t u k h
    → Takes m m p s w h
copy-copy m g h p s n k t u w e f l apart a b =
    take-take m m g h p s n k t u w e f l a (source_kept m g h p s n k t u e f (rw l at apart) a b)

pub Takes-IsBytes :
    (m from g : Memory) (p s n : ℕ) → IsBytes m → IsBytes from → Takes m from p s n g → IsBytes g
Takes-IsBytes m from g p s n b c h q = ground (arith, h q, b q, c (s + (q - p)))

pub shifted_at :
    (from : Memory) (p s r x q : ℕ)
    → x ≡ s + r
    → ((p + r == q) ≡ false) ⊎ (from x ≡ from (s + (q - p)))
shifted_at from p s r x q e = elim (Bool-cases (p + r == q)) [
  | inl same ↦ inr (let i : x ≡ s + (q - p) = ground (arith, e, same) in ap from i)
  | inr other ↦ inl other
]

pub take_byte : (m from : Memory) (p s : ℕ) → Takes m from p s 1 (update m p (from s))
take_byte m from p s q = ground (arith, shifted_at from p s 0 s q (omega arith))

pub take_word :
    (m from : Memory) (p s : ℕ)
    → IsBytes from
    → Takes m from p s 4 (write_word m p (read_word from s))
take_word m from p s b q =
    write_word-bytes m p (from s) (from (s + 1)) (from (s + 2)) (from (s + 3)) (b s) (b (s + 1))
      (b (s + 2)) (b (s + 3)) q
    ∙ ground (
      arith,
      shifted_at from p s 0 s q (omega arith),
      shifted_at from p s 1 (s + 1) q refl,
      shifted_at from p s 2 (s + 2) q refl,
      shifted_at from p s 3 (s + 3) q refl,
    )
