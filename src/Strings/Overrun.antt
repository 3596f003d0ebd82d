-- ===== src/Strings/Overrun.antt =====
-- `strncpy` of core/source/string.c to MEM1.
use star_struck.Base.{
  ℕ, zero, suc, ◌+◌, ◌-◌, ◌<◌, ◌≤◌, ◌≡◌, inl, inr, refl, sym, ◌∙◌, ap, true, false, Bool-cases, ltb,
  lt→ltb, ◌==◌, List, [], ◌∷◌, length, arith,
}
use star_struck.Strings.Memory.{Memory, write_mem1, set_mem1, mem1_end}
use star_struck.Strings.Copy.{Copying, copy_string_mem1, strncpy}
use star_struck.Strings.Compared.{IsString}
use star_struck.Strings.Bytes.{IsBytes, write_mem1-update}
use star_struck.Strings.Fill.{Fills, fill, set_mem1-Fills}
use star_struck.Strings.Takes.{Takes, take_range, Apart, copy-copy, Takes-IsBytes, take_byte}

IsString-frame :
    (m g : Memory) (s : ℕ) (xs : List ℕ)
    → ((i : ℕ) → i ≤ length xs → g (s + i) ≡ m (s + i))
    → IsString m s xs
    → IsString g s xs
IsString-frame m g s [] same h = rw_start (same 0 (omega arith)) ∙ h
  where
    rw_start : g (s + 0) ≡ m (s + 0) → g s ≡ m s
    rw_start e = let z : s + 0 ≡ s = omega arith in rw z at e
IsString-frame m g s (x ∷ xs) same h = (
  rw_start (same 0 (omega arith)) ∙ h.0,
  h.1,
  IsString-frame m g (s + 1) xs
      (λ i le.
        let e : s + 1 + i ≡ s + suc i = omega arith in rw e (same (suc i) (omega (arith, le))))
      h.2,
)
  where
    rw_start : g (s + 0) ≡ m (s + 0) → g s ≡ m s
    rw_start e = let z : s + 0 ≡ s = omega arith in rw z at e

IsString-end : (m : Memory) (s : ℕ) (xs : List ℕ) → IsString m s xs → m (s + length xs) ≡ 0
IsString-end m s [] h = let z : s + 0 ≡ s = omega arith in rw z h
IsString-end m s (x ∷ xs) h =
    let e : s + suc (length xs) ≡ s + 1 + length xs = omega arith in
    rw e (IsString-end m (s + 1) xs h.2)

-- What the copying loop leaves: the string with its end, the address behind it, and the rounds.
record Copied (n : ℕ) (m : Memory) (p s len : ℕ) (c : Copying) : Type 0 where
  bytes : Takes m m p s (len + 1) (c.0)
  next : c.1 ≡ p + len + 1
  rounds : c.2 ≡ n - len

copy_stop :
    (n p s : ℕ) (m : Memory)
    → m s ≡ 0
    → copy_string_mem1 (suc n) m p s ≡ (write_mem1 m p (m s), p + 1, suc n)
unfolding copy_string_mem1
copy_stop n p s m e = let z : (m s == 0) ≡ true = rw e refl in rw z refl

copy_next :
    (n p s : ℕ) (m : Memory)
    → 0 < m s
    → copy_string_mem1 (suc n) m p s ≡ copy_string_mem1 n (write_mem1 m p (m s)) (p + 1) (s + 1)
unfolding copy_string_mem1
copy_next n p s m e = let z : (m s == 0) ≡ false = ground arith in rw z refl

one_written : (m : Memory) (p s : ℕ) → IsBytes m → Takes m m p s 1 (write_mem1 m p (m s))
one_written m p s b q = write_mem1-update m p (m s) b (b s) q ∙ take_byte m m p s q

Apart-rest : (p s n : ℕ) → Apart p s (suc n) → Apart (p + 1) (s + 1) n
Apart-rest p s n (inl a) = inl (omega (arith, a))
Apart-rest p s n (inr a) = inr (omega (arith, a))

-- A byte that was copied to a place apart from the source leaves the source.
source_same :
    (m g : Memory) (p s n i : ℕ)
    → Apart p s (suc n)
    → i < n
    → Takes m m p s 1 g
    → g (s + 1 + i) ≡ m (s + 1 + i)
source_same m g p s n i (inl a) lt h = ground (arith, h (s + 1 + i))
source_same m g p s n i (inr a) lt h = ground (arith, h (s + 1 + i))

copy_string_mem1-Copied :
    (n : ℕ) (m : Memory) (p s : ℕ) (xs : List ℕ)
    → IsBytes m
    → IsString m s xs
    → length xs < n
    → Apart p s (length xs + 1)
    → Copied n m p s (length xs) (copy_string_mem1 n m p s)
copy_string_mem1-Copied zero m p s xs b str room apart = absurd (omega (arith, room))
copy_string_mem1-Copied (suc n) m p s [] b str room apart =
    rw (copy_stop n p s m str)
      (record { bytes = one_written m p s b; next = omega arith; rounds = omega arith })
copy_string_mem1-Copied (suc n) m p s (x ∷ xs) b str room apart =
    let g = write_mem1 m p (m s) in
    let k = length xs + 1 in
    let wide : Apart p s (suc k) =
      Apart-length p s (suc (length xs) + 1) (suc k) (omega arith) apart in
    let first = one_written m p s b in
    let rest =
      copy_string_mem1-Copied n g (p + 1) (s + 1) xs (Takes-IsBytes m m g p s 1 b b first)
        (IsString-frame m g (s + 1) xs
          (λ i le. source_same m g p s k i wide (omega (arith, le)) first) str.2)
        (omega (arith, room)) (Apart-rest p s k wide) in
    let c = copy_string_mem1 n g (p + 1) (s + 1) in
    rw (copy_next n p s m (let e = str.0 in let some = str.1 in omega (arith, e, some))) (record {
      bytes =
          copy-copy m g c.0 p s 1 k (p + 1) (s + 1) (suc (length xs) + 1) refl refl (omega arith)
            apart first rest.bytes;
      next = omega (arith, rest.next);
      rounds = omega (arith, rest.rounds);
    })
  where
    Apart-length : (p s n k : ℕ) → n ≡ k → Apart p s n → Apart p s k
    Apart-length p s n k e h = rw (sym e) h

-- The string, and zeros from its end on for `n` bytes.
abbrev pub padded : Memory → ℕ → ℕ → ℕ → ℕ → Memory
padded m p s len n = fill (take_range m m p s len) (p + len) 0 n

copied-padded :
    (m g h : Memory) (p s len t n k : ℕ)
    → t ≡ p + len + 1
    → n ≡ k + 1
    → m (s + len) ≡ 0
    → Takes m m p s (len + 1) g
    → Fills g t 0 k h
    → (q : ℕ) → h q ≡ padded m p s len n q
copied-padded m g h p s len t n k e f z a b q = elim (Bool-cases (q == p + len)) [
  | inl at ↦
      let place : s + (q - p) ≡ s + len = ground (arith, at) in ground (arith, a q, b q, ap m place)
  | inr off ↦ ground (arith, a q, b q)
]

-- `strncpy` of a string that is shorter than `maxlen` to a place apart from it in MEM1 copies the string
-- and writes zeros behind it, up to one byte more than the `maxlen` bytes of the destination.
pub strncpy-overrun :
    (m : Memory) (dest src maxlen : ℕ) (xs : List ℕ)
    → IsBytes m
    → IsString m src xs
    → length xs < maxlen
    → dest < mem1_end
    → Apart dest src (length xs + 1)
    → (q : ℕ)
    → strncpy m dest src maxlen q ≡ padded m dest src (length xs) (maxlen + 1 - length xs) q
unfolding strncpy
strncpy-overrun m dest src maxlen xs b str short low apart q =
    let c = copy_string_mem1 maxlen m dest src in
    let r = copy_string_mem1-Copied maxlen m dest src xs b str short apart in
    let e : ltb dest mem1_end ≡ true = lt→ltb dest mem1_end low in
    rw e (
      copied-padded m c.0 (set_mem1 c.2 c.0 c.1 0) dest src (length xs) c.1 (maxlen + 1 - length xs)
        c.2 r.next (omega (arith, r.rounds, short)) (IsString-end m src xs str) r.bytes
        (set_mem1-Fills c.2 c.0 c.1 0 (Takes-IsBytes m m c.0 dest src (length xs + 1) b b r.bytes)
          (omega arith))
        q)
