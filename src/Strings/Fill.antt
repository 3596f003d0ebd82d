-- ===== src/Strings/Fill.antt =====
-- `memset` of core/source/string.c against the plain filling of a range.
use star_struck.Base.{
  ℕ, zero, suc, ◌+◌, ◌-◌, ◌*◌, ◌/◌, ◌%◌, ◌^◌, ◌<◌, ◌≤◌, ◌≡◌, ◌⊎◌, inl, inr, refl, sym, ◌∙◌, ap,
  true, false, Bool-cases, ltb, leb, ◌==◌, ◌&&◌, if◌then◌else◌, update, arith,
}
use star_struck.Strings.Memory.{
  Memory, word, write_word, write_mem1, set_mem1, set_bytes, set_memory, set_words, set_blocks,
  store_four, mem1_end,
}
use star_struck.Strings.Memset.{repeated, set_memory_short, set_rest, set_to_16}
use star_struck.Strings.Bytes.{IsBytes, write_word-bytes, write_mem1-update}

-- `n` bytes from `p` on are `d`, and all others as they were.
abbrev pub fill : Memory → ℕ → ℕ → ℕ → Memory
fill m p d n q = if leb p q && ltb q (p + n) then d else m q

abbrev pub Fills : Memory → ℕ → ℕ → ℕ → Memory → Type 0
Fills m p d n g = (q : ℕ) → g q ≡ fill m p d n q

pub fill-fill :
    (m g h : Memory) (p d n k t s : ℕ)
    → t ≡ p + n
    → s ≡ n + k
    → Fills m p d n g
    → Fills g t d k h
    → Fills m p d s h
fill-fill m g h p d n k t s e f a b q = ground (arith, a q, b q)

pub Fills-IsBytes : (m g : Memory) (p d n : ℕ) → d < 2 ^ 8 → IsBytes m → Fills m p d n g → IsBytes g
Fills-IsBytes m g p d n lt b h q = ground (arith, h q, b q)

pub no_bytes : (m : Memory) (p d : ℕ) → Fills m p d 0 m
no_bytes m p d q = ground arith

one_byte : (m : Memory) (p d : ℕ) → Fills m p d 1 (update m p d)
one_byte m p d q = ground arith

same_update : (m g : Memory) (p d : ℕ) → ((q : ℕ) → g q ≡ update m p d q) → Fills m p d 1 g
same_update m g p d same q = same q ∙ one_byte m p d q

pub set_mem1-Fills :
    (n : ℕ) (m : Memory) (p d : ℕ) → IsBytes m → d < 2 ^ 8 → Fills m p d n (set_mem1 n m p d)
unfolding set_mem1
set_mem1-Fills zero m p d b lt = no_bytes m p d
set_mem1-Fills (suc n) m p d b lt =
    let g = write_mem1 m p d in
    let one : Fills m p d 1 g = same_update m g p d (write_mem1-update m p d b lt) in
    fill-fill m g (set_mem1 n g (p + 1) d) p d 1 n (p + 1) (suc n) refl (omega arith) one
      (set_mem1-Fills n g (p + 1) d (Fills-IsBytes m g p d 1 lt b one) lt)

set_bytes-Fills : (n : ℕ) (m : Memory) (p d : ℕ) → Fills m p d n (set_bytes n m p d)
unfolding set_bytes
set_bytes-Fills zero m p d = no_bytes m p d
set_bytes-Fills (suc n) m p d =
    let g = update m p d in
    fill-fill m g (set_bytes n g (p + 1) d) p d 1 n (p + 1) (suc n) refl (omega arith)
      (one_byte m p d) (set_bytes-Fills n g (p + 1) d)

pub set_memory-Fills :
    (m : Memory) (p d n : ℕ) → IsBytes m → d < 2 ^ 8 → Fills m p d n (set_memory m p d n)
unfolding set_memory
set_memory-Fills m p d n b lt = elim (Bool-cases (ltb p mem1_end)) [
  | inl e ↦ rw e (set_mem1-Fills n m p d b lt)
  | inr e ↦ rw e (set_bytes-Fills n m p d)
]

repeated-word : (d : ℕ) → repeated d ≡ word d d d d
repeated-word d = omega arith

write_word-Fills : (m : Memory) (p d : ℕ) → d < 2 ^ 8 → Fills m p d 4 (write_word m p (repeated d))
write_word-Fills m p d lt q =
    ap (λ w. write_word m p w q) (repeated-word d)
    ∙ write_word-bytes m p d d d d lt lt lt lt q
    ∙ ground arith

set_words-Fills :
    (n : ℕ) (m : Memory) (p d : ℕ) → d < 2 ^ 8 → Fills m p d (4 * n) (set_words n m p (repeated d))
unfolding set_words
set_words-Fills zero m p d lt = no_bytes m p d
set_words-Fills (suc n) m p d lt =
    let g = write_word m p (repeated d) in
    fill-fill m g (set_words n g (p + 4) (repeated d)) p d 4 (4 * n) (p + 4) (4 * suc n) refl
      (omega arith) (write_word-Fills m p d lt) (set_words-Fills n g (p + 4) d lt)

store_four-Fills : (m : Memory) (p d : ℕ) → d < 2 ^ 8 → Fills m p d 16 (store_four m p (repeated d))
store_four-Fills m p d lt =
    let w = repeated d in
    let m1 = write_word m p w in
    let m2 = write_word m1 (p + 4) w in
    let m3 = write_word m2 (p + 8) w in
    let two =
      fill-fill m m1 m2 p d 4 4 (p + 4) 8 refl refl (write_word-Fills m p d lt)
        (write_word-Fills m1 (p + 4) d lt) in
    let three =
      fill-fill m m2 m3 p d 8 4 (p + 8) 12 refl refl two (write_word-Fills m2 (p + 8) d lt) in
    fill-fill m m3 (write_word m3 (p + 12) w) p d 12 4 (p + 12) 16 refl refl three
      (write_word-Fills m3 (p + 12) d lt)

set_blocks-Fills :
    (n : ℕ) (m : Memory) (p d : ℕ)
    → d < 2 ^ 8
    → Fills m p d (16 * n) (set_blocks n m p (repeated d))
unfolding set_blocks
set_blocks-Fills zero m p d lt = no_bytes m p d
set_blocks-Fills (suc n) m p d lt =
    let g = store_four m p (repeated d) in
    fill-fill m g (set_blocks n g (p + 16) (repeated d)) p d 16 (16 * n) (p + 16) (16 * suc n) refl
      (omega arith) (store_four-Fills m p d lt) (set_blocks-Fills n g (p + 16) d lt)

pub Fills-length : (m g : Memory) (p d n k : ℕ) → n ≡ k → Fills m p d n g → Fills m p d k g
Fills-length m g p d n k e h = rw (sym e) h

set_memory_short-Fills :
    (m : Memory) (p d len : ℕ)
    → len % 4 ≡ 0
    → d < 2 ^ 8
    → Fills m p d len (set_memory_short m p d len)
unfolding set_memory_short
set_memory_short-Fills m p d len al lt =
    let g = set_blocks (len / 16) m p (repeated d) in
    fill-fill m g (set_words (len % 16 / 4) g (p + len / 16 * 16) (repeated d)) p d
      (16 * (len / 16)) (4 * (len % 16 / 4)) (p + len / 16 * 16) len (omega arith)
      (omega (arith, al)) (set_blocks-Fills (len / 16) m p d lt)
      (set_words-Fills (len % 16 / 4) g (p + len / 16 * 16) d lt)

pub set_rest-Fills :
    (m : Memory) (p d cnt length : ℕ)
    → IsBytes m
    → d < 2 ^ 8
    → cnt % 4 ≡ 0
    → cnt ≤ length
    → Fills m p d length (set_rest m p d cnt length)
unfolding set_rest
set_rest-Fills m p d cnt length b lt al le =
    second (if cnt == 0 then m else set_memory_short m p d cnt) (first (Bool-cases (cnt == 0)))
      (Bool-cases (length - cnt == 0))
  where
    first :
        ((cnt == 0) ≡ true) ⊎ ((cnt == 0) ≡ false)
        → Fills m p d cnt (if cnt == 0 then m else set_memory_short m p d cnt)
    first (inl e) = rw e (Fills-length m m p d 0 cnt (ground arith) (no_bytes m p d))
    first (inr e) = rw e (set_memory_short-Fills m p d cnt al lt)

    second :
        (g : Memory)
        → Fills m p d cnt g
        → ((length - cnt == 0) ≡ true) ⊎ ((length - cnt == 0) ≡ false)
        → Fills m p d length
            (if length - cnt == 0 then g else set_memory g (p + cnt) d (length - cnt))
    second g h (inl e) = rw e (Fills-length m g p d cnt length (ground (arith, e, le)) h)
    second g h (inr e) = rw e (
        fill-fill m g (set_memory g (p + cnt) d (length - cnt)) p d cnt (length - cnt) (p + cnt)
          length refl (omega (arith, le)) h
          (set_memory-Fills g (p + cnt) d (length - cnt) (Fills-IsBytes m g p d cnt lt b h) lt))

pub set_to_16-Fills :
    (m : Memory) (p d cnt : ℕ)
    → d < 2 ^ 8
    → cnt % 4 ≡ 0
    → cnt < 16
    → Fills m p d cnt (set_to_16 m p d cnt)
unfolding set_to_16
set_to_16-Fills m p d cnt lt al small =
    let none_left : (if cnt / 4 % 4 == 0 then cnt else cnt % 4) ≡ 0 = ground arith in
    rw none_left (
      Fills-length m (set_words (cnt / 4 % 4) m p (repeated d)) p d (4 * (cnt / 4 % 4)) cnt
        (omega (arith, al, small)) (set_words-Fills (cnt / 4 % 4) m p d lt))
