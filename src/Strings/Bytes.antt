-- ===== src/Strings/Bytes.antt =====
-- The byte stores to MEM1 in core/source/string.c: a word read, changed and written.
use star_struck.Base.{
  ℕ, ◌+◌, ◌-◌, ◌*◌, ◌/◌, ◌%◌, ◌^◌, ◌<◌, ◌≡◌, ◌⊎◌, inl, inr, refl, sym, ◌∙◌, ap, false, Bool-cases,
  ◌==◌, update, arith,
}
use star_struck.Strings.Memory.{Memory, word, read_word, write_word, put_byte, write_mem1}

abbrev pub IsBytes : Memory → Type 0
IsBytes m = (q : ℕ) → m q < 2 ^ 8

-- A word's bytes are its digits.
word-bytes :
    (a b c d : ℕ)
    → a < 2 ^ 8
    → b < 2 ^ 8
    → c < 2 ^ 8
    → d < 2 ^ 8
    → (word a b c d / 2 ^ 24 % 2 ^ 8 ≡ a)
      × (word a b c d / 2 ^ 16 % 2 ^ 8 ≡ b)
      × (word a b c d / 2 ^ 8 % 2 ^ 8 ≡ c)
      × (word a b c d % 2 ^ 8 ≡ d)
word-bytes a b c d ha hb hc hd = (omega arith, omega arith, omega arith, omega arith)

pub write_word-bytes :
    (m : Memory) (p a b c d : ℕ)
    → a < 2 ^ 8
    → b < 2 ^ 8
    → c < 2 ^ 8
    → d < 2 ^ 8
    → (q : ℕ)
    → write_word m p (word a b c d) q
      ≡ update (update (update (update m p a) (p + 1) b) (p + 2) c) (p + 3) d q
unfolding write_word
write_word-bytes m p a b c d ha hb hc hd q =
    let e = word-bytes a b c d ha hb hc hd in rw (e.0, e.1, e.2, e.3) refl

-- A byte of a word, put in.
put_byte-0 :
    (a b c d v : ℕ)
    → a < 2 ^ 8
    → b < 2 ^ 8
    → c < 2 ^ 8
    → d < 2 ^ 8
    → put_byte (word a b c d) 24 v ≡ word v b c d
put_byte-0 a b c d v ha hb hc hd = omega arith

put_byte-1 :
    (a b c d v : ℕ)
    → a < 2 ^ 8
    → b < 2 ^ 8
    → c < 2 ^ 8
    → d < 2 ^ 8
    → put_byte (word a b c d) 16 v ≡ word a v c d
put_byte-1 a b c d v ha hb hc hd = omega arith

put_byte-2 :
    (a b c d v : ℕ)
    → a < 2 ^ 8
    → b < 2 ^ 8
    → c < 2 ^ 8
    → d < 2 ^ 8
    → put_byte (word a b c d) 8 v ≡ word a b v d
put_byte-2 a b c d v ha hb hc hd = omega arith

put_byte-3 :
    (a b c d v : ℕ)
    → a < 2 ^ 8
    → b < 2 ^ 8
    → c < 2 ^ 8
    → d < 2 ^ 8
    → put_byte (word a b c d) 0 v ≡ word a b c v
put_byte-3 a b c d v ha hb hc hd = omega arith

same_at : (m : Memory) (p q : ℕ) → ((p == q) ≡ false) ⊎ (m p ≡ m q)
same_at m p q = elim (Bool-cases (p == q)) [
  | inl e ↦ inr (let s : p ≡ q = ground arith in ap m s)
  | inr e ↦ inl e
]

rest_of-four :
    (p : ℕ) → (p ≡ p / 4 * 4) ⊎ ((p ≡ p / 4 * 4 + 1) ⊎ ((p ≡ p / 4 * 4 + 2) ⊎ (p ≡ p / 4 * 4 + 3)))
rest_of-four p = ground arith

-- The write of one byte at place `r` of the word at `a`.
write_mem1-place :
    (m : Memory) (p v a o r x0 x1 x2 x3 q : ℕ)
    → p / 4 * 4 ≡ a
    → 24 - p % 4 * 8 ≡ o
    → p ≡ a + r
    → x0 < 2 ^ 8
    → x1 < 2 ^ 8
    → x2 < 2 ^ 8
    → x3 < 2 ^ 8
    → put_byte (read_word m a) o v ≡ word x0 x1 x2 x3
    → update (update (update (update m a x0) (a + 1) x1) (a + 2) x2) (a + 3) x3 q
      ≡ update m (a + r) v q
    → write_mem1 m p v q ≡ update m p v q
unfolding write_mem1
write_mem1-place m p v a o r x0 x1 x2 x3 q at shift place l0 l1 l2 l3 put chain =
    ap (λ a. write_word m a (put_byte (read_word m a) (24 - p % 4 * 8) v) q) at
    ∙ ap (λ o. write_word m a (put_byte (read_word m a) o v) q) shift
    ∙ ap (λ w. write_word m a w q) put
    ∙ write_word-bytes m a x0 x1 x2 x3 l0 l1 l2 l3 q
    ∙ chain
    ∙ ap (λ t. update m t v q) (sym place)

abbrev Same : Memory → ℕ → ℕ → Type 0
Same m p q = ((p == q) ≡ false) ⊎ (m p ≡ m q)

four-0 :
    (m : Memory) (a v q : ℕ)
    → Same m (a + 1) q
    → Same m (a + 2) q
    → Same m (a + 3) q
    → update
        (update (update (update m a v) (a + 1) (m (a + 1))) (a + 2) (m (a + 2)))
        (a + 3)
        (m (a + 3))
        q
      ≡ update m (a + 0) v q
four-0 m a v q s1 s2 s3 = ground (arith, s1, s2, s3)

four-1 :
    (m : Memory) (a v q : ℕ)
    → Same m a q
    → Same m (a + 2) q
    → Same m (a + 3) q
    → update
        (update (update (update m a (m a)) (a + 1) v) (a + 2) (m (a + 2)))
        (a + 3)
        (m (a + 3))
        q
      ≡ update m (a + 1) v q
four-1 m a v q s0 s2 s3 = ground (arith, s0, s2, s3)

four-2 :
    (m : Memory) (a v q : ℕ)
    → Same m a q
    → Same m (a + 1) q
    → Same m (a + 3) q
    → update
        (update (update (update m a (m a)) (a + 1) (m (a + 1))) (a + 2) v)
        (a + 3)
        (m (a + 3))
        q
      ≡ update m (a + 2) v q
four-2 m a v q s0 s1 s3 = ground (arith, s0, s1, s3)

four-3 :
    (m : Memory) (a v q : ℕ)
    → Same m a q
    → Same m (a + 1) q
    → Same m (a + 2) q
    → update
        (update (update (update m a (m a)) (a + 1) (m (a + 1))) (a + 2) (m (a + 2)))
        (a + 3)
        v
        q
      ≡ update m (a + 3) v q
four-3 m a v q s0 s1 s2 = ground (arith, s0, s1, s2)

-- A byte of MEM1 is written as any other.
pub write_mem1-update :
    (m : Memory) (p v : ℕ) → IsBytes m → v < 2 ^ 8 → (q : ℕ) → write_mem1 m p v q ≡ update m p v q
write_mem1-update m p v h lt q =
    let a = p / 4 * 4 in
    let x0 = m a in
    let x1 = m (a + 1) in
    let x2 = m (a + 2) in
    let x3 = m (a + 3) in
    let h0 = h a in
    let h1 = h (a + 1) in
    let h2 = h (a + 2) in
    let h3 = h (a + 3) in
    let s0 = same_at m a q in
    let s1 = same_at m (a + 1) q in
    let s2 = same_at m (a + 2) q in
    let s3 = same_at m (a + 3) q in
    elim (rest_of-four p) [
      | inl e ↦
          write_mem1-place m p v a 24 0 v x1 x2 x3 q refl (omega (arith, e)) (omega (arith, e)) lt
            h1 h2 h3 (put_byte-0 x0 x1 x2 x3 v h0 h1 h2 h3) (four-0 m a v q s1 s2 s3)
      | inr (inl e) ↦
          write_mem1-place m p v a 16 1 x0 v x2 x3 q refl (omega (arith, e)) e h0 lt h2 h3
            (put_byte-1 x0 x1 x2 x3 v h0 h1 h2 h3) (four-1 m a v q s0 s2 s3)
      | inr (inr (inl e)) ↦
          write_mem1-place m p v a 8 2 x0 x1 v x3 q refl (omega (arith, e)) e h0 h1 lt h3
            (put_byte-2 x0 x1 x2 x3 v h0 h1 h2 h3) (four-2 m a v q s0 s1 s3)
      | inr (inr (inr e)) ↦
          write_mem1-place m p v a 0 3 x0 x1 x2 v q refl (omega (arith, e)) e h0 h1 h2 lt
            (put_byte-3 x0 x1 x2 x3 v h0 h1 h2 h3) (four-3 m a v q s0 s1 s2)
    ]
