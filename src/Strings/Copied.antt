-- ===== src/Strings/Copied.antt =====
-- `memcpy` of core/source/string.c, whole.
use star_struck.Base.{
  ℕ, zero, suc, ◌+◌, ◌*◌, ◌/◌, ◌%◌, ◌≤◌, ◌≡◌, inl, inr, refl, ◌∙◌, Bool-cases, ltb, ◌==◌, ◌&&◌,
  update, arith,
}
use star_struck.Strings.Memory.{Memory, read_word, write_word, write_mem1, mem1_end}
use star_struck.Strings.Copy.{store_words, copy_blocks, copy_mem1, copy_bytes, copy_rest, memcpy}
use star_struck.Strings.Bytes.{IsBytes, write_mem1-update}
use star_struck.Strings.Takes.{
  Takes, take_range, Apart, take_nothing, Takes-length, take-take, copy-copy, Takes-IsBytes,
  take_byte, take_word,
}

store_words-Takes :
    (n : ℕ) (from m : Memory) (p s : ℕ)
    → IsBytes from
    → Takes m from p s (4 * n) (store_words n from p s m)
unfolding store_words
store_words-Takes zero from m p s b = take_nothing m from p s
store_words-Takes (suc n) from m p s b =
    let g = write_word m p (read_word from s) in
    take-take m from g (store_words n from (p + 4) (s + 4) g) p s 4 (4 * n) (p + 4) (s + 4)
      (4 * suc n) refl refl (omega arith) (take_word m from p s b)
      (store_words-Takes n from g (p + 4) (s + 4) b)

Apart-le : (p s n k : ℕ) → k ≤ n → Apart p s n → Apart p s k
Apart-le p s n k le (inl a) = inl (omega (arith, le, a))
Apart-le p s n k le (inr a) = inr (omega (arith, le, a))

Apart-shift : (p s n d k : ℕ) → d + k ≤ n → Apart p s n → Apart (p + d) (s + d) k
Apart-shift p s n d k le (inl a) = inl (omega (arith, le, a))
Apart-shift p s n d k le (inr a) = inr (omega (arith, le, a))

copy_blocks-Takes :
    (rounds n : ℕ) (m : Memory) (p s w : ℕ)
    → w ≡ rounds * (4 * n)
    → IsBytes m
    → Apart p s w
    → Takes m m p s w (copy_blocks rounds n m p s)
unfolding copy_blocks
copy_blocks-Takes zero n m p s w e b apart =
    Takes-length m m m p s 0 w (omega (arith, e)) (take_nothing m m p s)
copy_blocks-Takes (suc rounds) n m p s w e b apart =
    let k = 4 * n in
    let g = store_words n m p s m in
    let first = store_words-Takes n m m p s b in
    let rest = rounds * (4 * n) in
    let sum : w ≡ k + rest = omega (arith, e) in
    copy-copy m g (copy_blocks rounds n g (p + k) (s + k)) p s k rest (p + k) (s + k) w refl refl
      sum apart first
      (copy_blocks-Takes rounds n g (p + k) (s + k) rest refl (Takes-IsBytes m m g p s k b b first)
        (Apart-shift p s w k rest (omega (arith, sum)) apart))

copy_mem1-Takes :
    (n : ℕ) (m : Memory) (p s : ℕ) → IsBytes m → Apart p s n → Takes m m p s n (copy_mem1 n m p s)
unfolding copy_mem1
copy_mem1-Takes zero m p s b apart = take_nothing m m p s
copy_mem1-Takes (suc n) m p s b apart =
    let g = write_mem1 m p (m s) in
    let first : Takes m m p s 1 g =
      λ q. write_mem1-update m p (m s) b (b s) q ∙ take_byte m m p s q in
    copy-copy m g (copy_mem1 n g (p + 1) (s + 1)) p s 1 n (p + 1) (s + 1) (suc n) refl refl
      (omega arith) apart first
      (copy_mem1-Takes n g (p + 1) (s + 1) (Takes-IsBytes m m g p s 1 b b first)
        (Apart-shift p s (suc n) 1 n (omega arith) apart))

copy_bytes-Takes :
    (n : ℕ) (m : Memory) (p s : ℕ) → Apart p s n → Takes m m p s n (copy_bytes n m p s)
unfolding copy_bytes
copy_bytes-Takes zero m p s apart = take_nothing m m p s
copy_bytes-Takes (suc n) m p s apart =
    let g = update m p (m s) in
    copy-copy m g (copy_bytes n g (p + 1) (s + 1)) p s 1 n (p + 1) (s + 1) (suc n) refl refl
      (omega arith) apart (take_byte m m p s)
      (copy_bytes-Takes n g (p + 1) (s + 1) (Apart-shift p s (suc n) 1 n (omega arith) apart))

copy_rest-Takes :
    (m : Memory) (p s n : ℕ) → IsBytes m → Apart p s n → Takes m m p s n (copy_rest m p s n)
unfolding copy_rest
copy_rest-Takes m p s n b apart = elim (Bool-cases (ltb p mem1_end)) [
  | inl e ↦ rw e (copy_mem1-Takes n m p s b apart)
  | inr e ↦ rw e (copy_bytes-Takes n m p s apart)
]

-- A part that is copied behind another one.
then_blocks :
    (m g : Memory) (p s d rounds n k w : ℕ)
    → k ≡ rounds * (4 * n)
    → IsBytes m
    → w ≡ d + k
    → Apart p s w
    → Takes m m p s d g
    → Takes m m p s w (copy_blocks rounds n g (p + d) (s + d))
then_blocks m g p s d rounds n k w e b sum apart h =
    copy-copy m g (copy_blocks rounds n g (p + d) (s + d)) p s d k (p + d) (s + d) w refl refl sum
      apart h
      (copy_blocks-Takes rounds n g (p + d) (s + d) k e (Takes-IsBytes m m g p s d b b h)
        (Apart-shift p s w d k (omega (arith, sum)) apart))

then_rest :
    (m g : Memory) (p s d k w : ℕ)
    → IsBytes m
    → w ≡ d + k
    → Apart p s w
    → Takes m m p s d g
    → Takes m m p s w (copy_rest g (p + d) (s + d) k)
then_rest m g p s d k w b sum apart h =
    copy-copy m g (copy_rest g (p + d) (s + d) k) p s d k (p + d) (s + d) w refl refl sum apart h (
      copy_rest-Takes g (p + d) (s + d) k (Takes-IsBytes m m g p s d b b h)
        (Apart-shift p s w d k (omega (arith, sum)) apart))

-- `memcpy` between two ranges that do not overlap copies the range, and leaves all other bytes as they
-- were, at any addresses and for any length.
pub memcpy-copy :
    (m : Memory) (dest src len : ℕ)
    → IsBytes m
    → Apart dest src len
    → (q : ℕ) → memcpy m dest src len q ≡ take_range m m dest src len q
unfolding memcpy
memcpy-copy m p s len b apart =
    let n32 = len / 32 in
    let n16 = len % 32 / 16 in
    let n4 = len % 16 / 4 in
    let d1 = 32 * n32 in
    let d2 = 32 * n32 + 16 * n16 in
    let d3 = len / 4 * 4 in
    let m32 = copy_blocks n32 8 m p s in
    let m16 = copy_blocks n16 4 m32 (p + d1) (s + d1) in
    let d4 = d2 + 4 * n4 in
    let m4 = copy_blocks n4 1 m16 (p + d2) (s + d2) in
    let c1 : Takes m m p s d1 m32 =
      copy_blocks-Takes n32 8 m p s d1 (omega arith) b (Apart-le p s len d1 (omega arith) apart) in
    let c2 : Takes m m p s d2 m16 =
      then_blocks m m32 p s d1 n16 4 (16 * n16) d2 (omega arith) b refl
        (Apart-le p s len d2 (omega arith) apart) c1 in
    elim (Bool-cases (len == 0)) [
      | inl e ↦ rw e (Takes-length m m m p s 0 len (ground (arith, e)) (take_nothing m m p s))
      | inr e ↦ elim (Bool-cases ((p % 4 == 0) && (s % 4 == 0))) [
        | inl z ↦
            rw (e, z)
              (then_rest m m4 p s d3 (len % 4) len b (omega arith) apart (
                Takes-length m m m4 p s d4 d3 (omega arith) (
                  then_blocks m m16 p s d2 n4 1 (4 * n4) d4 (omega arith) b refl
                    (Apart-le p s len d4 (omega arith) apart) c2)))
        | inr z ↦ rw (e, z) (copy_rest-Takes m p s len b apart)
      ]
    ]
