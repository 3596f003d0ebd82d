-- ===== src/Seeprom/Words.antt =====
-- What passes over the wires of kernel/source/crypto/seeprom.c: words, the highest bit first.
use star_struck.Base.{
  ℕ, zero, suc, ◌+◌, ◌*◌, ◌/◌, ◌%◌, ◌^◌, ◌≤◌, ◌<◌, ◌≡◌, refl, ◌∙◌, Bool, true, false, List, [], ◌∷◌,
  if◌then◌else◌, arith, ltb, le→ltb,
}
use native.Mathlib.Nat.{
  mod-lt, mul-add-mod_self_left, mod-eq_of_lt, pow-suc, mod-one, div-add-mod, one-le-pow,
}
use star_struck.Seeprom.Pins.{Edge, Pins, bit, send_bit, receive_edge}
use star_struck.Seeprom.Transfer.{Miso, send_loop, send_bits, receive_loop, read_word, ipc_success}
use star_struck.Seeprom.Seed.{next_words}

digit : Bool → ℕ
digit b = if b then 1 else 0

-- The number that the last `n` edges carry.
pub word : ℕ → List Edge → ℕ
word zero es = 0
word (suc n) [] = 0
word (suc n) (e ∷ es) = digit (e.mosi) + 2 * word n es

two_pos : 0 < 2
two_pos = omega arith

digit-bit : (n v : ℕ) → digit (bit n v) ≡ v / 2 ^ n % 2
unfolding digit
digit-bit n v = ground (arith, mod-lt (v / 2 ^ n) two_pos)

regroup :
    (d v w q b r : ℕ) → d * w + r ≡ v → 2 * q + b ≡ w → b < 2 → r < d → v % (d * 2) ≡ b * d + r
regroup d v w q b r e f lt small =
    let whole : v ≡ d * 2 * q + (b * d + r) = (let e' = rw (← f) at e in omega (arith, e')) in
    rw whole (mul-add-mod_self_left (d * 2) q (b * d + r) ∙ mod-eq_of_lt (choice b lt))
  where
    choice : (b : ℕ) → b < 2 → b * d + r < d * 2
    choice zero h = omega (arith, small)
    choice (suc zero) h = omega (arith, small)
    choice (suc (suc b)) h = absurd (omega (arith, h))

-- The lowest n + 1 bits.
split : (n v : ℕ) → v % 2 ^ suc n ≡ digit (bit n v) * 2 ^ n + v % 2 ^ n
unfolding digit
split n v =
    rw (digit-bit n v, pow-suc 2 n)
      (regroup (2 ^ n) v (v / 2 ^ n) (v / 2 ^ n / 2) (v / 2 ^ n % 2) (v % 2 ^ n)
        (div-add-mod v (2 ^ n)) (div-add-mod (v / 2 ^ n) 2) (mod-lt (v / 2 ^ n) two_pos)
        (mod-lt v (one-le-pow n 2 two_pos)))

last_digit : (a w n r t : ℕ) → t ≡ a * 2 ^ n + r → (a + 2 * w) * 2 ^ n + r ≡ w * 2 ^ suc n + t
last_digit a w n r t e = rw (e, pow-suc 2 n) (omega arith)

last_bit :
    (b : Bool) (n out r t : ℕ)
    → t ≡ digit b * 2 ^ n + r
    → out + (if b then 2 ^ n else 0) + r ≡ out + t
unfolding digit
last_bit true n out r t e = omega (arith, e)
last_bit false n out r t e = omega (arith, e)

send_loop-word :
    (n m v : ℕ) (p : Pins)
    → word (n + m) (send_loop n v p).edges ≡ word m p.edges * 2 ^ n + v % 2 ^ n
unfolding send_loop word
send_loop-word zero m v p =
    let one : v % 1 ≡ 0 = mod-one v in
    let m' : 0 + m ≡ m = omega arith in rw (m', one) (omega arith)
send_loop-word (suc n) m v p =
    let bits = send_bit (bit n v) p in
    let q : suc n + m ≡ n + suc m = omega arith in
    rw q (
      send_loop-word n (suc m) v (send_bit (bit n v) p)
      ∙ last_digit (digit (bit n v)) (word m p.edges) n (v % 2 ^ n) (v % 2 ^ suc n) (split n v))

-- The chip answers the next `n` edges with the lowest `n` bits of `v`, the highest first.
unfoldable pub Answers : Miso → ℕ → ℕ → Pins → Type 0
Answers miso zero v p = Unit {0}
Answers miso (suc n) v p =
    (miso (receive_edge p).edges ≡ bit n v) × Answers miso n v (receive_edge p)

receive_loop-Answers :
    (miso : Miso) (n out v : ℕ) (p : Pins)
    → Answers miso n v p
    → (receive_loop miso n out p).0 ≡ out + v % 2 ^ n
unfolding receive_loop Answers
receive_loop-Answers miso zero out v p h = omega arith
receive_loop-Answers miso (suc n) out v p h =
    rw (receive_loop, h.0)
      (receive_loop-Answers miso n (out + (if bit n v then 2 ^ n else 0)) v (receive_edge p) h.1
        ∙ last_bit (bit n v) n out (v % 2 ^ n) (v % 2 ^ suc n) (split n v))

-- The words that are written back are the seed that was read plus one, on 32 bits, if both words
-- have 16 bits.
next_words-increment :
    (lo hi : ℕ)
    → lo < 2 ^ 16
    → hi < 2 ^ 16
    → (next_words lo hi).1 * 2 ^ 16 + (next_words lo hi).0 ≡ (hi * 2 ^ 16 + lo + 1) % 2 ^ 32
unfolding next_words
next_words-increment lo hi a b = ground arith

-- A transfer of at most 32 bits succeeds, and its edges carry the lowest bits of the value.
send_bits-word :
    (n value : ℕ) (p : Pins)
    → n ≤ 32
    → ((send_bits n value p).0 ≡ ipc_success)
      × (word n (send_bits n value p).1.edges ≡ value % 2 ^ n)
unfolding send_bits word
send_bits-word n value p h =
    let short : ltb 32 n ≡ false = le→ltb 32 n h in
    let w = send_loop-word n 0 value p in
    let z : n + 0 ≡ n = omega arith in rw short (refl, rw z at w ∙ omega arith)

-- Reading a word sends the read command with the word's offset and, where the chip answers the 16
-- edges after it with the bits of a value, succeeds and gives these bits.
pub read_word-Answers :
    (miso : Miso) (offset content v : ℕ) (p : Pins)
    → Answers miso 16 v (send_bits 11 (0x600 + offset % 0x100) p).1
    → ((read_word miso offset content p).0 ≡ ipc_success)
      × ((read_word miso offset content p).1 ≡ v % 2 ^ 16)
      × (word 11 (send_bits 11 (0x600 + offset % 0x100) p).1.edges ≡ 0x600 + offset % 0x100)
unfolding read_word
read_word-Answers miso offset content v p h =
    let sent = send_bits-word 11 (0x600 + offset % 0x100) p (omega arith) in
    let got = receive_loop-Answers miso 16 0 v (send_bits 11 (0x600 + offset % 0x100) p).1 h in
    (refl, got ∙ omega arith, sent.1 ∙ small_command (offset % 0x100) (mod-lt offset pos_256))
  where
    pos_256 : 0 < 0x100
    pos_256 = omega arith

    small_command : (o : ℕ) → o < 0x100 → (0x600 + o) % 2 ^ 11 ≡ 0x600 + o
    small_command o lt = omega (arith, lt)
