-- ===== src/Base/Bits.antt =====
-- Masks of low bits as remainders, and `|` of numbers that are cut at the same place.
use Prim.Native.Nat.{
  ℕ, zero, suc, ◌+◌, ◌-◌, ◌*◌, ◌/◌, ◌%◌, ◌^◌, ◌≤◌, ◌<◌, min, max, bit_and, bit_and-bitwise, bit_or,
  bit_or-bitwise, digits,
}
use mathlib.Core.Path.{◌≡◌, refl, sym, ap, ap₂, ◌∙◌}
use native.Mathlib.Nat.{pow-suc, one-le-pow}
use native.Mathlib.Omega.{arith}

abbrev and_digits : ℕ → ℕ → ℕ → ℕ
and_digits n a b = digits (λ _. 0) min n a b

no_digits : (n a : ℕ) → and_digits n a 0 ≡ 0
no_digits zero a = refl
no_digits (suc n) zero = refl
no_digits (suc n) (suc a) = omega (arith, no_digits n (suc a / 2))

-- The digits of `q * 2 ^ k + r` under a mask of `k` ones.
low_digits :
    (k n a q r : ℕ) → a ≡ q * 2 ^ k + r → r < 2 ^ k → a ≤ n → and_digits n a (2 ^ k - 1) ≡ r
low_digits zero n a q r e small room = omega (arith, no_digits n a, small)
low_digits (suc k) zero zero q r e small room = omega (arith, e)
low_digits (suc k) zero (suc a) q r e small room = absurd (omega (arith, room))
low_digits (suc k) (suc n) zero q r e small room = omega (arith, e)
low_digits (suc k) (suc n) (suc a) q r e small room =
    let p : 2 ^ suc k ≡ 2 * 2 ^ k = omega (arith, pow-suc 2 k) in
    let w : q * 2 ^ suc k ≡ 2 * (q * 2 ^ k) = omega (arith, ap (λ t. q * t) p) in
    let one : 1 ≤ 2 ^ k = one-le-pow k 2 (omega arith) in
    let half : (2 ^ suc k - 1) / 2 ≡ 2 ^ k - 1 = omega (arith, p, one) in
    let rest =
      low_digits k n (suc a / 2) q (r / 2) (omega (arith, e, w)) (omega (arith, small, p))
        (omega (arith, room)) in
    let low : (2 ^ suc k - 1) % 2 ≡ 1 = omega (arith, p, one) in
    rw (half, low, rest) (omega (arith, e, w))

-- `a & (2 ^ k - 1)`
pub bit_and_low : (k a q r : ℕ) → a ≡ q * 2 ^ k + r → r < 2 ^ k → bit_and a (2 ^ k - 1) ≡ r
bit_and_low k a q r e small =
    bit_and-bitwise a (2 ^ k - 1) ∙ low_digits k a a q r e small (omega arith)

abbrev or_digits : ℕ → ℕ → ℕ → ℕ
or_digits n a b = digits (λ x. x) max n a b

or_digits_fuel : (n m a b : ℕ) → a ≤ n → a ≤ m → or_digits n a b ≡ or_digits m a b
or_digits_fuel zero zero a b p q = refl
or_digits_fuel zero (suc m) zero b p q = refl
or_digits_fuel zero (suc m) (suc a) b p q = absurd (omega arith)
or_digits_fuel (suc n) zero zero b p q = refl
or_digits_fuel (suc n) zero (suc a) b p q = absurd (omega arith)
or_digits_fuel (suc n) (suc m) zero b p q = refl
or_digits_fuel (suc n) (suc m) (suc a) b p q =
    omega (arith, or_digits_fuel n m (suc a / 2) (b / 2) (omega arith) (omega arith))

zero-bit_or : (b : ℕ) → bit_or 0 b ≡ b
zero-bit_or b = bit_or-bitwise 0 b

bit_or_step : (a b : ℕ) → bit_or a b ≡ bit_or (a / 2) (b / 2) * 2 + max (a % 2) (b % 2)
bit_or_step zero b = omega (arith, zero-bit_or b, zero-bit_or (b / 2))
bit_or_step (suc a) b = omega (
  arith,
  bit_or-bitwise (suc a) b,
  bit_or-bitwise (suc a / 2) (b / 2),
  or_digits_fuel a (suc a / 2) (suc a / 2) (b / 2) (omega arith) (omega arith),
)

-- `|` on two numbers that are cut at the same place.
pub bit_or_split :
    (k x l y m : ℕ)
    → l < 2 ^ k
    → m < 2 ^ k
    → bit_or (x * 2 ^ k + l) (y * 2 ^ k + m) ≡ bit_or x y * 2 ^ k + bit_or l m
bit_or_split zero x l y m small1 small2 =
    let e : l ≡ 0 = omega (arith, small1) in
    let f : m ≡ 0 = omega (arith, small2) in
    let hx : x * 2 ^ 0 + 0 ≡ x = omega arith in
    let hy : y * 2 ^ 0 + 0 ≡ y = omega arith in
    rw (e, f) (omega (arith, ap₂ bit_or hx hy, zero-bit_or 0))
bit_or_split (suc k) x l y m small1 small2 =
    let p : 2 ^ suc k ≡ 2 * 2 ^ k = omega (arith, pow-suc 2 k) in
    let wx : x * 2 ^ suc k ≡ 2 * (x * 2 ^ k) = omega (arith, ap (λ t. x * t) p) in
    let wy : y * 2 ^ suc k ≡ 2 * (y * 2 ^ k) = omega (arith, ap (λ t. y * t) p) in
    let wo : bit_or x y * 2 ^ suc k ≡ 2 * (bit_or x y * 2 ^ k) =
      omega (arith, ap (λ t. bit_or x y * t) p) in
    let hx : (x * 2 ^ suc k + l) / 2 ≡ x * 2 ^ k + l / 2 = omega (arith, wx) in
    let hy : (y * 2 ^ suc k + m) / 2 ≡ y * 2 ^ k + m / 2 = omega (arith, wy) in
    let whole = bit_or_step (x * 2 ^ suc k + l) (y * 2 ^ suc k + m) in
    let halves = ap₂ bit_or hx hy in
    let rest =
      bit_or_split k x (l / 2) y (m / 2) (omega (arith, small1, p)) (omega (arith, small2, p)) in
    let low = bit_or_step l m in omega (arith, whole, halves, rest, low, wx, wy, wo)

pub bit_or-zero : (a : ℕ) → bit_or a 0 ≡ a
bit_or-zero a = below a a (omega arith)
  where
    below : (n a : ℕ) → a ≤ n → bit_or a 0 ≡ a
    below n zero h = zero-bit_or 0
    below zero (suc a) h = absurd (omega (arith, h))
    below (suc n) (suc a) h =
        omega (arith, bit_or_step (suc a) 0, below n (suc a / 2) (omega (arith, h)))

-- `|` puts a field of `k` bits between the higher bits and the `j` lower ones.
pub bit_or_insert :
    (k j x y l : ℕ)
    → y < 2 ^ k
    → l < 2 ^ j
    → bit_or (x * 2 ^ k * 2 ^ j + l) (y * 2 ^ j) ≡ (x * 2 ^ k + y) * 2 ^ j + l
bit_or_insert k j x y l small1 small2 =
    let one : 0 < 2 ^ j = one-le-pow j 2 (omega arith) in
    let two : 0 < 2 ^ k = one-le-pow k 2 (omega arith) in
    let low = bit_or_split j (x * 2 ^ k) l y 0 small2 one in
    let high = bit_or_split k x 0 0 y two small1 in
    let e : y * 2 ^ j + 0 ≡ y * 2 ^ j = omega arith in
    let f : x * 2 ^ k + 0 ≡ x * 2 ^ k = omega arith in
    let g : 0 * 2 ^ k + y ≡ y = omega arith in
    let whole = ap (λ t. bit_or (x * 2 ^ k * 2 ^ j + l) t) (sym e) ∙ low in
    let fields : bit_or (x * 2 ^ k) y ≡ x * 2 ^ k + y =
      ap₂ bit_or (sym f) (sym g)
      ∙ high
      ∙ omega (arith, ap (λ t. t * 2 ^ k) (bit_or-zero x), zero-bit_or y) in
    whole ∙ omega (arith, ap (λ t. t * 2 ^ j) fields, bit_or-zero l)
