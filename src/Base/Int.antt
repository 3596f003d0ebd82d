-- ===== src/Base/Int.antt =====
-- Signed 32-bit values as integers, and the conversion to unsigned.
use Prim.Native.Nat.{ℕ, ◌+◌, ◌-◌, ◌%◌, ◌^◌}
use mathlib.Core.Bool.{Bool, true, false}
use star_struck.Base.Tests.{ltb, ◌==◌}

-- `negsuc n` is -(n + 1).
pub data ℤ : Type 0 where
  pos : ℕ → ℤ
  negsuc : ℕ → ℤ

-- a < b on s32
abbrev pub lt_int : ℤ → ℤ → Bool
lt_int (pos a) (pos b) = ltb a b
lt_int (pos a) (negsuc b) = false
lt_int (negsuc a) (pos b) = true
lt_int (negsuc a) (negsuc b) = ltb b a

abbrev pub eq_int : ℤ → ℤ → Bool
eq_int (pos a) (pos b) = a == b
eq_int (pos a) (negsuc b) = false
eq_int (negsuc a) (pos b) = false
eq_int (negsuc a) (negsuc b) = a == b

-- (u32)x
abbrev pub to_u32 : ℤ → ℕ
to_u32 (pos n) = n % 2 ^ 32
to_u32 (negsuc n) = (2 ^ 32 - 1) - n % 2 ^ 32

-- u32 subtraction wraps.
abbrev pub sub_u32 : ℕ → ℕ → ℕ
sub_u32 a b = (a + 2 ^ 32 - b) % 2 ^ 32

abbrev pub add_u32 : ℕ → ℕ → ℕ
add_u32 a b = (a + b) % 2 ^ 32
