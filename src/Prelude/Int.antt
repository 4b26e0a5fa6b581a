-- ===== src/Prelude/Int.antt =====
-- Signed integers over the native numbers, and int64 arithmetic with its wrap-around.
use Prim.Native.Nat.{ℕ, suc, ◌+◌, ◌-◌, ◌*◌, ◌%◌, ◌<◌}
use mathlib.Core.Path.{◌≡◌}
use mathlib.Core.Bool.{Bool}
use native.Mathlib.Omega.{arith}
use certpilot.Prelude.Tests.{ltb, leb, if◌then◌else◌}

-- `negsuc n` is -(n + 1).
pub data ℤ : Type 0 where
  pos : ℕ → ℤ
  negsuc : ℕ → ℤ

abbrev pub pos_part : ℤ → ℕ
pos_part (pos n) = n
pos_part (negsuc n) = 0

abbrev pub neg_part : ℤ → ℕ
neg_part (pos n) = 0
neg_part (negsuc n) = suc n

abbrev pub sub_ℕ : ℕ → ℕ → ℤ
sub_ℕ a b = if leb b a then pos (a - b) else negsuc (b - a - 1)

abbrev pub add_ℤ : ℤ → ℤ → ℤ
add_ℤ a b = sub_ℕ (pos_part a + pos_part b) (neg_part a + neg_part b)

abbrev pub ltb_ℤ : ℤ → ℤ → Bool
ltb_ℤ a b = ltb (pos_part a + neg_part b) (pos_part b + neg_part a)

abbrev pub max_int64 : ℕ
max_int64 = 9_223_372_036_854_775_807

abbrev pub two_pow_64 : ℕ
two_pow_64 = 18_446_744_073_709_551_616

-- The int64 with these 64 bits.
from_bits : ℕ → ℤ
from_bits m = if leb m max_int64 then pos m else negsuc (two_pow_64 - m - 1)

-- An int64 times a number that is not negative, wrapped around.
pub mul_int64 : ℤ → ℕ → ℤ
unfolding from_bits
mul_int64 (pos a) k = from_bits ((a * k) % two_pow_64)
mul_int64 (negsuc a) k = from_bits ((two_pow_64 - (suc a * k) % two_pow_64) % two_pow_64)

pub mul_int64-small : (a k : ℕ) → a * k < suc max_int64 → mul_int64 (pos a) k ≡ pos (a * k)
unfolding mul_int64
mul_int64-small a k h = ground arith
