-- ===== src/Base/Int/Words.antt =====
-- int64 arithmetic agrees with that of the integers where nothing overflows.
use Prim.Native.Nat.{ℕ, ◌+◌, ◌-◌, ◌*◌, ◌^◌, ◌≤◌, ◌<◌}
use mathlib.Core.Path.{◌≡◌}
use native.Mathlib.Omega.{arith}
use jvm_vendors.Base.Int.{ℤ, pos, negsuc, wrap64, add64, sub64, mul64, IsI64, ◌*ℤ◌}

pub wrap64-IsI64 : (z : ℤ) → IsI64 (wrap64 z)
unfolding wrap64
wrap64-IsI64 (pos n) = ground arith
wrap64-IsI64 (negsuc n) = ground arith

pub wrap64_id : (z : ℤ) → IsI64 z → wrap64 z ≡ z
unfolding wrap64
wrap64_id (pos n) h = ground arith
wrap64_id (negsuc n) h = ground arith

-- Sums, differences and products of natural numbers below 2^63.
pub add64_pos : (a b : ℕ) → a + b < 2 ^ 63 → add64 (pos a) (pos b) ≡ pos (a + b)
unfolding add64
add64_pos a b h = ground arith

pub sub64_pos : (a b : ℕ) → b ≤ a → a < 2 ^ 63 → sub64 (pos a) (pos b) ≡ pos (a - b)
unfolding sub64
sub64_pos a b h k = ground arith

mul_pos : (a b : ℕ) → pos a *ℤ pos b ≡ pos (a * b)
unfolding ◌*ℤ◌
mul_pos a b = ground arith

pub mul64_pos : (a b : ℕ) → a * b < 2 ^ 63 → mul64 (pos a) (pos b) ≡ pos (a * b)
unfolding mul64
mul64_pos a b h = rw mul_pos (wrap64_id (pos (a * b)) (omega arith))

-- A product of natural numbers, whatever its size.
pub mul64_wraps : (a b : ℕ) → mul64 (pos a) (pos b) ≡ wrap64 (pos (a * b))
unfolding mul64
mul64_wraps a b = rw mul_pos
