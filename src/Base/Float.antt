-- ===== src/Base/Float.antt =====
-- float64 with the operations that the program uses. The language implements them by the hardware,
-- so they are a parameter of the model: the type `F` and a value of `Float64 F`.
use jvm_vendors.Base.Int.{ℤ}
use Prim.Native.Nat.{ℕ}

pub record Float64 (F : Type 0) : Type 0 where
  -- float64(n) for an int64 or a uint64
  pub of_int : ℤ → F
  pub mul : F → F → F
  pub div : F → F → F
  -- int64(x), which truncates
  pub to_int : F → ℤ
  -- the constant a/b, rounded to a float64
  pub ratio : ℕ → ℕ → F
