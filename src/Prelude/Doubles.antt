-- ===== src/Prelude/Doubles.antt =====
-- The arithmetic of `double` is the compiler's and the C library's, so it is a parameter of the
-- models: they use these operations and no law of them.
use Prim.Native.Nat.{ℕ}
use mathlib.Core.Bool.{Bool}
use pwrapi_ref.Prelude.Int.{ℤ}

pub record Doubles (D : Type 0) : Type 0 where
  pub of_int : ℤ → D
  -- A decimal literal: the mantissa, and how many of its digits stand behind the point.
  pub literal : ℕ → ℕ → D
  pub add : D → D → D
  pub sub : D → D → D
  pub mul : D → D → D
  pub div : D → D → D
  pub pow : D → D → D
  pub eq : D → D → Bool
  -- Casts to `unsigned int` and to the 64-bit `PWR_Time`.
  pub to_uint : D → ℕ
  pub to_time : D → ℤ
