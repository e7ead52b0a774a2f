-- ===== src/Base/Float.antt =====
-- Go's float64: the type and the operations that the program uses. Rounding is not modelled: what
-- is proved of the program holds whatever these operations return, but for the laws it names.
use Prim.Native.Nat.{ℕ}
use mathlib.Core.Bool.{Bool}

pub record Float64 : Type 1 where
  pub Carrier : Type 0
  -- ==, which is false at NaN
  pub eq : Carrier → Carrier → Bool
  -- <=
  pub le : Carrier → Carrier → Bool
  pub add : Carrier → Carrier → Carrier
  pub div : Carrier → Carrier → Carrier
  -- float64(n)
  pub of_int : ℕ → Carrier
