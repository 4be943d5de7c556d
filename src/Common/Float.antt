-- ===== src/Common/Float.antt =====
-- What the program uses of IEEE 754 double precision, as an interface.
use Prim.Native.Nat.{ℕ}
use mathlib.Core.Bool.{Bool}
use forktower.Common.Int.{ℤ}

-- `ratio p q` is the constant p/q as the compiler rounds it, `below` is `<`, and `to_int` is the
-- conversion of a float64 to an int64.
pub record Float64 : Type 1 where
  pub Carrier : Type 0
  pub of_int : ℤ → Carrier
  pub ratio : ℕ → ℕ → Carrier
  pub plus : Carrier → Carrier → Carrier
  pub times : Carrier → Carrier → Carrier
  pub over : Carrier → Carrier → Carrier
  pub larger : Carrier → Carrier → Carrier
  pub below : Carrier → Carrier → Bool
  pub to_int : Carrier → ℤ
