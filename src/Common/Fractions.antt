-- ===== src/Common/Fractions.antt =====
-- Numbers that are not negative as exact fractions: an instance of the interface to floating point.
use Prim.Native.Nat.{ℕ, ◌+◌, ◌*◌, ◌/◌}
use forktower.Common.Tests.{ltb, if◌then◌else◌}
use forktower.Common.Int.{pos, pos_part}
use forktower.Common.Float.{Float64}

abbrev pub fractions : Float64
fractions = record {
  Carrier = ℕ × ℕ;
  of_int = λ z. (pos_part z, 1);
  ratio = λ p q. (p, q);
  plus = λ a b. (a.0 * b.1 + b.0 * a.1, a.1 * b.1);
  times = λ a b. (a.0 * b.0, a.1 * b.1);
  over = λ a b. (a.0 * b.1, a.1 * b.0);
  larger = λ a b. if ltb (a.0 * b.1) (b.0 * a.1) then b else a;
  below = λ a b. ltb (a.0 * b.1) (b.0 * a.1);
  to_int = λ a. pos (a.0 / a.1);
}
