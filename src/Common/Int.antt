-- ===== src/Common/Int.antt =====
-- Signed machine integers: integers over the native numbers, with the wrap-around of int32 and
-- int64 written out. Orders go through the two parts of an integer, which are native numbers.
use Prim.Native.Nat.{ℕ, suc, ◌+◌, ◌-◌, ◌*◌, ◌%◌, ◌≤◌, ◌<◌}
use mathlib.Core.Path.{◌≡◌}
use mathlib.Core.Logic.{◌↔◌}
use mathlib.Core.Bool.{Bool, true}
use native.Mathlib.Omega.{arith}
use native.Mathlib.Nat.{mod-eq_of_lt, mod-lt}
use forktower.Common.Tests.{ltb, leb, ◌==◌, if◌then◌else◌}

-- `negsuc n` is -(n + 1).
pub data ℤ : Type 0 where
  pos : ℕ → ℤ
  negsuc : ℕ → ℤ

abbrev pub pos_part : ℤ → ℕ
pos_part (pos n) = n
pos_part (negsuc n) = 0

abbrev pub neg_part : ℤ → ℕ
neg_part (pos n) = 0
neg_part (negsuc n) = suc n

abbrev pub sub_ℕ : ℕ → ℕ → ℤ
sub_ℕ a b = if leb b a then pos (a - b) else negsuc (b - a - 1)

infixl 65 ◌+ℤ◌ ◌-ℤ◌
unfoldable pub ◌+ℤ◌ : ℤ → ℤ → ℤ
a +ℤ b = sub_ℕ (pos_part a + pos_part b) (neg_part a + neg_part b)

unfoldable pub ◌-ℤ◌ : ℤ → ℤ → ℤ
a -ℤ b = sub_ℕ (pos_part a + neg_part b) (neg_part a + pos_part b)

infix 50 ◌≤ℤ◌ ◌<ℤ◌
abbrev pub ◌≤ℤ◌ : ℤ → ℤ → Type 0
a ≤ℤ b = pos_part a + neg_part b ≤ pos_part b + neg_part a

abbrev pub ◌<ℤ◌ : ℤ → ℤ → Type 0
a <ℤ b = pos_part a + neg_part b < pos_part b + neg_part a

abbrev pub ltb_ℤ : ℤ → ℤ → Bool
ltb_ℤ a b = ltb (pos_part a + neg_part b) (pos_part b + neg_part a)

abbrev pub leb_ℤ : ℤ → ℤ → Bool
leb_ℤ a b = leb (pos_part a + neg_part b) (pos_part b + neg_part a)

abbrev pub eqb_ℤ : ℤ → ℤ → Bool
eqb_ℤ a b = (pos_part a + neg_part b) == (pos_part b + neg_part a)

pub eq_of_parts : (a b : ℤ) → pos_part a + neg_part b ≡ pos_part b + neg_part a → a ≡ b
eq_of_parts a b h = ground arith

pub eqb_ℤ_iff : (a b : ℤ) → (eqb_ℤ a b ≡ true) ↔ (a ≡ b)
eqb_ℤ_iff a b = ground arith

-- The representative of an integer in [-half, half), modulo 2 * half.
unfoldable pub wrap : ℕ → ℤ → ℤ
wrap half (pos n) =
    let u = n % (2 * half) in if ltb u half then pos u else negsuc (2 * half - u - 1)
wrap half (negsuc n) =
    let u = n % (2 * half) in if ltb u half then negsuc u else pos (2 * half - u - 1)

abbrev pub half32 : ℕ
half32 = 2147483648

abbrev pub half64 : ℕ
half64 = 9223372036854775808

-- The integers that a signed word of the given half range holds.
abbrev pub Fits : ℕ → ℤ → Type 0
Fits half a = (pos_part a < half) × (neg_part a ≤ half)

pub wrap_of_Fits : (half : ℕ) (a : ℤ) → Fits half a → wrap half a ≡ a
unfolding wrap
wrap_of_Fits half (pos n) h = ground (arith, mod-eq_of_lt {n = n} {m = 2 * half} (omega arith))
wrap_of_Fits half (negsuc n) h = ground (arith, mod-eq_of_lt {n = n} {m = 2 * half} (omega arith))

-- int32 and int64 subtraction and addition.
unfoldable pub sub32 : ℤ → ℤ → ℤ
sub32 a b = wrap half32 (a -ℤ b)

unfoldable pub add32 : ℤ → ℤ → ℤ
add32 a b = wrap half32 (a +ℤ b)

unfoldable pub sub64 : ℤ → ℤ → ℤ
sub64 a b = wrap half64 (a -ℤ b)

unfoldable pub add64 : ℤ → ℤ → ℤ
add64 a b = wrap half64 (a +ℤ b)

abbrev pub negate : ℕ → ℤ
negate n = sub_ℕ 0 n

-- A difference in range is exact, read through the parts.
pub wrap_parts :
    (half : ℕ) (a : ℤ)
    → Fits half a
    → pos_part (wrap half a) + neg_part a ≡ neg_part (wrap half a) + pos_part a
wrap_parts half a h = rw (wrap_of_Fits half a h) (omega arith)

pub -ℤ_parts :
    (a b : ℤ)
    → pos_part (a -ℤ b) + neg_part a + pos_part b ≡ neg_part (a -ℤ b) + pos_part a + neg_part b
unfolding ◌-ℤ◌
-ℤ_parts a b = ground arith

-- The difference of two integers that are not negative never wraps.
pub Fits-sub :
    (half : ℕ) (a b : ℤ) → pos 0 ≤ℤ a → pos 0 ≤ℤ b → Fits half a → Fits half b → Fits half (a -ℤ b)
unfolding ◌-ℤ◌
Fits-sub half a b p q h k = ground arith

pub sub32_parts :
    (a b : ℤ)
    → pos 0 ≤ℤ a
    → pos 0 ≤ℤ b
    → Fits half32 a
    → Fits half32 b
    → pos_part (sub32 a b) + neg_part a + pos_part b
      ≡ neg_part (sub32 a b) + pos_part a + neg_part b
unfolding sub32
sub32_parts a b p q h k =
    omega (arith, -ℤ_parts a b, wrap_parts half32 (a -ℤ b) (Fits-sub half32 a b p q h k))

pub sub64_parts :
    (a b : ℤ)
    → pos 0 ≤ℤ a
    → pos 0 ≤ℤ b
    → Fits half64 a
    → Fits half64 b
    → pos_part (sub64 a b) + neg_part a + pos_part b
      ≡ neg_part (sub64 a b) + pos_part a + neg_part b
unfolding sub64
sub64_parts a b p q h k =
    omega (arith, -ℤ_parts a b, wrap_parts half64 (a -ℤ b) (Fits-sub half64 a b p q h k))

pub wrap-Fits : (half : ℕ) (a : ℤ) → 0 < half → Fits half (wrap half a)
unfolding wrap
wrap-Fits half (pos n) h = ground (arith, mod-lt n {m = 2 * half} (omega arith))
wrap-Fits half (negsuc n) h = ground (arith, mod-lt n {m = 2 * half} (omega arith))

pub sub32-Fits : (a b : ℤ) → Fits half32 (sub32 a b)
unfolding sub32
sub32-Fits a b = wrap-Fits half32 (a -ℤ b) (omega arith)

pub +ℤ_parts :
    (a b : ℤ)
    → pos_part (a +ℤ b) + neg_part a + neg_part b ≡ neg_part (a +ℤ b) + pos_part a + pos_part b
unfolding ◌+ℤ◌
+ℤ_parts a b = ground arith

-- A sum of two integers that are not negative is exact where it fits.
Fits-add :
    (half : ℕ) (a b : ℤ)
    → pos 0 ≤ℤ a
    → pos 0 ≤ℤ b
    → pos_part a + pos_part b < half
    → Fits half (a +ℤ b)
unfolding ◌+ℤ◌
Fits-add half a b p q h = ground arith

pub add32_parts :
    (a b : ℤ)
    → pos 0 ≤ℤ a
    → pos 0 ≤ℤ b
    → pos_part a + pos_part b < half32
    → pos_part (add32 a b) + neg_part a + neg_part b
      ≡ neg_part (add32 a b) + pos_part a + pos_part b
unfolding add32
add32_parts a b p q h =
    omega (arith, +ℤ_parts a b, wrap_parts half32 (a +ℤ b) (Fits-add half32 a b p q h))
