-- ===== src/Deadline/Escalation.antt =====
-- internal/deadline/compute.go: the level of a countdown as blocks go by.
use forktower.Common.{
  ℕ, ◌*◌, ◌≤◌, ◌<◌, true, ◌≡◌, ◌↔◌, inl, inr, pos, half32, Float64, arith, Bool-cases, leb, ltb,
  if◌then◌else◌,
}
use forktower.Deadline.Compute.{level, level_detected, level_half, level_urgent}

-- The quotient of two int32 numbers compares with 1/5 and with 1/2 as the exact fractions do:
-- IEEE 754 division is correctly rounded, and such a quotient that is not equal to the constant
-- differs from it by more than a rounding error.
pub record DividesExactly (F : Float64) : Type 0 where
  pub fifth :
      (left window : ℕ)
      → 0 < window
      → window < half32
      → (F.below (F.over (F.of_int (pos left)) (F.of_int (pos window))) (F.ratio 1 5) ≡ true)
        ↔ (5 * left < window)
  pub half :
      (left window : ℕ)
      → 0 < window
      → window < half32
      → (F.below (F.over (F.of_int (pos left)) (F.of_int (pos window))) (F.ratio 1 2) ≡ true)
        ↔ (2 * left < window)

module _ (F : Float64) (exact : DividesExactly F) where
  -- The level by exact fractions of the window.
  unfoldable pub exact_level : ℕ → ℕ → ℕ
  exact_level left window =
      if leb left 0
      then level_urgent
      else if leb window 0
      then level_detected
      else if ltb (5 * left) window
      then level_urgent
      else if ltb (2 * left) window
      then level_half
      else level_detected

  -- If the quotient of two int32 numbers compares with one fifth and with one half as exact
  -- fractions do, Level is the level by exact fractions: urgent with nothing left or with less
  -- than a fifth of the window, half with less than a half, else detected.
  pub level-exact_level :
      (left window : ℕ)
      → window < half32
      → level F (pos left) (pos window) ≡ exact_level left window
  unfolding level exact_level
  level-exact_level left window h = elim (Bool-cases (leb window 0)) [
    | inl none_left ↦ ground arith
    | inr running ↦
        let p : 0 < window = ground arith in
        let fifth = exact.fifth left window p h in
        let half = exact.half left window p h in ground (arith, fifth.0, fifth.1, half.0, half.1)
  ]

  exact_level_mono :
      (fewer more window : ℕ)
      → 0 < window
      → fewer ≤ more
      → exact_level more window ≤ exact_level fewer window
  unfolding exact_level
  exact_level_mono fewer more window p h = ground arith

  -- Under the same condition, with fewer blocks left of one positive int32 window the level is no
  -- lower.
  pub level_mono :
      (fewer more window : ℕ)
      → 0 < window
      → window < half32
      → fewer ≤ more
      → level F (pos more) (pos window) ≤ level F (pos fewer) (pos window)
  level_mono fewer more window p h le =
      rw (level-exact_level more window h, level-exact_level fewer window h)
        (exact_level_mono fewer more window p le)
