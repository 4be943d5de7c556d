-- ===== src/Sentinel/Phase.antt =====
-- The phases of internal/sentinel/logic.go.
use forktower.Common.{ℕ, Bool, true, false, List, [], ◌∷◌, ℕ_discrete}

-- The empty string is `unset`; any other string that is no phase is `unknown`.
pub data Phase : Type 0 where
  unarmed armed split resolving resolved_sf_won resolved_sq_won : Phase
  unset : Phase
  unknown : ℕ → Phase

unfoldable pub Phase-discrete : Discrete Phase
unfolding ℕ_discrete
Phase-discrete = hlevel ℕ_discrete

unfoldable pub valid_phase : Phase → Bool
valid_phase unarmed = true
valid_phase armed = true
valid_phase split = true
valid_phase resolving = true
valid_phase resolved_sf_won = true
valid_phase resolved_sq_won = true
valid_phase unset = false
valid_phase (unknown _) = false

-- `Resolved`: an operator has recorded an outcome.
unfoldable pub resolved : Phase → Bool
resolved resolved_sf_won = true
resolved resolved_sq_won = true
resolved unarmed = false
resolved armed = false
resolved split = false
resolved resolving = false
resolved unset = false
resolved (unknown _) = false

unfoldable pub all_phases : List Phase
all_phases = unarmed ∷ armed ∷ split ∷ resolving ∷ resolved_sf_won ∷ resolved_sq_won ∷ []
