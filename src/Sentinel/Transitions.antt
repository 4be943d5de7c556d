-- ===== src/Sentinel/Transitions.antt =====
-- The transition table of internal/sentinel/logic.go as a relation, and what Step does to the
-- phase and to the record of a split.
use forktower.Common.{ℕ, Bool, true, false, ◌≡◌, refl, ◌∙◌, ap, ◌⊎◌, inl, inr, Float64, arith}
use forktower.Sentinel.Phase.{
  Phase, unarmed, armed, split, resolving, resolved_sf_won, resolved_sq_won, unset, unknown,
  resolved,
}
use forktower.Sentinel.State.{Observation, State}
use forktower.Sentinel.Decide.{decide_by, decide_phase, apply_phase, prepare, conclude, step}
use forktower.Sentinel.Kept.{prepare-Kept}

-- The rows of the transition table that change the phase.
pub data Edge : Phase → Phase → Type 0 where
  arm : Edge unarmed armed
  find : Edge unarmed split
  part : Edge armed split
  fall_quiet : Edge split resolving
  recover : Edge resolving split
  record_sf_won : Edge resolving resolved_sf_won
  record_sq_won : Edge resolving resolved_sq_won
  reset_unset : Edge unset unarmed
  reset_unknown : {n : ℕ} → Edge (unknown n) unarmed

ruleset edges =
    (arm, find, part, fall_quiet, recover, record_sf_won, record_sq_won, reset_unset, reset_unknown)

-- The phases in which a split has been declared.
abbrev pub is_declared : Phase → Bool
is_declared split = true
is_declared resolving = true
is_declared resolved_sf_won = true
is_declared resolved_sq_won = true
is_declared _ = false

module _ (F : Float64) where
  pub apply_phase_phase :
      (s : State F) (p : Phase) (obs : Observation F) → (apply_phase F s p obs).phase ≡ p
  unfolding apply_phase
  apply_phase_phase s unarmed obs = refl
  apply_phase_phase s _ obs = refl

  -- The phase after `conclude` is the one decided.
  pub conclude-phase :
      (s : State F) (obs : Observation F) → (conclude F s obs).0.phase ≡ (decide_phase F s obs).0
  unfolding conclude
  conclude-phase s obs = ground (arith, apply_phase_phase s (decide_phase F s obs).0 obs)

  -- The phase of a step is decided at the state that the bookkeeping prepared.
  pub step-phase :
      (s : State F) (obs : Observation F)
      → (step F s obs).0.phase ≡ (decide_by F s.phase (prepare F s obs).0 obs).0
  unfolding step
  step-phase s obs =
      conclude-phase (prepare F s obs).0 obs
      ∙ ap (λ p. (decide_by F p (prepare F s obs).0 obs).0) (prepare-Kept F s obs).phase

  decide_by-Edge :
      (p : Phase) (s : State F) (obs : Observation F)
      → ((decide_by F p s obs).0 ≡ p) ⊎ Edge p (decide_by F p s obs).0
  unfolding decide_by resolved
  decide_by-Edge unarmed s obs = grind (arith, edges)
  decide_by-Edge armed s obs = grind (arith, edges)
  decide_by-Edge split s obs = grind (arith, edges)
  decide_by-Edge resolving s obs = grind (arith, edges)
  decide_by-Edge resolved_sf_won s obs = inl refl
  decide_by-Edge resolved_sq_won s obs = inl refl
  decide_by-Edge unset s obs = inr reset_unset
  decide_by-Edge (unknown n) s obs = inr reset_unknown

  -- A tick leaves the phase as it is or moves it along an edge of the transition table: unarmed to
  -- armed or split, armed to split, split to resolving and back, resolving to a recorded outcome,
  -- and a phase that is not recognised to unarmed.
  pub step-Edge :
      (s : State F) (obs : Observation F)
      → ((step F s obs).0.phase ≡ s.phase) ⊎ Edge s.phase (step F s obs).0.phase
  step-Edge s obs = rw (step-phase s obs) (decide_by-Edge s.phase (prepare F s obs).0 obs)

  decide_by-operator :
      (p : Phase) (s : State F) (obs : Observation F)
      → resolved p ≡ false
      → resolved (decide_by F p s obs).0 ≡ true
      → (p ≡ resolving) × ((decide_by F p s obs).0 ≡ obs.operator_outcome)
  unfolding decide_by resolved
  decide_by-operator unarmed s obs h r = ground arith
  decide_by-operator _ s obs h r = ground arith

  -- A tick that enters a resolved phase started in the resolving phase, and the phase entered is
  -- the outcome that the operator recorded.
  pub resolved_by_operator :
      (s : State F) (obs : Observation F)
      → resolved s.phase ≡ false
      → resolved (step F s obs).0.phase ≡ true
      → (s.phase ≡ resolving) × ((step F s obs).0.phase ≡ obs.operator_outcome)
  resolved_by_operator s obs h r =
      rw (step-phase s obs)
        (decide_by-operator s.phase (prepare F s obs).0 obs h (rw (step-phase s obs) at r))
