-- ===== src/Sentinel/Effects.antt =====
-- The order of the effects of Step: the record is saved before the change is announced.
use forktower.Common.{
  Option, none, some, List, [], ◌∷◌, ◌++◌, ◌≡◌, sym, ◌∙◌, ap, ◌≢◌, ◌⊎◌, inl, inr, ℤ, Float64, arith,
  All,
}
use forktower.ChainView.Types.{Branch, HealthState, BlockRef, BlockMeta}
use forktower.Sentinel.State.{Detail, Observation, State, Effect, persist_state, phase_changed}
use forktower.Sentinel.Track.{
  health_effects, with_health, track_both_down, track_health, track_disagreement,
  track_fork_candidate, Followed, track_branch, track_blocks,
}
use forktower.Sentinel.Anchor.{track_trust_anchor}
use forktower.Sentinel.Decide.{decide_phase, prepare, conclude, step}
use forktower.Sentinel.Kept.{prepare-Kept}
use forktower.Sentinel.Transitions.{apply_phase_phase}

module _ (F : Float64) where
  -- Neither a save of the record nor a change of phase.
  abbrev pub IsTracking : Effect F → Type 0
  IsTracking persist_state = ⊥
  IsTracking (phase_changed _ _ _) = ⊥
  IsTracking _ = Unit

  All-append :
      (xs ys : List (Effect F)) → All IsTracking xs → All IsTracking ys → All IsTracking (xs ++ ys)
  All-append [] ys hx hy = hy
  All-append (x ∷ xs) ys hx hy = (hx.0, All-append xs ys hx.1 hy)

  health_effects-IsTracking :
      (b : Branch) (reported stored : HealthState)
      → All IsTracking (health_effects F b reported stored)
  unfolding health_effects
  health_effects-IsTracking b reported stored = ground arith

  track_both_down-IsTracking :
      (s : State F) (obs : Observation F) → All IsTracking (track_both_down F s obs).1
  unfolding track_both_down
  track_both_down-IsTracking s obs = ground arith

  track_health-IsTracking :
      (s : State F) (obs : Observation F) → All IsTracking (track_health F s obs).1
  unfolding track_health
  track_health-IsTracking s obs =
      All-append _ _ (health_effects-IsTracking _ obs.sf_health s.sf_health) (
        All-append _ _ (health_effects-IsTracking _ obs.sq_health s.sq_health)
          (track_both_down-IsTracking (with_health F s obs) obs))

  track_branch-IsTracking :
      (b : Branch) (tip : Option BlockMeta) (f : Followed F) (fork : Option BlockRef) (now : ℤ)
      → All IsTracking (track_branch F b tip f fork now).1
  unfolding track_branch
  track_branch-IsTracking b none f fork now = tt
  track_branch-IsTracking b (some tip) f fork now = ground arith

  track_blocks-IsTracking :
      (s : State F) (obs : Observation F) → All IsTracking (track_blocks F s obs).1
  unfolding track_blocks
  track_blocks-IsTracking s obs =
      All-append _ _ (track_branch-IsTracking _ obs.sf_tip _ _ _)
        (track_branch-IsTracking _ obs.sq_tip _ _ _)

  track_trust_anchor-IsTracking :
      (s : State F) (obs : Observation F) → All IsTracking (track_trust_anchor F s obs).1
  unfolding track_trust_anchor
  track_trust_anchor-IsTracking s obs = ground arith

  pub prepare-IsTracking : (s : State F) (obs : Observation F) → All IsTracking (prepare F s obs).1
  unfolding prepare
  prepare-IsTracking s obs =
      let a = (track_health F s obs).0 in
      let b = track_fork_candidate F (track_disagreement F a obs) obs in
      let c = (track_blocks F b obs).0 in
      All-append _ _ (track_health-IsTracking s obs)
        (All-append _ _ (track_blocks-IsTracking b obs) (track_trust_anchor-IsTracking c obs))

  conclude-effects :
      (s : State F) (obs : Observation F)
      → ((conclude F s obs).0.phase ≡ s.phase) × ((conclude F s obs).1 ≡ [])
        ⊎ ((conclude F s obs).0.phase ≢ s.phase)
          × ((conclude F s obs).1
              ≡ persist_state
                ∷ phase_changed s.phase (conclude F s obs).0.phase (decide_phase F s obs).1
                ∷ [])
  unfolding conclude
  conclude-effects s obs = ground (arith, apply_phase_phase F s (decide_phase F s obs).0 obs)

  -- What a tick that changes the phase, and one that does not, hand to the shell.
  pub data Announced (s t : State F) (effects : List (Effect F)) : Type 0 where
    quiet : t.phase ≡ s.phase → All IsTracking effects → Announced s t effects
    changed :
        (before : List (Effect F)) (why : Detail)
        → All IsTracking before
        → t.phase ≢ s.phase
        → effects ≡ before ++ persist_state ∷ phase_changed s.phase t.phase why ∷ []
        → Announced s t effects

  -- A tick that leaves the phase emits only health, block, outage and anchor effects; a tick that
  -- changes it emits such effects and then, last, the request to save the state and the phase
  -- change from the old phase to the new one, in this order.
  pub step-Announced :
      (s : State F) (obs : Observation F) → Announced s (step F s obs).0 (step F s obs).1
  unfolding step
  step-Announced s obs = elim (conclude-effects (prepare F s obs).0 obs) [
    | inl e ↦
        quiet (e.0 ∙ k) (rw e.1 (All-append (prepare F s obs).1 [] (prepare-IsTracking s obs) tt))
    | inr e ↦
        changed (prepare F s obs).1 (decide_phase F (prepare F s obs).0 obs).1
          (prepare-IsTracking s obs) (λ h. e.0 (h ∙ sym k))
          (ap (λ x. (prepare F s obs).1 ++ x) e.1
            ∙ ap
                (λ p.
                  (prepare F s obs).1
                  ++ persist_state
                    ∷ phase_changed p (conclude F (prepare F s obs).0 obs).0.phase
                        (decide_phase F (prepare F s obs).0 obs).1
                    ∷ [])
                k)
  ]
    where
      k : (prepare F s obs).0.phase ≡ s.phase
      k = (prepare-Kept F s obs).phase
