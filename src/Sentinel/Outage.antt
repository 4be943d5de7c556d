-- ===== src/Sentinel/Outage.antt =====
-- What an outage does to the phase of a recorded split.
use forktower.Common.{not, none, ◌≡◌, sym, ◌∙◌, ap, Float64, arith}
use forktower.ChainView.Types.{down}
use forktower.Sentinel.Phase.{split, resolving}
use forktower.Sentinel.State.{Observation, State}
use forktower.Sentinel.Track.{track_health, track_disagreement, track_fork_candidate, track_blocks}
use forktower.Sentinel.Anchor.{track_trust_anchor}
use forktower.Sentinel.Decide.{decide_by, sf_stalled, sq_stalled, prepare, step}
use forktower.Sentinel.Transitions.{step-phase}

-- The fields from which a chain is judged to have gone quiet.
record SamePace (F : Float64) (s t : State F) : Type 0 where
  sf_cadence : t.sf_cadence ≡ s.sf_cadence
  sq_cadence : t.sq_cadence ≡ s.sq_cadence
  last_sf : t.last_sf_block_at ≡ s.last_sf_block_at
  last_sq : t.last_sq_block_at ≡ s.last_sq_block_at

module _ (F : Float64) where
  SamePace-trans : {s t u : State F} → SamePace F s t → SamePace F t u → SamePace F s u
  SamePace-trans a b = record {
    sf_cadence = b.sf_cadence ∙ a.sf_cadence;
    sq_cadence = b.sq_cadence ∙ a.sq_cadence;
    last_sf = b.last_sf ∙ a.last_sf;
    last_sq = b.last_sq ∙ a.last_sq;
  }

  -- Neither view answered, and both are reported unreachable.
  pub record IsOutage (obs : Observation F) : Type 0 where
    pub no_sf_tip : obs.sf_tip ≡ none
    pub no_sq_tip : obs.sq_tip ≡ none
    pub sf_down : obs.sf_health ≡ down
    pub sq_down : obs.sq_health ≡ down

  track_health-SamePace :
      (s : State F) (obs : Observation F) → SamePace F s (track_health F s obs).0
  unfolding track_health
  track_health-SamePace s obs = ground arith

  track_disagreement-SamePace :
      (s : State F) (obs : Observation F) → SamePace F s (track_disagreement F s obs)
  unfolding track_disagreement
  track_disagreement-SamePace s obs = ground arith

  track_fork_candidate-SamePace :
      (s : State F) (obs : Observation F) → SamePace F s (track_fork_candidate F s obs)
  unfolding track_fork_candidate
  track_fork_candidate-SamePace s obs = ground arith

  track_blocks-SamePace :
      (s : State F) (obs : Observation F) → IsOutage obs → SamePace F s (track_blocks F s obs).0
  unfolding track_blocks
  track_blocks-SamePace s obs h = ground arith

  track_trust_anchor-SamePace :
      (s : State F) (obs : Observation F) → SamePace F s (track_trust_anchor F s obs).0
  unfolding track_trust_anchor
  track_trust_anchor-SamePace s obs = ground arith

  prepare-SamePace :
      (s : State F) (obs : Observation F) → IsOutage obs → SamePace F s (prepare F s obs).0
  unfolding prepare
  prepare-SamePace s obs h =
      let a = (track_health F s obs).0 in
      let b = track_disagreement F a obs in
      let c = track_fork_candidate F b obs in
      let d = (track_blocks F c obs).0 in
      let k =
        SamePace-trans
          (SamePace-trans (track_health-SamePace s obs) (track_disagreement-SamePace a obs))
          (SamePace-trans (track_fork_candidate-SamePace b obs)
            (SamePace-trans (track_blocks-SamePace c obs h) (track_trust_anchor-SamePace d obs))) in
      record {
        sf_cadence = k.sf_cadence;
        sq_cadence = k.sq_cadence;
        last_sf = k.last_sf;
        last_sq = k.last_sq;
      }

  SamePace-stalled :
      {s t : State F} (obs : Observation F)
      → SamePace F s t
      → (sf_stalled F t obs ≡ sf_stalled F s obs) × (sq_stalled F t obs ≡ sq_stalled F s obs)
  unfolding sf_stalled sq_stalled
  SamePace-stalled obs k = (cc (k.sf_cadence, k.last_sf), cc (k.sq_cadence, k.last_sq))

  decide_by_one_quiet :
      (s : State F) (obs : Observation F)
      → sf_stalled F s obs ≡ not (sq_stalled F s obs)
      → (decide_by F split s obs).0 ≡ resolving
  unfolding decide_by
  decide_by_one_quiet s obs h = ground arith

  decide_by_alike :
      (s : State F) (obs : Observation F)
      → sf_stalled F s obs ≡ sq_stalled F s obs
      → (decide_by F split s obs).0 ≡ split
  unfolding decide_by
  decide_by_alike s obs h = ground arith

  -- A tick in which neither view answers keeps the split phase if both chains are past their stall
  -- threshold or neither is.
  pub outage_keeps_split :
      (s : State F) (obs : Observation F)
      → IsOutage obs
      → s.phase ≡ split
      → sf_stalled F s obs ≡ sq_stalled F s obs
      → (step F s obs).0.phase ≡ split
  outage_keeps_split s obs h e q =
      let k = SamePace-stalled obs (prepare-SamePace s obs h) in
      step-phase F s obs
      ∙ ap (λ p. (decide_by F p (prepare F s obs).0 obs).0) e
      ∙ decide_by_alike (prepare F s obs).0 obs (k.0 ∙ q ∙ sym k.1)

  -- A tick in which neither view answers moves the split phase to resolving if exactly one chain
  -- is past its stall threshold.
  pub outage_moves_split :
      (s : State F) (obs : Observation F)
      → IsOutage obs
      → s.phase ≡ split
      → sf_stalled F s obs ≡ not (sq_stalled F s obs)
      → (step F s obs).0.phase ≡ resolving
  outage_moves_split s obs h e q =
      let k = SamePace-stalled obs (prepare-SamePace s obs h) in
      step-phase F s obs
      ∙ ap (λ p. (decide_by F p (prepare F s obs).0 obs).0) e
      ∙ decide_by_one_quiet (prepare F s obs).0 obs (k.0 ∙ q ∙ ap not (sym k.1))
