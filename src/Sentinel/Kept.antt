-- ===== src/Sentinel/Kept.antt =====
-- What the bookkeeping of a tick leaves alone: the phase and the record of a confirmed split.
use forktower.Common.{◌≡◌, ◌∙◌, Float64, arith}
use forktower.Sentinel.State.{Observation, State}
use forktower.Sentinel.Track.{track_health, track_disagreement, track_fork_candidate, track_blocks}
use forktower.Sentinel.Anchor.{track_trust_anchor}
use forktower.Sentinel.Decide.{prepare}

pub record Kept (F : Float64) (s t : State F) : Type 0 where
  pub phase : t.phase ≡ s.phase
  pub fork : t.fork ≡ s.fork
  pub detected_at : t.detected_at ≡ s.detected_at
  pub resolving_candidate : t.resolving_candidate ≡ s.resolving_candidate

module _ (F : Float64) where
  Kept-trans : {s t u : State F} → Kept F s t → Kept F t u → Kept F s u
  Kept-trans a b = record {
    phase = b.phase ∙ a.phase;
    fork = b.fork ∙ a.fork;
    detected_at = b.detected_at ∙ a.detected_at;
    resolving_candidate = b.resolving_candidate ∙ a.resolving_candidate;
  }

  track_health-Kept : (s : State F) (obs : Observation F) → Kept F s (track_health F s obs).0
  unfolding track_health
  track_health-Kept s obs = ground arith

  track_disagreement-Kept :
      (s : State F) (obs : Observation F) → Kept F s (track_disagreement F s obs)
  unfolding track_disagreement
  track_disagreement-Kept s obs = ground arith

  track_fork_candidate-Kept :
      (s : State F) (obs : Observation F) → Kept F s (track_fork_candidate F s obs)
  unfolding track_fork_candidate
  track_fork_candidate-Kept s obs = ground arith

  track_blocks-Kept : (s : State F) (obs : Observation F) → Kept F s (track_blocks F s obs).0
  unfolding track_blocks
  track_blocks-Kept s obs = ground arith

  track_trust_anchor-Kept :
      (s : State F) (obs : Observation F) → Kept F s (track_trust_anchor F s obs).0
  unfolding track_trust_anchor
  track_trust_anchor-Kept s obs = ground arith

  pub prepare-Kept : (s : State F) (obs : Observation F) → Kept F s (prepare F s obs).0
  unfolding prepare
  prepare-Kept s obs =
      let a = (track_health F s obs).0 in
      let b = track_disagreement F a obs in
      let c = track_fork_candidate F b obs in
      let d = (track_blocks F c obs).0 in
      let k = Kept-trans (Kept-trans (track_health-Kept s obs) (track_disagreement-Kept a obs)) (
        Kept-trans (track_fork_candidate-Kept b obs)
          (Kept-trans (track_blocks-Kept c obs) (track_trust_anchor-Kept d obs))) in
      record {
        phase = k.phase;
        fork = k.fork;
        detected_at = k.detected_at;
        resolving_candidate = k.resolving_candidate;
      }
