-- ===== src/Sentinel/Record.antt =====
-- What Step does to the record of a split over any sequence of ticks, and the order of its effects.
use forktower.Common.{true, some, List, [], ◌∷◌, ◌≡◌, refl, sym, ◌∙◌, ap, Float64, arith}
use forktower.ChainView.Types.{BlockRef}
use forktower.Sentinel.Phase.{Phase, split, resolved_sf_won, resolved}
use forktower.Sentinel.State.{Observation, State}
use forktower.Sentinel.Decide.{decide_by, decide_phase, apply_phase, prepare, conclude, step, run}
use forktower.Sentinel.Kept.{prepare-Kept}
use forktower.Sentinel.Transitions.{is_declared, apply_phase_phase, step-phase}

module _ (F : Float64) where
  apply_phase-fork :
      (s : State F) (p : Phase) (obs : Observation F) (r : BlockRef)
      → s.fork ≡ some r
      → ((apply_phase F s p obs).fork ≡ some r)
        × ((apply_phase F s p obs).detected_at ≡ s.detected_at)
  unfolding apply_phase
  apply_phase-fork s split obs r h = ground arith
  apply_phase-fork s _ obs r h = (h, refl)

  conclude-fork :
      (s : State F) (obs : Observation F) (r : BlockRef)
      → s.fork ≡ some r
      → ((conclude F s obs).0.fork ≡ some r) × ((conclude F s obs).0.detected_at ≡ s.detected_at)
  unfolding conclude
  conclude-fork s obs r h = ground (arith, apply_phase-fork s (decide_phase F s obs).0 obs r)

  step-fork :
      (s : State F) (obs : Observation F) (r : BlockRef)
      → s.fork ≡ some r
      → ((step F s obs).0.fork ≡ some r) × ((step F s obs).0.detected_at ≡ s.detected_at)
  unfolding step
  step-fork s obs r h =
      let k = prepare-Kept F s obs in
      let (f, d) = conclude-fork (prepare F s obs).0 obs r (k.fork ∙ h) in (f, d ∙ k.detected_at)

  -- Once a separation point is recorded, no sequence of ticks changes it or the time of detection.
  pub run-fork_fixed :
      (s : State F) (ticks : List (Observation F)) (r : BlockRef)
      → s.fork ≡ some r
      → ((run F s ticks).fork ≡ some r) × ((run F s ticks).detected_at ≡ s.detected_at)
  unfolding run
  run-fork_fixed s [] r h = (h, refl)
  run-fork_fixed s (obs ∷ ticks) r h =
      let (f, d) = step-fork s obs r h in
      let (f', d') = run-fork_fixed (step F s obs).0 ticks r f in (f', d' ∙ d)

  decide_by-declared :
      (p : Phase) (s : State F) (obs : Observation F)
      → is_declared p ≡ true
      → is_declared (decide_by F p s obs).0 ≡ true
  unfolding decide_by resolved
  decide_by-declared split s obs h = ground arith
  decide_by-declared _ s obs h = ground arith

  -- Once a split is declared (split, resolving or resolved), no sequence of ticks leads back to
  -- armed, to unarmed or to an unrecognised phase.
  pub run-declared :
      (s : State F) (ticks : List (Observation F))
      → is_declared s.phase ≡ true
      → is_declared (run F s ticks).phase ≡ true
  unfolding run
  run-declared s [] h = h
  run-declared s (obs ∷ ticks) h =
      run-declared (step F s obs).0 ticks
        (ap is_declared (step-phase F s obs) ∙ decide_by-declared s.phase (prepare F s obs).0 obs h)

  decide_by-resolved :
      (p : Phase) (s : State F) (obs : Observation F)
      → resolved p ≡ true
      → (decide_by F p s obs).0 ≡ p
  unfolding decide_by resolved
  decide_by-resolved resolved_sf_won s obs h = refl
  decide_by-resolved _ s obs h = ground arith

  -- A resolved phase is terminal: no sequence of ticks changes it.
  pub run-resolved :
      (s : State F) (ticks : List (Observation F))
      → resolved s.phase ≡ true
      → (run F s ticks).phase ≡ s.phase
  unfolding run
  run-resolved s [] h = refl
  run-resolved s (obs ∷ ticks) h =
      let e = step-phase F s obs ∙ decide_by-resolved s.phase (prepare F s obs).0 obs h in
      run-resolved (step F s obs).0 ticks (ap resolved e ∙ h) ∙ e

  conclude-unchanged_fork :
      (s : State F) (obs : Observation F)
      → (conclude F s obs).0.phase ≡ s.phase
      → (conclude F s obs).0.fork ≡ s.fork
  unfolding conclude
  conclude-unchanged_fork s obs h =
      ground (arith, apply_phase_phase F s (decide_phase F s obs).0 obs)

  -- A tick that leaves the phase as it is leaves the recorded separation point as it is.
  pub fork_written_on_change :
      (s : State F) (obs : Observation F)
      → (step F s obs).0.phase ≡ s.phase
      → (step F s obs).0.fork ≡ s.fork
  unfolding step
  fork_written_on_change s obs h =
      let k = prepare-Kept F s obs in
      conclude-unchanged_fork (prepare F s obs).0 obs (h ∙ sym k.phase) ∙ k.fork
