-- ===== src/Sentinel/Silence.antt =====
-- Silence is not evidence: a tick that could not compare the chains leaves a disagreement standing.
use forktower.Common.{
  true, false, none, some, List, [], ◌∷◌, ◌++◌, ◌≡◌, refl, sym, ◌∙◌, ap, subst, ◌⊎◌, pos, ◌≤ℤ◌,
  ◌<ℤ◌, sub64, Float64, arith, All,
}
use forktower.Sentinel.State.{HeightDisagreement, Observation, State}
use forktower.Sentinel.Track.{
  track_health, track_disagreement, track_fork_candidate, track_blocks, suspect_split,
}
use forktower.Sentinel.Anchor.{track_trust_anchor}
use forktower.Sentinel.Decide.{apply_phase, prepare, conclude, step, run}
use forktower.Sentinel.Clocks.{
  SameClocks, SameClocks-trans, track_health-SameClocks, track_blocks-SameClocks,
  track_trust_anchor-SameClocks, timed, step-SameClocks,
}

module _ (F : Float64) where
  -- No separation was looked for with success, and no hashes were compared.
  pub record Silent (obs : Observation F) : Type 0 where
    pub unseen : (obs.sf_tip ≡ none) ⊎ ((obs.sq_tip ≡ none) ⊎ (obs.fork_search_failed ≡ true))
    pub uncompared : obs.disagreement ≡ none
    pub not_agreed : obs.shared_height_agreed ≡ false

  track_disagreement-Silent :
      (s : State F) (obs : Observation F) → Silent obs → track_disagreement F s obs ≡ s
  unfolding track_disagreement
  track_disagreement-Silent s obs h = ground arith

  track_fork_candidate-Silent :
      (s : State F) (obs : Observation F) → Silent obs → track_fork_candidate F s obs ≡ s
  unfolding track_fork_candidate
  track_fork_candidate-Silent s obs h = ground arith

  timed-Silent :
      (s : State F) (obs : Observation F) → Silent obs → timed F s obs ≡ (track_health F s obs).0
  unfolding timed
  timed-Silent s obs h =
      ap (λ x. track_fork_candidate F x obs)
        (track_disagreement-Silent (track_health F s obs).0 obs h)
      ∙ track_fork_candidate-Silent (track_health F s obs).0 obs h

  step-Silent : (s : State F) (obs : Observation F) → Silent obs → SameClocks F s (step F s obs).0
  step-Silent s obs h = SameClocks-trans F (track_health-SameClocks F s obs) (
      subst (λ x. SameClocks F x (step F s obs).0) (timed-Silent s obs h) (step-SameClocks F s obs))

  -- Ticks in which no hashes were compared and no search succeeded change neither the separation
  -- candidate, nor the disagreement, nor their clocks.
  pub run-Silent :
      (s : State F) (ticks : List (Observation F))
      → All Silent ticks
      → SameClocks F s (run F s ticks)
  unfolding run
  run-Silent s [] h = record {
    fork_candidate = refl;
    fork_candidate_since = refl;
    disagreement = refl;
    disagreement_since = refl;
  }
  run-Silent s (obs ∷ ticks) h =
      SameClocks-trans F (step-Silent s obs h.0) (run-Silent (step F s obs).0 ticks h.1)

  conclude-suspected :
      (s : State F) (obs : Observation F) → (conclude F s obs).0.split_suspected ≡ s.split_suspected
  unfolding conclude apply_phase
  conclude-suspected s obs = ground arith

  suspect_of_disagreement :
      (s : State F) (obs : Observation F) (d : HeightDisagreement)
      → s.disagreement ≡ some d
      → pos 0 <ℤ s.disagreement_since
      → pos 0 <ℤ obs.split_suspect_secs
      → obs.split_suspect_secs ≤ℤ sub64 obs.at s.disagreement_since
      → suspect_split F s obs ≡ true
  unfolding suspect_split
  suspect_of_disagreement s obs d e p q h = ground arith

  -- The state whose early warning a tick computes.
  before_suspicion : State F → Observation F → State F
  before_suspicion s obs = (track_trust_anchor F (track_blocks F (timed F s obs) obs).0 obs).0

  step-suspected :
      (s : State F) (obs : Observation F)
      → (step F s obs).0.split_suspected ≡ suspect_split F (before_suspicion s obs) obs
  unfolding step prepare timed before_suspicion
  step-suspected s obs = conclude-suspected (prepare F s obs).0 obs

  before_suspicion-Silent :
      (s : State F) (obs : Observation F) → Silent obs → SameClocks F s (before_suspicion s obs)
  unfolding before_suspicion
  before_suspicion-Silent s obs h =
      let t = timed F s obs in
      SameClocks-trans F
        (SameClocks-trans F (track_health-SameClocks F s obs) (
          subst (λ x. SameClocks F x (track_blocks F t obs).0) (timed-Silent s obs h)
            (track_blocks-SameClocks F t obs)))
        (track_trust_anchor-SameClocks F (track_blocks F t obs).0 obs)

  step-suspects_in_silence :
      (s : State F) (obs : Observation F) (d : HeightDisagreement)
      → Silent obs
      → s.disagreement ≡ some d
      → pos 0 <ℤ s.disagreement_since
      → pos 0 <ℤ obs.split_suspect_secs
      → obs.split_suspect_secs ≤ℤ sub64 obs.at s.disagreement_since
      → (step F s obs).0.split_suspected ≡ true
  step-suspects_in_silence s obs d quiet e p q h =
      let k = before_suspicion-Silent s obs quiet in
      step-suspected s obs
      ∙ suspect_of_disagreement (before_suspicion s obs) obs d (k.disagreement ∙ e)
          (subst (λ x. pos 0 <ℤ x) (sym k.disagreement_since) p) q
          (subst (λ x. obs.split_suspect_secs ≤ℤ sub64 obs.at x) (sym k.disagreement_since) h)

  run-append :
      (s : State F) (xs ys : List (Observation F)) → run F s (xs ++ ys) ≡ run F (run F s xs) ys
  unfolding run
  run-append s [] ys = refl
  run-append s (x ∷ xs) ys = run-append (step F s x).0 xs ys

  run-singleton : (s : State F) (obs : Observation F) → run F s (obs ∷ []) ≡ (step F s obs).0
  unfolding run
  run-singleton s obs = refl

  -- For a disagreement that is recorded with a running clock, over any number of ticks in which no
  -- hashes were compared and no search succeeded, the last tick raises the suspicion of a split if
  -- the clock has by then run for the configured time, which is positive.
  pub suspicion_survives_silence :
      (s : State F) (ticks : List (Observation F)) (obs : Observation F) (d : HeightDisagreement)
      → All Silent ticks
      → Silent obs
      → s.disagreement ≡ some d
      → pos 0 <ℤ s.disagreement_since
      → pos 0 <ℤ obs.split_suspect_secs
      → obs.split_suspect_secs ≤ℤ sub64 obs.at s.disagreement_since
      → (run F s (ticks ++ obs ∷ [])).split_suspected ≡ true
  suspicion_survives_silence s ticks obs d quiet still e p q h =
      let k = run-Silent s ticks quiet in
      ap (λ (x : State F). x.split_suspected)
        (run-append s ticks (obs ∷ []) ∙ run-singleton (run F s ticks) obs)
      ∙ step-suspects_in_silence (run F s ticks) obs d still (k.disagreement ∙ e)
          (subst (λ x. pos 0 <ℤ x) (sym k.disagreement_since) p) q
          (subst (λ x. obs.split_suspect_secs ≤ℤ sub64 obs.at x) (sym k.disagreement_since) h)
