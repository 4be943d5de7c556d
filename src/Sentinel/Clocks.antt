-- ===== src/Sentinel/Clocks.antt =====
-- The clocks of a disagreement: what starts them, what stops them, and what silence does.
use forktower.Common.{
  Option, none, some, List, [], ◌∷◌, ◌≡◌, sym, ◌∙◌, subst₂, ℤ, pos, ◌≤ℤ◌, ◌<ℤ◌, Float64, arith,
}
use forktower.Sentinel.State.{Observation, State}
use forktower.Sentinel.Track.{track_health, track_disagreement, track_fork_candidate, track_blocks}
use forktower.Sentinel.Anchor.{track_trust_anchor}
use forktower.Sentinel.Decide.{apply_phase, prepare, conclude, step, run}

-- A clock that is stopped, or was started in the past, next to what it times.
abbrev pub Times {ℓ} : {A : Type ℓ} → ℤ → Option A → ℤ → Type 0
Times now none since = since ≡ pos 0
Times now (some _) since = (pos 0 <ℤ since) × (since ≤ℤ now)

-- The clocks of a state at a time: each runs exactly while the thing it times is recorded.
pub record ClocksValid (F : Float64) (now : ℤ) (s : State F) : Type 0 where
  pub candidate : Times now s.fork_candidate s.fork_candidate_since
  pub disagreement : Times now s.disagreement s.disagreement_since

-- The fields that the two clocks live in.
pub record SameClocks (F : Float64) (s t : State F) : Type 0 where
  pub fork_candidate : t.fork_candidate ≡ s.fork_candidate
  pub fork_candidate_since : t.fork_candidate_since ≡ s.fork_candidate_since
  pub disagreement : t.disagreement ≡ s.disagreement
  pub disagreement_since : t.disagreement_since ≡ s.disagreement_since

Times-later {ℓ} :
    {A : Type ℓ} (now later : ℤ) (o : Option A) (since : ℤ)
    → now ≤ℤ later
    → Times now o since
    → Times later o since
Times-later now later none since h t = t
Times-later now later (some _) since h t = omega arith

module _ (F : Float64) where
  pub SameClocks-trans : {s t u : State F} → SameClocks F s t → SameClocks F t u → SameClocks F s u
  SameClocks-trans a b = record {
    fork_candidate = b.fork_candidate ∙ a.fork_candidate;
    fork_candidate_since = b.fork_candidate_since ∙ a.fork_candidate_since;
    disagreement = b.disagreement ∙ a.disagreement;
    disagreement_since = b.disagreement_since ∙ a.disagreement_since;
  }

  pub track_health-SameClocks :
      (s : State F) (obs : Observation F) → SameClocks F s (track_health F s obs).0
  unfolding track_health
  track_health-SameClocks s obs = ground arith

  pub track_blocks-SameClocks :
      (s : State F) (obs : Observation F) → SameClocks F s (track_blocks F s obs).0
  unfolding track_blocks
  track_blocks-SameClocks s obs = ground arith

  pub track_trust_anchor-SameClocks :
      (s : State F) (obs : Observation F) → SameClocks F s (track_trust_anchor F s obs).0
  unfolding track_trust_anchor
  track_trust_anchor-SameClocks s obs = ground arith

  conclude-SameClocks : (s : State F) (obs : Observation F) → SameClocks F s (conclude F s obs).0
  unfolding conclude apply_phase
  conclude-SameClocks s obs = ground arith

  -- The two functions of a tick that write the clocks.
  unfoldable pub timed : State F → Observation F → State F
  timed s obs = track_fork_candidate F (track_disagreement F (track_health F s obs).0 obs) obs

  pub step-SameClocks :
      (s : State F) (obs : Observation F) → SameClocks F (timed s obs) (step F s obs).0
  unfolding step prepare timed
  step-SameClocks s obs =
      let t = timed s obs in
      let b = (track_blocks F t obs).0 in
      let c =
        SameClocks-trans (track_blocks-SameClocks t obs) (track_trust_anchor-SameClocks b obs) in
      let d : SameClocks F t (prepare F s obs).0 = record {
        fork_candidate = c.fork_candidate;
        fork_candidate_since = c.fork_candidate_since;
        disagreement = c.disagreement;
        disagreement_since = c.disagreement_since;
      } in
      SameClocks-trans d (conclude-SameClocks (prepare F s obs).0 obs)

  track_disagreement-ClocksValid :
      (now : ℤ) (s : State F) (obs : Observation F)
      → now ≤ℤ obs.at
      → pos 0 <ℤ obs.at
      → ClocksValid F now s
      → ClocksValid F obs.at (track_disagreement F s obs)
  unfolding track_disagreement
  track_disagreement-ClocksValid now s obs h p v = ground (
    arith,
    Times-later now obs.at s.fork_candidate s.fork_candidate_since,
    Times-later now obs.at s.disagreement s.disagreement_since,
  )

  track_fork_candidate-ClocksValid :
      (s : State F) (obs : Observation F)
      → pos 0 <ℤ obs.at
      → ClocksValid F obs.at s
      → ClocksValid F obs.at (track_fork_candidate F s obs)
  unfolding track_fork_candidate
  track_fork_candidate-ClocksValid s obs p v = ground arith

  SameClocks-ClocksValid :
      (now : ℤ) {s t : State F} → SameClocks F s t → ClocksValid F now s → ClocksValid F now t
  SameClocks-ClocksValid now {s} {t} k v = record {
    candidate =
        subst₂ (λ o c. Times now o c) (sym k.fork_candidate) (sym k.fork_candidate_since)
          v.candidate;
    disagreement =
        subst₂ (λ o c. Times now o c) (sym k.disagreement) (sym k.disagreement_since)
          v.disagreement;
  }

  pub step-ClocksValid :
      (now : ℤ) (s : State F) (obs : Observation F)
      → now ≤ℤ obs.at
      → pos 0 <ℤ obs.at
      → ClocksValid F now s
      → ClocksValid F obs.at (step F s obs).0
  unfolding timed
  step-ClocksValid now s obs h p v =
      let a = (track_health F s obs).0 in
      let va = SameClocks-ClocksValid now (track_health-SameClocks s obs) v in
      let vb = track_disagreement-ClocksValid now a obs h p va in
      let vc = track_fork_candidate-ClocksValid (track_disagreement F a obs) obs p vb in
      SameClocks-ClocksValid obs.at (step-SameClocks s obs) vc

  -- Ticks whose times are positive and never go back.
  abbrev pub Ordered : ℤ → List (Observation F) → Type 0
  Ordered now [] = Unit
  Ordered now (obs ∷ ticks) = (now ≤ℤ obs.at) × (pos 0 <ℤ obs.at) × Ordered obs.at ticks

  abbrev pub last_at : ℤ → List (Observation F) → ℤ
  last_at now [] = now
  last_at now (obs ∷ ticks) = last_at obs.at ticks

  -- Over ticks at positive times that do not go back, the clocks of the separation candidate and
  -- of the disagreement stay in order: each is zero without the thing it times, and else is a
  -- positive time not after the last tick.
  pub run-ClocksValid :
      (now : ℤ) (s : State F) (ticks : List (Observation F))
      → Ordered now ticks
      → ClocksValid F now s
      → ClocksValid F (last_at now ticks) (run F s ticks)
  unfolding run
  run-ClocksValid now s [] h v = v
  run-ClocksValid now s (obs ∷ ticks) h v =
      run-ClocksValid obs.at (step F s obs).0 ticks h.2 (step-ClocksValid now s obs h.0 h.1 v)
