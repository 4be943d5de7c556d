-- ===== src/Sentinel/Track.antt =====
-- internal/sentinel/logic.go: the bookkeeping of a tick that precedes the phase decision: health,
-- the hash comparison, the separation candidate, the new blocks and the early warning.
use forktower.Common.{
  Bool, true, false, not, ◌&&◌, ◌||◌, Option, none, some, List, [], ◌∷◌, ◌++◌, ℤ, pos, ltb_ℤ, leb_ℤ,
  eqb_ℤ, sub32, sub64, Float64, ite, is_some, if◌then◌else◌, ◌==◌,
}
use forktower.ChainView.Types.{
  Branch, sf, sq, BlockRef, BlockMeta, HealthState, unset, down, HealthState-discrete,
}
use forktower.Sentinel.Cadence.{Cadence, observe}
use forktower.Sentinel.State.{
  HeightDisagreement, Observation, State, Effect, health_changed, both_views_down, branch_extended,
  neither_reached, both_down_grace_secs,
}

-- divergedDepth
unfoldable pub diverged_depth : ℤ → ℤ → ℤ
diverged_depth tip_height fork_height =
    if ltb_ℤ tip_height fork_height then pos 0 else sub32 tip_height fork_height

-- tipHeight
unfoldable pub tip_height : Option BlockMeta → ℤ
tip_height none = pos 0
tip_height (some tip) = tip.height

-- The test `reported != "" && reported != stored`.
abbrev pub is_news : HealthState → HealthState → Bool
is_news reported stored =
    ite (HealthState-discrete reported unset) false
      (ite (HealthState-discrete reported stored) false true)

abbrev pub is_down : HealthState → Bool
is_down h = ite (HealthState-discrete h down) true false

module _ (F : Float64) where
  -- One of the two first statements of trackHealth.
  unfoldable pub health_effects : Branch → HealthState → HealthState → List (Effect F)
  health_effects branch reported stored =
      if is_news reported stored then health_changed branch stored reported ∷ [] else []

  unfoldable pub health_after : HealthState → HealthState → HealthState
  health_after reported stored = if is_news reported stored then reported else stored

  -- The clock of both views being down, and the report when the grace period has passed.
  unfoldable pub track_both_down : State F → Observation F → State F × List (Effect F)
  track_both_down s obs =
      let both_down = is_down s.sf_health && is_down s.sq_health in
      if both_down && eqb_ℤ s.both_down_since (pos 0)
      then (record s { both_down_since = obs.at }, [])
      else if both_down && leb_ℤ both_down_grace_secs (sub64 obs.at s.both_down_since)
      then (record s { both_down_since = obs.at }, both_views_down neither_reached ∷ [])
      else if not both_down
      then (record s { both_down_since = pos 0 }, [])
      else (s, [])

  -- The two health fields as the first statements of trackHealth leave them.
  unfoldable pub with_health : State F → Observation F → State F
  unfolding health_after
  with_health s obs = record s {
    sf_health = health_after obs.sf_health s.sf_health;
    sq_health = health_after obs.sq_health s.sq_health;
  }

  -- trackHealth
  unfoldable pub track_health : State F → Observation F → State F × List (Effect F)
  unfolding health_effects with_health track_both_down
  track_health s obs =
      let (t, effects) = track_both_down (with_health s obs) obs in
      (
        t,
        health_effects sf obs.sf_health s.sf_health
            ++ (health_effects sq obs.sq_health s.sq_health ++ effects),
      )

  -- `next.Disagreement` is nil, or holds other hashes than the one found.
  unfoldable pub disagreement_moved : Option HeightDisagreement → HeightDisagreement → Bool
  disagreement_moved none found = true
  disagreement_moved (some kept) found =
      not (kept.sf_hash == found.sf_hash) || not (kept.sq_hash == found.sq_hash)

  -- trackDisagreement
  unfoldable pub track_disagreement : State F → Observation F → State F
  unfolding disagreement_moved
  track_disagreement s obs = elim obs.disagreement [
    | none ↦
        if obs.shared_height_agreed
        then record s { disagreement = none; disagreement_since = pos 0 }
        else s
    | some found ↦ record s {
      disagreement = some found;
      disagreement_since =
          if disagreement_moved s.disagreement found || eqb_ℤ s.disagreement_since (pos 0)
          then obs.at
          else s.disagreement_since;
    }
  ]

  unfoldable pub candidate_moved : Option BlockRef → BlockRef → Bool
  candidate_moved none found = true
  candidate_moved (some kept) found = not (kept.hash == found.hash)

  -- Both chains hold a block above the separation point found.
  unfoldable pub both_past : BlockMeta → BlockMeta → BlockRef → Bool
  both_past sf_tip sq_tip found =
      ltb_ℤ found.height sf_tip.height && ltb_ℤ found.height sq_tip.height

  -- The part of trackForkCandidate that runs when both tips were read and the search did not fail.
  unfoldable pub retime_candidate : State F → Observation F → BlockMeta → BlockMeta → State F
  unfolding candidate_moved both_past
  retime_candidate s obs sf_tip sq_tip = elim obs.fork_candidate [
    | none ↦ record s { fork_candidate = none; fork_candidate_since = pos 0 }
    | some found ↦
        if both_past sf_tip sq_tip found
        then record s {
          fork_candidate = some found;
          fork_candidate_since =
              if candidate_moved s.fork_candidate found || eqb_ℤ s.fork_candidate_since (pos 0)
              then obs.at
              else s.fork_candidate_since;
        }
        else record s { fork_candidate = none; fork_candidate_since = pos 0 }
  ]

  -- trackForkCandidate
  unfoldable pub track_fork_candidate : State F → Observation F → State F
  unfolding retime_candidate
  track_fork_candidate s obs = elim obs.sf_tip [
    | none ↦ s
    | some sf_tip ↦ elim obs.sq_tip [
      | none ↦ s
      | some sq_tip ↦ if obs.fork_search_failed then s else retime_candidate s obs sf_tip sq_tip
    ]
  ]

  -- separation
  unfoldable pub separation : State F → Option BlockRef
  separation s = elim s.fork [ none ↦ s.fork_candidate | some fork ↦ some fork ]

  -- The stored tip is missing or has another hash than the one observed.
  unfoldable pub is_new_block : Option BlockMeta → BlockMeta → Bool
  is_new_block none observed = true
  is_new_block (some stored) observed = not (stored.hash == observed.hash)

  unfoldable pub depth_since : Option BlockRef → BlockMeta → ℤ
  depth_since none tip = pos 0
  depth_since (some fork) tip = sub32 tip.height fork.height

  -- What trackBranch writes through its pointers: tip, cadence and the time last seen.
  pub record Followed : Type 0 where
    pub tip : Option BlockMeta
    pub cadence : Cadence F
    pub last_seen : ℤ

  -- trackBranch
  unfoldable pub track_branch :
      Branch → Option BlockMeta → Followed → Option BlockRef → ℤ → Followed × List (Effect F)
  unfolding is_new_block depth_since
  track_branch branch observed stored fork now = elim observed [
    | none ↦ (stored, [])
    | some tip ↦
        if is_new_block stored.tip tip
        then (let cadence = observe F stored.cadence tip.time in
            (
              record { tip = some tip; cadence = cadence; last_seen = now },
              branch_extended branch tip (depth_since fork tip) cadence.interval_secs ∷ [],
            ))
        else (stored, [])
  ]

  abbrev pub followed_sf : State F → Followed
  followed_sf s = record { tip = s.sf_tip; cadence = s.sf_cadence; last_seen = s.last_sf_block_at }

  abbrev pub followed_sq : State F → Followed
  followed_sq s = record { tip = s.sq_tip; cadence = s.sq_cadence; last_seen = s.last_sq_block_at }

  -- trackBlocks
  unfoldable pub track_blocks : State F → Observation F → State F × List (Effect F)
  unfolding separation track_branch
  track_blocks s obs =
      let (a, sf_effects) = track_branch sf obs.sf_tip (followed_sf s) (separation s) obs.at in
      let (b, sq_effects) = track_branch sq obs.sq_tip (followed_sq s) (separation s) obs.at in
      (
        record s {
          sf_tip = a.tip;
          sf_cadence = a.cadence;
          last_sf_block_at = a.last_seen;
          sq_tip = b.tip;
          sq_cadence = b.cadence;
          last_sq_block_at = b.last_seen;
        },
        sf_effects ++ sq_effects,
      )

  -- The closure `lasted` of suspectSplit.
  unfoldable pub lasted : Observation F → ℤ → Bool
  lasted obs since =
      ltb_ℤ (pos 0) obs.split_suspect_secs
      && (ltb_ℤ (pos 0) since && leb_ℤ obs.split_suspect_secs (sub64 obs.at since))

  -- The part of suspectSplit that reads the separation candidate.
  unfoldable pub suspect_candidate : State F → Observation F → Bool
  unfolding diverged_depth tip_height lasted
  suspect_candidate s obs = elim s.fork_candidate [
    | none ↦ false
    | some candidate ↦
        if eqb_ℤ s.fork_candidate_since (pos 0)
        then false
        else if ltb_ℤ (pos 1) (diverged_depth (tip_height s.sf_tip) candidate.height)
            || ltb_ℤ (pos 1) (diverged_depth (tip_height s.sq_tip) candidate.height)
        then true
        else lasted obs s.fork_candidate_since
  ]

  -- suspectSplit
  unfoldable pub suspect_split : State F → Observation F → Bool
  unfolding suspect_candidate lasted
  suspect_split s obs =
      if is_some s.disagreement && lasted obs s.disagreement_since
      then true
      else suspect_candidate s obs
