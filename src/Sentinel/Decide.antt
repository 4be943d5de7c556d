-- ===== src/Sentinel/Decide.antt =====
-- internal/sentinel/logic.go: the transition table, and Step.
use forktower.Common.{
  ℕ, zero, suc, Bool, true, false, not, ◌&&◌, ◌||◌, ◌==◌, Option, none, some, List, [], ◌∷◌, ◌++◌,
  ℤ, pos, pos_part, ltb_ℤ, leb_ℤ, eqb_ℤ, sub32, sub64, Float64, ite, if◌then◌else◌,
}
use forktower.ChainView.Types.{Hash, BlockRef, BlockMeta, usable, ChainTip, rejected}
use forktower.Sentinel.Phase.{
  Phase, unarmed, armed, split, resolving, resolved_sf_won, resolved_sq_won, unset, unknown,
  Phase-discrete, resolved,
}
use forktower.Sentinel.Cadence.{stalled}
use forktower.Sentinel.State.{
  Detail, none_given, operator_recorded, producing_again, not_recognised, both_agree,
  already_rejected, already_separated, holding_different_blocks, has_rejected, both_built_past,
  gone_on_holding, other_stopped, yours_stopped, Observation, State, Effect, persist_state,
  phase_changed,
}
use forktower.Sentinel.Track.{
  diverged_depth, tip_height, track_health, track_disagreement, track_fork_candidate, track_blocks,
  suspect_split,
}
use forktower.Sentinel.Anchor.{track_trust_anchor}

-- containsWithin; the limit is never negative where the source calls it.
unfoldable pub contains_within : List Hash → Hash → ℕ → Bool
contains_within [] h limit = false
contains_within (candidate ∷ hashes) h zero = false
contains_within (candidate ∷ hashes) h (suc limit) =
    candidate == h || contains_within hashes h limit

-- `if depth < 1 { depth = 1 }`
unfoldable pub at_least_one : ℤ → ℤ
at_least_one depth = if ltb_ℤ depth (pos 1) then pos 1 else depth

-- The case of tipsAgree where both tips were read. `int(depth)+1` is at least 2.
unfoldable pub tips_agree_on : BlockMeta → BlockMeta → ℤ → List Hash → List Hash → Bool
tips_agree_on sf_tip sq_tip depth sf_ancestry sq_ancestry =
    if sf_tip.hash == sq_tip.hash
    then true
    else if ltb_ℤ sf_tip.height sq_tip.height && leb_ℤ (sub32 sq_tip.height sf_tip.height) depth
    then contains_within sq_ancestry sf_tip.hash (suc (pos_part depth))
    else if ltb_ℤ sq_tip.height sf_tip.height && leb_ℤ (sub32 sf_tip.height sq_tip.height) depth
    then contains_within sf_ancestry sq_tip.hash (suc (pos_part depth))
    else false

-- tipsAgree
unfoldable pub tips_agree : Option BlockMeta → Option BlockMeta → ℤ → List Hash → List Hash → Bool
unfolding tips_agree_on at_least_one
tips_agree none sq_tip depth sf_ancestry sq_ancestry = false
tips_agree (some sf_tip) none depth sf_ancestry sq_ancestry = false
tips_agree (some sf_tip) (some sq_tip) depth sf_ancestry sq_ancestry =
    tips_agree_on sf_tip sq_tip (at_least_one depth) sf_ancestry sq_ancestry

-- invalidTipMatchesSQ
unfoldable pub invalid_tip_matches_sq : List Hash → Hash → ChainTip → Bool
unfolding at_least_one
invalid_tip_matches_sq sq_ancestry sq_tip tip =
    if not (rejected tip)
    then false
    else if tip.hash == sq_tip
    then true
    else contains_within sq_ancestry tip.hash (pos_part (at_least_one tip.branch_len))

-- The loop of splitEvidence over the tips that the user's own node reports.
unfoldable pub any_tip_matches : List Hash → Hash → List ChainTip → Bool
any_tip_matches sq_ancestry sq_tip [] = false
any_tip_matches sq_ancestry sq_tip (tip ∷ tips) =
    invalid_tip_matches_sq sq_ancestry sq_tip tip || any_tip_matches sq_ancestry sq_tip tips

-- Both tips, where they are known, stand at least `depth` past the separation found this tick.
unfoldable pub both_past_on : Option BlockRef → Option BlockMeta → Option BlockMeta → ℤ → Bool
both_past_on none sf_tip sq_tip depth = false
both_past_on (some fork) none sq_tip depth = false
both_past_on (some fork) (some sf_tip) none depth = false
both_past_on (some fork) (some sf_tip) (some sq_tip) depth =
    leb_ℤ depth (diverged_depth sf_tip.height fork.height)
    && leb_ℤ depth (diverged_depth sq_tip.height fork.height)

-- The three results of splitEvidence, of which at most one is true.
pub data Evidence : Type 0 where
  rejected_block diverged_far diverged_sustained no_evidence : Evidence

module _ (F : Float64) where
  unfoldable pub sees_rejected_block : State F → Observation F → Bool
  sees_rejected_block s obs = elim s.sq_tip [
    | none ↦ false
    | some sq_tip ↦ any_tip_matches obs.sq_ancestry sq_tip.hash obs.sf_tips
  ]

  unfoldable pub sees_both_past : State F → Observation F → Bool
  sees_both_past s obs =
      both_past_on obs.fork_candidate s.sf_tip s.sq_tip (at_least_one obs.split_confirm_depth)

  -- The greater of the two depths past the tracked candidate.
  unfoldable pub lead : State F → BlockRef → ℤ
  lead s candidate =
      let sf_depth = diverged_depth (tip_height s.sf_tip) candidate.height in
      let sq_depth = diverged_depth (tip_height s.sq_tip) candidate.height in
      if ltb_ℤ sf_depth sq_depth then sq_depth else sf_depth

  unfoldable pub leads_by : State F → ℤ → Option BlockRef → Bool
  leads_by s depth none = false
  leads_by s depth (some candidate) = leb_ℤ depth (lead s candidate)

  unfoldable pub sees_sustained : State F → Observation F → Bool
  sees_sustained s obs =
      if leb_ℤ obs.split_confirm_secs (pos 0)
        || (eqb_ℤ s.fork_candidate_since (pos 0)
            || ltb_ℤ (sub64 obs.at s.fork_candidate_since) obs.split_confirm_secs)
      then false
      else leads_by s (at_least_one obs.split_confirm_depth) s.fork_candidate

  -- splitEvidence
  unfoldable pub split_evidence : State F → Observation F → Evidence
  split_evidence s obs =
      if sees_rejected_block s obs
      then rejected_block
      else if sees_both_past s obs
      then diverged_far
      else if sees_sustained s obs
      then diverged_sustained
      else no_evidence

  -- The tips of the state agree, at the depth and with the ancestry of the observation.
  unfoldable pub agree : State F → Observation F → Bool
  agree s obs = tips_agree s.sf_tip s.sq_tip obs.split_confirm_depth obs.sf_ancestry obs.sq_ancestry

  -- decideFromUnarmed
  unfoldable pub decide_from_unarmed : State F → Observation F → Phase × Detail
  decide_from_unarmed s obs =
      if not (usable s.sf_health) || not (usable s.sq_health)
      then (unarmed, none_given)
      else if agree s obs
      then (armed, both_agree)
      else elim (split_evidence s obs) [
        | rejected_block ↦ (split, already_rejected)
        | diverged_far ↦ (split, already_separated)
        | diverged_sustained ↦ (split, holding_different_blocks)
        | no_evidence ↦ (unarmed, none_given)
      ]

  -- decideFromArmed
  unfoldable pub decide_from_armed : State F → Observation F → Phase × Detail
  decide_from_armed s obs =
      if agree s obs then (armed, none_given) else elim (split_evidence s obs) [
        | rejected_block ↦ (split, has_rejected)
        | diverged_far ↦ (split, both_built_past)
        | diverged_sustained ↦ (split, gone_on_holding)
        | no_evidence ↦ (armed, none_given)
      ]

  unfoldable pub sf_stalled : State F → Observation F → Bool
  sf_stalled s obs = stalled F s.sf_cadence obs.at s.last_sf_block_at obs.stall_factor

  unfoldable pub sq_stalled : State F → Observation F → Bool
  sq_stalled s obs = stalled F s.sq_cadence obs.at s.last_sq_block_at obs.stall_factor

  -- stalledBranch
  unfoldable pub stalled_branch : State F → Observation F → Phase → Bool
  stalled_branch s obs resolved_sf_won = sq_stalled s obs
  stalled_branch s obs resolved_sq_won = sf_stalled s obs
  stalled_branch s obs unarmed = false
  stalled_branch s obs armed = false
  stalled_branch s obs split = false
  stalled_branch s obs resolving = false
  stalled_branch s obs unset = false
  stalled_branch s obs (unknown _) = false

  -- decideFromSplit
  unfoldable pub decide_from_split : State F → Observation F → Phase × Detail
  unfolding stalled_branch
  decide_from_split s obs =
      let sf_quiet = stalled_branch s obs resolved_sq_won in
      let sq_quiet = stalled_branch s obs resolved_sf_won in
      if sq_quiet && not sf_quiet
      then (resolving, other_stopped)
      else if sf_quiet && not sq_quiet
      then (resolving, yours_stopped)
      else (split, none_given)

  unfoldable pub decide_from_resolving : State F → Observation F → Phase × Detail
  unfolding stalled_branch
  decide_from_resolving s obs =
      if resolved obs.operator_outcome
      then (obs.operator_outcome, operator_recorded)
      else if not (stalled_branch s obs s.resolving_candidate)
      then (split, producing_again)
      else (resolving, none_given)

  -- decidePhase, by the state's phase
  unfoldable pub decide_by : Phase → State F → Observation F → Phase × Detail
  unfolding decide_from_unarmed decide_from_armed decide_from_split decide_from_resolving
  decide_by unarmed s obs = decide_from_unarmed s obs
  decide_by armed s obs = decide_from_armed s obs
  decide_by split s obs = decide_from_split s obs
  decide_by resolving s obs = decide_from_resolving s obs
  decide_by resolved_sf_won s obs = (resolved_sf_won, none_given)
  decide_by resolved_sq_won s obs = (resolved_sq_won, none_given)
  decide_by unset s obs = (unarmed, not_recognised)
  decide_by (unknown _) s obs = (unarmed, not_recognised)

  abbrev pub decide_phase : State F → Observation F → Phase × Detail
  decide_phase s obs = decide_by s.phase s obs

  -- resolvingCandidate
  unfoldable pub resolving_candidate : State F → Observation F → Phase
  resolving_candidate s obs = if sq_stalled s obs then resolved_sf_won else resolved_sq_won

  -- The bookkeeping of applyPhase on entering the split phase, but for the phase.
  unfoldable pub record_split : State F → Observation F → State F
  record_split s obs = elim s.fork [
    | some fork ↦ record s { resolving_candidate = unset }
    | none ↦ elim s.fork_candidate [
      | some candidate ↦ record s {
        fork = some candidate;
        detected_at = obs.at;
        resolving_candidate = unset;
      }
      | none ↦ record s {
        fork = obs.fork_candidate;
        detected_at = obs.at;
        resolving_candidate = unset;
      }
    ]
  ]

  -- applyPhase
  unfoldable pub apply_phase : State F → Phase → Observation F → State F
  unfolding record_split resolving_candidate
  apply_phase s split obs = record (record_split s obs) { phase = split }
  apply_phase s resolving obs = record s {
    resolving_candidate = resolving_candidate s obs;
    phase = resolving;
  }
  apply_phase s armed obs = record s { phase = armed }
  apply_phase s unarmed obs = record s { phase = unarmed }
  apply_phase s resolved_sf_won obs = record s { phase = resolved_sf_won }
  apply_phase s resolved_sq_won obs = record s { phase = resolved_sq_won }
  apply_phase s unset obs = record s { phase = unset }
  apply_phase s (unknown n) obs = record s { phase = unknown n }

  -- What Step does before the phase is decided.
  unfoldable pub prepare : State F → Observation F → State F × List (Effect F)
  prepare prev obs =
      let (a, health) = track_health F prev obs in
      let b = track_fork_candidate F (track_disagreement F a obs) obs in
      let (c, blocks) = track_blocks F b obs in
      let (d, anchor) = track_trust_anchor F c obs in
      (record d { split_suspected = suspect_split F d obs }, health ++ (blocks ++ anchor))

  -- What Step does with the decided phase.
  unfoldable pub conclude : State F → Observation F → State F × List (Effect F)
  conclude s obs =
      let (phase, detail) = decide_phase s obs in
      ite (Phase-discrete phase s.phase) (s, [])
        (apply_phase s phase obs, persist_state ∷ phase_changed s.phase phase detail ∷ [])

  -- Step
  unfoldable pub step : State F → Observation F → State F × List (Effect F)
  step prev obs =
      let (s, effects) = prepare prev obs in
      let (next, changes) = conclude s obs in (next, effects ++ changes)

  -- The state after a sequence of ticks.
  unfoldable pub run : State F → List (Observation F) → State F
  run s [] = s
  run s (obs ∷ ticks) = run (step s obs).0 ticks
