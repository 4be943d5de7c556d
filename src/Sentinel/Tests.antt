-- ===== src/Sentinel/Tests.antt =====
-- The theorems on ticks, on the anchor and on the cadence, at concrete inputs.
use forktower.Common.{
  ℕ, ◌≤◌, pos_part, true, false, not, some, [], ◌∷◌, ◌≡◌, refl, ◌⊎◌, ℤ, pos, arith, ◌≤ℤ◌, sub32,
  wrap, ◌-ℤ◌, sub64,
}
use forktower.Common.Fractions.{fractions}
use forktower.ChainView.Types.{rejected, invalid}
use native.Mathlib.Nat.{mul-le-mul_right}
use forktower.Sentinel.Phase.{resolving, resolved_sf_won, resolved}
use forktower.Sentinel.Cadence.{
  Cadence, stalled, new_cadence, expected_interval, effective_factor, quot,
}
use forktower.Sentinel.State.{Observation, State, new_state}
use forktower.Sentinel.Anchor.{
  branch_base, trust_anchor_height, earliest_rejected_height, lower_to, earliest_from, consider,
  consider_known, divergence_bound, rejected_bound, fork_bound, tip_bound,
}
use forktower.Sentinel.Decide.{step, run, decide_by, sf_stalled, sq_stalled}
use forktower.Sentinel.Transitions.{Edge, is_declared, step-phase, step-Edge, resolved_by_operator}
use forktower.Sentinel.Record.{run-fork_fixed, run-declared, fork_written_on_change}
use forktower.Sentinel.Effects.{Announced, step-Announced}
use forktower.Sentinel.Candidates.{HasHeights, IsLeastCandidate}
use forktower.Sentinel.AnchorCandidates.{trust_anchor_height-IsLeastCandidate}
use forktower.Sentinel.Clocks.{ClocksValid, run-ClocksValid, last_at}
use forktower.Sentinel.Outage.{IsOutage, outage_moves_split}
use forktower.Sentinel.Examples.{
  fork_at, refused, apart_tick, outage_tick, fresh, armed_apart, split_state, resolving_state,
}

run-fork_fixed_example :
    ((run fractions split_state (apart_tick ∷ outage_tick ∷ [])).fork ≡ some fork_at)
    × ((run fractions split_state (apart_tick ∷ outage_tick ∷ [])).detected_at
        ≡ split_state.detected_at)
run-fork_fixed_example =
    run-fork_fixed fractions split_state (apart_tick ∷ outage_tick ∷ []) fork_at refl

run-declared_example :
    is_declared (run fractions split_state (apart_tick ∷ outage_tick ∷ [])).phase ≡ true
run-declared_example = run-declared fractions split_state (apart_tick ∷ outage_tick ∷ []) refl

abbrev sf_won : State fractions
sf_won = record split_state { phase = resolved_sf_won }

sf_won_resolved : resolved sf_won.phase ≡ true
unfolding resolved
sf_won_resolved = refl

step-Edge_example :
    ((step fractions armed_apart apart_tick).0.phase ≡ armed_apart.phase)
    ⊎ Edge armed_apart.phase (step fractions armed_apart apart_tick).0.phase
step-Edge_example = step-Edge fractions armed_apart apart_tick

step-Announced_example :
    Announced fractions armed_apart
      (step fractions armed_apart apart_tick).0
      (step fractions armed_apart apart_tick).1
step-Announced_example = step-Announced fractions armed_apart apart_tick

apart_tick-HasHeights : HasHeights fractions apart_tick
apart_tick-HasHeights = record {
  divergence = omega arith;
  margin = omega arith;
  tip = omega arith;
  tips = omega arith;
}

trust_anchor_height-IsLeastCandidate_example :
    IsLeastCandidate fractions apart_tick
      (some fork_at)
      (trust_anchor_height fractions apart_tick (some fork_at))
trust_anchor_height-IsLeastCandidate_example =
    trust_anchor_height-IsLeastCandidate fractions apart_tick (some fork_at) apart_tick-HasHeights

abbrev recorded_tick : Observation fractions
recorded_tick = record apart_tick { operator_outcome = resolved_sf_won }

not_resolved : resolved resolving_state.phase ≡ false
unfolding resolved
not_resolved = refl

recorded : resolved (step fractions resolving_state recorded_tick).0.phase ≡ true
unfolding resolved decide_by
recorded = rw (step-phase fractions resolving_state recorded_tick) refl

resolved_by_operator_example :
    (resolving_state.phase ≡ resolving)
    × ((step fractions resolving_state recorded_tick).0.phase ≡ recorded_tick.operator_outcome)
resolved_by_operator_example =
    resolved_by_operator fractions resolving_state recorded_tick not_resolved recorded

kept : (step fractions sf_won apart_tick).0.phase ≡ sf_won.phase
unfolding resolved decide_by
kept = rw (step-phase fractions sf_won apart_tick) refl

fork_written_on_change_example : (step fractions sf_won apart_tick).0.fork ≡ sf_won.fork
fork_written_on_change_example = fork_written_on_change fractions sf_won apart_tick kept

anchor_here : trust_anchor_height fractions apart_tick (some fork_at) ≡ some (pos 99)
unfolding trust_anchor_height consider_known consider divergence_bound rejected_bound fork_bound
    tip_bound earliest_rejected_height earliest_from lower_to branch_base sub32 wrap ◌-ℤ◌ rejected
anchor_here = refl

lowest_base : earliest_rejected_height (refused ∷ []) ≡ some (pos 100)
unfolding earliest_rejected_height earliest_from lower_to branch_base sub32 wrap ◌-ℤ◌ rejected
lowest_base = refl

refused-rejected : rejected refused ≡ true
unfolding rejected
refused-rejected = refl

outage : IsOutage fractions outage_tick
outage = record { no_sf_tip = refl; no_sq_tip = refl; sf_down = refl; sq_down = refl }

neither_stalled :
    sf_stalled fractions split_state outage_tick ≡ sq_stalled fractions split_state outage_tick
unfolding sf_stalled sq_stalled stalled new_state
neither_stalled = refl

abbrev quiet_for_long : State fractions
quiet_for_long = record split_state { last_sf_block_at = pos 60000; last_sq_block_at = pos 69000 }

one_stalled :
    sf_stalled fractions quiet_for_long outage_tick
    ≡ not (sq_stalled fractions quiet_for_long outage_tick)
unfolding sf_stalled sq_stalled stalled new_state new_cadence expected_interval effective_factor
    quot sub64 wrap ◌-ℤ◌
one_stalled = refl

outage_moves_split_example : (step fractions quiet_for_long outage_tick).0.phase ≡ resolving
outage_moves_split_example =
    outage_moves_split fractions quiet_for_long outage_tick outage refl one_stalled

fresh_clocks : ClocksValid fractions (pos 0) fresh
unfolding new_state
fresh_clocks = record { candidate = refl; disagreement = refl }

run-ClocksValid_example :
    ClocksValid fractions
      (last_at fractions (pos 0) (apart_tick ∷ outage_tick ∷ []))
      (run fractions fresh (apart_tick ∷ outage_tick ∷ []))
run-ClocksValid_example =
    run-ClocksValid fractions (pos 0) fresh (apart_tick ∷ outage_tick ∷ [])
      (omega arith, omega arith, (omega arith, omega arith, tt)) fresh_clocks

abbrev started : Cadence fractions
started = new_cadence fractions

below_mono :
    (x : ℕ × ℕ) (a b : ℤ)
    → a ≤ℤ b
    → fractions.below x (fractions.of_int a) ≡ true
    → fractions.below x (fractions.of_int b) ≡ true
below_mono x a b h e =
    let le : pos_part a ≤ pos_part b = ground arith in ground (arith, mul-le-mul_right x.1 le)

stalled_now : stalled fractions started (pos 70000) (pos 60000) (6, 1) ≡ true
unfolding stalled new_cadence expected_interval effective_factor quot sub64 wrap ◌-ℤ◌
stalled_now = refl

abbrev refused_at_genesis : Observation fractions
refused_at_genesis = record apart_tick {
  sf_tips = record { hash = 21; height = pos 5; branch_len = pos 5; status = invalid } ∷ [];
  divergence_height = pos 0;
}

genesis_base : earliest_rejected_height refused_at_genesis.sf_tips ≡ some (pos 0)
unfolding earliest_rejected_height earliest_from lower_to branch_base sub32 wrap ◌-ℤ◌ rejected
genesis_base = refl
