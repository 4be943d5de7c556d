-- ===== src/Sentinel/Anchor.antt =====
-- internal/sentinel/logic.go: how far the user's own chain counts as verified history.
use forktower.Common.{
  not, Option, none, some, List, [], ◌∷◌, ℤ, pos, ltb_ℤ, eqb_ℤ, sub32, Float64, if◌then◌else◌,
}
use forktower.ChainView.Types.{BlockRef, ChainTip, rejected}
use forktower.Sentinel.State.{Observation, State, Effect, trust_anchor_changed, history_shared}

-- The base of a rejected branch, cut off at zero.
unfoldable pub branch_base : ChainTip → ℤ
branch_base t = let base = sub32 t.height t.branch_len in if ltb_ℤ base (pos 0) then pos 0 else base

-- One round of the loop of earliestRejectedHeight: `none` is found = false.
unfoldable pub lower_to : Option ℤ → ChainTip → Option ℤ
unfolding branch_base
lower_to lowest t = if not (rejected t) then lowest else elim lowest [
  | none ↦ some (branch_base t)
  | some low ↦ if ltb_ℤ (branch_base t) low then some (branch_base t) else some low
]

unfoldable pub earliest_from : Option ℤ → List ChainTip → Option ℤ
unfolding lower_to
earliest_from lowest [] = lowest
earliest_from lowest (t ∷ tips) = earliest_from (lower_to lowest t) tips

-- earliestRejectedHeight
unfoldable pub earliest_rejected_height : List ChainTip → Option ℤ
unfolding earliest_from
earliest_rejected_height tips = earliest_from none tips

-- The closure `consider`: `none` is the source's best of -1, which no candidate can be.
unfoldable pub consider : Option ℤ → ℤ → Option ℤ
consider best candidate = if ltb_ℤ candidate (pos 0) then best else elim best [
  | none ↦ some candidate
  | some b ↦ if ltb_ℤ candidate b then some candidate else some b
]

-- A bound that is considered only where it is known.
unfoldable pub consider_known : Option ℤ → Option ℤ → Option ℤ
unfolding consider
consider_known best none = best
consider_known best (some candidate) = consider best candidate

module _ (F : Float64) where
  unfoldable pub divergence_bound : Observation F → Option ℤ
  divergence_bound obs =
      if ltb_ℤ (pos 0) obs.divergence_height
      then some (sub32 obs.divergence_height (pos 1))
      else none

  unfoldable pub rejected_bound : Observation F → Option ℤ
  rejected_bound obs = elim (earliest_rejected_height obs.sf_tips) [
    | none ↦ none
    | some h ↦ some (sub32 h (pos 1))
  ]

  unfoldable pub fork_bound : Option BlockRef → Option ℤ
  fork_bound none = none
  fork_bound (some fork) = some fork.height

  unfoldable pub tip_bound : Observation F → Option ℤ
  tip_bound obs = elim obs.sf_tip [
    | none ↦ none
    | some tip ↦
        if ltb_ℤ (pos 0) obs.reorg_margin then some (sub32 tip.height obs.reorg_margin) else none
  ]

  -- TrustAnchorHeight. Its last test, `best < 0`, cannot hold, since no candidate is negative.
  unfoldable pub trust_anchor_height : Observation F → Option BlockRef → Option ℤ
  unfolding consider_known divergence_bound rejected_bound fork_bound tip_bound
  trust_anchor_height obs fork =
      consider_known
        (consider_known
          (consider_known (consider_known none (divergence_bound obs)) (rejected_bound obs))
          (fork_bound fork))
        (tip_bound obs)

  -- trackTrustAnchor
  unfoldable pub track_trust_anchor : State F → Observation F → State F × List (Effect F)
  track_trust_anchor s obs = elim (trust_anchor_height obs s.fork) [
    | none ↦ (s, [])
    | some anchor ↦
        if eqb_ℤ anchor s.trust_anchor
        then (s, [])
        else (record s { trust_anchor = anchor }, trust_anchor_changed anchor history_shared ∷ [])
  ]
