-- ===== src/Sentinel/Evidence.antt =====
-- The evidence that makes the sentinel believe in a split, described apart from the code.
use forktower.Common.{
  true, false, Option, none, some, ◌≡◌, sym, subst, ◌≢◌, ◌⊎◌, inl, inr, ◌↔◌, ℤ, pos, ◌≤ℤ◌, ◌<ℤ◌,
  sub64, Float64, arith, Any, Bool-cases,
}
use forktower.ChainView.Types.{BlockRef, BlockMeta, usable}
use forktower.Sentinel.Phase.{unarmed, armed, split}
use forktower.Sentinel.State.{Observation, State}
use forktower.Sentinel.Track.{tip_height}
use forktower.Sentinel.Decide.{
  no_evidence, leads_by, at_least_one, any_tip_matches, sees_rejected_block, sees_both_past, lead,
  sees_sustained, split_evidence, agree, decide_by, decide_phase,
}
use forktower.Sentinel.Depths.{
  diverged_depth_iff, Refuses, any_tip_matches_iff, IsTip, IsRef, BothPast, both_past_on_iff,
  OnePast, at_least_one_le, tip_height-IsHeight,
}

module _ (F : Float64) where
  -- The heights in play are ones that a chain can have.
  pub record HeightsValid (s : State F) (obs : Observation F) : Type 0 where
    pub sf : IsTip s.sf_tip
    pub sq : IsTip s.sq_tip
    pub found : IsRef obs.fork_candidate
    pub tracked : IsRef s.fork_candidate

  abbrev pub Refused : State F → Observation F → Option BlockMeta → Type 0
  Refused s obs none = ⊥
  Refused s obs (some sq_tip) = Any (Refuses obs.sq_ancestry sq_tip.hash) obs.sf_tips

  -- A disagreement that has stood for the configured time, and that one chain has built upon.
  pub record Sustained (s : State F) (obs : Observation F) : Type 0 where
    pub enabled : pos 0 <ℤ obs.split_confirm_secs
    pub running : s.fork_candidate_since ≢ pos 0
    pub stood : obs.split_confirm_secs ≤ℤ sub64 obs.at s.fork_candidate_since
    pub built :
        OnePast s.fork_candidate
          (tip_height s.sf_tip)
          (tip_height s.sq_tip)
          (at_least_one obs.split_confirm_depth)

  -- What justifies the belief that the chains have separated.
  abbrev pub Separated : State F → Observation F → Type 0
  Separated s obs =
      Refused s obs s.sq_tip
      ⊎ (BothPast obs.fork_candidate s.sf_tip s.sq_tip (at_least_one obs.split_confirm_depth)
          ⊎ Sustained s obs)

  sees_rejected_block_iff :
      (s : State F) (obs : Observation F)
      → (sees_rejected_block F s obs ≡ true) ↔ Refused s obs s.sq_tip
  unfolding sees_rejected_block
  sees_rejected_block_iff s obs =
      elim s.sq_tip
        as (λ o.
          (elim o [
            | none ↦ false
            | some sq_tip ↦ any_tip_matches obs.sq_ancestry sq_tip.hash obs.sf_tips
          ]
            ≡ true)
          ↔ Refused s obs o) [
            | none ↦ (λ e. cc, λ e. absurd e)
            | some sq_tip ↦ any_tip_matches_iff obs.sq_ancestry sq_tip.hash obs.sf_tips
          ]

  sees_both_past_iff :
      (s : State F) (obs : Observation F)
      → HeightsValid s obs
      → (sees_both_past F s obs ≡ true)
        ↔ BothPast obs.fork_candidate s.sf_tip s.sq_tip (at_least_one obs.split_confirm_depth)
  unfolding sees_both_past
  sees_both_past_iff s obs v =
      both_past_on_iff obs.fork_candidate s.sf_tip s.sq_tip (at_least_one obs.split_confirm_depth)
        v.found v.sf v.sq (at_least_one_le obs.split_confirm_depth)

  leads_by_iff :
      (s : State F) (depth : ℤ) (candidate : Option BlockRef)
      → IsTip s.sf_tip
      → IsTip s.sq_tip
      → IsRef candidate
      → pos 1 ≤ℤ depth
      → (leads_by F s depth candidate ≡ true)
        ↔ OnePast candidate (tip_height s.sf_tip) (tip_height s.sq_tip) depth
  unfolding leads_by lead
  leads_by_iff s depth none a b c d = (λ e. cc, λ e. absurd e)
  leads_by_iff s depth (some candidate) a b c d =
      let k =
        diverged_depth_iff (tip_height s.sf_tip) candidate.height depth
          (tip_height-IsHeight s.sf_tip a) c d in
      let l =
        diverged_depth_iff (tip_height s.sq_tip) candidate.height depth
          (tip_height-IsHeight s.sq_tip b) c d in
      (λ e. ground (arith, k.0, l.0), λ e. ground (arith, k.1, l.1))

  sees_sustained_iff :
      (s : State F) (obs : Observation F)
      → HeightsValid s obs
      → (sees_sustained F s obs ≡ true) ↔ Sustained s obs
  unfolding sees_sustained
  sees_sustained_iff s obs v =
      let k =
        leads_by_iff s (at_least_one obs.split_confirm_depth) s.fork_candidate v.sf v.sq v.tracked
          (at_least_one_le obs.split_confirm_depth) in
      (
        λ e. record {
          enabled = ground arith;
          running = ground arith;
          stood = ground arith;
          built = k.0 (ground arith);
        },
        λ e. ground (arith, k.1 e.built),
      )

  split_evidence_iff :
      (s : State F) (obs : Observation F)
      → HeightsValid s obs
      → (split_evidence F s obs ≢ no_evidence) ↔ Separated s obs
  unfolding split_evidence
  split_evidence_iff s obs v =
      let a = sees_rejected_block_iff s obs in
      let b = sees_both_past_iff s obs v in
      let c = sees_sustained_iff s obs v in
      (
        λ e. elim (Bool-cases (sees_rejected_block F s obs)) [
          | inl p ↦ inl (a.0 p)
          | inr p ↦ elim (Bool-cases (sees_both_past F s obs)) [
            | inl q ↦ inr (inl (b.0 q))
            | inr q ↦ elim (Bool-cases (sees_sustained F s obs)) [
              | inl r ↦ inr (inr (c.0 r))
              | inr r ↦ absurd (e (rw (p, q, r)))
            ]
          ]
        ],
        λ e. elim e [
          | inl x ↦ ground (arith, a.1 x)
          | inr y ↦ elim y [ inl x ↦ ground (arith, b.1 x) | inr x ↦ ground (arith, c.1 x) ]
        ],
      )

  decide_by_armed :
      (s : State F) (obs : Observation F)
      → HeightsValid s obs
      → ((decide_by F armed s obs).0 ≡ split) ↔ ((agree F s obs ≡ false) × Separated s obs)
  unfolding decide_by
  decide_by_armed s obs v =
      let k = split_evidence_iff s obs v in
      (λ h. (ground arith, k.0 (ground arith)), λ h. ground (arith, k.1 h.1))

  decide_by_unarmed :
      (s : State F) (obs : Observation F)
      → HeightsValid s obs
      → ((decide_by F unarmed s obs).0 ≡ split) ↔ (
          (usable s.sf_health ≡ true)
          × (usable s.sq_health ≡ true)
          × (agree F s obs ≡ false)
          × Separated s obs)
  unfolding decide_by
  decide_by_unarmed s obs v =
      let k = split_evidence_iff s obs v in
      (
        λ h. (ground arith, ground arith, ground arith, k.0 (ground arith)),
        λ h. ground (arith, k.1 h.3),
      )

  -- From the armed phase, with heights that a chain can have, decidePhase moves to split exactly
  -- if the tips do not agree and the separation is evident: the user's node refused a branch that
  -- is or leads to the other chain, or both chains have built the confirmation depth (at least one
  -- block) past the separation found, or a tracked disagreement has stood for the configured time
  -- and one chain has built that depth past it.
  pub armed_splits_iff :
      (s : State F) (obs : Observation F)
      → HeightsValid s obs
      → s.phase ≡ armed
      → ((decide_phase F s obs).0 ≡ split) ↔ ((agree F s obs ≡ false) × Separated s obs)
  armed_splits_iff s obs v e =
      subst (λ p. ((decide_by F p s obs).0 ≡ split) ↔ ((agree F s obs ≡ false) × Separated s obs))
        (sym e) (decide_by_armed s obs v)

  -- From the unarmed phase, with heights that a chain can have, decidePhase moves to split exactly
  -- if both views are usable, the tips do not agree, and the separation is evident in one of the
  -- same three ways.
  pub unarmed_splits_iff :
      (s : State F) (obs : Observation F)
      → HeightsValid s obs
      → s.phase ≡ unarmed
      → ((decide_phase F s obs).0 ≡ split) ↔ (
          (usable s.sf_health ≡ true)
          × (usable s.sq_health ≡ true)
          × (agree F s obs ≡ false)
          × Separated s obs)
  unarmed_splits_iff s obs v e =
      subst
        (λ p. ((decide_by F p s obs).0 ≡ split) ↔ (
          (usable s.sf_health ≡ true)
          × (usable s.sq_health ≡ true)
          × (agree F s obs ≡ false)
          × Separated s obs))
        (sym e) (decide_by_unarmed s obs v)
