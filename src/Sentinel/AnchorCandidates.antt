-- ===== src/Sentinel/AnchorCandidates.antt =====
-- internal/sentinel/logic.go: TrustAnchorHeight against the heights it may choose.
use forktower.Common.{
  Option, none, some, List, [], ◌∷◌, ◌≡◌, refl, inl, inr, ℤ, pos, ◌-ℤ◌, ltb_ℤ, ◌≤ℤ◌, ◌<ℤ◌, sub32,
  Float64, arith, Any, All, Bool-cases, Option-cases, subst,
}
use forktower.ChainView.Types.{BlockRef, BlockMeta}
use forktower.Sentinel.State.{Observation}
use forktower.Sentinel.Anchor.{
  earliest_rejected_height, divergence_bound, rejected_bound, fork_bound, tip_bound,
  trust_anchor_height,
}
use forktower.Sentinel.AnchorBounds.{Bounded, Ignored, Lowest, bounds, trust_anchor_height-Lowest}
use forktower.Sentinel.Candidates.{
  LowestBase, InRange, TipInRange, HasHeights, Candidate, below_divergence, below_rejected, at_fork,
  below_tip, IsLeastCandidate,
}
use forktower.Sentinel.LowestBase.{
  sub32-exact, earliest-LowestBase, LowestBase-earliest, LowestBase-InRange,
}

module _ (F : Float64) (obs : Observation F) (fork : Option BlockRef) (v : HasHeights F obs) where
  one : InRange (pos 1)
  one = omega arith

  divergence_exact :
      pos 0 <ℤ obs.divergence_height
      → sub32 obs.divergence_height (pos 1) ≡ obs.divergence_height -ℤ pos 1
  divergence_exact p = sub32-exact obs.divergence_height (pos 1) (omega arith, v.divergence) one

  divergence-of :
      (c : ℤ)
      → divergence_bound F obs ≡ some c
      → (pos 0 <ℤ obs.divergence_height) × (c ≡ obs.divergence_height -ℤ pos 1)
  unfolding divergence_bound
  divergence-of c h = elim (Bool-cases (ltb_ℤ (pos 0) obs.divergence_height)) [
    | inl e ↦ let s = divergence_exact (ground arith) in (ground arith, cc)
    | inr e ↦ ground arith
  ]

  of_divergence :
      (c : ℤ)
      → pos 0 <ℤ obs.divergence_height
      → c ≡ obs.divergence_height -ℤ pos 1
      → divergence_bound F obs ≡ some c
  unfolding divergence_bound
  of_divergence c p e = ground (arith, divergence_exact p)

  rejected-of :
      (c : ℤ)
      → rejected_bound F obs ≡ some c
      → (b : ℤ) × LowestBase obs.sf_tips b × (c ≡ b -ℤ pos 1)
  unfolding rejected_bound
  rejected-of c h = elim (Option-cases (earliest_rejected_height obs.sf_tips)) [
    | inl e ↦ ground arith
    | inr (b, e) ↦
        let l = earliest-LowestBase obs.sf_tips v.tips b e in
        let s = sub32-exact b (pos 1) (LowestBase-InRange obs.sf_tips v.tips b l) one in
        (b, l, ground arith)
  ]

  of_rejected :
      (b c : ℤ) → LowestBase obs.sf_tips b → c ≡ b -ℤ pos 1 → rejected_bound F obs ≡ some c
  unfolding rejected_bound
  of_rejected b c l e =
      let s = sub32-exact b (pos 1) (LowestBase-InRange obs.sf_tips v.tips b l) one in
      ground (arith, LowestBase-earliest obs.sf_tips v.tips b l)

  tip_exact :
      (tip : BlockMeta)
      → obs.sf_tip ≡ some tip
      → pos 0 <ℤ obs.reorg_margin
      → sub32 tip.height obs.reorg_margin ≡ tip.height -ℤ obs.reorg_margin
  tip_exact tip t m =
      sub32-exact tip.height obs.reorg_margin (subst TipInRange t v.tip) (omega arith, v.margin)

  tip-of :
      (c : ℤ)
      → tip_bound F obs ≡ some c
      → (tip : BlockMeta) × (obs.sf_tip ≡ some tip)
        × (pos 0 <ℤ obs.reorg_margin)
        × (c ≡ tip.height -ℤ obs.reorg_margin)
  unfolding tip_bound
  tip-of c h = elim (Option-cases obs.sf_tip) [
    | inl e ↦ ground arith
    | inr (tip, e) ↦ elim (Bool-cases (ltb_ℤ (pos 0) obs.reorg_margin)) [
      | inl m ↦ let s = tip_exact tip e (ground arith) in (tip, e, ground arith, ground arith)
      | inr m ↦ ground arith
    ]
  ]

  of_tip :
      (tip : BlockMeta) (c : ℤ)
      → obs.sf_tip ≡ some tip
      → pos 0 <ℤ obs.reorg_margin
      → c ≡ tip.height -ℤ obs.reorg_margin
      → tip_bound F obs ≡ some c
  unfolding tip_bound
  of_tip tip c t m e = ground (arith, tip_exact tip t m)

  fork-of :
      (c : ℤ) → fork_bound F fork ≡ some c → (ref : BlockRef) × (fork ≡ some ref) × (c ≡ ref.height)
  unfolding fork_bound
  fork-of c h = elim (Option-cases fork) [
    | inl e ↦ ground arith
    | inr (ref, e) ↦ (ref, e, ground arith)
  ]

  of_fork : (ref : BlockRef) (c : ℤ) → fork ≡ some ref → c ≡ ref.height → fork_bound F fork ≡ some c
  unfolding fork_bound
  of_fork ref c f e = rw (f, e) refl

  to_bounds : (c : ℤ) → Candidate F obs fork c → Any (λ b. b ≡ some c) (bounds F obs fork)
  to_bounds c (below_divergence p e) = inr (inr (inr (inl (of_divergence c p e))))
  to_bounds c (below_rejected b l e) = inr (inr (inl (of_rejected b c l e)))
  to_bounds c (at_fork ref f e) = inr (inl (of_fork ref c f e))
  to_bounds c (below_tip tip t m e) = inl (of_tip tip c t m e)

  from_bounds : (c : ℤ) → Any (λ b. b ≡ some c) (bounds F obs fork) → Candidate F obs fork c
  from_bounds c (inl h) = let (tip, t, m, e) = tip-of c h in below_tip tip t m e
  from_bounds c (inr (inl h)) = let (ref, f, e) = fork-of c h in at_fork ref f e
  from_bounds c (inr (inr (inl h))) = let (b, l, e) = rejected-of c h in below_rejected b l e
  from_bounds c (inr (inr (inr (inl h)))) = let (p, e) = divergence-of c h in below_divergence p e
  from_bounds c (inr (inr (inr (inr h)))) = absurd h

Any-Ignored :
    (bs : List (Option ℤ)) (c : ℤ) → All Ignored bs → Any (λ b. b ≡ some c) bs → c <ℤ pos 0
Any-Ignored [] c h a = absurd a
Any-Ignored (b ∷ bs) c h (inl e) = rw e at h.0
Any-Ignored (b ∷ bs) c h (inr a) = Any-Ignored bs c h.1 a

Any-Bounded :
    (bs : List (Option ℤ)) (anchor c : ℤ)
    → All (λ b. Bounded b anchor) bs
    → Any (λ b. b ≡ some c) bs
    → pos 0 ≤ℤ c
    → anchor ≤ℤ c
Any-Bounded [] anchor c h a p = absurd a
Any-Bounded (b ∷ bs) anchor c h (inl e) p = elim (rw e at h.0) [
  | inl low ↦ absurd (omega arith)
  | inr le ↦ le
]
Any-Bounded (b ∷ bs) anchor c h (inr a) p = Any-Bounded bs anchor c h.1 a p

module _ (F : Float64) (obs : Observation F) (fork : Option BlockRef) (v : HasHeights F obs) where
  least_of :
      (result : Option ℤ) → Lowest (bounds F obs fork) result → IsLeastCandidate F obs fork result
  least_of none h = λ c k. Any-Ignored (bounds F obs fork) c h (to_bounds F obs fork v c k)
  least_of (some anchor) h = (
    from_bounds F obs fork v anchor h.1,
    h.0,
    λ c k p. Any-Bounded (bounds F obs fork) anchor c h.2 (to_bounds F obs fork v c k) p,
  )

  -- With int32 heights and lengths that are not negative, and an int32 divergence height and
  -- margin, TrustAnchorHeight returns the least candidate that is not negative, and nothing
  -- exactly if there is no such candidate; a candidate is one below a positive divergence height,
  -- one below the lowest block at which a rejected branch leaves (its height less its length, zero
  -- at least), the separation point, or the tip of the user's chain less a positive margin.
  pub trust_anchor_height-IsLeastCandidate :
      IsLeastCandidate F obs fork (trust_anchor_height F obs fork)
  trust_anchor_height-IsLeastCandidate =
      least_of (trust_anchor_height F obs fork) (trust_anchor_height-Lowest F obs fork)
