-- ===== src/Sentinel/AnchorBounds.antt =====
-- internal/sentinel/logic.go: the trust anchor against the bounds that TrustAnchorHeight considers.
use forktower.Common.{
  true, Option, none, some, List, [], ◌∷◌, ◌≡◌, refl, ◌⊎◌, inl, inr, ℤ, pos, negsuc, wrap, ◌-ℤ◌,
  ltb_ℤ, ◌≤ℤ◌, ◌<ℤ◌, sub32, Fits, half32, sub32_parts, Float64, arith, Any, All, Bool-cases, subst,
}
use mathlib.Core.List.{Memᴰ}
use forktower.ChainView.Types.{BlockRef, BlockMeta, ChainTip, rejected}
use forktower.Sentinel.State.{Observation}
use forktower.Sentinel.Rejected.{branch_base_range, earliest_rejected_height_found}
use forktower.Sentinel.Anchor.{
  branch_base, earliest_rejected_height, consider, consider_known, divergence_bound, rejected_bound,
  fork_bound, tip_bound, trust_anchor_height,
}

-- A bound is not below the anchor, unless it is unknown or negative.
abbrev pub Bounded : Option ℤ → ℤ → Type 0
Bounded none anchor = Unit
Bounded (some b) anchor = (b <ℤ pos 0) ⊎ (anchor ≤ℤ b)

abbrev pub Ignored : Option ℤ → Type 0
Ignored none = Unit
Ignored (some b) = b <ℤ pos 0

-- `result` is the least bound of the list that is known and not negative, if there is one.
abbrev pub Lowest : List (Option ℤ) → Option ℤ → Type 0
Lowest bounds none = All Ignored bounds
Lowest bounds (some anchor) =
    (pos 0 ≤ℤ anchor) × Any (λ b. b ≡ some anchor) bounds × All (λ b. Bounded b anchor) bounds

Ignored-Bounded :
    (bounds : List (Option ℤ)) (anchor : ℤ)
    → All Ignored bounds
    → All (λ b. Bounded b anchor) bounds
Ignored-Bounded [] anchor h = tt
Ignored-Bounded (none ∷ bs) anchor h = (tt, Ignored-Bounded bs anchor h.1)
Ignored-Bounded (some b ∷ bs) anchor h = (inl h.0, Ignored-Bounded bs anchor h.1)

Bounded-lower :
    (bounds : List (Option ℤ)) (anchor lower : ℤ)
    → lower ≤ℤ anchor
    → All (λ b. Bounded b anchor) bounds
    → All (λ b. Bounded b lower) bounds
Bounded-lower [] anchor lower l h = tt
Bounded-lower (none ∷ bs) anchor lower l h = (tt, Bounded-lower bs anchor lower l h.1)
Bounded-lower (some b ∷ bs) anchor lower l h =
    (omega (arith, h.0), Bounded-lower bs anchor lower l h.1)

Lowest-consider :
    (bounds : List (Option ℤ)) (best bound : Option ℤ)
    → Lowest bounds best
    → Lowest (bound ∷ bounds) (consider_known best bound)
unfolding consider_known
Lowest-consider bounds none none h = (tt, h)
Lowest-consider bounds (some b) none h = (h.0, inr h.1, (tt, h.2))
Lowest-consider bounds none (some c) h = elim (Bool-cases (ltb_ℤ c (pos 0))) [
  | inl low ↦ rw (low, consider) (ground arith, h)
  | inr high ↦
      rw (high, consider) (ground arith, inl refl, (inr (omega arith), Ignored-Bounded bounds c h))
]
Lowest-consider bounds (some b) (some c) h = elim (Bool-cases (ltb_ℤ c (pos 0))) [
  | inl low ↦ rw (low, consider) (h.0, inr h.1, (inl (ground arith), h.2))
  | inr high ↦ elim (Bool-cases (ltb_ℤ c b)) [
    | inl less ↦
        rw (high, less, consider)
          (ground arith, inl refl, (inr (omega arith), Bounded-lower bounds b c (ground arith) h.2))
    | inr more ↦ rw (high, more, consider) (h.0, inr h.1, (inr (ground arith), h.2))
  ]
]

minus_one : sub32 (pos 0) (pos 1) ≡ negsuc 0
unfolding sub32 wrap ◌-ℤ◌
minus_one = refl

module _ (F : Float64) where
  -- The bounds of TrustAnchorHeight, last considered first.
  abbrev pub bounds : Observation F → Option BlockRef → List (Option ℤ)
  bounds obs fork =
      tip_bound F obs ∷ fork_bound F fork ∷ rejected_bound F obs ∷ divergence_bound F obs ∷ []

  pub trust_anchor_height-Lowest :
      (obs : Observation F) (fork : Option BlockRef)
      → Lowest (bounds obs fork) (trust_anchor_height F obs fork)
  unfolding trust_anchor_height
  trust_anchor_height-Lowest obs fork =
      let d = divergence_bound F obs in
      let r = rejected_bound F obs in
      let f = fork_bound F fork in
      let b₁ = consider_known none d in
      let b₂ = consider_known b₁ r in
      let l₁ = Lowest-consider [] none d (tt {0}) in
      let l₂ = Lowest-consider (d ∷ []) b₁ r l₁ in
      let l₃ = Lowest-consider (r ∷ d ∷ []) b₂ f l₂ in
      Lowest-consider (f ∷ r ∷ d ∷ []) (consider_known b₂ f) (tip_bound F obs) l₃

  -- The anchor, where there is one, against its four bounds.
  anchor-Bounded :
      (obs : Observation F) (fork : Option BlockRef) (anchor : ℤ)
      → trust_anchor_height F obs fork ≡ some anchor
      → All (λ b. Bounded b anchor) (bounds obs fork)
  anchor-Bounded obs fork anchor h = (rw h at (trust_anchor_height-Lowest obs fork)).2

  -- The trust anchor is below the divergence height, where that is a positive int32.
  pub anchor-lt-divergence :
      (obs : Observation F) (fork : Option BlockRef) (anchor : ℤ)
      → pos 0 <ℤ obs.divergence_height
      → Fits half32 obs.divergence_height
      → trust_anchor_height F obs fork ≡ some anchor
      → anchor <ℤ obs.divergence_height
  unfolding divergence_bound
  anchor-lt-divergence obs fork anchor p fits h =
      ground (
        arith,
        (anchor-Bounded obs fork anchor h).1.1.1.0,
        sub32_parts obs.divergence_height (pos 1),
      )

  rejected_bound-some :
      (obs : Observation F) (low : ℤ)
      → earliest_rejected_height obs.sf_tips ≡ some low
      → rejected_bound F obs ≡ some (sub32 low (pos 1))
  unfolding rejected_bound
  rejected_bound-some obs low e = ground arith

  -- The trust anchor is below the base of every branch that the user's node rejected, if the
  -- lowest such base is positive.
  pub anchor-lt-rejected :
      (obs : Observation F) (fork : Option BlockRef) (anchor low : ℤ) (t : ChainTip)
      → Memᴰ t obs.sf_tips
      → rejected t ≡ true
      → earliest_rejected_height obs.sf_tips ≡ some low
      → pos 0 <ℤ low
      → trust_anchor_height F obs fork ≡ some anchor
      → anchor <ℤ branch_base t
  anchor-lt-rejected obs fork anchor low t m r e p h =
      let (low', e', nonneg, le) = earliest_rejected_height_found obs.sf_tips t m r in
      let same : low' ≡ low = cc in
      let b : Bounded (some (sub32 low (pos 1))) anchor =
        subst (λ x. Bounded x anchor) (rejected_bound-some obs low e)
          (anchor-Bounded obs fork anchor h).1.1.0 in
      ground (arith, sub32_parts low (pos 1), branch_base_range t)

  -- A rejected branch with its base at height zero does not bound the trust anchor: with no
  -- divergence height and no separation point known, the anchor is the tip less the reorganisation
  -- margin, for a positive margin not above the tip's height and both int32.
  pub rejected_at_zero_ignored :
      (obs : Observation F) (tip : BlockMeta)
      → earliest_rejected_height obs.sf_tips ≡ some (pos 0)
      → obs.divergence_height ≤ℤ pos 0
      → obs.sf_tip ≡ some tip
      → pos 0 <ℤ obs.reorg_margin
      → obs.reorg_margin ≤ℤ tip.height
      → Fits half32 tip.height
      → Fits half32 obs.reorg_margin
      → trust_anchor_height F obs none ≡ some (sub32 tip.height obs.reorg_margin)
  unfolding trust_anchor_height
  rejected_at_zero_ignored obs tip e d st m le f g =
      ground (arith, minus_one, sub32_parts tip.height obs.reorg_margin)
