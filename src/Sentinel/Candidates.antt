-- ===== src/Sentinel/Candidates.antt =====
-- internal/sentinel/logic.go: which heights TrustAnchorHeight chooses among, in plain integers.
use forktower.Common.{
  true, Option, none, some, List, ◌≡◌, ℤ, pos, ◌-ℤ◌, ◌≤ℤ◌, ◌<ℤ◌, Fits, half32, Float64, All,
}
use mathlib.Core.List.{Memᴰ}
use forktower.ChainView.Types.{BlockRef, BlockMeta, ChainTip, rejected}
use forktower.Sentinel.State.{Observation}

-- The block that a branch leaves, by the length of the branch: block zero where it is longer than
-- its tip is high.
pub data Base (t : ChainTip) (b : ℤ) : Type 0 where
  left_at : t.branch_len ≤ℤ t.height → b ≡ t.height -ℤ t.branch_len → Base t b
  cut_off : t.height <ℤ t.branch_len → b ≡ pos 0 → Base t b

-- The lowest base among the branches that the node rejected.
pub record LowestBase (tips : List ChainTip) (b : ℤ) : Type 0 where
  pub tip : ChainTip
  pub listed : Memᴰ tip tips
  pub refused : rejected tip ≡ true
  pub base : Base tip b
  pub least : (t : ChainTip) (c : ℤ) → Memᴰ t tips → rejected t ≡ true → Base t c → b ≤ℤ c

abbrev pub InRange : ℤ → Type 0
InRange h = (pos 0 ≤ℤ h) × Fits half32 h

abbrev pub TipInRange : Option BlockMeta → Type 0
TipInRange none = Unit
TipInRange (some tip) = InRange tip.height

abbrev pub BranchInRange : ChainTip → Type 0
BranchInRange t = InRange t.height × InRange t.branch_len

-- The int32 values that a node reports: heights and lengths that are not negative.
pub record HasHeights (F : Float64) (obs : Observation F) : Type 0 where
  pub divergence : Fits half32 obs.divergence_height
  pub margin : Fits half32 obs.reorg_margin
  pub tip : TipInRange obs.sf_tip
  pub tips : All BranchInRange obs.sf_tips

-- A height that bounds the history both chains share: one below the height at which the rules
-- diverge, one below the lowest base of a rejected branch, the separation point, or the tip of the
-- user's chain less the margin for reorganisations.
pub data Candidate (F : Float64) (obs : Observation F) (fork : Option BlockRef) (c : ℤ)
    : Type 0 where
  below_divergence :
      pos 0 <ℤ obs.divergence_height → c ≡ obs.divergence_height -ℤ pos 1 → Candidate F obs fork c
  below_rejected : (b : ℤ) → LowestBase obs.sf_tips b → c ≡ b -ℤ pos 1 → Candidate F obs fork c
  at_fork : (ref : BlockRef) → fork ≡ some ref → c ≡ ref.height → Candidate F obs fork c
  below_tip :
      (tip : BlockMeta)
      → obs.sf_tip ≡ some tip
      → pos 0 <ℤ obs.reorg_margin
      → c ≡ tip.height -ℤ obs.reorg_margin
      → Candidate F obs fork c

-- The least of the candidates that are not negative, and none exactly if there is no such one.
abbrev pub IsLeastCandidate : (F : Float64) → Observation F → Option BlockRef → Option ℤ → Type 0
IsLeastCandidate F obs fork none = (c : ℤ) → Candidate F obs fork c → c <ℤ pos 0
IsLeastCandidate F obs fork (some anchor) =
    Candidate F obs fork anchor
    × (pos 0 ≤ℤ anchor)
    × ((c : ℤ) → Candidate F obs fork c → pos 0 ≤ℤ c → anchor ≤ℤ c)
