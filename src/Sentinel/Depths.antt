-- ===== src/Sentinel/Depths.antt =====
-- How far the two chains have built, and what the user's node refused, apart from the code.
use forktower.Common.{
  ◌+◌, ◌≤◌, true, Option, none, some, List, [], ◌∷◌, ◌≡◌, ◌⊎◌, inl, inr, ◌↔◌, ℤ, pos, pos_part,
  ◌≤ℤ◌, sub32_parts, arith, Any, Bool-cases,
}
use forktower.ChainView.Types.{Hash, BlockRef, BlockMeta, ChainTip, rejected}
use forktower.Sentinel.Track.{diverged_depth, tip_height}
use forktower.Sentinel.Decide.{at_least_one, invalid_tip_matches_sq, any_tip_matches, both_past_on}
use forktower.Sentinel.Agreement.{Among, contains_within_iff, IsHeight}

-- The tip stands at least `depth` blocks above the separation point.
abbrev pub Above : ℤ → ℤ → ℤ → Type 0
Above fork depth tip = pos_part fork + pos_part depth ≤ pos_part tip

pub diverged_depth_iff :
    (tip fork depth : ℤ)
    → IsHeight tip
    → IsHeight fork
    → pos 1 ≤ℤ depth
    → (depth ≤ℤ diverged_depth tip fork) ↔ Above fork depth tip
unfolding diverged_depth
diverged_depth_iff tip fork depth t f d =
    (λ h. ground (arith, sub32_parts tip fork), λ h. ground (arith, sub32_parts tip fork))

-- The user's own node refused a branch that is the other chain, or leads to it.
abbrev pub Refuses : List Hash → Hash → ChainTip → Type 0
Refuses sq_ancestry sq_tip tip =
    (rejected tip ≡ true)
    × ((tip.hash ≡ sq_tip) ⊎ Among sq_ancestry tip.hash (pos_part (at_least_one tip.branch_len)))

pub invalid_tip_matches_sq_iff :
    (sq_ancestry : List Hash) (sq_tip : Hash) (tip : ChainTip)
    → (invalid_tip_matches_sq sq_ancestry sq_tip tip ≡ true) ↔ Refuses sq_ancestry sq_tip tip
unfolding invalid_tip_matches_sq
invalid_tip_matches_sq_iff sq_ancestry sq_tip tip =
    let k = contains_within_iff sq_ancestry tip.hash (pos_part (at_least_one tip.branch_len)) in
    (λ h. ground (arith, k.0), λ h. ground (arith, k.1))

pub any_tip_matches_iff :
    (sq_ancestry : List Hash) (sq_tip : Hash) (tips : List ChainTip)
    → (any_tip_matches sq_ancestry sq_tip tips ≡ true) ↔ Any (Refuses sq_ancestry sq_tip) tips
unfolding any_tip_matches
any_tip_matches_iff sq_ancestry sq_tip [] = (λ h. cc, λ h. absurd h)
any_tip_matches_iff sq_ancestry sq_tip (t ∷ tips) =
    let k = invalid_tip_matches_sq_iff sq_ancestry sq_tip t in
    let r = any_tip_matches_iff sq_ancestry sq_tip tips in
    (
      λ h. elim (Bool-cases (invalid_tip_matches_sq sq_ancestry sq_tip t)) [
        | inl a ↦ inl (k.0 a)
        | inr b ↦ inr (r.0 (rw b at h))
      ],
      λ h. elim h [ inl a ↦ rw (k.1 a) | inr b ↦ ground (arith, r.1 b) ],
    )

abbrev pub IsTip : Option BlockMeta → Type 0
IsTip none = Unit
IsTip (some tip) = IsHeight tip.height

abbrev pub IsRef : Option BlockRef → Type 0
IsRef none = Unit
IsRef (some ref) = IsHeight ref.height

-- Both chains have built at least `depth` blocks past the separation found.
abbrev pub BothPast : Option BlockRef → Option BlockMeta → Option BlockMeta → ℤ → Type 0
BothPast none sf_tip sq_tip depth = ⊥
BothPast (some fork) none sq_tip depth = ⊥
BothPast (some fork) (some sf_tip) none depth = ⊥
BothPast (some fork) (some sf_tip) (some sq_tip) depth =
    Above fork.height depth sf_tip.height × Above fork.height depth sq_tip.height

pub both_past_on_iff :
    (fork : Option BlockRef) (sf_tip sq_tip : Option BlockMeta) (depth : ℤ)
    → IsRef fork
    → IsTip sf_tip
    → IsTip sq_tip
    → pos 1 ≤ℤ depth
    → (both_past_on fork sf_tip sq_tip depth ≡ true) ↔ BothPast fork sf_tip sq_tip depth
unfolding both_past_on
both_past_on_iff none a b d f x y h = (λ e. cc, λ e. absurd e)
both_past_on_iff (some fork) none b d f x y h = (λ e. cc, λ e. absurd e)
both_past_on_iff (some fork) (some a) none d f x y h = (λ e. cc, λ e. absurd e)
both_past_on_iff (some fork) (some a) (some b) d f x y h =
    let k = diverged_depth_iff a.height fork.height d x f h in
    let l = diverged_depth_iff b.height fork.height d y f h in
    (λ e. ground (arith, k.0, l.0), λ e. ground (arith, k.1 e.0, l.1 e.1))

-- One of the two chains has built at least `depth` blocks past the candidate.
abbrev pub OnePast : Option BlockRef → ℤ → ℤ → ℤ → Type 0
OnePast none sf_height sq_height depth = ⊥
OnePast (some candidate) sf_height sq_height depth =
    Above candidate.height depth sf_height ⊎ Above candidate.height depth sq_height

pub at_least_one_le : (d : ℤ) → pos 1 ≤ℤ at_least_one d
unfolding at_least_one
at_least_one_le d = ground arith

pub tip_height-IsHeight : (tip : Option BlockMeta) → IsTip tip → IsHeight (tip_height tip)
unfolding tip_height
tip_height-IsHeight none h = omega arith
tip_height-IsHeight (some tip) h = h
