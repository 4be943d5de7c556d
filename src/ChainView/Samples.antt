-- ===== src/ChainView/Samples.antt =====
-- Which heights a branch check samples.
use forktower.Common.{
  sub32, false, List, [], ◌∷◌, ◌≡◌, ◌⊎◌, inl, inr, All, All-map, if_either, any, ℤ, pos, ◌≤ℤ◌,
  ltb_ℤ, eqb_ℤ, arith, sym, subst,
}
use forktower.ChainView.Verify.{part_of, sample, branch_sample_heights}

-- A sampled height is in range, and fresh among the heights sampled before it.
abbrev Within : ℤ → ℤ → Type 0
Within anchor h = (pos 0 ≤ℤ h) × (h ≤ℤ anchor)

abbrev Sampled : ℤ → List ℤ → ℤ → Type 0
Sampled anchor seen h = Within anchor h × (any (eqb_ℤ h) seen ≡ false)

-- Every two of the heights differ.
abbrev pub Apart : List ℤ → Type 0
Apart [] = Unit
Apart (h ∷ hs) = All (λ k. eqb_ℤ k h ≡ false) hs × Apart hs

sample_next :
    (anchor : ℤ) (seen : List ℤ) (h : ℤ) (hs : List ℤ)
    → (sample anchor seen (h ∷ hs) ≡ sample anchor seen hs)
      ⊎ (Sampled anchor seen h × (sample anchor seen (h ∷ hs) ≡ h ∷ sample anchor (h ∷ seen) hs))
unfolding sample
sample_next anchor seen h hs = ground arith

fresh_before :
    (anchor h : ℤ) (seen : List ℤ) (k : ℤ) → Sampled anchor (h ∷ seen) k → Sampled anchor seen k
fresh_before anchor h seen k (w, f) = (w, ground arith)

fresh_head :
    (anchor h : ℤ) (seen : List ℤ) (k : ℤ) → Sampled anchor (h ∷ seen) k → eqb_ℤ k h ≡ false
fresh_head anchor h seen k (w, f) = ground arith

sample-Sampled :
    (anchor : ℤ) (seen candidates : List ℤ)
    → All (Sampled anchor seen) (sample anchor seen candidates)
      × Apart (sample anchor seen candidates)
unfolding sample
sample-Sampled anchor seen [] = (tt, tt)
sample-Sampled anchor seen (h ∷ hs) =
    let skipped_rest = sample-Sampled anchor seen hs in
    let (rest, apart) = sample-Sampled anchor (h ∷ seen) hs in
    elim (sample_next anchor seen h hs) [
      | inl e ↦ subst (λ l. All (Sampled anchor seen) l × Apart l) (sym e) skipped_rest
      | inr (new, e) ↦
          subst (λ l. All (Sampled anchor seen) l × Apart l) (sym e)
            (
              (new, All-map (fresh_before anchor h seen) (sample anchor (h ∷ seen) hs) rest),
              (All-map (fresh_head anchor h seen) (sample anchor (h ∷ seen) hs) rest, apart),
            )
    ]

-- The heights that a branch check samples lie between genesis and the anchor, and no height occurs
-- twice.
pub branch_sample_heights-Within :
    (anchor : ℤ)
    → All (λ h. (pos 0 ≤ℤ h) × (h ≤ℤ anchor)) (branch_sample_heights anchor)
      × Apart (branch_sample_heights anchor)
unfolding branch_sample_heights
branch_sample_heights-Within anchor =
    let candidates =
      anchor
      ∷ sub32 anchor (pos 1)
      ∷ part_of anchor 2
      ∷ part_of anchor 4
      ∷ part_of anchor 8
      ∷ pos 1000
      ∷ pos 1
      ∷ pos 0
      ∷ [] in
    let (sampled, apart) = sample-Sampled anchor [] candidates in
    if_either (λ l. All (λ h. (pos 0 ≤ℤ h) × (h ≤ℤ anchor)) l × Apart l) (ltb_ℤ anchor (pos 0))
      (λ h. (tt, tt)) (λ h. (All-map (λ h w. w.0) (sample anchor [] candidates) sampled, apart))
