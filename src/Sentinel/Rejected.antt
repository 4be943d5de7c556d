-- ===== src/Sentinel/Rejected.antt =====
-- The loop of earliestRejectedHeight finds a height not above the base of any rejected branch.
use forktower.Common.{
  true, Option, none, some, List, [], ◌∷◌, ◌≡◌, refl, inl, inr, sym, subst, ℤ, pos, ltb_ℤ, ◌≤ℤ◌,
  Fits, half32, sub32-Fits, arith, Bool-cases,
}
use mathlib.Core.List.{Memᴰ}
use forktower.ChainView.Types.{ChainTip, rejected}
use forktower.Sentinel.Anchor.{branch_base, lower_to, earliest_from, earliest_rejected_height}

pub branch_base_range : (t : ChainTip) → (pos 0 ≤ℤ branch_base t) × Fits half32 (branch_base t)
unfolding branch_base
branch_base_range t = ground (arith, sub32-Fits t.height t.branch_len)

-- A round of the loop keeps a lowest height that is no greater, and no greater than the tip's base.
lower_to-le : (low : ℤ) (t : ChainTip) → (m : ℤ) × (lower_to (some low) t ≡ some m) × (m ≤ℤ low)
unfolding lower_to
lower_to-le low t = elim (Bool-cases (rejected t)) [
  | inl r ↦ elim (Bool-cases (ltb_ℤ (branch_base t) low)) [
    | inl l ↦ (branch_base t, rw (r, l), ground arith)
    | inr l ↦ (low, rw (r, l), omega arith)
  ]
  | inr r ↦ (low, rw r, omega arith)
]

lower_to-le-base :
    (low : Option ℤ) (t : ChainTip)
    → rejected t ≡ true
    → (m : ℤ) × (lower_to low t ≡ some m) × (m ≤ℤ branch_base t)
unfolding lower_to
lower_to-le-base none t r = (branch_base t, rw r, omega arith)
lower_to-le-base (some low) t r = elim (Bool-cases (ltb_ℤ (branch_base t) low)) [
  | inl l ↦ (branch_base t, rw (r, l), omega arith)
  | inr l ↦ (low, rw (r, l), ground arith)
]

abbrev IsNonneg : Option ℤ → Type 0
IsNonneg none = Unit
IsNonneg (some h) = pos 0 ≤ℤ h

lower_to-IsNonneg : (low : Option ℤ) (t : ChainTip) → IsNonneg low → IsNonneg (lower_to low t)
unfolding lower_to
lower_to-IsNonneg none t p = ground (arith, branch_base_range t)
lower_to-IsNonneg (some low) t p = ground (arith, branch_base_range t)

earliest_from-cons :
    (low : Option ℤ) (t : ChainTip) (tips : List ChainTip)
    → earliest_from low (t ∷ tips) ≡ earliest_from (lower_to low t) tips
unfolding earliest_from
earliest_from-cons low t tips = refl

earliest_from-nil : (low : Option ℤ) → earliest_from low [] ≡ low
unfolding earliest_from
earliest_from-nil low = refl

earliest_from-IsNonneg :
    (low : Option ℤ) (tips : List ChainTip) → IsNonneg low → IsNonneg (earliest_from low tips)
unfolding earliest_from
earliest_from-IsNonneg low [] p = p
earliest_from-IsNonneg low (t ∷ tips) p =
    earliest_from-IsNonneg (lower_to low t) tips (lower_to-IsNonneg low t p)

earliest_from-le :
    (low h : ℤ) (tips : List ChainTip) → earliest_from (some low) tips ≡ some h → h ≤ℤ low
unfolding earliest_from
earliest_from-le low h [] e = ground arith
earliest_from-le low h (t ∷ tips) e =
    let (m, lowered, le) = lower_to-le low t in
    omega (arith, earliest_from-le m h tips (rw lowered at e))

earliest_from-le-head :
    (low : Option ℤ) (h : ℤ) (t : ChainTip) (tips : List ChainTip)
    → earliest_from low (t ∷ tips) ≡ some h
    → rejected t ≡ true
    → h ≤ℤ branch_base t
earliest_from-le-head low h t tips e r =
    let (m, lowered, le) = lower_to-le-base low t r in
    omega (arith, earliest_from-le m h tips (rw (earliest_from-cons low t tips, lowered) at e))

-- The result of the loop is not above the base of any rejected tip.
pub earliest_from-le-base :
    (low : Option ℤ) (h : ℤ) (tips : List ChainTip) (t : ChainTip)
    → earliest_from low tips ≡ some h
    → Memᴰ t tips
    → rejected t ≡ true
    → h ≤ℤ branch_base t
earliest_from-le-base low h [] t e m r = elim m [ ]
earliest_from-le-base low h (x ∷ tips) t e (Memᴰ.head q) r =
    subst (λ y. h ≤ℤ branch_base y) (sym q) (earliest_from-le-head low h x tips e (rw q at r))
earliest_from-le-base low h (x ∷ tips) t e (Memᴰ.tail m) r =
    earliest_from-le-base (lower_to low x) h tips t (rw (earliest_from-cons low x tips) at e) m r

earliest_from-some :
    (low : ℤ) (tips : List ChainTip) → (h : ℤ) × (earliest_from (some low) tips ≡ some h)
earliest_from-some low [] = (low, earliest_from-nil (some low))
earliest_from-some low (t ∷ tips) =
    let (m, lowered, _) = lower_to-le low t in
    let (h, e) = earliest_from-some m tips in
    (h, rw (earliest_from-cons (some low) t tips, lowered) e)

earliest_from-found :
    (low : Option ℤ) (tips : List ChainTip) (t : ChainTip)
    → Memᴰ t tips
    → rejected t ≡ true
    → (h : ℤ) × (earliest_from low tips ≡ some h)
earliest_from-found low [] t m r = elim m [ ]
earliest_from-found low (x ∷ tips) t (Memᴰ.head q) r =
    let (m, lowered, _) = lower_to-le-base low x (rw q at r) in
    let (h, e) = earliest_from-some m tips in (h, rw (earliest_from-cons low x tips, lowered) e)
earliest_from-found low (x ∷ tips) t (Memᴰ.tail m) r =
    let (h, e) = earliest_from-found (lower_to low x) tips t m r in
    (h, rw (earliest_from-cons low x tips) e)

-- A rejected tip makes the search end with a height, not above that tip's base.
pub earliest_rejected_height_found :
    (tips : List ChainTip) (t : ChainTip)
    → Memᴰ t tips
    → rejected t ≡ true
    → (h : ℤ) × (earliest_rejected_height tips ≡ some h) × (pos 0 ≤ℤ h) × (h ≤ℤ branch_base t)
unfolding earliest_rejected_height
earliest_rejected_height_found tips t m r =
    let (h, e) = earliest_from-found none tips t m r in
    (h, e, rw e at (earliest_from-IsNonneg none tips tt), earliest_from-le-base none h tips t e m r)
