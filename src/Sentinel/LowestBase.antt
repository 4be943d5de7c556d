-- ===== src/Sentinel/LowestBase.antt =====
-- internal/sentinel/logic.go: the loop of earliestRejectedHeight and the lowest base of a rejected branch.
use forktower.Common.{
  true, Option, none, some, List, [], ◌∷◌, ◌≡◌, refl, ◌⊎◌, inl, inr, sym, ◌∙◌, ap, ℤ, pos, ◌-ℤ◌,
  -ℤ_parts, eq_of_parts, ltb_ℤ, ◌≤ℤ◌, sub32, sub32_parts, arith, All, Bool-cases, subst,
}
use mathlib.Core.List.{Memᴰ}
use forktower.ChainView.Types.{ChainTip, rejected}
use forktower.Sentinel.Rejected.{branch_base_range, earliest_rejected_height_found}
use forktower.Sentinel.Anchor.{branch_base, lower_to, earliest_from, earliest_rejected_height}
use forktower.Sentinel.Candidates.{Base, left_at, cut_off, LowestBase, InRange, BranchInRange}

pub sub32-exact : (a b : ℤ) → InRange a → InRange b → sub32 a b ≡ a -ℤ b
sub32-exact a b p q =
    eq_of_parts (sub32 a b) (a -ℤ b) (omega (arith, sub32_parts a b p.0 q.0 p.1 q.1, -ℤ_parts a b))

branch_base-Base : (t : ChainTip) → InRange t.height → InRange t.branch_len → Base t (branch_base t)
unfolding branch_base
branch_base-Base t p q = elim (Bool-cases (ltb_ℤ (sub32 t.height t.branch_len) (pos 0))) [
  | inl e ↦ rw e (cut_off (ground (arith, sub32_parts t.height t.branch_len p.0 q.0 p.1 q.1)) refl)
  | inr e ↦ rw e (
      left_at (ground (arith, sub32_parts t.height t.branch_len p.0 q.0 p.1 q.1))
        (sub32-exact t.height t.branch_len p q))
]

Base-unique : (t : ChainTip) (b c : ℤ) → Base t b → Base t c → b ≡ c
Base-unique t b c (left_at l e) (left_at m f) = e ∙ sym f
Base-unique t b c (left_at l e) (cut_off m f) = absurd (omega arith)
Base-unique t b c (cut_off l e) (left_at m f) = absurd (omega arith)
Base-unique t b c (cut_off l e) (cut_off m f) = e ∙ sym f

-- Where the loop of earliestRejectedHeight has its result from.
record Attains (tips : List ChainTip) (h : ℤ) : Type 0 where
  tip : ChainTip
  listed : Memᴰ tip tips
  refused : rejected tip ≡ true
  at_base : branch_base tip ≡ h

lower_to-from :
    (low : Option ℤ) (t : ChainTip)
    → (lower_to low t ≡ low) ⊎ (rejected t ≡ true) × (lower_to low t ≡ some (branch_base t))
unfolding lower_to
lower_to-from none t = ground arith
lower_to-from (some low) t = ground arith

earliest_from-attained :
    (low : Option ℤ) (tips : List ChainTip) (h : ℤ)
    → earliest_from low tips ≡ some h
    → (low ≡ some h) ⊎ Attains tips h
unfolding earliest_from
earliest_from-attained low [] h e = inl e
earliest_from-attained low (t ∷ tips) h e =
    elim (earliest_from-attained (lower_to low t) tips h e) [
      | inl f ↦ elim (lower_to-from low t) [
        | inl k ↦ inl (sym k ∙ f)
        | inr (r, k) ↦ inr (record { tip = t; listed = Memᴰ.head refl; refused = r; at_base = cc })
      ]
      | inr a ↦ inr (record {
        tip = a.tip;
        listed = Memᴰ.tail a.listed;
        refused = a.refused;
        at_base = a.at_base;
      })
    ]

earliest-attained :
    (tips : List ChainTip) (h : ℤ) → earliest_rejected_height tips ≡ some h → Attains tips h
unfolding earliest_rejected_height
earliest-attained tips h e = elim (earliest_from-attained none tips h e) [
  | inl f ↦ absurd (cc)
  | inr a ↦ a
]

All-at :
    (tips : List ChainTip) (t : ChainTip) → All BranchInRange tips → Memᴰ t tips → BranchInRange t
All-at [] t h m = elim m [ ]
All-at (x ∷ tips) t h (Memᴰ.head e) = subst BranchInRange (sym e) h.0
All-at (x ∷ tips) t h (Memᴰ.tail m) = All-at tips t h.1 m

module _ (tips : List ChainTip) (ranges : All BranchInRange tips) where
  listed-Base : (t : ChainTip) → Memᴰ t tips → Base t (branch_base t)
  listed-Base t m = let (p, q) = All-at tips t ranges m in branch_base-Base t p q

  pub earliest-LowestBase : (h : ℤ) → earliest_rejected_height tips ≡ some h → LowestBase tips h
  earliest-LowestBase h e =
      let a = earliest-attained tips h e in
      record {
        tip = a.tip;
        listed = a.listed;
        refused = a.refused;
        base = subst (Base a.tip) a.at_base (listed-Base a.tip a.listed);
        least = λ t c m r k.
            let (h', e', nonneg, le) = earliest_rejected_height_found tips t m r in
            let same : h' ≡ h = cc in
            let based : branch_base t ≡ c = Base-unique t (branch_base t) c (listed-Base t m) k in
            subst (λ x. h ≤ℤ x) based (subst (λ x. x ≤ℤ branch_base t) same le);
      }

  pub LowestBase-earliest : (b : ℤ) → LowestBase tips b → earliest_rejected_height tips ≡ some b
  LowestBase-earliest b l =
      let (h, e, nonneg, le) = earliest_rejected_height_found tips l.tip l.listed l.refused in
      let k = earliest-LowestBase h e in
      let up = k.least l.tip b l.listed l.refused l.base in
      let down = l.least k.tip h k.listed k.refused k.base in
      e ∙ ap (λ (x : ℤ). some x) (eq_of_parts h b (omega arith))

  pub LowestBase-InRange : (b : ℤ) → LowestBase tips b → InRange b
  LowestBase-InRange b l =
      let e = Base-unique l.tip b (branch_base l.tip) l.base (listed-Base l.tip l.listed) in
      subst (λ x. InRange x) (sym e) (branch_base_range l.tip)
