-- ===== src/Sentinel/Agreement.antt =====
-- When two tips count as being on one chain, and when a rejected branch counts as the other chain.
use forktower.Common.{
  ℕ, zero, suc, true, some, List, [], ◌∷◌, ◌≡◌, ◌⊎◌, ◌↔◌, ℤ, pos, pos_part, ◌≤ℤ◌, ◌<ℤ◌, sub32, Fits,
  half32, arith, Any, take,
}
use forktower.ChainView.Types.{Hash, BlockMeta}
use forktower.Sentinel.Decide.{contains_within, tips_agree}

-- The hash is one of the first `limit` entries.
abbrev pub Among : List Hash → Hash → ℕ → Type 0
Among hashes h limit = Any (λ x. x ≡ h) (take limit hashes)

contains_within_sound :
    (hashes : List Hash) (h : Hash) (limit : ℕ)
    → contains_within hashes h limit ≡ true
    → Among hashes h limit
unfolding contains_within
contains_within_sound [] h zero e = ground arith
contains_within_sound [] h (suc n) e = ground arith
contains_within_sound (x ∷ xs) h zero e = ground arith
contains_within_sound (x ∷ xs) h (suc n) e = ground (arith, contains_within_sound xs h n)

contains_within_complete :
    (hashes : List Hash) (h : Hash) (limit : ℕ)
    → Among hashes h limit
    → contains_within hashes h limit ≡ true
unfolding contains_within
contains_within_complete [] h zero e = elim e [ ]
contains_within_complete [] h (suc n) e = elim e [ ]
contains_within_complete (x ∷ xs) h zero e = elim e [ ]
contains_within_complete (x ∷ xs) h (suc n) e = ground (arith, contains_within_complete xs h n)

pub contains_within_iff :
    (hashes : List Hash) (h : Hash) (limit : ℕ)
    → (contains_within hashes h limit ≡ true) ↔ Among hashes h limit
contains_within_iff hashes h limit =
    (contains_within_sound hashes h limit, contains_within_complete hashes h limit)

-- A block height as a chain can have it: an int32 that is not negative.
abbrev pub IsHeight : ℤ → Type 0
IsHeight h = (pos 0 ≤ℤ h) × Fits half32 h

-- `b` is ahead of `a`, by at most `depth` blocks, and `a` is in the recent history of `b`.
abbrev pub Lags : BlockMeta → BlockMeta → ℤ → List Hash → Type 0
Lags a b depth b_ancestry =
    (a.height <ℤ b.height)
    × (sub32 b.height a.height ≤ℤ depth)
    × Among b_ancestry a.hash (suc (pos_part depth))

-- With a confirmation depth of at least one, two tips agree exactly if their hashes are equal or
-- one lags: it is lower by at most the depth and is among the newest hashes of the other, one more
-- than the depth of them.
pub tips_agree_iff :
    (a b : BlockMeta) (depth : ℤ) (xs ys : List Hash)
    → pos 1 ≤ℤ depth
    → (tips_agree (some a) (some b) depth xs ys ≡ true)
      ↔ ((a.hash ≡ b.hash) ⊎ (Lags a b depth ys ⊎ Lags b a depth xs))
unfolding tips_agree
tips_agree_iff a b depth xs ys h = (
  λ e. ground (
    arith,
    contains_within_sound ys a.hash (suc (pos_part depth)),
    contains_within_sound xs b.hash (suc (pos_part depth)),
  ),
  λ e. ground (
    arith,
    contains_within_complete ys a.hash (suc (pos_part depth)),
    contains_within_complete xs b.hash (suc (pos_part depth)),
  ),
)
