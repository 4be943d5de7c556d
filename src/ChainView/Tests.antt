-- ===== src/ChainView/Tests.antt =====
-- The branch check on two chains that part above height 1.
use forktower.Common.{
  none, some, ◌≡◌, refl, ◌⊎◌, pos, eqb_ℤ, if◌then◌else◌, All, add32, sub32, wrap, ◌-ℤ◌, ◌+ℤ◌,
}
use forktower.ChainView.Types.{BlockRef}
use forktower.ChainView.Verify.{
  hash, not_found, View, passed, branch_sample_heights, verify_branch, sample, part_of,
  shared_history, verify_shared_history, compare_answers, after_shared, verify_divergence, diverges,
}
use forktower.ChainView.Branches.{SameBlock, Unread, Separated, verify_branch-Separated}

abbrev user_view : View
user_view h =
    if eqb_ℤ h (pos 0)
    then hash 50
    else if eqb_ℤ h (pos 1)
    then hash 51
    else if eqb_ℤ h (pos 2)
    then hash 60
    else not_found

abbrev other_view : View
other_view h =
    if eqb_ℤ h (pos 0)
    then hash 50
    else if eqb_ℤ h (pos 1)
    then hash 51
    else if eqb_ℤ h (pos 2)
    then hash 70
    else not_found

abbrev parted : BlockRef
parted = record { hash = 51; height = pos 1 }

passes_parted : verify_branch user_view other_view (pos 1) (some parted) ≡ passed
unfolding verify_branch verify_shared_history shared_history branch_sample_heights sample part_of
    compare_answers after_shared verify_divergence diverges add32 sub32 wrap ◌-ℤ◌ ◌+ℤ◌
passes_parted = refl

passes_shared : verify_branch user_view other_view (pos 1) none ≡ passed
unfolding verify_branch verify_shared_history shared_history branch_sample_heights sample part_of
    compare_answers after_shared sub32 wrap ◌-ℤ◌
passes_shared = refl

verify_branch-Separated_example :
    All
      (λ h. SameBlock user_view other_view h ⊎ Unread user_view other_view h)
      (branch_sample_heights (pos 1))
    × Separated user_view other_view (add32 parted.height (pos 1))
verify_branch-Separated_example =
    verify_branch-Separated user_view other_view (pos 1) parted passes_parted
