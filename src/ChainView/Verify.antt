-- ===== src/ChainView/Verify.antt =====
-- internal/chainview/verify.go: that the views are on the network and the branch they should be on.
-- A view's BlockHashByHeight is a parameter; the text of an error is left out, its kind is kept.
use forktower.Common.{
  ℕ, suc, ◌/◌, not, ◌||◌, ◌==◌, Option, none, some, List, [], ◌∷◌, ℤ, pos, negsuc, ltb_ℤ, eqb_ℤ,
  add32, sub32, any, if◌then◌else◌,
}
use forktower.ChainView.Types.{Hash, BlockRef}

-- What a view answers: ErrNotFound, or another error, apart from a hash.
pub data Answer : Type 0 where
  hash : Hash → Answer
  not_found : Answer
  broken : ℕ → Answer

abbrev pub View : Type 0
View = ℤ → Answer

pub data Verdict : Type 0 where
  passed wrong_network wrong_branch cannot_verify_branch : Verdict
  unreadable : ℕ → Verdict
  missing : Verdict

-- VerifyNetwork, given the genesis hash of the network wanted.
unfoldable pub verify_network : View → Hash → Verdict
verify_network v genesis = elim (v (pos 0)) [
  | hash h ↦ if h == genesis then passed else wrong_network
  | not_found ↦ missing
  | broken e ↦ unreadable e
]

-- int32 division of a height by a constant, towards zero.
unfoldable pub part_of : ℤ → ℕ → ℤ
part_of (pos n) d = pos (n / d)
part_of (negsuc n) d = pos 0

-- One round of the loop of branchSampleHeights: `seen` and `out` hold the same heights.
unfoldable pub sample : ℤ → List ℤ → List ℤ → List ℤ
sample anchor seen [] = []
sample anchor seen (h ∷ candidates) =
    if ltb_ℤ h (pos 0) || ltb_ℤ anchor h || any (eqb_ℤ h) seen
    then sample anchor seen candidates
    else h ∷ sample anchor (h ∷ seen) candidates

-- branchSampleHeights
unfoldable pub branch_sample_heights : ℤ → List ℤ
branch_sample_heights anchor =
    if ltb_ℤ anchor (pos 0)
    then []
    else sample anchor [] (
        anchor
        ∷ sub32 anchor (pos 1)
        ∷ part_of anchor 2
        ∷ part_of anchor 4
        ∷ part_of anchor 8
        ∷ pos 1000
        ∷ pos 1
        ∷ pos 0
        ∷ [])

-- What the comparison at one height says: a height above genesis counts.
pub data Compared : Type 0 where
  skipped agreed counted : Compared
  stopped : Verdict → Compared

unfoldable pub compare_answers : ℤ → Answer → Answer → Compared
compare_answers h not_found sq_answer = skipped
compare_answers h (broken e) sq_answer = stopped (unreadable e)
compare_answers h (hash a) not_found = skipped
compare_answers h (hash a) (broken e) = stopped (unreadable e)
compare_answers h (hash a) (hash b) =
    if not (a == b) then stopped wrong_branch else if ltb_ℤ (pos 0) h then counted else agreed

-- The loop of verifySharedHistory: how many heights were compared, and the error that ended it.
unfoldable pub shared_history : View → View → ℕ → List ℤ → ℕ × Verdict
shared_history sf sq compared [] = (compared, passed)
shared_history sf sq compared (h ∷ hs) = elim (compare_answers h (sf h) (sq h)) [
  | skipped ↦ shared_history sf sq compared hs
  | agreed ↦ shared_history sf sq compared hs
  | counted ↦ shared_history sf sq (suc compared) hs
  | stopped e ↦ (compared, e)
]

-- verifySharedHistory
unfoldable pub verify_shared_history : View → View → ℤ → ℕ × Verdict
unfolding shared_history branch_sample_heights
verify_shared_history sf sq anchor = shared_history sf sq 0 (branch_sample_heights anchor)

-- verifyDivergence, by the two answers one above the separation point.
unfoldable pub diverges : Answer → Answer → Verdict
diverges not_found sq_answer = cannot_verify_branch
diverges (hash a) not_found = cannot_verify_branch
diverges (broken e) not_found = cannot_verify_branch
diverges (broken e) (hash b) = unreadable e
diverges (broken e) (broken f) = unreadable e
diverges (hash a) (broken f) = unreadable f
diverges (hash a) (hash b) = if a == b then wrong_branch else passed

unfoldable pub verify_divergence : View → View → BlockRef → Verdict
unfolding diverges
verify_divergence sf sq fork =
    let check = add32 fork.height (pos 1) in diverges (sf check) (sq check)

unfoldable pub after_shared : View → View → Option BlockRef → ℕ × Verdict → Verdict
after_shared sf sq fork (compared, wrong_network) = wrong_network
after_shared sf sq fork (compared, wrong_branch) = wrong_branch
after_shared sf sq fork (compared, cannot_verify_branch) = cannot_verify_branch
after_shared sf sq fork (compared, unreadable e) = unreadable e
after_shared sf sq fork (compared, missing) = missing
after_shared sf sq (some fork) (compared, passed) = verify_divergence sf sq fork
after_shared sf sq none (compared, passed) = if compared == 0 then cannot_verify_branch else passed

-- VerifyBranch
unfoldable pub verify_branch : View → View → ℤ → Option BlockRef → Verdict
unfolding after_shared
verify_branch sf sq anchor fork = after_shared sf sq fork (verify_shared_history sf sq anchor)
