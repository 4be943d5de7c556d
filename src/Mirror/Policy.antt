-- ===== src/Mirror/Policy.antt =====
-- internal/responder/mirror/policy.go: the allowlist as a decision.
use forktower.Common.{Bool, true, false, not, ◌||◌, ite, if◌then◌else◌}
use forktower.ChainView.Types.{Branch, sf, sq, other, Branch-discrete, valid_branch}
use forktower.Store.Types.{
  SpendShape, mutual_close, commitment_ours, commitment_unknown, commitment_revoked, justice,
  delayed_sweep, htlc_claim, unknown_shape, unset, SpendShape-discrete,
}

pub data Rule : Type 0 where
  coop_close own_commitment own_sweep justice_we_sent funding_opt_in : Rule
  deny_default deny_their_commitment deny_unknown_shape deny_unknown_channel : Rule
  deny_funding_not_opted_in deny_not_ours_to_send deny_direction deny_same_branch : Rule

-- The sentence that a user reads, one constructor to each text of the source.
pub data Reason : Type 0 where
  to_itself : Branch → Reason
  no_two_chains not_your_channel funding_needs_opt_in funding_opted_in no_rule : Reason
  agreed_close closed_yourself collects_yours collects_theirs punished_by_you : Reason
  punished_by_them closed_by_them cannot_tell not_copied agreed_elsewhere only_agreed : Reason

pub record Inputs : Type 0 where
  pub shape : SpendShape
  pub from : Branch
  pub to : Branch
  pub channel_known : Bool
  pub source_shape : SpendShape
  pub is_funding_tx : Bool
  pub funding_opt_in : Bool

pub record Verdict : Type 0 where
  pub mirror : Bool
  pub rule : Rule
  pub reason : Reason

unfoldable pub allow : Rule → Reason → Verdict
allow rule reason = record { mirror = true; rule = rule; reason = reason }

unfoldable pub deny : Rule → Reason → Verdict
deny rule reason = record { mirror = false; rule = rule; reason = reason }

-- decideFunding
unfoldable pub decide_funding : Inputs → Verdict
unfolding allow deny
decide_funding in' =
    if not in'.funding_opt_in
    then deny deny_funding_not_opted_in funding_needs_opt_in
    else allow funding_opt_in funding_opted_in

abbrev is_ours : SpendShape → Bool
is_ours s = ite (SpendShape-discrete s commitment_ours) true false

abbrev is_theirs : SpendShape → Bool
is_theirs s =
    ite (SpendShape-discrete s commitment_unknown) true
      (ite (SpendShape-discrete s commitment_revoked) true false)

unfoldable pub decide_sweep : SpendShape → Verdict
unfolding allow deny
decide_sweep source =
    if is_ours source
    then allow own_sweep collects_yours
    else deny deny_not_ours_to_send collects_theirs

unfoldable pub decide_justice : SpendShape → Verdict
unfolding allow deny
decide_justice source =
    if is_theirs source
    then allow justice_we_sent punished_by_you
    else deny deny_not_ours_to_send punished_by_them

-- towardsTheOtherChain, by the two shapes
unfoldable pub towards_by_shape : SpendShape → SpendShape → Verdict
unfolding decide_sweep decide_justice allow deny
towards_by_shape mutual_close source = allow coop_close agreed_close
towards_by_shape commitment_ours source = allow own_commitment closed_yourself
towards_by_shape delayed_sweep source = decide_sweep source
towards_by_shape htlc_claim source = decide_sweep source
towards_by_shape justice source = decide_justice source
towards_by_shape commitment_unknown source = deny deny_their_commitment closed_by_them
towards_by_shape commitment_revoked source = deny deny_their_commitment closed_by_them
towards_by_shape unknown_shape source = deny deny_unknown_shape cannot_tell
towards_by_shape unset source = deny deny_default not_copied
towards_by_shape (SpendShape.other _) source = deny deny_default not_copied

abbrev pub towards_the_other_chain : Inputs → Verdict
towards_the_other_chain in' = towards_by_shape in'.shape in'.source_shape

-- towardsYourOwnChain
unfoldable pub towards_your_own_chain : Inputs → Verdict
unfolding allow deny
towards_your_own_chain in' =
    ite (SpendShape-discrete in'.shape mutual_close) (allow coop_close agreed_elsewhere)
      (deny deny_default only_agreed)

-- The switch of Decide on the destination.
unfoldable pub decide_direction : Branch → Inputs → Verdict
unfolding towards_your_own_chain deny
decide_direction sq in' = towards_the_other_chain in'
decide_direction sf in' = towards_your_own_chain in'
decide_direction (other _) in' = deny deny_direction no_rule

-- Decide
unfoldable pub decide : Inputs → Verdict
unfolding decide_funding deny
decide in' = ite (Branch-discrete in'.from in'.to) (deny deny_same_branch (to_itself in'.from)) (
    if not (valid_branch in'.from) || not (valid_branch in'.to)
    then deny deny_same_branch no_two_chains
    else if not in'.channel_known
    then deny deny_unknown_channel not_your_channel
    else if in'.is_funding_tx
    then decide_funding in'
    else decide_direction in'.to in')
