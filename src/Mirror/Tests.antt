-- ===== src/Mirror/Tests.antt =====
-- The allowlist at concrete transactions.
use forktower.Common.{true, false, ◌≡◌, ◌↔◌}
use forktower.ChainView.Types.{sf, sq}
use forktower.Store.Types.{justice, commitment_revoked}
use forktower.Mirror.Policy.{Inputs, decide}
use forktower.Mirror.Allowlist.{Allowed, decide_iff}

abbrev punishment : Inputs
punishment = record {
  shape = justice;
  from = sf;
  to = sq;
  channel_known = true;
  source_shape = commitment_revoked;
  is_funding_tx = false;
  funding_opt_in = false;
}

decide_iff_example : ((decide punishment).mirror ≡ true) ↔ Allowed punishment
decide_iff_example = decide_iff punishment
