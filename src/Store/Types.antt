-- ===== src/Store/Types.antt =====
-- internal/store/spends.go, deadlines.go and channels.go: the enumerations and records that other
-- components decide by. A string outside an enumeration is `other`; the empty string is `unset`.
-- `store.Branch` has the values of `chainview.Branch`, and is read by the same type.
use forktower.Common.{ℕ, ℤ, Bool, true, false, ℕ_discrete}

pub data SpendShape : Type 0 where
  mutual_close commitment_ours commitment_unknown commitment_revoked : SpendShape
  justice delayed_sweep htlc_claim unknown_shape : SpendShape
  unset : SpendShape
  other : ℕ → SpendShape

unfoldable pub SpendShape-discrete : Discrete SpendShape
unfolding ℕ_discrete
SpendShape-discrete = hlevel ℕ_discrete

pub data DeadlineKind : Type 0 where
  csv htlc_incoming htlc_outgoing : DeadlineKind

abbrev pub is_csv : DeadlineKind → Bool
is_csv csv = true
is_csv htlc_incoming = false
is_csv htlc_outgoing = false

pub data Direction : Type 0 where
  incoming outgoing : Direction
  other : ℕ → Direction

pub record HtlcSnapshot : Type 0 where
  pub direction : Direction
  pub amount_msat : ℤ
  pub cltv_expiry : ℤ
  pub payment_hash : ℕ

pub data CloseState : Type 0 where
  open_channel pending_close coop_closed force_closed breach_closed : CloseState
  unset : CloseState
  other : ℕ → CloseState

pub data Relevance : Type 0 where
  relevant irrelevant unknown : Relevance

-- AssumedDeadlineFloor
abbrev pub assumed_deadline_floor : ℕ
assumed_deadline_floor = 144

pub data SpendStatus : Type 0 where
  mempool confirmed reorged_out : SpendStatus

pub data OutpointRole : Type 0 where
  to_local to_remote htlc anchor unknown_role : OutpointRole
