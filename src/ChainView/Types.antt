-- ===== src/ChainView/Types.antt =====
-- internal/chainview/types.go: branches, blocks, health states and branch tips.
use forktower.Common.{ℕ, Bool, true, false, ℤ, ℕ_discrete}

-- A chainhash.Hash is an array of 32 bytes that the program only compares and copies: it is read
-- here as the number that its bytes spell.
abbrev pub Hash : Type 0
Hash = ℕ

-- The two named branches; every other string is `other`, the empty string being `other 0`.
pub data Branch : Type 0 where
  sf sq : Branch
  other : ℕ → Branch

unfoldable pub Branch-discrete : Discrete Branch
unfolding ℕ_discrete
Branch-discrete = hlevel ℕ_discrete

unfoldable pub valid_branch : Branch → Bool
valid_branch sf = true
valid_branch sq = true
valid_branch (other _) = false

-- `Branch.Other`: the opposite chain, or the empty string.
unfoldable pub opposite : Branch → Branch
opposite sf = sq
opposite sq = sf
opposite (other _) = other 0

pub record BlockRef : Type 0 where
  pub hash : Hash
  pub height : ℤ

-- `time` is the header timestamp in unix seconds, the only reading of it that the source takes.
pub record BlockMeta : Type 0 where
  pub hash : Hash
  pub height : ℤ
  pub prev_hash : Hash
  pub time : ℤ

-- The empty string, which an observation carries for "not reported", is `unset`.
pub data HealthState : Type 0 where
  syncing ok degraded eclipse_suspect wrong_branch down : HealthState
  unset : HealthState
  unknown : ℕ → HealthState

unfoldable pub HealthState-discrete : Discrete HealthState
unfolding ℕ_discrete
HealthState-discrete = hlevel ℕ_discrete

unfoldable pub valid_health : HealthState → Bool
valid_health syncing = true
valid_health ok = true
valid_health degraded = true
valid_health eclipse_suspect = true
valid_health wrong_branch = true
valid_health down = true
valid_health unset = false
valid_health (unknown _) = false

unfoldable pub usable : HealthState → Bool
usable ok = true
usable degraded = true
usable syncing = false
usable eclipse_suspect = false
usable wrong_branch = false
usable down = false
usable unset = false
usable (unknown _) = false

pub data TipStatus : Type 0 where
  active invalid headers_only valid_headers valid_fork unknown : TipStatus
  other : ℕ → TipStatus

pub record ChainTip : Type 0 where
  pub hash : Hash
  pub height : ℤ
  pub branch_len : ℤ
  pub status : TipStatus

abbrev is_invalid : TipStatus → Bool
is_invalid invalid = true
is_invalid _ = false

-- `Rejected`
unfoldable pub rejected : ChainTip → Bool
rejected t = is_invalid t.status
