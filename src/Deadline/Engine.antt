-- ===== src/Deadline/Engine.antt =====
-- internal/deadline/deadline.go: what a new block, and the spend of a commitment's output, do to
-- the running countdowns. The database that may fail, and the spends and channels it holds, are
-- parameters; the logs and the estimate in words are left out.
use forktower.Common.{
  ℕ, ltb, Bool, true, false, Option, none, some, List, [], ◌∷◌, ◌++◌, ℤ, pos, ltb_ℤ, eqb_ℤ, sub32,
  Float64, ite, if◌then◌else◌,
}
use forktower.Store.Types.{
  SpendStatus, mempool, confirmed, reorged_out, SpendShape, commitment_ours, commitment_unknown,
  commitment_revoked, SpendShape-discrete, HtlcSnapshot,
}
use forktower.Store.Deadlines.{
  DeadlineState, settled, expired, Deadline, list_counting, set_deadline_state,
  set_deadline_escalation,
}
use forktower.Deadline.Compute.{remaining, level}

abbrev pub is_reorged_out : SpendStatus → Bool
is_reorged_out reorged_out = true
is_reorged_out mempool = false
is_reorged_out confirmed = false

-- The fields of store.Spend that the engine reads.
pub record Spend : Type 0 where
  pub channel_id : ℤ
  pub spend_txid : ℕ
  pub block_height : ℤ
  pub shape : SpendShape
  pub status : SpendStatus

-- ReorgPatienceBlocks
abbrev pub reorg_patience_blocks : ℤ
reorg_patience_blocks = pos 100

-- The fields of store.Channel that the engine reads.
pub record Channel : Type 0 where
  pub capacity_sat : ℤ
  pub csv_delay_local : Option ℤ
  pub csv_delay_remote : Option ℤ

-- What the engine reads, and which of its writes fail. A lookup is none for
-- any error.
pub record Backing : Type 0 where
  pub get_spend : ℤ → Option Spend
  pub get_channel : ℤ → Option Channel
  pub list_htlcs : ℤ → Option (List HtlcSnapshot)
  pub new_id : List Deadline → ℤ
  pub upsert_fails : Deadline → Bool
  pub list_fails : Bool
  pub state_fails : ℤ → Bool
  pub escalation_fails : ℤ → Bool
  pub tip : ℤ
  pub now : ℤ

pub data Published : Type 0 where
  escalated : ℤ → ℤ → ℕ → ℤ → Published
  expired_loss : ℤ → ℤ → ℤ → Published
  answered : ℤ → Option ℕ → Published

-- The running countdowns, soonest first; where they cannot be read nothing is done for any.
unfoldable pub running_of : Backing → List Deadline → List Deadline
running_of env rows = if env.list_fails then [] else list_counting rows

-- startsAClock
unfoldable pub starts_a_clock : SpendShape → Bool
starts_a_clock commitment_ours = true
starts_a_clock commitment_unknown = true
starts_a_clock commitment_revoked = true
starts_a_clock _ = false

-- `channel`: the id 0 is no channel.
unfoldable pub find_channel : Backing → ℤ → Option Channel
find_channel env id = if eqb_ℤ id (pos 0) then none else env.get_channel id

unfoldable pub capacity_of : Option Channel → ℤ
capacity_of none = pos 0
capacity_of (some channel) = channel.capacity_sat

-- The whole capacity of the channel, zero where it cannot be read.
unfoldable pub amount_at_stake : Backing → ℤ → ℤ
unfolding find_channel capacity_of
amount_at_stake env id = capacity_of (find_channel env id)

-- SetDeadlineState as the engine calls it, with a failure of the database.
unfoldable pub write_state :
    Backing → ℤ → DeadlineState → Option ℕ → List Deadline → Option (List Deadline)
write_state env id state by rows =
    if env.state_fails id then none else set_deadline_state id state by env.now rows

-- escalateTo
unfoldable pub escalate_to :
    Backing → ℤ → ℤ → ℤ → ℕ → List Deadline → List Deadline × List Published
escalate_to env id channel height tier rows = if env.escalation_fails id then (rows, []) else (
  set_deadline_escalation id tier env.now rows,
  escalated id channel tier (remaining height env.tip) ∷ [],
)

abbrev pub is_own : SpendShape → Bool
is_own s = ite (SpendShape-discrete s commitment_ours) true false

-- expire
unfoldable pub expire : Backing → Deadline → Spend → List Deadline → List Deadline × List Published
unfolding write_state
expire env d spend rows = elim (write_state env d.id expired none rows) [
  | none ↦ (rows, [])
  | some rows' ↦
      if is_own spend.shape
      then (rows', [])
      else (rows', expired_loss d.id spend.channel_id (amount_at_stake env spend.channel_id) ∷ [])
]

-- A countdown ends as resolved, and says by what: retire, and the answers of onSecondOrderSpent.
unfoldable pub settle :
    Backing → Deadline → Option ℕ → List Deadline → List Deadline × List Published
unfolding write_state
settle env d by rows = elim (write_state env d.id settled by rows) [
  | none ↦ (rows, [])
  | some rows' ↦ (rows', answered d.id by ∷ [])
]

module _ (F : Float64) where
  -- A countdown that is still running, on the chain.
  unfoldable pub count_down :
      Backing → Deadline → Spend → List Deadline → List Deadline × List Published
  unfolding expire escalate_to
  count_down env d spend rows =
      if eqb_ℤ (remaining d.deadline_height env.tip) (pos 0)
      then expire env d spend rows
      else let tier =
          level F (remaining d.deadline_height env.tip)
            (sub32 d.deadline_height spend.block_height) in
        if ltb d.escalation tier
        then escalate_to env d.id spend.channel_id d.deadline_height tier rows
        else (rows, [])

  -- One round of the loop of advance, given the spend behind the countdown.
  unfoldable pub advance_on :
      Backing → Deadline → Option Spend → List Deadline → List Deadline × List Published
  unfolding settle count_down
  advance_on env d none rows = (rows, [])
  advance_on env d (some spend) rows =
      if is_reorged_out spend.status
      then if ltb_ℤ reorg_patience_blocks (sub32 env.tip spend.block_height)
        then settle env d none rows
        else (rows, [])
      else count_down env d spend rows

  unfoldable pub advance_all :
      Backing → List Deadline → List Deadline → List Deadline × List Published
  unfolding advance_on
  advance_all env [] rows = (rows, [])
  advance_all env (d ∷ running) rows =
      let (rows', events) = advance_on env d (env.get_spend d.spend_event_id) rows in
      let (rows'', later) = advance_all env running rows' in (rows'', events ++ later)

  -- advance: every countdown that runs, soonest first, against the tip.
  unfoldable pub advance : Backing → List Deadline → List Deadline × List Published
  unfolding advance_all running_of
  advance env rows = advance_all env (running_of env rows) rows
