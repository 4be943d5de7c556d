-- ===== src/Deadline/Handlers.antt =====
-- internal/deadline/deadline.go: what the engine does with an event, and what it tells the
-- dashboard.
use forktower.Common.{
  ℕ, Bool, true, false, not, ◌&&◌, ◌||◌, Option, none, some, List, [], ◌∷◌, ◌++◌, ℤ, pos, eqb_ℤ,
  any, ite, if◌then◌else◌,
}
use forktower.ChainView.Types.{Branch, Branch-discrete}
use forktower.Store.Types.{
  SpendStatus, confirmed, mempool, reorged_out, SpendShape, justice, delayed_sweep, HtlcSnapshot,
  is_csv,
}
use forktower.Store.Deadlines.{counting, Deadline, upsert_deadline}
use forktower.Deadline.Compute.{Inputs, Computed, compute, level_detected}
use forktower.Deadline.Engine.{
  Spend, Channel, Backing, Published, starts_a_clock, find_channel, is_own, running_of, escalate_to,
  expire, settle,
}

-- The deadline that start and onChannelUpserted hand to UpsertDeadline.
unfoldable pub as_deadline : Backing → ℤ → Computed → Deadline
as_deadline env spend_id c = record {
  id = pos 0;
  spend_event_id = spend_id;
  kind = c.kind;
  deadline_height = c.height;
  state = counting;
  escalation = level_detected;
  assumed = c.assumed;
  resolved_by = none;
  updated_at = env.now;
}

-- UpsertDeadline as the engine calls it: `none` is its error.
unfoldable pub write_deadline :
    Backing → Deadline → List Deadline → Option ((ℤ × Bool) × List Deadline)
write_deadline env d rows = if env.upsert_fails d then none else upsert_deadline env.new_id rows d

-- start
unfoldable pub start : Backing → ℤ → ℤ → Computed → List Deadline → List Deadline × List Published
unfolding as_deadline write_deadline escalate_to
start env spend_id channel_id c rows = elim (write_deadline env (as_deadline env spend_id c) rows) [
  | none ↦ (rows, [])
  | some ((id, changed), rows') ↦
      if changed then escalate_to env id channel_id c.height level_detected rows' else (rows', [])
]

unfoldable pub start_all :
    Backing → ℤ → ℤ → List Computed → List Deadline → List Deadline × List Published
unfolding start
start_all env spend_id channel_id [] rows = (rows, [])
start_all env spend_id channel_id (c ∷ cs) rows =
    let (rows', events) = start env spend_id channel_id c rows in
    let (rows'', later) = start_all env spend_id channel_id cs rows' in (rows'', events ++ later)

-- The payments in flight, or none where they cannot be read.
unfoldable pub htlcs_of : Backing → ℤ → List HtlcSnapshot
htlcs_of env channel_id = elim (env.list_htlcs channel_id) [ none ↦ [] | some htlcs ↦ htlcs ]

-- What Compute is given for a spend and the channel, where it is found.
unfoldable pub inputs_for : Backing → Spend → ℤ → Option Channel → Inputs
unfolding htlcs_of
inputs_for env spend channel_id none = record {
  confirm_height = spend.block_height;
  shape = spend.shape;
  csv_delay_local = none;
  csv_delay_remote = none;
  htlcs = [];
}
inputs_for env spend channel_id (some channel) = record {
  confirm_height = spend.block_height;
  shape = spend.shape;
  csv_delay_local = channel.csv_delay_local;
  csv_delay_remote = channel.csv_delay_remote;
  htlcs = htlcs_of env channel_id;
}

pub record FundingSpent : Type 0 where
  pub branch : Branch
  pub status : SpendStatus
  pub shape : SpendShape
  pub spend_event_id : ℤ
  pub channel_id : ℤ

abbrev pub is_confirmed : SpendStatus → Bool
is_confirmed confirmed = true
is_confirmed mempool = false
is_confirmed reorged_out = false

abbrev pub same_branch : Branch → Branch → Bool
same_branch a b = ite (Branch-discrete a b) true false

-- onFundingSpent, on the branch that the engine counts.
unfoldable pub on_funding_spent :
    Branch → Backing → FundingSpent → List Deadline → List Deadline × List Published
unfolding start_all inputs_for
on_funding_spent branch env ev rows =
    if not (same_branch ev.branch branch)
      || not (is_confirmed ev.status)
      || not (starts_a_clock ev.shape)
    then (rows, [])
    else elim (env.get_spend ev.spend_event_id) [
      | none ↦ (rows, [])
      | some spend ↦
          start_all env ev.spend_event_id ev.channel_id
            (compute (inputs_for env spend ev.channel_id (find_channel env ev.channel_id))) rows
    ]

pub record SecondOrderSpent : Type 0 where
  pub shape : SpendShape
  pub spend_event_id : ℤ
  pub source_spend_event_id : ℤ

unfoldable pub txid_in : Option Spend → Option ℕ
txid_in none = none
txid_in (some spend) = some spend.spend_txid

-- txidOf
unfoldable pub txid_of : Backing → ℤ → Option ℕ
unfolding txid_in
txid_of env id = txid_in (env.get_spend id)

-- The loop of onSecondOrderSpent over the running countdowns.
unfoldable pub answer_all :
    Backing → SecondOrderSpent → List Deadline → List Deadline → List Deadline × List Published
answer_all env ev [] rows = (rows, [])
answer_all env ev (d ∷ running) rows =
    let (rows', events) =
      if eqb_ℤ d.spend_event_id ev.source_spend_event_id
      then settle env d (txid_of env ev.spend_event_id) rows
      else (rows, []) in
    let (rows'', later) = answer_all env ev running rows' in (rows'', events ++ later)

-- The loop of settleBySweep, given the close that the sweep collected from.
unfoldable pub sweep_all :
    Backing
    → SecondOrderSpent
    → Spend
    → List Deadline
    → List Deadline
    → List Deadline × List Published
sweep_all env ev source [] rows = (rows, [])
sweep_all env ev source (d ∷ running) rows =
    let (rows', events) =
      if eqb_ℤ d.spend_event_id ev.source_spend_event_id && is_csv d.kind
      then if is_own source.shape
        then settle env d (txid_of env ev.spend_event_id) rows
        else expire env d source rows
      else (rows, []) in
    let (rows'', later) = sweep_all env ev source running rows' in (rows'', events ++ later)

-- settleBySweep
unfoldable pub settle_by_sweep :
    Backing → SecondOrderSpent → List Deadline → List Deadline × List Published
unfolding sweep_all
settle_by_sweep env ev rows = elim (env.get_spend ev.source_spend_event_id) [
  | none ↦ (rows, [])
  | some source ↦ sweep_all env ev source (running_of env rows) rows
]

unfoldable pub second_order_on :
    SpendShape → Backing → SecondOrderSpent → List Deadline → List Deadline × List Published
unfolding answer_all settle_by_sweep
second_order_on justice env ev rows = answer_all env ev (running_of env rows) rows
second_order_on delayed_sweep env ev rows = settle_by_sweep env ev rows
second_order_on _ env ev rows = (rows, [])

-- onSecondOrderSpent
unfoldable pub on_second_order_spent :
    Backing → SecondOrderSpent → List Deadline → List Deadline × List Published
unfolding second_order_on
on_second_order_spent env ev rows =
    if eqb_ℤ ev.source_spend_event_id (pos 0)
    then (rows, [])
    else second_order_on ev.shape env ev rows

-- The rows after a write that may have failed.
unfoldable pub rows_after : List Deadline → Option ((ℤ × Bool) × List Deadline) → List Deadline
rows_after rows none = rows
rows_after rows (some (result, rows')) = rows'

-- The inner loop of onChannelUpserted: every clock of one spend is brought up to date.
unfoldable pub improve : Backing → ℤ → List Computed → List Deadline → List Deadline
unfolding rows_after
improve env spend_id [] rows = rows
improve env spend_id (c ∷ cs) rows =
    improve env spend_id cs (rows_after rows (write_deadline env (as_deadline env spend_id c) rows))

-- One round of the outer loop, given the spend behind a countdown.
unfoldable pub improve_on :
    Backing → ℤ → Channel → ℤ → Option Spend → List Deadline → Option (List Deadline)
unfolding improve
improve_on env channel_id channel spend_id none rows = none
improve_on env channel_id channel spend_id (some spend) rows =
    if eqb_ℤ spend.channel_id channel_id
    then some (improve env spend_id (compute (inputs_for env spend channel_id (some channel))) rows)
    else none

unfoldable pub improve_all :
    Backing → ℤ → Channel → List ℤ → List Deadline → List Deadline → List Deadline
unfolding improve_on
improve_all env channel_id channel seen [] rows = rows
improve_all env channel_id channel seen (d ∷ running) rows =
    if any (eqb_ℤ d.spend_event_id) seen
    then improve_all env channel_id channel seen running rows
    else elim (improve_on env channel_id channel d.spend_event_id (env.get_spend d.spend_event_id)
        rows) [
          | none ↦ improve_all env channel_id channel seen running rows
          | some rows' ↦ improve_all env channel_id channel (d.spend_event_id ∷ seen) running rows'
        ]

-- onChannelUpserted
unfoldable pub on_channel_upserted : Backing → ℤ → List Deadline → List Deadline
unfolding improve_all
on_channel_upserted env channel_id rows = elim (find_channel env channel_id) [
  | none ↦ rows
  | some channel ↦ improve_all env channel_id channel [] (running_of env rows) rows
]
