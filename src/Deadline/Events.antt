-- ===== src/Deadline/Events.antt =====
-- internal/deadline/deadline.go: the engine, and its handler of an event.
use forktower.Common.{not, List, [], ◌∷◌, ℤ, Float64, if◌then◌else◌}
use forktower.ChainView.Types.{Branch}
use forktower.Store.Deadlines.{Deadline}
use forktower.Deadline.Engine.{Backing, Published, advance}
use forktower.Deadline.Handlers.{
  FundingSpent, same_branch, on_funding_spent, SecondOrderSpent, on_second_order_spent,
  on_channel_upserted,
}

pub data Event : Type 0 where
  funding_spent : FundingSpent → Event
  branch_extended : Branch → ℤ → Event
  second_order_spent : SecondOrderSpent → Event
  spend_reorged_out : Branch → ℤ → Event
  channel_upserted : ℤ → Event

-- The height of the tip that the engine counts against, and the rows of the table.
pub record Engine : Type 0 where
  pub tip_height : ℤ
  pub rows : List Deadline

-- The engine's tip in place of the one the parameter came with.
abbrev pub at_tip : Backing → ℤ → Backing
at_tip env height = record env { tip = height }

abbrev pub with_rows : Engine → List Deadline × List Published → Engine × List Published
with_rows e (rows, events) = (record e { rows = rows }, events)

module _ (F : Float64) (branch : Branch) where
  -- onBranchExtended
  unfoldable pub on_branch_extended : Backing → Branch → ℤ → Engine → Engine × List Published
  on_branch_extended env on height e =
      if not (same_branch on branch)
      then (e, [])
      else with_rows (record e { tip_height = height }) (advance F (at_tip env height) e.rows)

  -- handle
  unfoldable pub handle : Backing → Event → Engine → Engine × List Published
  unfolding on_branch_extended
  handle env (funding_spent ev) e =
      with_rows e (on_funding_spent branch (at_tip env e.tip_height) ev e.rows)
  handle env (branch_extended on height) e = on_branch_extended env on height e
  handle env (second_order_spent ev) e =
      with_rows e (on_second_order_spent (at_tip env e.tip_height) ev e.rows)
  handle env (spend_reorged_out on spend_id) e = (e, [])
  handle env (channel_upserted id) e =
      with_rows e (on_channel_upserted (at_tip env e.tip_height) id e.rows, [])

  -- The engine after a sequence of events, each with what it reads.
  unfoldable pub handle_all : Engine → List (Backing × Event) → Engine
  handle_all e [] = e
  handle_all e ((env, ev) ∷ events) = handle_all (handle env ev e).0 events
