-- ===== src/Deadline/Handling.antt =====
-- What the engine does with any event keeps the table of deadlines lasting.
use forktower.Common.{
  ltb, Bool, not, ◌&&◌, ◌||◌, Option, none, some, List, [], ◌∷◌, ◌≡◌, refl, inl, inr, ℤ, pos, ltb_ℤ,
  eqb_ℤ, any, sub32, Float64, if_either, Option-cases,
}
use forktower.ChainView.Types.{Branch}
use forktower.Store.Types.{SpendShape, justice, delayed_sweep, is_csv}
use forktower.Store.Deadlines.{Deadline}
use forktower.Deadline.Compute.{Computed, compute, remaining, level, level_detected}
use forktower.Deadline.Engine.{
  Backing, Spend, Channel, Published, is_own, is_reorged_out, reorg_patience_blocks, starts_a_clock,
  find_channel, running_of, count_down, advance_on, advance_all, advance,
}
use forktower.Deadline.Handlers.{
  SecondOrderSpent, FundingSpent, same_branch, is_confirmed, as_deadline, write_deadline, start,
  start_all, inputs_for, on_funding_spent, txid_of, answer_all, sweep_all, settle_by_sweep,
  second_order_on, on_second_order_spent, rows_after, improve, improve_on, improve_all,
  on_channel_upserted,
}
use forktower.Deadline.Events.{
  at_tip, Event, funding_spent, branch_extended, second_order_spent, spend_reorged_out,
  channel_upserted, Engine, on_branch_extended, handle, handle_all,
}
use forktower.Deadline.Lasting.{
  Lasts, Lasts-self, Lasts-trans, write_deadline-Lasts, escalate_to-Lasts, expire-Lasts,
  settle-Lasts,
}

abbrev Result : Type 0
Result = List Deadline × List Published

abbrev Leaves : List Deadline → Result → Type 0
Leaves rows r = Lasts rows r.0

start-Leaves :
    (env : Backing) (spend_id channel_id : ℤ) (c : Computed) (rows : List Deadline)
    → Leaves rows (start env spend_id channel_id c rows)
unfolding start rows_after
start-Leaves env spend_id channel_id c rows =
    start_on (write_deadline env (as_deadline env spend_id c) rows) refl
  where
    start_on :
        (o : Option ((ℤ × Bool) × List Deadline))
        → write_deadline env (as_deadline env spend_id c) rows ≡ o
        → Leaves rows (start env spend_id channel_id c rows)
    start_on none e = rw (e, start) (Lasts-self rows)
    start_on (some ((id, changed), rows')) e =
        let written : Lasts rows rows' =
          rw e at (write_deadline-Lasts env (as_deadline env spend_id c) rows) in
        rw (e, start)
          (if_either (Leaves rows) changed
            (λ h.
              Lasts-trans rows rows' _ written
                (escalate_to-Lasts env id channel_id c.height level_detected rows'))
            (λ h. written))

start_all-Leaves :
    (env : Backing) (spend_id channel_id : ℤ) (cs : List Computed) (rows : List Deadline)
    → Leaves rows (start_all env spend_id channel_id cs rows)
unfolding start_all
start_all-Leaves env spend_id channel_id [] rows = Lasts-self rows
start_all-Leaves env spend_id channel_id (c ∷ cs) rows =
    Lasts-trans rows _ _ (start-Leaves env spend_id channel_id c rows)
      (start_all-Leaves env spend_id channel_id cs (start env spend_id channel_id c rows).0)

pub on_funding_spent-Leaves :
    (branch : Branch) (env : Backing) (ev : FundingSpent) (rows : List Deadline)
    → Leaves rows (on_funding_spent branch env ev rows)
unfolding on_funding_spent
on_funding_spent-Leaves branch env ev rows =
    if_either (Leaves rows)
      (not (same_branch ev.branch branch)
        || not (is_confirmed ev.status)
        || not (starts_a_clock ev.shape))
      (λ h. Lasts-self rows)
      (λ h. elim (Option-cases (env.get_spend ev.spend_event_id)) [
        | inl e ↦ rw e (Lasts-self rows)
        | inr (spend, e) ↦ rw e (
            start_all-Leaves env ev.spend_event_id ev.channel_id
              (compute (inputs_for env spend ev.channel_id (find_channel env ev.channel_id))) rows)
      ])

answer_all-Leaves :
    (env : Backing) (ev : SecondOrderSpent) (running rows : List Deadline)
    → Leaves rows (answer_all env ev running rows)
unfolding answer_all
answer_all-Leaves env ev [] rows = Lasts-self rows
answer_all-Leaves env ev (d ∷ running) rows =
    Lasts-trans rows _ _
      (if_either (Leaves rows) (eqb_ℤ d.spend_event_id ev.source_spend_event_id)
        (λ h. settle-Lasts env d (txid_of env ev.spend_event_id) rows) (λ h. Lasts-self rows))
      (answer_all-Leaves env ev running _)

sweep_all-Leaves :
    (env : Backing) (ev : SecondOrderSpent) (source : Spend) (running rows : List Deadline)
    → Leaves rows (sweep_all env ev source running rows)
unfolding sweep_all
sweep_all-Leaves env ev source [] rows = Lasts-self rows
sweep_all-Leaves env ev source (d ∷ running) rows =
    Lasts-trans rows _ _
      (if_either (Leaves rows) (eqb_ℤ d.spend_event_id ev.source_spend_event_id && is_csv d.kind)
        (λ h.
          if_either (Leaves rows) (is_own source.shape)
            (λ k. settle-Lasts env d (txid_of env ev.spend_event_id) rows)
            (λ k. expire-Lasts env d source rows))
        (λ h. Lasts-self rows))
      (sweep_all-Leaves env ev source running _)

settle_by_sweep-Leaves :
    (env : Backing) (ev : SecondOrderSpent) (rows : List Deadline)
    → Leaves rows (settle_by_sweep env ev rows)
unfolding settle_by_sweep
settle_by_sweep-Leaves env ev rows = elim (Option-cases (env.get_spend ev.source_spend_event_id)) [
  | inl e ↦ rw (e, settle_by_sweep) (Lasts-self rows)
  | inr (source, e) ↦
      rw (e, settle_by_sweep) (sweep_all-Leaves env ev source (running_of env rows) rows)
]

second_order_on-Leaves :
    (shape : SpendShape) (env : Backing) (ev : SecondOrderSpent) (rows : List Deadline)
    → Leaves rows (second_order_on shape env ev rows)
unfolding second_order_on
second_order_on-Leaves justice env ev rows = answer_all-Leaves env ev (running_of env rows) rows
second_order_on-Leaves delayed_sweep env ev rows = settle_by_sweep-Leaves env ev rows
second_order_on-Leaves _ env ev rows = Lasts-self rows

pub on_second_order_spent-Leaves :
    (env : Backing) (ev : SecondOrderSpent) (rows : List Deadline)
    → Leaves rows (on_second_order_spent env ev rows)
unfolding on_second_order_spent
on_second_order_spent-Leaves env ev rows =
    if_either (Leaves rows) (eqb_ℤ ev.source_spend_event_id (pos 0)) (λ h. Lasts-self rows)
      (λ h. second_order_on-Leaves ev.shape env ev rows)

improve-Lasts :
    (env : Backing) (spend_id : ℤ) (cs : List Computed) (rows : List Deadline)
    → Lasts rows (improve env spend_id cs rows)
unfolding improve
improve-Lasts env spend_id [] rows = Lasts-self rows
improve-Lasts env spend_id (c ∷ cs) rows =
    Lasts-trans rows _ _ (write_deadline-Lasts env (as_deadline env spend_id c) rows)
      (improve-Lasts env spend_id cs _)

abbrev LeavesSome : List Deadline → Option (List Deadline) → Type 0
LeavesSome rows none = Unit
LeavesSome rows (some rows') = Lasts rows rows'

improve_on-Lasts :
    (env : Backing) (channel_id : ℤ) (channel : Channel) (spend_id : ℤ) (found : Option Spend)
    (rows : List Deadline)
    → LeavesSome rows (improve_on env channel_id channel spend_id found rows)
unfolding improve_on
improve_on-Lasts env channel_id channel spend_id none rows = tt
improve_on-Lasts env channel_id channel spend_id (some spend) rows =
    if_either (LeavesSome rows) (eqb_ℤ spend.channel_id channel_id)
      (λ h.
        improve-Lasts env spend_id (compute (inputs_for env spend channel_id (some channel))) rows)
      (λ h. tt)

improve_all-Lasts :
    (env : Backing) (channel_id : ℤ) (channel : Channel) (seen : List ℤ)
    (running rows : List Deadline)
    → Lasts rows (improve_all env channel_id channel seen running rows)
unfolding improve_all
improve_all-Lasts env channel_id channel seen [] rows = Lasts-self rows
improve_all-Lasts env channel_id channel seen (d ∷ running) rows =
    let id = d.spend_event_id in
    let found = env.get_spend id in
    if_either (Lasts rows) (any (eqb_ℤ id) seen)
      (λ h. improve_all-Lasts env channel_id channel seen running rows)
      (λ h. elim (Option-cases (improve_on env channel_id channel id found rows)) [
        | inl e ↦ rw e (improve_all-Lasts env channel_id channel seen running rows)
        | inr (rows', e) ↦
            let kept : Lasts rows rows' =
              rw e at (improve_on-Lasts env channel_id channel id found rows) in
            rw e (
              Lasts-trans rows rows' _ kept
                (improve_all-Lasts env channel_id channel (id ∷ seen) running rows'))
      ])

pub on_channel_upserted-Lasts :
    (env : Backing) (channel_id : ℤ) (rows : List Deadline)
    → Lasts rows (on_channel_upserted env channel_id rows)
unfolding on_channel_upserted
on_channel_upserted-Lasts env channel_id rows = elim (Option-cases (find_channel env channel_id)) [
  | inl e ↦ rw (e, on_channel_upserted) (Lasts-self rows)
  | inr (channel, e) ↦
      rw (e, on_channel_upserted)
        (improve_all-Lasts env channel_id channel [] (running_of env rows) rows)
]

module _ (F : Float64) where
  count_down-Leaves :
      (env : Backing) (d : Deadline) (spend : Spend) (rows : List Deadline)
      → Leaves rows (count_down F env d spend rows)
  unfolding count_down
  count_down-Leaves env d spend rows =
      let left = remaining d.deadline_height env.tip in
      let tier = level F left (sub32 d.deadline_height spend.block_height) in
      if_either (Leaves rows) (eqb_ℤ left (pos 0)) (λ h. expire-Lasts env d spend rows)
        (λ h.
          if_either (Leaves rows) (ltb d.escalation tier)
            (λ k. escalate_to-Lasts env d.id spend.channel_id d.deadline_height tier rows)
            (λ k. Lasts-self rows))

  advance_on-Leaves :
      (env : Backing) (d : Deadline) (found : Option Spend) (rows : List Deadline)
      → Leaves rows (advance_on F env d found rows)
  unfolding advance_on
  advance_on-Leaves env d none rows = Lasts-self rows
  advance_on-Leaves env d (some spend) rows =
      if_either (Leaves rows) (is_reorged_out spend.status)
        (λ h.
          if_either (Leaves rows) (ltb_ℤ reorg_patience_blocks (sub32 env.tip spend.block_height))
            (λ k. settle-Lasts env d none rows) (λ k. Lasts-self rows))
        (λ h. count_down-Leaves env d spend rows)

  advance_all-Leaves :
      (env : Backing) (running rows : List Deadline) → Leaves rows (advance_all F env running rows)
  unfolding advance_all
  advance_all-Leaves env [] rows = Lasts-self rows
  advance_all-Leaves env (d ∷ running) rows =
      Lasts-trans rows _ _ (advance_on-Leaves env d (env.get_spend d.spend_event_id) rows) (
        advance_all-Leaves env running (advance_on F env d (env.get_spend d.spend_event_id) rows).0)

  advance-Leaves : (env : Backing) (rows : List Deadline) → Leaves rows (advance F env rows)
  unfolding advance
  advance-Leaves env rows = advance_all-Leaves env (running_of env rows) rows

  handle-Lasts :
      (branch : Branch) (env : Backing) (ev : Event) (e : Engine)
      → Lasts e.rows (handle F branch env ev e).0.rows
  unfolding handle on_branch_extended
  handle-Lasts branch env (funding_spent ev) e =
      on_funding_spent-Leaves branch (at_tip env e.tip_height) ev e.rows
  handle-Lasts branch env (branch_extended on height) e =
      if_either (λ (r : Engine × List Published). Lasts e.rows r.0.rows)
        (not (same_branch on branch)) (λ h. Lasts-self e.rows)
        (λ h. advance-Leaves (at_tip env height) e.rows)
  handle-Lasts branch env (second_order_spent ev) e =
      on_second_order_spent-Leaves (at_tip env e.tip_height) ev e.rows
  handle-Lasts branch env (spend_reorged_out on spend_id) e = Lasts-self e.rows
  handle-Lasts branch env (channel_upserted id) e =
      on_channel_upserted-Lasts (at_tip env e.tip_height) id e.rows

  -- No sequence of events, whatever the database fails at, loses a countdown from the table,
  -- changes its spend or its kind, lowers the tier that it was raised to, or makes one that had
  -- stopped count again.
  pub handle_all-Lasts :
      (branch : Branch) (e : Engine) (events : List (Backing × Event))
      → Lasts e.rows (handle_all F branch e events).rows
  unfolding handle_all
  handle_all-Lasts branch e [] = Lasts-self e.rows
  handle_all-Lasts branch e ((env, ev) ∷ events) =
      Lasts-trans e.rows _ _ (handle-Lasts branch env ev e)
        (handle_all-Lasts branch (handle F branch env ev e).0 events)
