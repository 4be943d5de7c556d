-- ===== src/Alert/Alerter.antt =====
-- internal/alert/alerter.go: an alert recorded, announced, and repeated until it is acknowledged.
use forktower.Common.{
  Bool, true, false, not, ◌&&◌, Option, none, some, List, [], ◌∷◌, ℤ, pos, ltb_ℤ, eqb_ℤ, sub64,
  if◌then◌else◌,
}
use forktower.Store.Alerts.{
  Alert, AlertUpsert, notify, is_resolved, upsert_alert, reconcile_alert, resolve_alert,
  list_unacked,
}
use forktower.Alert.Policy.{Candidate, Event, map_event_to_alert, urgent}

-- The time, the ids that the database gives, and which of its statements fail.
pub record Services : Type 0 where
  pub now : ℤ
  pub new_id : List Alert → ℤ
  pub resolve_fails : Bool
  pub record_fails : Bool

abbrev pub as_alert : ℤ → Candidate → Alert
as_alert now c = record {
  id = pos 0;
  tier = c.tier;
  kind = c.kind;
  key = c.key;
  created_at = now;
  last_raised_at = now;
  acked_at = none;
}

-- The rows, and the alert that is announced on the bus and queued for delivery.
unfoldable pub announce_upsert : Alert → AlertUpsert × List Alert → List Alert × Option Alert
announce_upsert a (up, rows) = (rows, if notify up then some (record a { id = up.id }) else none)

-- The end of `put`.
unfoldable pub record_alert : Services → Bool → Alert → List Alert → List Alert × Option Alert
unfolding announce_upsert
record_alert s keep_ack a rows =
    if s.record_fails
    then (rows, none)
    else announce_upsert a
        (if keep_ack then reconcile_alert s.new_id rows a else upsert_alert s.new_id rows a)

unfoldable pub after_resolving :
    Services → Bool → Candidate → Alert → ℤ × List Alert → List Alert × Option Alert
unfolding record_alert
after_resolving s keep_ack c a (id, rows) =
    if eqb_ℤ id (pos 0) && c.only_if_standing
    then (rows, none)
    else if ltb_ℤ (pos 0) id
    then (rows, some (record a { id = id }))
    else record_alert s keep_ack a rows

-- `put`
unfoldable pub put : Services → Bool → Candidate → List Alert → List Alert × Option Alert
unfolding after_resolving
put s keep_ack c rows =
    let a = as_alert s.now c in
    if not (is_resolved c.tier)
    then record_alert s keep_ack a rows
    else if s.resolve_fails
    then (rows, none)
    else after_resolving s keep_ack c a (resolve_alert a c.closes rows)

abbrev pub raise : Services → Candidate → List Alert → List Alert × Option Alert
raise s c rows = put s false c rows

abbrev pub raise_if_absent : Services → Candidate → List Alert → List Alert × Option Alert
raise_if_absent s c rows = put s true c rows

unfoldable pub handle_candidate :
    Services → Option Candidate → List Alert → List Alert × Option Alert
unfolding put
handle_candidate s none rows = (rows, none)
handle_candidate s (some c) rows = raise s c rows

-- Alerter.handle
unfoldable pub handle : Services → Event → List Alert → List Alert × Option Alert
unfolding handle_candidate
handle s e rows = handle_candidate s (map_event_to_alert e) rows

-- The time of the last attempt, or of the last raise where there was none.
abbrev pub last_heard : (ℤ → ℤ) → Alert → ℤ
last_heard last_attempt a =
    if eqb_ℤ (last_attempt a.id) (pos 0) then a.last_raised_at else last_attempt a.id

unfoldable pub due : (ℤ → ℤ) → ℤ → ℤ → Alert → Bool
due last_attempt now repeat_secs a =
    urgent a.tier && not (ltb_ℤ (sub64 now (last_heard last_attempt a)) repeat_secs)

-- The loop of `escalate`.
unfoldable pub due_of : (ℤ → ℤ) → ℤ → ℤ → List Alert → List Alert
unfolding due
due_of last_attempt now repeat_secs [] = []
due_of last_attempt now repeat_secs (a ∷ alerts) =
    let rest = due_of last_attempt now repeat_secs alerts in
    if due last_attempt now repeat_secs a then a ∷ rest else rest

-- `escalate`, where there are routes: the alerts that are queued again. `last_attempt` is
-- lastAttemptAt, zero where nothing was delivered.
unfoldable pub escalate : (ℤ → ℤ) → ℤ → ℤ → List Alert → List Alert
unfolding due_of
escalate last_attempt now repeat_secs rows = due_of last_attempt now repeat_secs (list_unacked rows)
