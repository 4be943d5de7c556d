-- ===== src/Store/Alerts.antt =====
-- internal/store/alerts.go: the table of alerts. The words of an alert are left out.
use forktower.Common.{
  ◌≡◌, refl, ℕ, take, Bool, true, false, not, ◌&&◌, ◌||◌, Option, none, some, List, [], ◌∷◌, ◌++◌,
  ℤ, pos, eqb_ℤ, ite, ℕ_discrete, if◌then◌else◌,
}
use forktower.ChainView.Types.{Branch, Branch-discrete}

pub data Tier : Type 0 where
  info warning critical resolved loss : Tier

-- The strings for a kind of alert.
pub data Kind : Type 0 where
  watching_started watching_stopped : Kind
  split_suspected split_detected split_resolving split_resolved : Kind
  view_degraded view_wrong_branch view_recovered : Kind
  channel_spent channel_spent_unconfirmed spend_disappeared : Kind
  deadline_warning deadline_resolved loss_of_channel closed_only_on_your_chain : Kind
  other : ℕ → Kind

-- A dedup key: a kind, alone or followed by what it is about.
pub data Key : Type 0 where
  plain : Kind → Key
  after_suspicion : Kind → Key
  of_view : Kind → Branch → Key
  of_id : Kind → ℤ → Key
  of_level : Kind → ℤ → ℕ → Key
  closed : Key → ℤ → Key

unfoldable pub Kind-discrete : Discrete Kind
unfolding ℕ_discrete
Kind-discrete = hlevel ℕ_discrete

unfoldable pub ℤ-discrete : Discrete ℤ
unfolding ℕ_discrete
ℤ-discrete = hlevel ℕ_discrete

unfoldable pub Key-discrete : Discrete Key
unfolding ℕ_discrete Kind-discrete ℤ-discrete Branch-discrete
Key-discrete = hlevel (ℕ_discrete, Kind-discrete, ℤ-discrete, Branch-discrete)

unfoldable pub same_key : Key → Key → Bool
unfolding Key-discrete
same_key a b = ite (Key-discrete a b) true false

ite_yes : {P : Type 0} (d : Dec P) → P → ite d true false ≡ true
ite_yes (yes p) q = refl
ite_yes (no n) q = absurd (n q)

pub same_key_self : (k : Key) → same_key k k ≡ true
unfolding same_key
same_key_self k = ite_yes (Key-discrete k k) refl

-- `acked_at` is none for NULL.
pub record Alert : Type 0 where
  pub id : ℤ
  pub tier : Tier
  pub kind : Kind
  pub key : Key
  pub created_at : ℤ
  pub last_raised_at : ℤ
  pub acked_at : Option ℤ

abbrev pub is_acked : Option ℤ → Bool
is_acked none = false
is_acked (some _) = true

abbrev pub is_resolved : Tier → Bool
is_resolved resolved = true
is_resolved _ = false

pub record AlertUpsert : Type 0 where
  pub id : ℤ
  pub is_new : Bool
  pub reopened : Bool

-- AlertUpsert.Notify
abbrev pub notify : AlertUpsert → Bool
notify u = u.is_new || u.reopened

unfoldable pub find_alert : Key → List Alert → Option Alert
find_alert key [] = none
find_alert key (row ∷ rows) = if same_key row.key key then some row else find_alert key rows

-- UPDATE alerts SET ... WHERE id = ?
unfoldable pub update_alert : ℤ → (Alert → Alert) → List Alert → List Alert
update_alert id f [] = []
update_alert id f (row ∷ rows) =
    let rest = update_alert id f rows in if eqb_ℤ row.id id then f row ∷ rest else row ∷ rest

abbrev pub bump : ℤ → Alert → Alert
bump at row = record row { last_raised_at = at }

abbrev pub reopen : ℤ → Alert → Alert
reopen at row = record row { last_raised_at = at; acked_at = none }

abbrev pub added : (List Alert → ℤ) → List Alert → Alert → AlertUpsert × List Alert
added new_id rows a = (
  record { id = new_id rows; is_new = true; reopened = false },
  rows ++ record a { id = new_id rows; acked_at = none } ∷ [],
)

unfoldable pub upsert_alert_found :
    (List Alert → ℤ) → List Alert → Alert → Option Alert → AlertUpsert × List Alert
upsert_alert_found new_id rows a (some row) = (
  record { id = row.id; is_new = false; reopened = is_acked row.acked_at },
  update_alert row.id (reopen a.last_raised_at) rows,
)
upsert_alert_found new_id rows a none = added new_id rows a

-- UpsertAlert, of an alert that its checks pass.
unfoldable pub upsert_alert : (List Alert → ℤ) → List Alert → Alert → AlertUpsert × List Alert
unfolding upsert_alert_found
upsert_alert new_id rows a = upsert_alert_found new_id rows a (find_alert a.key rows)

unfoldable pub reconcile_alert_found :
    (List Alert → ℤ) → List Alert → Alert → Option Alert → AlertUpsert × List Alert
reconcile_alert_found new_id rows a (some row) = (
  record { id = row.id; is_new = false; reopened = false },
  update_alert row.id (bump a.last_raised_at) rows,
)
reconcile_alert_found new_id rows a none = added new_id rows a

-- ReconcileAlert
unfoldable pub reconcile_alert : (List Alert → ℤ) → List Alert → Alert → AlertUpsert × List Alert
unfolding reconcile_alert_found
reconcile_alert new_id rows a = reconcile_alert_found new_id rows a (find_alert a.key rows)

-- SELECT id FROM alerts WHERE dedup_key = ? AND tier != 'resolved'
unfoldable pub find_standing : Key → List Alert → Option Alert
find_standing key [] = none
find_standing key (row ∷ rows) =
    if same_key row.key key && not (is_resolved row.tier) then some row else find_standing key rows

-- An alert that is retired where it is, keeping its words.
abbrev pub retire : ℤ → Alert → Alert
retire at row = record row {
  tier = resolved;
  last_raised_at = at;
  acked_at = some at;
  key = closed row.key row.id;
}

-- The alert that turns over into the resolution.
abbrev pub turn_over : Alert → Alert → Alert
turn_over a row = record (retire a.last_raised_at row) { tier = a.tier; kind = a.kind }

unfoldable pub retire_found : ℤ → ℤ → Option Alert → List Alert → ℤ × List Alert
retire_found at id none rows = (id, rows)
retire_found at id (some row) rows =
    if eqb_ℤ id (pos 0) then (row.id, rows) else (id, update_alert row.id (retire at) rows)

-- The loop of ResolveAlert over the keys: the id of the first alert that stands, with the others
-- retired.
unfoldable pub retire_keys : ℤ → List Key → ℤ → List Alert → ℤ × List Alert
unfolding retire_found
retire_keys at [] id rows = (id, rows)
retire_keys at (key ∷ keys) id rows =
    let r = retire_found at id (find_standing key rows) rows in retire_keys at keys r.0 r.1

unfoldable pub finish_resolve : Alert → ℤ × List Alert → ℤ × List Alert
finish_resolve a (id, rows) =
    if eqb_ℤ id (pos 0) then (id, rows) else (id, update_alert id (turn_over a) rows)

-- ResolveAlert
unfoldable pub resolve_alert : Alert → List Key → List Alert → ℤ × List Alert
unfolding retire_keys finish_resolve
resolve_alert a closes rows =
    finish_resolve a (retire_keys a.last_raised_at (a.key ∷ closes) (pos 0) rows)

abbrev pub acknowledge_row : ℤ → Alert → Alert
acknowledge_row at row = if is_acked row.acked_at then row else record row { acked_at = some at }

-- AckAlert, where it finds the alert.
unfoldable pub ack_alert : ℤ → ℤ → List Alert → List Alert
unfolding update_alert
ack_alert id at rows = update_alert id (acknowledge_row at) rows

-- DefaultAlertLimit
abbrev pub default_alert_limit : ℕ
default_alert_limit = 100

unfoldable pub unacked : List Alert → List Alert
unacked [] = []
unacked (row ∷ rows) = let rest = unacked rows in if is_acked row.acked_at then rest else row ∷ rest

-- ListAlerts with UnackedOnly and no limit of its own, over rows in the order of their ids.
unfoldable pub list_unacked : List Alert → List Alert
unfolding unacked
list_unacked rows = take default_alert_limit (unacked rows)
