-- ===== src/Alert/Urgency.antt =====
-- internal/alert: how urgent the spend of a channel is, and that raising an alert leaves it standing.
use forktower.Common.{
  ◌≡◌, refl, sym, ap, ◌∙◌, inl, inr, Bool, true, false, not, ◌&&◌, Option, none, some, List, [],
  ◌∷◌, ◌++◌, ℤ, eqb_ℤ, arith, if_either, some_split, none_if, length, ◌==◌, if◌then◌else◌,
}
use forktower.ChainView.Types.{Hash}
use forktower.Store.Types.{confirmed}
use forktower.Store.Alerts.{
  Tier, critical, Key, Alert, is_resolved, same_key, same_key_self, find_alert, update_alert,
  reopen, upsert_alert_found, upsert_alert,
}
use forktower.Store.SpendLaws.{eqb_ℤ_self}
use forktower.Watcher.Types.{Tx}
use forktower.Watcher.Classify.{
  looks_like_commitment, looks_like_mutual_close, is_our_close, classify_close, classify_shape,
}
use forktower.Alert.Policy.{
  funding_spent, Candidate, map_shape, map_funding_spent, map_event_to_alert,
}
use forktower.Alert.Alerter.{Services, as_alert, announce_upsert, record_alert, put, raise}

-- The alert is critical.
abbrev pub is_critical : Tier → Bool
is_critical critical = true
is_critical _ = false

abbrev pub critical_candidate : Option Candidate → Bool
critical_candidate none = false
critical_candidate (some c) = is_critical c.tier

-- A close that nobody has to answer: it has one input, and is the user's own commitment, or bears no
-- mark of one and has the form of a close by agreement.
abbrev pub is_calm_close : Tx → Option Hash → Bool
is_calm_close tx ours =
    length tx.inputs == 1
    && (if looks_like_commitment tx then is_our_close tx.id ours else looks_like_mutual_close tx)

-- The alert for a spend of a channel's funding output that a block confirms, classified as the
-- watcher does, exists and is critical unless the transaction has one input and either bears a
-- mark of a commitment and is the one that the user's node reported, or bears none and has the
-- form of a close by agreement.
pub spent-critical :
    (channel : ℤ) (tx : Tx) (ours : Option Hash)
    → critical_candidate
        (map_event_to_alert (funding_spent channel (classify_shape tx ours) confirmed))
      ≡ not (is_calm_close tx ours)
unfolding map_event_to_alert map_funding_spent map_shape classify_shape classify_close
spent-critical channel tx ours = ground arith

-- A row under the key waits for the user.
abbrev pub IsStanding : Key → List Alert → Type 0
IsStanding key rows = (row : Alert) × (find_alert key rows ≡ some row) × (row.acked_at ≡ none)

find-added :
    (key : Key) (rows : List Alert) (a : Alert)
    → find_alert key rows ≡ none
    → a.key ≡ key
    → find_alert key (rows ++ a ∷ []) ≡ some a
unfolding find_alert
find-added key [] a e k = rw (k, same_key_self key) refl
find-added key (row ∷ rows) a e k =
    let k' = none_if (same_key row.key key) row e in rw k'.0 (find-added key rows a k'.1 k)

find-reopened :
    (key : Key) (at : ℤ) (rows : List Alert) (row : Alert)
    → find_alert key rows ≡ some row
    → find_alert key (update_alert row.id (reopen at) rows) ≡ some (reopen at row)
unfolding find_alert update_alert
find-reopened key at [] row e = cc
find-reopened key at (r ∷ rows) row e = elim (some_split (same_key r.key key) e) [
  | inl (t, f) ↦
      rw (f, eqb_ℤ_self row.id)
        (let u = ap (λ (a : Alert). same_key a.key key) (sym f) ∙ t in rw u refl)
  | inr (t, f) ↦
      if_either (λ (rs : List Alert). find_alert key rs ≡ some (reopen at row)) (eqb_ℤ r.id row.id)
        (λ i. rw t (find-reopened key at rows row f)) (λ i. rw t (find-reopened key at rows row f))
]

-- What `put` gives for an alert that is no resolution and that the database records.
raised : Services → Candidate → List Alert → Option Alert → List Alert × Option Alert
raised s c rows o =
    announce_upsert (as_alert s.now c) (upsert_alert_found s.new_id rows (as_alert s.now c) o)

raised-IsStanding :
    (s : Services) (c : Candidate) (rows : List Alert) (o : Option Alert)
    → find_alert c.key rows ≡ o
    → IsStanding c.key (raised s c rows o).0
unfolding raised announce_upsert upsert_alert_found
raised-IsStanding s c rows none e = (
  record (as_alert s.now c) { id = s.new_id rows; acked_at = none },
  find-added c.key rows (record (as_alert s.now c) { id = s.new_id rows; acked_at = none }) e refl,
  refl,
)
raised-IsStanding s c rows (some row) e =
    (reopen s.now row, find-reopened c.key s.now rows row e, refl)

raise-raised :
    (s : Services) (c : Candidate) (rows : List Alert)
    → is_resolved c.tier ≡ false
    → s.record_fails ≡ false
    → raise s c rows ≡ raised s c rows (find_alert c.key rows)
unfolding raised put record_alert upsert_alert
raise-raised s c rows r f = rw (r, f) refl

-- After an alert that is no resolution is raised, and the database does not fail, a row under its
-- key waits for the user, not acknowledged, whether or not one was there before.
pub raise-IsStanding :
    (s : Services) (c : Candidate) (rows : List Alert)
    → is_resolved c.tier ≡ false
    → s.record_fails ≡ false
    → IsStanding c.key (raise s c rows).0
raise-IsStanding s c rows r f =
    rw (raise-raised s c rows r f) (raised-IsStanding s c rows (find_alert c.key rows) refl)

-- Nothing is announced, and the row that waits keeps its tier.
abbrev pub IsSilent : Key → Tier → List Alert × Option Alert → Type 0
IsSilent key tier r =
    (r.1 ≡ none)
    × (row : Alert) × (find_alert key r.0 ≡ some row)
    × (row.tier ≡ tier)
    × (row.acked_at ≡ none)

raised-IsSilent :
    (s : Services) (c : Candidate) (rows : List Alert) (row : Alert) (o : Option Alert)
    → o ≡ some row
    → row.acked_at ≡ none
    → find_alert c.key rows ≡ some row
    → IsSilent c.key row.tier (raised s c rows o)
unfolding raised announce_upsert upsert_alert_found
raised-IsSilent s c rows row o p a e =
    rw (p, a) (refl, reopen s.now row, find-reopened c.key s.now rows row e, refl, refl)

-- An alert that is raised under the key of a row that is not acknowledged is not announced, and
-- that row keeps its tier, also where the alert has a higher one; the alert is no resolution, and
-- the database does not fail.
pub raise-IsSilent :
    (s : Services) (c : Candidate) (rows : List Alert) (row : Alert)
    → is_resolved c.tier ≡ false
    → s.record_fails ≡ false
    → find_alert c.key rows ≡ some row
    → row.acked_at ≡ none
    → IsSilent c.key row.tier (raise s c rows)
raise-IsSilent s c rows row r f e a =
    rw (raise-raised s c rows r f) (raised-IsSilent s c rows row (find_alert c.key rows) e a e)
