-- ===== src/Store/Deadlines.antt =====
-- internal/store/deadlines.go: the table of deadlines. A row is a deadline; the rows are in the
-- order of their insertion. That a statement fails is up to the database, and is a parameter where
-- the table is used.
use forktower.Common.{
  ℕ, ltb, Bool, true, false, ◌&&◌, ◌||◌, Option, none, some, List, [], ◌∷◌, ◌++◌, ℤ, pos, ltb_ℤ,
  leb_ℤ, eqb_ℤ, any, if◌then◌else◌,
}
use forktower.Store.Types.{DeadlineKind, csv, htlc_incoming, htlc_outgoing}

pub data DeadlineState : Type 0 where
  counting settled expired : DeadlineState

-- `resolved_by` is none for the empty string, which the column holds as NULL.
pub record Deadline : Type 0 where
  pub id : ℤ
  pub spend_event_id : ℤ
  pub kind : DeadlineKind
  pub deadline_height : ℤ
  pub state : DeadlineState
  pub escalation : ℕ
  pub assumed : Bool
  pub resolved_by : Option ℕ
  pub updated_at : ℤ

abbrev pub same_kind : DeadlineKind → DeadlineKind → Bool
same_kind csv csv = true
same_kind htlc_incoming htlc_incoming = true
same_kind htlc_outgoing htlc_outgoing = true
same_kind _ _ = false

abbrev pub same_flag : Bool → Bool → Bool
same_flag true b = b
same_flag false true = false
same_flag false false = true

abbrev pub is_counting : DeadlineState → Bool
is_counting counting = true
is_counting settled = false
is_counting expired = false

-- The row has the spend and the kind that UpsertDeadline looks up.
abbrev pub has_key : Deadline → Deadline → Bool
has_key d row = eqb_ℤ row.spend_event_id d.spend_event_id && same_kind row.kind d.kind

unfoldable pub lookup : Deadline → List Deadline → Option Deadline
lookup d [] = none
lookup d (row ∷ rows) = if has_key d row then some row else lookup d rows

-- UPDATE deadlines SET deadline_height = ?, assumed = ?, updated_at = ? WHERE id = ?
unfoldable pub set_height : ℤ → Deadline → List Deadline → List Deadline
set_height id d [] = []
set_height id d (row ∷ rows) =
    let rest = set_height id d rows in
    if eqb_ℤ row.id id
    then record row {
      deadline_height = d.deadline_height;
      assumed = d.assumed;
      updated_at = d.updated_at;
    }
      ∷ rest
    else row ∷ rest

-- The transaction of UpsertDeadline, by the row that the lookup finds: the id, whether anything
-- changed, and the rows. The id of a new row is the database's.
unfoldable pub upsert_found :
    (List Deadline → ℤ) → List Deadline → Deadline → Option Deadline → (ℤ × Bool) × List Deadline
upsert_found new_id rows d (some row) =
    if eqb_ℤ row.deadline_height d.deadline_height && same_flag row.assumed d.assumed
    then ((row.id, false), rows)
    else ((row.id, true), set_height row.id d rows)
upsert_found new_id rows d none =
    ((new_id rows, true), rows ++ record d { id = new_id rows; resolved_by = none } ∷ [])

-- UpsertDeadline; `none` is its error for a deadline without a spend.
unfoldable pub upsert_deadline :
    (List Deadline → ℤ) → List Deadline → Deadline → Option ((ℤ × Bool) × List Deadline)
unfolding upsert_found
upsert_deadline new_id rows d =
    if eqb_ℤ d.spend_event_id (pos 0)
    then none
    else some (upsert_found new_id rows d (lookup d rows))

-- ORDER BY deadline_height ASC, id ASC
unfoldable pub insert_sorted : Deadline → List Deadline → List Deadline
insert_sorted d [] = d ∷ []
insert_sorted d (row ∷ rows) =
    let rest = insert_sorted d rows in
    if ltb_ℤ d.deadline_height row.deadline_height
      || (eqb_ℤ d.deadline_height row.deadline_height && leb_ℤ d.id row.id)
    then d ∷ row ∷ rows
    else row ∷ rest

-- ListDeadlines of those that are counting.
unfoldable pub list_counting : List Deadline → List Deadline
unfolding insert_sorted
list_counting [] = []
list_counting (row ∷ rows) =
    let rest = list_counting rows in if is_counting row.state then insert_sorted row rest else rest

unfoldable pub set_state_where : ℤ → DeadlineState → Option ℕ → ℤ → List Deadline → List Deadline
set_state_where id state by at [] = []
set_state_where id state by at (row ∷ rows) =
    let rest = set_state_where id state by at rows in
    if eqb_ℤ row.id id
    then record row { state = state; resolved_by = by; updated_at = at } ∷ rest
    else row ∷ rest

-- SetDeadlineState; `none` is the error for an id that no row has.
unfoldable pub set_deadline_state :
    ℤ → DeadlineState → Option ℕ → ℤ → List Deadline → Option (List Deadline)
unfolding set_state_where
set_deadline_state id state by at rows =
    if any (λ (row : Deadline). eqb_ℤ row.id id) rows
    then some (set_state_where id state by at rows)
    else none

-- SetDeadlineEscalation, which moves only forward.
unfoldable pub set_deadline_escalation : ℤ → ℕ → ℤ → List Deadline → List Deadline
set_deadline_escalation id tier at [] = []
set_deadline_escalation id tier at (row ∷ rows) =
    let rest = set_deadline_escalation id tier at rows in
    if eqb_ℤ row.id id && ltb row.escalation tier
    then record row { escalation = tier; updated_at = at } ∷ rest
    else row ∷ rest
