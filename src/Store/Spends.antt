-- ===== src/Store/Spends.antt =====
-- internal/store/spends.go: the tables of spends and of outpoints to watch. A transaction id is the
-- number that it spells; the raw transaction is left out. That a statement fails is up to the
-- database, and is a parameter where the tables are used.
use forktower.Common.{
  ℕ, Bool, true, false, ◌&&◌, Option, none, some, List, [], ◌∷◌, ◌++◌, ◌==◌, ℤ, eqb_ℤ, any, take,
  if◌then◌else◌,
}
use forktower.ChainView.Types.{Hash}
use forktower.Store.Types.{SpendShape, SpendStatus, mempool, confirmed, reorged_out, OutpointRole}

-- A wire.OutPoint.
pub record Outpoint : Type 0 where
  pub hash : Hash
  pub index : ℕ

abbrev pub same_outpoint : Outpoint → Outpoint → Bool
same_outpoint a b = a.hash == b.hash && a.index == b.index

-- The rows are those of one branch: each user of the table reads and writes one only. `block_hash`
-- is none for NULL.
pub record Spend : Type 0 where
  pub id : ℤ
  pub channel_id : ℤ
  pub outpoint : Outpoint
  pub spend_txid : Hash
  pub block_hash : Option Hash
  pub block_height : ℤ
  pub shape : SpendShape
  pub status : SpendStatus

abbrev pub is_confirmed : SpendStatus → Bool
is_confirmed confirmed = true
is_confirmed mempool = false
is_confirmed reorged_out = false

-- The outpoint and the transaction that RecordSpend looks up.
abbrev pub same_spend : Spend → Spend → Bool
same_spend a b = same_outpoint a.outpoint b.outpoint && a.spend_txid == b.spend_txid

unfoldable pub find_spend : Spend → List Spend → Option Spend
find_spend sp [] = none
find_spend sp (row ∷ rows) = if same_spend row sp then some row else find_spend sp rows

-- RecordSpend, of a spend that its checks pass: the id, whether the spend was there, and the rows.
unfoldable pub record_found :
    (List Spend → ℤ) → List Spend → Spend → Option Spend → (ℤ × Bool) × List Spend
record_found new_id rows sp (some row) = ((row.id, true), rows)
record_found new_id rows sp none =
    ((new_id rows, false), rows ++ record sp { id = new_id rows } ∷ [])

unfoldable pub record_spend : (List Spend → ℤ) → List Spend → Spend → (ℤ × Bool) × List Spend
unfolding record_found
record_spend new_id rows sp = record_found new_id rows sp (find_spend sp rows)

-- GetSpend; none is ErrNotFound.
unfoldable pub get_spend : ℤ → List Spend → Option Spend
get_spend id [] = none
get_spend id (row ∷ rows) = if eqb_ℤ row.id id then some row else get_spend id rows

-- UPDATE spend_events SET status = ?, block_hash = ?, block_height = ? WHERE id = ?
unfoldable pub set_status : ℤ → SpendStatus → Option Hash → ℤ → List Spend → List Spend
set_status id status block height [] = []
set_status id status block height (row ∷ rows) =
    let rest = set_status id status block height rows in
    if eqb_ℤ row.id id
    then record row { status = status; block_hash = block; block_height = height } ∷ rest
    else row ∷ rest

-- UpdateSpendStatus; none is the error for an id that no row has.
unfoldable pub update_spend_status :
    ℤ → SpendStatus → Option Hash → ℤ → List Spend → Option (List Spend)
unfolding set_status
update_spend_status id status block height rows =
    if any (λ (row : Spend). eqb_ℤ row.id id) rows
    then some (set_status id status block height rows)
    else none

unfoldable pub set_shape : ℤ → SpendShape → List Spend → List Spend
set_shape id shape [] = []
set_shape id shape (row ∷ rows) =
    let rest = set_shape id shape rows in
    if eqb_ℤ row.id id then record row { shape = shape } ∷ rest else row ∷ rest

-- UpdateSpendShape
unfoldable pub update_spend_shape : ℤ → SpendShape → List Spend → Option (List Spend)
unfolding set_shape
update_spend_shape id shape rows =
    if any (λ (row : Spend). eqb_ℤ row.id id) rows then some (set_shape id shape rows) else none

-- MaxSpendLimit
abbrev pub max_spend_limit : ℕ
max_spend_limit = 1000

unfoldable pub with_confirmed : List Spend → List Spend
with_confirmed [] = []
with_confirmed (row ∷ rows) =
    let rest = with_confirmed rows in if is_confirmed row.status then row ∷ rest else rest

-- ListSpends of those that are confirmed, at most MaxSpendLimit. The rows are in the order of ids.
unfoldable pub list_confirmed : List Spend → List Spend
unfolding with_confirmed
list_confirmed rows = take max_spend_limit (with_confirmed rows)

-- A store.WatchOutpoint; its script is a list of bytes.
pub record WatchOutpoint : Type 0 where
  pub outpoint : Outpoint
  pub script : List ℕ
  pub source_spend_event_id : ℤ
  pub role : OutpointRole

-- AddWatchOutpoint: a second row for one outpoint changes nothing.
unfoldable pub add_watch_outpoint : WatchOutpoint → List WatchOutpoint → List WatchOutpoint
add_watch_outpoint w rows =
    if any (λ (row : WatchOutpoint). same_outpoint row.outpoint w.outpoint) rows
    then rows
    else rows ++ w ∷ []
