-- ===== src/Watcher/Record.antt =====
-- internal/watcher/reorg.go and secondorder.go: what is recorded of a spend found in a block.
use forktower.Common.{
  ℕ, suc, ◌==◌, leb, Bool, true, false, not, ◌&&◌, Option, none, some, List, [], ◌∷◌, length, ℤ,
  pos, eqb_ℤ, if◌then◌else◌,
}
use forktower.ChainView.Types.{Hash, BlockMeta}
use forktower.Store.Types.{
  SpendShape, commitment_ours, commitment_unknown, commitment_revoked, justice, confirmed,
  OutpointRole, anchor, unknown_role,
}
use forktower.Store.Spends.{
  Spend, is_confirmed, record_spend, get_spend, update_spend_status, update_spend_shape,
  WatchOutpoint, add_watch_outpoint,
}
use forktower.Watcher.Types.{TxOut, Kind, funding, commitment_output, Found}
use forktower.Watcher.Classify.{is_anchor, classify_shape, classify_sweep}
use forktower.Watcher.Targets.{Channel}
use forktower.Watcher.State.{Watch, Answers, say, funding_spent, second_order_spent}

unfoldable pub close_txid_in : ℤ → List Channel → Option Hash
close_txid_in id [] = none
close_txid_in id (c ∷ cs) = if eqb_ℤ c.id id then c.close_txid else close_txid_in id cs

-- ourCloseTxID
unfoldable pub our_close_txid : Option (List Channel) → ℤ → Option Hash
unfolding close_txid_in
our_close_txid none id = none
our_close_txid (some cs) id = if eqb_ℤ id (pos 0) then none else close_txid_in id cs

unfoldable pub shape_by_kind : Kind → Option (List Channel) → ℤ → Found → SpendShape
shape_by_kind funding channels height m =
    classify_shape m.tx (our_close_txid channels m.target.channel_id)
shape_by_kind commitment_output channels height m =
    classify_sweep m.tx m.input_index m.target.role height (pos 0)

-- shapeOf
abbrev pub shape_of : Option (List Channel) → ℤ → Found → SpendShape
shape_of channels height m = shape_by_kind m.target.kind channels height m

abbrev pub role_of : TxOut → OutpointRole
role_of out = if is_anchor out then anchor else unknown_role

-- CommitmentOutputs, from the output of the given number on; one without a script is passed over.
unfoldable pub commitment_outputs : Hash → ℤ → ℕ → List TxOut → List WatchOutpoint
commitment_outputs txid source i [] = []
commitment_outputs txid source i (out ∷ outs) =
    let rest = commitment_outputs txid source (suc i) outs in
    if length out.script == 0
    then rest
    else record {
      outpoint = record { hash = txid; index = i };
      script = out.script;
      source_spend_event_id = source;
      role = role_of out;
    }
      ∷ rest

-- The loop of watchCommitmentOutputs: one that cannot be stored is passed over.
unfoldable pub watch_outputs : Answers → List WatchOutpoint → Watch → Watch
watch_outputs ans [] st = st
watch_outputs ans (o ∷ os) st =
    watch_outputs ans os
      (if ans.adds_outpoint o then record st { outputs = add_watch_outpoint o st.outputs } else st)

unfoldable pub is_commitment : SpendShape → Bool
is_commitment commitment_ours = true
is_commitment commitment_unknown = true
is_commitment commitment_revoked = true
is_commitment _ = false

-- followCommitment
unfoldable pub follow_commitment : Answers → ℤ → Found → SpendShape → Watch → Watch
unfolding is_commitment
follow_commitment ans id m shape st =
    if is_commitment shape
    then watch_outputs ans (commitment_outputs m.tx.id id 0 m.tx.outputs) st
    else st

unfoldable pub read_spend : Answers → ℤ → List Spend → Option Spend
read_spend ans id rows = if ans.reads_spend id then get_spend id rows else none

unfoldable pub with_rows : Option (List Spend) → Watch → Watch
with_rows none st = st
with_rows (some rows) st = record st { spends = rows }

abbrev pub is_justice : SpendShape → Bool
is_justice justice = true
is_justice _ = false

abbrev pub is_commitment_unknown : SpendShape → Bool
is_commitment_unknown commitment_unknown = true
is_commitment_unknown _ = false

unfoldable pub resolve_found : Answers → Option Spend → Watch → Watch
unfolding with_rows
resolve_found ans none st = st
resolve_found ans (some source) st =
    if is_commitment_unknown source.shape && ans.updates_shape source.id
    then with_rows (update_spend_shape source.id commitment_revoked st.spends) st
    else st

-- resolveSource
unfoldable pub resolve_source : Answers → Found → SpendShape → Watch → Watch
unfolding resolve_found
resolve_source ans m shape st =
    if is_justice shape && not (eqb_ℤ m.target.source_spend_event_id (pos 0))
    then resolve_found ans (read_spend ans m.target.source_spend_event_id st.spends) st
    else st

unfoldable pub announce_by_kind : Kind → Found → ℤ → BlockMeta → SpendShape → Watch → Watch
announce_by_kind funding m id meta shape st =
    say (funding_spent id m.target.channel_id m.tx.id shape meta.height) st
announce_by_kind commitment_output m id meta shape st =
    say (second_order_spent id m.target.source_spend_event_id m.target.role shape) st

abbrev pub announce : Found → ℤ → BlockMeta → SpendShape → Watch → Watch
announce m id meta shape st = announce_by_kind m.target.kind m id meta shape st

abbrev pub is_hash : Hash → Option Hash → Bool
is_hash h none = false
is_hash h (some k) = k == h

-- The row is confirmed in this block.
abbrev pub confirmed_in : BlockMeta → Spend → Bool
confirmed_in meta sp = is_confirmed sp.status && is_hash meta.hash sp.block_hash

unfoldable pub confirm_rows :
    Answers
    → ℤ
    → Found
    → BlockMeta
    → SpendShape
    → Spend
    → Option (List Spend)
    → Watch
    → Option Bool × Watch
confirm_rows ans id m meta shape sp none st = (none, st)
confirm_rows ans id m meta shape sp (some rows) st = (
  some true,
  announce m id meta shape (follow_commitment ans id m sp.shape (record st { spends = rows })),
)

unfoldable pub update_status : Answers → ℤ → BlockMeta → List Spend → Option (List Spend)
update_status ans id meta rows =
    if ans.updates_status id
    then update_spend_status id confirmed (some meta.hash) meta.height rows
    else none

unfoldable pub confirm_found :
    Answers → ℤ → Found → BlockMeta → SpendShape → Option Spend → Watch → Option Bool × Watch
unfolding confirm_rows update_status
confirm_found ans id m meta shape none st = (none, st)
confirm_found ans id m meta shape (some sp) st =
    if confirmed_in meta sp
    then (some false, st)
    else confirm_rows ans id m meta shape sp (update_status ans id meta st.spends) st

-- confirmIfPending: none is its error, else whether it changed anything.
abbrev pub confirm_if_pending :
    Answers → ℤ → Found → BlockMeta → SpendShape → Watch → Option Bool × Watch
confirm_if_pending ans id m meta shape st =
    confirm_found ans id m meta shape (read_spend ans id st.spends) st

-- The row that recordMatches stores; its id is the database's to give.
abbrev pub confirmed_spend : Found → BlockMeta → SpendShape → Spend
confirmed_spend m meta shape = record {
  id = pos 0;
  channel_id = m.target.channel_id;
  outpoint = m.target.outpoint;
  spend_txid = m.tx.id;
  block_hash = some meta.hash;
  block_height = meta.height;
  shape = shape;
  status = confirmed;
}

unfoldable pub after_saving :
    Answers → BlockMeta → Found → SpendShape → (ℤ × Bool) × List Spend → Watch → Option Bool × Watch
after_saving ans meta m shape ((id, true), rows) st =
    confirm_if_pending ans id m meta shape (record st { spends = rows })
after_saving ans meta m shape ((id, false), rows) st = (
  some true,
  announce m id meta shape
      (resolve_source ans m shape (follow_commitment ans id m shape (record st { spends = rows }))),
)

abbrev pub vout_in_range : Found → Bool
vout_in_range m = leb m.target.outpoint.index 2147483647

-- One round of the loop of recordMatches: none is its error, else whether the spend was news.
unfoldable pub record_match : Answers → BlockMeta → Found → Watch → Option Bool × Watch
unfolding after_saving
record_match ans meta m st =
    let shape = shape_of ans.channels meta.height m in
    let sp = confirmed_spend m meta shape in
    if vout_in_range m
    then if ans.saves_spend sp
      then after_saving ans meta m shape (record_spend ans.new_id st.spends sp) st
      else (none, st)
    else (some false, st)

-- recordMatches
unfoldable pub record_matches : Answers → BlockMeta → List Found → ℕ → Watch → Option ℕ × Watch
unfolding record_match
record_matches ans meta [] fresh st = (some fresh, st)
record_matches ans meta (m ∷ ms) fresh st =
    let r = record_match ans meta m st in
    elim r.0 [
      | none ↦ (none, r.1)
      | some true ↦ record_matches ans meta ms (suc fresh) r.1
      | some false ↦ record_matches ans meta ms fresh r.1
    ]
